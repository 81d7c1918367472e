-- ===== src/Transaction/Creation.antt =====
-- `CreateOfferRequest` of transaction_service.go: what it stores.
use bingwa.Prelude.{
  ℕ, ◌≡◌, refl, subst, ◌⊎◌, inl, inr, Bool, true, false, ◌&&◌, not, Option, some, Text, ◌==◌,
  find_row, arith,
}
use bingwa.Float64.{Float64}
use bingwa.Domain.Offer.{AgentOffer}
use bingwa.Domain.Transaction.{OfferRequest, OfferRedemption, CreateOfferRequestInput, failed}
use bingwa.Store.{Env, Database, World, M, msg, raise, ◌>>=◌}
use bingwa.Store.Triples.{
  Ends, Triple, Triple-bind, Triple-wrapping, Triple-weaken, Triple-now, Triple-refuse_if,
  Triple-raise, Triple-assume,
}
use bingwa.Store.Reads.{Triple-attempt}
use bingwa.Store.Bodies.{Inside, Inside-bind}
use bingwa.Store.Statements.{Inside-commit, Triple-transact, Triple-in_transaction}
use bingwa.Store.Schema.{Schema}
use bingwa.Offer.Repository.{offer_has_id}
use bingwa.Offer.Lookup.{IsOffer, find_offer-Triple}
use bingwa.Transaction.Service
use bingwa.Transaction.Service.{is_offered}
use bingwa.Transaction.Entities.{
  is_request_completed, initial_status, new_request, new_redemption, failed_request,
  failed_redemption, or_template,
}
use bingwa.Transaction.Steps.{
  IgnoresCustomers, customer_of-Triple, reference-Triple, now_if-Triple, dereferenced-Triple,
  check_subscription-Triple, execution-Triple,
}
use bingwa.Transaction.Storing.{
  IsStored, IsRequestFor, IsRedemptionFor, request-Inside, redemption-Inside, store-Inside,
}

module _ {F : Type 0} where
  -- The offer exists, is the agent's and is active.
  abbrev pub IsAvailable : ℕ → ℕ → Database F → Type 0
  IsAvailable agent offer d =
      (o : AgentOffer F) × (find_row (offer_has_id offer) d.offers ≡ some o)
      × ((o.agent_identity_id == agent) ≡ true)
      × (is_offered o.status ≡ true)

  -- Without a subscription the request and its redemption are stored as failed, and an error is
  -- returned.
  abbrev pub Refused : ℕ → CreateOfferRequestInput F → Database F → Database F → Type 0
  Refused agent input old d =
      ((d.requests ≡ old.requests) × (d.redemptions ≡ old.redemptions))
      ⊎ IsStored agent input failed old d

module _ {F : Type 0} ⦃fl : Float64 F⦄ ⦃env : Env⦄ ⦃schema : Schema⦄ (agent : ℕ)
    (input : CreateOfferRequestInput F) (old : Database F) where
  abbrev Same : Database F → Type 0
  Same d = (d.requests ≡ old.requests) × (d.redemptions ≡ old.redemptions)

  Same-Ignores : IgnoresCustomers Same
  Same-Ignores = record { ignores = λ d d' p q o s t pl su ca co h. (rw p h.0, rw q h.1) }

  build-Triple :
      (offer : AgentOffer F) (customer : Option ℕ)
      → Triple Same
          (Service.build_request agent input offer customer)
          (λ _. IsStored agent input (initial_status (is_request_completed input)) old)
          Same
  unfolding Service.build_request new_request new_redemption Service.generate_request_reference
      Service.generate_redemption_reference
  build-Triple offer customer = Triple-bind (reference-Triple Same _) λ request_ref.
      Triple-bind (reference-Triple Same _) λ redemption_ref. Triple-bind Triple-now λ t.
        Triple-bind (now_if-Triple Same (is_request_completed input)) λ processed.
          Triple-bind
            (Triple-attempt
              (execution-Triple Same offer.agent_identity_id offer.id input.customer_phone))
            λ r. Triple-bind (dereferenced-Triple Same r) λ info. Triple-bind Triple-now λ from.
              Triple-bind Triple-now λ t'.
                Triple-bind (now_if-Triple Same (is_request_completed input)) λ ended.
                  Triple-transact (λ d h. h)
                    (store-Inside agent input (initial_status (is_request_completed input)) old
                      (new_request agent input request_ref customer
                        (initial_status (is_request_completed input)) t processed)
                      (new_redemption agent input redemption_ref customer
                        (initial_status (is_request_completed input))
                        (or_template info.ussd_code offer.ussd_code_template) info
                        (from, env.add_date from 0 0 offer.validity_days, t', ended))
                      (record { status_is = refl; owner = refl; offer = refl; paid = refl })
                      (record { status_is = refl; owner = refl; offer = refl; paid = refl }))

  store_failed-Inside :
      (request : OfferRequest F) (redemption : OfferRedemption F)
      → IsRequestFor agent input failed request
      → IsRedemptionFor agent input failed redemption
      → Inside
          (λ d u. Same d × (u ≡ (λ x. x)))
          (Service.store_failed request redemption)
          (λ _ d u. IsStored agent input failed old d)
          Same
  unfolding Service.store_failed
  store_failed-Inside request redemption for_request for_redemption =
      Inside-bind (request-Inside agent input failed old request redemption) λ a.
        Inside-bind
          (redemption-Inside agent input failed old request redemption for_request for_redemption a)
          λ b. Inside-commit (λ d u h. h.0) (λ d u h. h.1)

  soft :
      {A : Type 0} {Q : A → Database F → Type 0} {m : M F A}
      → Triple Same m Q Same
      → Triple Same m Q (Refused agent input old)
  soft t = Triple-weaken (λ d h. h) (λ _ d h. h) (λ d h. inl h) t

  failed-Triple :
      (customer : Option ℕ) (reason : Text)
      → Triple Same
          (Service.create_failed_request agent input customer reason)
          (λ _ _. ⊥)
          (Refused agent input old)
  unfolding Service.create_failed_request failed_request failed_redemption
      Service.generate_request_reference Service.generate_redemption_reference
  failed-Triple customer reason =
      Triple-weaken (λ d h. h) (λ _ d h. h) (λ d h. h)
        (Triple-bind (soft (reference-Triple Same _)) λ request_ref.
          Triple-bind (soft (reference-Triple Same _)) λ redemption_ref. Triple-bind Triple-now λ t.
            Triple-bind Triple-now λ t'.
              Triple-bind
                (Triple-weaken {E' = Refused agent input old} (λ d h. h) (λ _ d h. h) (λ d h. inl h)
                  (Triple-in_transaction (λ d h. h)
                    (store_failed-Inside (failed_request agent input request_ref customer reason t)
                      (failed_redemption agent input redemption_ref reason t')
                      (record { status_is = refl; owner = refl; offer = refl; paid = refl })
                      (record { status_is = refl; owner = refl; offer = refl; paid = refl }))))
                λ _. raised)
    where
      raised :
          Triple
            (IsStored agent input failed old)
            (raise {A = OfferRequest F × OfferRedemption F} (msg "%s"))
            (λ _ _. ⊥)
            (Refused agent input old)
      raised = Triple-weaken (λ d h. h) (λ _ d h. h) (λ d h. inr h) (Triple-raise (msg "%s"))

  outcome-Triple :
      (b : Bool) (offer : AgentOffer F) (customer : Option ℕ)
      → Triple Same
          (Service.create_or_fail b agent input offer customer)
          (λ _. IsStored agent input (initial_status (is_request_completed input)) old)
          (Refused agent input old)
  unfolding Service.create_or_fail
  outcome-Triple true offer customer =
      Triple-weaken (λ d h. h) (λ _ d h. h) (λ d h. inl h) (build-Triple offer customer)
  outcome-Triple false offer customer =
      Triple-weaken (λ d h. h) (λ _ d h. elim h [ ]) (λ d h. h)
        (failed-Triple customer Service.no_subscription)

  -- The guards: the offer is found in the tables as they were.
  abbrev Offered : AgentOffer F → Database F → Type 0
  Offered o d = IsOffer input.offer_id o d × (Same d × (d.offers ≡ old.offers))

  available :
      (o : AgentOffer F) (d : Database F)
      → not (o.agent_identity_id == agent) ≡ false
      → not (is_offered o.status) ≡ false
      → Offered o d
      → IsAvailable agent input.offer_id old
  available o d mine active h =
      let (row, primary, found, same) = h.0 in
      (
        row,
        subst (λ l. find_row (offer_has_id input.offer_id) l ≡ some row) h.1.1 found,
        ground (arith, mine, same),
        ground (arith, active, same),
      )

module _ {F : Type 0} ⦃fl : Float64 F⦄ ⦃env : Env⦄ ⦃schema : Schema⦄ (agent : ℕ)
    (input : CreateOfferRequestInput F) (old : Database F) (require_subscription : Bool) where
  abbrev require : Bool
  require = not (is_request_completed input) && require_subscription

  rest-Triple :
      (o : AgentOffer F)
      → Triple
          (Same agent input old)
          (do
            customer ← Service.customer_of agent input.customer_phone
            has_subscription ← Service.check_subscription require agent
            Service.create_or_fail has_subscription agent input o customer)
          (λ _. IsStored agent input (initial_status (is_request_completed input)) old)
          (Refused agent input old)
  rest-Triple o =
      Triple-bind
        (soft agent input old (
          customer_of-Triple (Same agent input old) (Same-Ignores agent input old) agent
            input.customer_phone))
        λ customer.
          Triple-bind
            (soft agent input old (check_subscription-Triple (Same agent input old) require agent))
            λ has_subscription. outcome-Triple agent input old has_subscription o customer

  create-Triple :
      Triple
        (λ d. Same agent input old d × (d.offers ≡ old.offers))
        (Service.create_offer_request require_subscription agent input)
        (λ _ d.
          IsAvailable agent input.offer_id old
          × IsStored agent input (initial_status (is_request_completed input)) old d)
        (Refused agent input old)
  unfolding Service.create_offer_request
  create-Triple =
      Triple-bind
        (Triple-weaken (λ d h. h) (λ o d h. h) (λ d h. inl h.0)
          (Triple-wrapping "offer not found" (
            find_offer-Triple (λ d. Same agent input old d × (d.offers ≡ old.offers))
              input.offer_id)))
        λ o.
          Triple-bind
            (Triple-weaken (λ d h. h) (λ _ d h. h) (λ d h. inl h.1.0)
              (Triple-refuse_if (not (o.agent_identity_id == agent))
                (msg "unauthorized: offer does not belong to agent")))
            λ _. Triple-assume λ mine.
              Triple-bind
                (Triple-weaken
                  {Q' = λ _ d. IsAvailable agent input.offer_id old × Same agent input old d}
                  (λ d h. h) (λ _ d h. (available agent input old o d mine h.0 h.1, h.1.1.0))
                  (λ d h. inl h.1.0)
                  (Triple-refuse_if (not (is_offered o.status)) (msg "offer is not active")))
                λ _.
                  Triple-assume
                    λ fine. Triple-weaken (λ d h. h) (λ _ d h. (fine, h)) (λ d h. h) (rest-Triple o)

-- CreateOfferRequest returns only for an active offer of the agent, and has then stored exactly one
-- new request and one new redemption: linked, for the agent, the offer and the amount of the input,
-- and both with the status success if the input has an M-Pesa transaction and receipt, and else
-- pending. When it returns an error, either no request and no redemption is stored, or both are, as
-- failed.
pub create_offer_request-Ends :
    {F : Type 0} ⦃fl : Float64 F⦄ ⦃env : Env⦄ ⦃schema : Schema⦄ (require_subscription : Bool)
    (agent : ℕ) (input : CreateOfferRequestInput F) (w : World F)
    → Ends
        (λ _ d.
          IsAvailable agent input.offer_id w.db
          × IsStored agent input (initial_status (is_request_completed input)) w.db d)
        (Refused agent input w.db)
        (Service.create_offer_request require_subscription agent input w)
create_offer_request-Ends require_subscription agent input w =
    (create-Triple agent input w.db require_subscription).apply w ((refl, refl), refl)

-- ===== src/Transaction/Service.antt =====
-- internal/service/transaction/transaction_service.go. Logging is left out; `requireSubscription` is
-- a parameter.
use bingwa.Prelude.{ℕ, Bool, true, false, ◌&&◌, not, Option, none, some, [], ◌∷◌, Text, ◌==◌}
use bingwa.Float64.{Float64}
use bingwa.Domain.Subscription.{Reference}
use bingwa.Domain.Offer.{AgentOffer, OfferStatus, UssdCodeExecutionInfo}
use bingwa.Domain.Transaction.{
  OfferRequest, OfferRedemption, TransactionStatus, CreateOfferRequestInput,
  UpdateUssdResponseInput, pending, is_failed,
}
use bingwa.Store.{
  Result, ok, err, Env, M, msg, nil_pointer, pure, raise, wrapping, attempt, refuse_if, now, commit,
  in_transaction, transact, ◌>>=◌, ◌>>◌,
}
use bingwa.Store.Schema.{Schema}
use bingwa.Subscription.Pricing.{generate_random_string}
use bingwa.Subscription.Service.{check_subscription_access}
use bingwa.Customer.Service.{get_or_create_customer}
use bingwa.Offer.Repository as Offers
use bingwa.Offer.Templates.{get_ussd_code_for_execution}
use bingwa.Transaction.Repository
use bingwa.Transaction.Entities.{
  or_template, is_request_completed, initial_status, new_request, new_redemption, failed_request,
  failed_redemption,
}

abbrev pub is_offered : OfferStatus → Bool
is_offered OfferStatus.active = true
is_offered _ = false

-- An action's value, where its error is only logged.
abbrev pub or_none {ℓ} : {A : Type ℓ} → Result A → Option A
or_none (ok a) = some a
or_none (err e) = none

-- "No active subscription available"
abbrev pub no_subscription : Text
no_subscription =
    b'N' ∷ b'o' ∷ b' ' ∷ b'a' ∷ b'c' ∷ b't' ∷ b'i' ∷ b'v' ∷ b'e' ∷ b' ' ∷ b's' ∷ b'u' ∷ b'b' ∷ b's'
    ∷ b'c' ∷ b'r' ∷ b'i' ∷ b'p' ∷ b't' ∷ b'i' ∷ b'o' ∷ b'n' ∷ b' ' ∷ b'a' ∷ b'v' ∷ b'a' ∷ b'i'
    ∷ b'l' ∷ b'a' ∷ b'b' ∷ b'l' ∷ b'e' ∷ []

-- `ussdResponse.FailureReason`, where there is one
abbrev pub reason_of : Option UpdateUssdResponseInput → Text
reason_of none = []
reason_of (some input) = input.failure_reason

module _ {F : Type 0} where
  -- `ussdCodeInfo.USSDCode`, of a pointer that is nil after an error
  abbrev pub dereferenced : Result UssdCodeExecutionInfo → M F UssdCodeExecutionInfo
  dereferenced (ok info) = pure info
  dereferenced (err e) = raise nil_pointer

  -- `Scan(&redemptionID)`
  abbrev pub found_redemption : ⦃env : Env⦄ → Option (OfferRedemption F) → M F (OfferRedemption F)
  found_redemption ⦃env⦄ none = raise env.no_rows
  found_redemption (some r) = pure r

module _ {F : Type 0} ⦃env : Env⦄ where
  -- `generateRequestReference` and `generateRedemptionReference`
  unfoldable pub generate_reference : Text → M F Reference
  generate_reference prefix = do
    t ← now
    random ← generate_random_string 6
    pure (record { prefix = prefix; made_at = env.second t; random = random })

  unfoldable pub generate_request_reference : M F Reference
  unfolding generate_reference
  generate_request_reference = generate_reference (b'R' ∷ b'E' ∷ b'Q' ∷ [])

  unfoldable pub generate_redemption_reference : M F Reference
  unfolding generate_reference
  generate_redemption_reference = generate_reference (b'R' ∷ b'E' ∷ b'D' ∷ [])

  -- `if isCompleted { … time.Now() }`
  unfoldable pub now_if : Bool → M F (Option ℕ)
  now_if false = pure none
  now_if true = do t ← now; pure (some t)

  -- "Get or create customer", whose error is only logged
  unfoldable pub customer_of : ℕ → Text → M F (Option ℕ)
  customer_of agent phone = do r ← attempt (get_or_create_customer agent phone); pure (or_none r)

module _ {F : Type 0} ⦃env : Env⦄ ⦃schema : Schema⦄ where
  -- The statements of the transaction, with the redemption linked to the request.
  unfoldable pub store_request :
      OfferRequest F → OfferRedemption F → M F (OfferRequest F × OfferRedemption F)
  store_request request redemption = do
    req ← wrapping "failed to create offer request" (Repository.create_request_with_tx request)
    red ← wrapping "failed to create redemption" (
        Repository.create_redemption_with_tx (record redemption { offer_request_id = some req.id }))
    pure (req, red)

  -- "Save in transaction", of `createFailedRequest`
  unfoldable pub store_failed : OfferRequest F → OfferRedemption F → M F (Unit {0})
  store_failed request redemption = do
    req ← Repository.create_request_with_tx request
    _ ← Repository.create_redemption_with_tx (record redemption { offer_request_id = some req.id })
    commit

  -- `createFailedRequest`: what is stored is returned together with an error.
  unfoldable pub create_failed_request :
      ℕ → CreateOfferRequestInput F → Option ℕ → Text → M F (OfferRequest F × OfferRedemption F)
  unfolding generate_request_reference generate_redemption_reference failed_request
      failed_redemption store_failed
  create_failed_request agent input customer reason = do
    request_ref ← generate_request_reference
    redemption_ref ← generate_redemption_reference
    t ← now
    t' ← now
    in_transaction (
        store_failed (failed_request agent input request_ref customer reason t)
          (failed_redemption agent input redemption_ref reason t'))
    raise (msg "%s")

module _ {F : Type 0} ⦃fl : Float64 F⦄ ⦃env : Env⦄ where
  -- "Check subscription if required"
  unfoldable pub check_subscription : Bool → ℕ → M F Bool
  check_subscription false agent = pure true
  check_subscription true agent =
      wrapping "failed to check subscription" (check_subscription_access agent)

module _ {F : Type 0} ⦃fl : Float64 F⦄ ⦃env : Env⦄ ⦃schema : Schema⦄ where
  -- `CreateOfferRequest` from the references on
  unfoldable pub build_request :
      ℕ
      → CreateOfferRequestInput F
      → AgentOffer F
      → Option ℕ
      → M F (OfferRequest F × OfferRedemption F)
  unfolding generate_request_reference generate_redemption_reference now_if is_request_completed
      new_request new_redemption store_request
  build_request agent input offer customer = do
    let completed = is_request_completed input
    request_ref ← generate_request_reference
    redemption_ref ← generate_redemption_reference
    t ← now
    processed ← now_if completed
    r ← attempt (get_ussd_code_for_execution offer.agent_identity_id offer.id input.customer_phone)
    info ← dereferenced r
    from ← now
    t' ← now
    ended ← now_if completed
    transact (
        store_request
          (new_request agent input request_ref customer (initial_status completed) t processed)
          (new_redemption agent input redemption_ref customer (initial_status completed)
            (or_template info.ussd_code offer.ussd_code_template) info
            (from, env.add_date from 0 0 offer.validity_days, t', ended)))

  unfoldable pub create_or_fail :
      Bool
      → ℕ
      → CreateOfferRequestInput F
      → AgentOffer F
      → Option ℕ
      → M F (OfferRequest F × OfferRedemption F)
  unfolding build_request create_failed_request
  create_or_fail true agent input offer customer = build_request agent input offer customer
  create_or_fail false agent input offer customer =
      create_failed_request agent input customer no_subscription

  unfoldable pub create_offer_request :
      Bool → ℕ → CreateOfferRequestInput F → M F (OfferRequest F × OfferRedemption F)
  unfolding customer_of check_subscription create_or_fail is_request_completed
  create_offer_request require_subscription agent input = do
    offer ← wrapping "offer not found" (Offers.find_offer input.offer_id)
    refuse_if (not (offer.agent_identity_id == agent))
        (msg "unauthorized: offer does not belong to agent")
    refuse_if (not (is_offered offer.status)) (msg "offer is not active")
    customer ← customer_of agent input.customer_phone
    has_subscription ←
        check_subscription (not (is_request_completed input) && require_subscription) agent
    create_or_fail has_subscription agent input offer customer

module _ {F : Type 0} ⦃env : Env⦄ where
  -- "Update redemption status": by the pool where there is a response
  unfoldable pub update_redemption_of :
      ℕ → TransactionStatus → Option UpdateUssdResponseInput → M F (Unit {0})
  update_redemption_of k status none =
      wrapping "failed to update redemption status"
        (Repository.update_redemption_status_with_tx k status [])
  update_redemption_of k status (some input) =
      wrapping "failed to update redemption" (Repository.update_ussd_response k input)

  unfoldable pub move_both : ℕ → TransactionStatus → Option UpdateUssdResponseInput → M F (Unit {0})
  unfolding update_redemption_of
  move_both k status response = do
    wrapping "failed to update request status"
        (Repository.update_request_status_with_tx k status (reason_of response))
    r ←
        wrapping "failed to find redemption"
          (Repository.redemption_of_request k >>= found_redemption)
    update_redemption_of r.id status response

  -- "Get request to verify ownership"
  unfoldable pub get_offer_request : ℕ → ℕ → M F (OfferRequest F)
  get_offer_request agent k = do
    r ← Repository.find_request k
    refuse_if (not (r.agent_identity_id == agent))
        (msg "unauthorized: request does not belong to agent")
    pure r

  unfoldable pub update_offer_request_status :
      ℕ → ℕ → TransactionStatus → Option UpdateUssdResponseInput → M F (Unit {0})
  unfolding get_offer_request move_both
  update_offer_request_status agent k status response = do
    _ ← get_offer_request agent k
    transact (move_both k status response)

  unfoldable pub retry_failed_request : ℕ → ℕ → M F (Unit {0})
  unfolding get_offer_request update_offer_request_status
  retry_failed_request agent k = do
    r ← get_offer_request agent k
    refuse_if (not (is_failed r.status)) (msg "can only retry failed requests")
    wrapping "failed to increment retry count" (Repository.increment_retry_count k)
    wrapping "failed to update status" (update_offer_request_status agent k pending none)

  unfoldable pub get_offer_redemption : ℕ → ℕ → M F (OfferRedemption F)
  get_offer_redemption agent k = do
    r ← Repository.find_redemption k
    refuse_if (not (r.agent_identity_id == agent))
        (msg "unauthorized: redemption does not belong to agent")
    pure r

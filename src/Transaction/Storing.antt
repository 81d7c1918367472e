-- ===== src/Transaction/Storing.antt =====
-- The transaction of `CreateOfferRequest` and of `createFailedRequest` in transaction_service.go: a
-- request and the redemption that is linked to it.
use bingwa.Prelude.{
  ℕ, ◌≡◌, refl, ap, subst, ◌∙◌, ◌||◌, ◌&&◌, not, some, [], ◌∷◌, ◌++◌, any_row, is_some, arith,
  Bool-cases, inl, inr,
}
use bingwa.Domain.Transaction.{
  OfferRequest, OfferRedemption, TransactionStatus, CreateOfferRequestInput,
}
use bingwa.Store.{Env, Database, stored}
use bingwa.Store.Bodies.{Inside, Inside-bind, Inside-wrapping, Inside-return, Tables}
use bingwa.Store.Statements.{Inside-insert, then_stored}
use bingwa.Store.Schema.{Schema}
use bingwa.Transaction.Repository.{
  inserted_request, inserted_redemption, created_request, created_redemption, with_request,
  with_redemption, returned_request, returned_redemption, reference_eq, create_request_with_tx,
  create_redemption_with_tx,
}
use bingwa.Transaction.Service

-- A request for the input and its redemption, both of the status, are the only new rows.
pub record IsStored {F : Type 0} (agent : ℕ) (input : CreateOfferRequestInput F)
    (status : TransactionStatus) (old d : Database F) : Type 0 where
  pub request : OfferRequest F
  pub redemption : OfferRedemption F
  pub requests : d.requests ≡ old.requests ++ request ∷ []
  pub redemptions : d.redemptions ≡ old.redemptions ++ redemption ∷ []
  pub linked : redemption.offer_request_id ≡ some request.id
  pub request_status : request.status ≡ status
  pub redemption_status : redemption.status ≡ status
  pub owners : (request.agent_identity_id ≡ agent) × (redemption.agent_identity_id ≡ agent)
  pub offers : (request.offer_id ≡ input.offer_id) × (redemption.offer_id ≡ input.offer_id)
  pub amounts : (request.amount_paid ≡ input.amount_paid) × (redemption.amount ≡ input.amount_paid)

-- An entity that is to be stored for the input.
pub record IsRequestFor {F : Type 0} (agent : ℕ) (input : CreateOfferRequestInput F)
    (status : TransactionStatus) (r : OfferRequest F) : Type 0 where
  pub status_is : r.status ≡ status
  pub owner : r.agent_identity_id ≡ agent
  pub offer : r.offer_id ≡ input.offer_id
  pub paid : r.amount_paid ≡ input.amount_paid

pub record IsRedemptionFor {F : Type 0} (agent : ℕ) (input : CreateOfferRequestInput F)
    (status : TransactionStatus) (r : OfferRedemption F) : Type 0 where
  pub status_is : r.status ≡ status
  pub owner : r.agent_identity_id ≡ agent
  pub offer : r.offer_id ≡ input.offer_id
  pub paid : r.amount ≡ input.amount_paid

module _ {F : Type 0} ⦃schema : Schema⦄ where
  request_row :
      (r a : OfferRequest F) (t : ℕ) (d p : Database F)
      → inserted_request r t d ≡ some (p, a)
      → (p ≡ with_request (created_request r d.next_id t) d) × (a ≡ returned_request r d.next_id t)
  request_row r a t d p e =
      elim (Bool-cases (
        any_row (λ x. reference_eq x.request_reference r.request_reference) d.requests
        || not (schema.payment_methods r.payment_method))) [
          | inl refused ↦ ground arith
          | inr fine ↦ (ground arith, ground arith)
        ]

  pub redemption_row :
      (r a : OfferRedemption F) (t : ℕ) (d p : Database F)
      → inserted_redemption r t d ≡ some (p, a)
      → (p ≡ with_redemption (created_redemption r d.next_id t) d)
        × (a ≡ returned_redemption r d.next_id t)
  redemption_row r a t d p e =
      elim (Bool-cases (
        any_row (λ x. reference_eq x.redemption_reference r.redemption_reference) d.redemptions
        || schema.requires_request && not (is_some r.offer_request_id))) [
          | inl refused ↦ ground arith
          | inr fine ↦ (ground arith, ground arith)
        ]

module _ {F : Type 0} ⦃env : Env⦄ ⦃schema : Schema⦄ (agent : ℕ) (input : CreateOfferRequestInput F)
    (status : TransactionStatus) (old : Database F) where
  -- The requests and the redemptions are as they were.
  abbrev pub Unstored : Database F → Type 0
  Unstored d = (d.requests ≡ old.requests) × (d.redemptions ≡ old.redemptions)

  module _ (request : OfferRequest F) (redemption : OfferRedemption F) where
    abbrev pub RequestMade : OfferRequest F → Tables F
    RequestMade a d u =
        Unstored d
        × ((t : ℕ) × (u d ≡ with_request (created_request request d.next_id t) d)
            × (a ≡ returned_request request d.next_id t))

    pub request-Inside :
        Inside
          (λ d u. Unstored d × (u ≡ (λ x. x)))
          (create_request_with_tx request)
          RequestMade
          Unstored
    unfolding create_request_with_tx
    request-Inside =
        Inside-wrapping "failed to create offer request"
          (Inside-insert (inserted_request request) (λ d u h. h.0) made)
      where
        made :
            (t : ℕ) (d : Database F) (u : Database F → Database F) (p : Database F)
            (a : OfferRequest F)
            → inserted_request request t (u d) ≡ some (p, a)
            → Unstored d × (u ≡ (λ x. x))
            → RequestMade a d (then_stored (inserted_request request t) u)
        made t d u p a e h =
            let plain : inserted_request request t d ≡ some (p, a) =
              subst (λ v. inserted_request request t (v d) ≡ some (p, a)) h.1 e in
            let (is_db, is_row) = request_row request a t d p plain in
            (h.0, (t, ap (stored (u d)) e ∙ is_db, is_row))

    pub redemption-Inside :
        IsRequestFor agent input status request
        → IsRedemptionFor agent input status redemption
        → (a : OfferRequest F)
        → Inside
            (RequestMade a)
            (create_redemption_with_tx (record redemption { offer_request_id = some a.id }))
            (λ _ d u. Unstored d × IsStored agent input status old (u d))
            Unstored
    unfolding create_redemption_with_tx
    redemption-Inside for_request for_redemption a = Inside-wrapping "failed to create redemption" (
        Inside-insert (inserted_redemption (record redemption { offer_request_id = some a.id }))
          (λ d u h. h.0) made)
      where
        made :
            (t : ℕ) (d : Database F) (u : Database F → Database F) (p : Database F)
            (b : OfferRedemption F)
            → inserted_redemption (record redemption { offer_request_id = some a.id }) t (u d)
              ≡ some (p, b)
            → RequestMade a d u
            → Unstored d
              × IsStored agent input status old (
                  then_stored
                    (inserted_redemption (record redemption { offer_request_id = some a.id }) t)
                    u
                    d)
        made t d u p b e h =
            let (s, is_db, is_row) = h.1 in
            let linked : OfferRedemption F = record redemption { offer_request_id = some a.id } in
            let after : then_stored (inserted_redemption linked t) u d
                ≡ with_redemption (created_redemption linked (u d).next_id t) (u d) =
              ap (stored (u d)) e ∙ (redemption_row linked b t (u d) p e).0 in
            (
              h.0,
              record {
                request = created_request request d.next_id s;
                redemption = created_redemption linked (u d).next_id t;
                requests = rw after (rw is_db (rw h.0.0 refl));
                redemptions = rw after (rw is_db (rw h.0.1 refl));
                linked = ap (λ (r : OfferRequest F). some r.id) is_row;
                request_status = for_request.status_is;
                redemption_status = for_redemption.status_is;
                owners = (for_request.owner, for_redemption.owner);
                offers = (for_request.offer, for_redemption.offer);
                amounts = (for_request.paid, for_redemption.paid);
              },
            )

    pub store-Inside :
        IsRequestFor agent input status request
        → IsRedemptionFor agent input status redemption
        → Inside
            (λ d u. Unstored d × (u ≡ (λ x. x)))
            (Service.store_request request redemption)
            (λ _ d u. Unstored d × IsStored agent input status old (u d))
            Unstored
    unfolding Service.store_request
    store-Inside for_request for_redemption =
        Inside-bind (Inside-wrapping "failed to create offer request" request-Inside) λ a.
          Inside-bind
            (Inside-wrapping "failed to create redemption"
              (redemption-Inside for_request for_redemption a))
            λ b. Inside-return (a, b) λ d u h. h

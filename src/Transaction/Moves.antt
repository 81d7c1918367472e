-- ===== src/Transaction/Moves.antt =====
-- `UpdateOfferRequestStatus` and `RetryFailedRequest` of transaction_service.go: a request moves
-- together with its redemption.
use bingwa.Prelude.{ℕ, ◌≡◌, refl, ap, subst, Option, none, some, [], find_row, update_where}
use bingwa.Domain.Transaction.{OfferRedemption, TransactionStatus, UpdateUssdResponseInput}
use bingwa.Store.{Env, Database, wrapping, transact, ◌>>=◌}
use bingwa.Store.Triples.{Triple}
use bingwa.Store.Bodies.{Inside, Inside-bind, Inside-wrapping, Tables}
use bingwa.Store.Statements.{
  Inside-update, Inside-query, Inside-pool_update, Triple-transact, then_stored,
}
use bingwa.Transaction.Repository
use bingwa.Transaction.Repository.{
  request_has_id, redemption_has_id, redeems, request_moved, redemption_moved, answered,
  update_request, update_redemption, retried,
}
use bingwa.Transaction.Service
use bingwa.Transaction.Service.{reason_of, found_redemption}

module _ {F : Type 0} where
  -- What becomes of the redemption.
  abbrev pub redemption_after :
      Option UpdateUssdResponseInput → TransactionStatus → ℕ → OfferRedemption F → OfferRedemption F
  redemption_after none status t = redemption_moved status [] t
  redemption_after (some input) status t = answered input t

  -- The request with the id has the new status, and so has the redemption that is linked to it, or
  -- what the response says.
  pub record IsMoved (k : ℕ) (status : TransactionStatus)
      (response : Option UpdateUssdResponseInput) (old d : Database F) : Type 0 where
    pub at : ℕ
    pub at' : ℕ
    pub redemption : OfferRedemption F
    pub linked : find_row (redeems k) old.redemptions ≡ some redemption
    pub requests :
        d.requests
        ≡ update_where
            (request_has_id k)
            (request_moved status (reason_of response) at)
            old.requests
    pub redemptions :
        d.redemptions
        ≡ update_where
            (redemption_has_id redemption.id)
            (redemption_after response status at')
            old.redemptions

  -- After an error no request has moved, and without a response no redemption either.
  abbrev pub Unmoved : Option UpdateUssdResponseInput → Database F → Database F → Type 0
  Unmoved none old d = (d.requests ≡ old.requests) × (d.redemptions ≡ old.redemptions)
  Unmoved (some input) old d = d.requests ≡ old.requests

module _ {F : Type 0} ⦃env : Env⦄ (k : ℕ) (status : TransactionStatus) (old : Database F) where
  abbrev Same : Database F → Type 0
  Same d = (d.requests ≡ old.requests) × (d.redemptions ≡ old.redemptions)

  module _ (response : Option UpdateUssdResponseInput) where
    unmoved : (d : Database F) → Same d → Unmoved response old d
    unmoved d h = elim response as (λ r. Unmoved r old d) [ none ↦ h | some input ↦ h.0 ]

    -- The transaction moves the request, and the redemptions in the tables may have moved.
    abbrev RequestMoved : Tables F
    RequestMoved d u =
        (t : ℕ) × (u ≡ (λ x. (update_request k (request_moved status (reason_of response) t) x).0))

    request-Inside :
        Inside
          (λ d u. Same d × (u ≡ (λ x. x)))
          (Repository.update_request_status_with_tx k status (reason_of response))
          (λ _ d u. Same d × RequestMoved d u)
          (Unmoved response old)
    unfolding Repository.update_request_status_with_tx
    request-Inside =
        Inside-update "failed to update status"
          (λ t d. some (update_request k (request_moved status (reason_of response) t) d))
          (λ d u h. unmoved d h.0)
          (λ t d u p e h. (
            h.0,
            (
              t,
              ap
                  (then_stored
                    λ x. some (update_request k (request_moved status (reason_of response) t) x))
                  h.1,
            ),
          ))

    -- The redemption that is linked to the request.
    abbrev Linked : OfferRedemption F → Tables F
    Linked r d u = (find_row (redeems k) old.redemptions ≡ some r) × Same d × RequestMoved d u

    found-Inside :
        (o : Option (OfferRedemption F))
        → Inside
            (λ d u. (find_row (redeems k) (u d).redemptions ≡ o) × (Same d × RequestMoved d u))
            (found_redemption o)
            Linked
            (Unmoved response old)
    found-Inside none = record { apply = λ w h. unmoved w.db h.1.0 }
    found-Inside (some r) = record {
      apply = λ w h. (seen w.db w.uncommitted h.0 h.1.0.1 h.1.1, h.1.0, h.1.1);
    }
      where
        seen :
            (d : Database F) (u : Database F → Database F)
            → find_row (redeems k) (u d).redemptions ≡ some r
            → d.redemptions ≡ old.redemptions
            → RequestMoved d u
            → find_row (redeems k) old.redemptions ≡ some r
        seen d u e same (t, moved) =
            subst (λ l. find_row (redeems k) l ≡ some r) same
              (subst (λ v. find_row (redeems k) (v d).redemptions ≡ some r) moved e)

    lookup-Inside :
        Inside
          (λ d u. Same d × RequestMoved d u)
          (wrapping "failed to find redemption"
            (Repository.redemption_of_request k >>= found_redemption))
          Linked
          (Unmoved response old)
    unfolding Repository.redemption_of_request
    lookup-Inside = Inside-wrapping "failed to find redemption" (
        Inside-bind
          (Inside-query (λ d. find_row (redeems k) d.redemptions) (λ d u h. unmoved d h.0))
          found-Inside)

  IsMoved-Inside :
      (response : Option UpdateUssdResponseInput) (r : OfferRedemption F)
      → Inside
          (Linked response r)
          (Service.update_redemption_of r.id status response)
          (λ _ d u. Unmoved response old d × IsMoved k status response old (u d))
          (Unmoved response old)
  unfolding Service.update_redemption_of Repository.update_redemption_status_with_tx
      Repository.update_ussd_response
  IsMoved-Inside none r = Inside-wrapping "failed to update redemption status" (
      Inside-update "failed to update status"
        (λ t d. some (update_redemption r.id (redemption_moved status [] t) d)) (λ d u h. h.1)
        (λ t d u p e h.
          let (s, moved) = h.2 in
          (
            h.1,
            record {
              at = s;
              at' = t;
              redemption = r;
              linked = h.0;
              requests = rw moved (rw h.1.0 refl);
              redemptions = rw moved (rw h.1.1 refl);
            },
          )))
  IsMoved-Inside (some input) r = Inside-wrapping "failed to update redemption" (
      Inside-pool_update "failed to update USSD response"
        (λ t. update_redemption r.id (answered input t)) (λ d u h. h.1.0)
        (λ t d u h.
          let (s, moved) = h.2 in
          (
            (
              h.1.0,
              record {
                at = s;
                at' = t;
                redemption = r;
                linked = h.0;
                requests = rw moved (rw h.1.0 refl);
                redemptions = rw moved (rw h.1.1 refl);
              },
            ),
            h.1.0,
          )))

  pub move-Triple :
      (response : Option UpdateUssdResponseInput)
      → Triple Same
          (transact (Service.move_both k status response))
          (λ _. IsMoved k status response old)
          (Unmoved response old)
  unfolding Service.move_both
  move-Triple response =
      Triple-transact (λ d h. unmoved response d h)
        (Inside-bind (Inside-wrapping "failed to update request status" (request-Inside response))
          λ _. Inside-bind (lookup-Inside response) λ r. IsMoved-Inside response r)

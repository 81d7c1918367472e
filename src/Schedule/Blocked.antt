-- ===== src/Schedule/Blocked.antt =====
-- `ExecuteScheduledOffer` of schedule_service.go under the column offer_request_id of svc_init.sql.
use bingwa.Prelude.{ℕ, ◌≡◌, refl, true, none, some, arith}
use bingwa.Float64.{Float64}
use bingwa.Domain.Transaction.{OfferRedemption}
use bingwa.Domain.Schedule.{ScheduledOffer, ExecuteScheduledOfferInput}
use bingwa.Store.{Env, Database, World}
use bingwa.Store.Triples.{Ends, Triple-weaken}
use bingwa.Store.Bodies.{Inside-bind, Inside-wrapping}
use bingwa.Store.Staged.{Inside-staged_insert}
use bingwa.Store.Schema.{Schema}
use bingwa.Transaction.Repository as Transactions
use bingwa.Schedule.Service
use bingwa.Schedule.Execution.{Stores, execute-Triple}

module _ {F : Type 0} ⦃fl : Float64 F⦄ ⦃env : Env⦄ ⦃schema : Schema⦄ (agent k : ℕ)
    (input : ExecuteScheduledOfferInput) (old : Database F)
    (required : schema.requires_request ≡ true) where
  refused :
      (r : OfferRedemption F) (t : ℕ) (x p : Database F) (a : OfferRedemption F)
      → r.offer_request_id ≡ none
      → Transactions.inserted_redemption r t x ≡ some (p, a)
      → ⊥
  refused r t x p a none_given e = ground (arith, required, none_given)

  nothing_stored : (s : ScheduledOffer) → Stores agent k input old s (λ _. ⊥)
  unfolding Service.store_execution Transactions.create_redemption_with_tx
  nothing_stored s r h for_redemption for_history =
      Inside-bind {f = Service.record_execution k input s h}
        (Inside-wrapping "failed to create redemption" (
          Inside-wrapping "failed to create redemption" (
            Inside-staged_insert {X = λ d. d ≡ old} {Y = λ _ _. ⊥}
              (Transactions.inserted_redemption r)
              (λ t x p a e same. refused r t x p a for_redemption.unrequested e))))
        λ red. record { apply = λ w h. elim h.1 [ ] }

-- Where the column offer_request_id of the redemptions must be given, as it must in svc_init.sql,
-- every call of ExecuteScheduledOffer returns an error and changes nothing.
pub execute_scheduled_offer-blocked :
    {F : Type 0} ⦃fl : Float64 F⦄ ⦃env : Env⦄ ⦃schema : Schema⦄ (agent k : ℕ)
    (input : ExecuteScheduledOfferInput) (w : World F)
    → schema.requires_request ≡ true
    → Ends (λ _ _. ⊥) (λ d. d ≡ w.db) (Service.execute_scheduled_offer agent k input w)
execute_scheduled_offer-blocked agent k input w required =
    (Triple-weaken (λ d h. h) (λ _ d h. h.1.1) (λ d h. h)
        (execute-Triple agent k input w.db (λ s d. ⊥)
          (nothing_stored agent k input w.db required))).apply
      w refl

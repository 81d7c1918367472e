-- ===== src/Subscription/Status.antt =====
-- The operations of an admin, which set the status of a subscription in a transaction.
use bingwa.Prelude.{
  ℕ, ◌+◌, ◌≡◌, refl, Bool, true, false, List, [], ◌∷◌, update_where, String, if◌then◌else◌,
}
use bingwa.Domain.Subscription.{AgentSubscription, SubscriptionStatus}
use bingwa.Store.{
  ok, err, Env, World, Database, M, driver, wrapping, affected, fails, next_step, rollback,
}
use bingwa.Store.Triples.{Ends}
use bingwa.Store.Transactions.{EndsInside, transact-Ends}
use bingwa.Subscription.Repository as Subscriptions
use bingwa.Subscription.Service.{set_status}
use bingwa.Subscription.Creation.{Untouched}

module _ {F : Type 0} ⦃env : Env⦄ where
  -- The update of the status, inside its transaction.
  abbrev pub WithStatus : ℕ → SubscriptionStatus → List (AgentSubscription F) → Database F → Type 0
  WithStatus k status old d =
      (t : ℕ) × (d.subscriptions
        ≡ update_where (Subscriptions.has_id k)
            (λ row. record row { status = status; updated_at = t }) old)

  status_ends :
      (k : ℕ) (status : SubscriptionStatus) (message : String) (w : World F) (b hit : Bool)
      → let t = env.clock w.steps in
        let g =
          Subscriptions.update_subscription k
            (λ row. record row { status = status; updated_at = t }) in
        let update : M F Bool = λ _. (
          if b then err (driver w.steps) else ok hit,
          record w {
            uncommitted = if b then (λ d. d) else (λ d. (g d).0);
            locked = if b then [] else k ∷ [];
            steps = w.steps + 1;
          },
        ) in
        EndsInside
          (λ _. WithStatus k status w.db.subscriptions)
          (Untouched w.db.subscriptions)
          (wrapping message (affected (wrapping "failed to update status" update)) w)
  status_ends k status message w true hit = refl
  status_ends k status message w false false = refl
  status_ends k status message w false true = (refl, λ _. (env.clock w.steps, refl))

  pub set_status-Ends :
      (k : ℕ) (status : SubscriptionStatus) (message : String) (w : World F)
      → Ends
          (λ _. WithStatus k status w.db.subscriptions)
          (Untouched w.db.subscriptions)
          (set_status status message k w)
  unfolding set_status Subscriptions.update_status_with_tx
  set_status-Ends k status message w =
      let w' = next_step (rollback w) in
      transact-Ends (λ _. WithStatus k status w.db.subscriptions) (Untouched w.db.subscriptions)
        (wrapping message (Subscriptions.update_status_with_tx k status)) w refl
        (status_ends k status message w' (fails w') _)

-- ===== src/Subscription/Reachable.antt =====
-- Sequences of the calls of subscription_service.go that write, and the rows of its table.
use bingwa.Prelude.{
  ℕ, ◌≡◌, refl, Bool, true, false, Option, List, [], ◌∷◌, inl, inr, All, All-update_where,
  All-append_one, update_where, String, is_some, Text, arith,
}
use bingwa.Float64.{Float64}
use bingwa.Domain.Subscription.{
  AgentSubscription, Reference, SubscriptionPlan, SubscriptionStatus, CreateSubscriptionRequest,
  RenewSubscriptionRequest, UpdateSubscriptionRequest, CancelSubscriptionRequest, active, inactive,
  suspended, is_cancelled,
}
use bingwa.Store.{Result, ok, err, Env, IsClock, World, Database, fresh}
use bingwa.Store.Triples.{Ends}
use bingwa.Subscription.Repository as Subscriptions
use bingwa.Subscription.Entities.{new_subscription}
use bingwa.Subscription.Service.{
  create_subscription, renew_subscription, update_subscription, cancel_subscription,
  increment_request_usage, set_status, deactivate_subscription, suspend_subscription,
  reactivate_subscription,
}
use bingwa.Subscription.Contract.{create_subscription-Ends}
use bingwa.Subscription.Extension.{IsRenewal, renew_subscription-Ends}
use bingwa.Subscription.Requests.{increment_request_usage-Ends}
use bingwa.Subscription.Status.{set_status-Ends}
use bingwa.Subscription.Ownership.{Edited, cancel-Triple, update_subscription-Ends}

module _ {F : Type 0} where
  -- A row that is cancelled says when, and every row has a limit of requests.
  pub record RowValid (s : AgentSubscription F) : Type 0 where
    pub dated : is_cancelled s.status ≡ true → is_some s.cancelled_at ≡ true
    pub limited : is_some s.requests_limit ≡ true

  abbrev pub RowsValid : Database F → Type 0
  RowsValid d = All RowValid d.subscriptions

  cancelled-RowValid :
      (immediately : Bool) (reason : Text) (t : ℕ) (s : AgentSubscription F)
      → RowValid s
      → RowValid (Subscriptions.cancelled_by immediately reason t s)
  cancelled-RowValid true reason t s v = record { dated = λ e. refl; limited = v.limited }
  cancelled-RowValid false reason t s v = record { dated = λ e. refl; limited = v.limited }

  new-RowValid :
      (agent : ℕ) (req : CreateSubscriptionRequest F) (plan : SubscriptionPlan F)
      (quote : F × Option ℕ) (start end k t : ℕ) (reference : Reference)
      → RowValid
          (Subscriptions.created (new_subscription agent req plan quote start end reference) k t)
  unfolding new_subscription
  new-RowValid agent req plan quote start end k t reference = record {
    dated = λ h. ground arith;
    limited = refl;
  }

  -- An update keeps the rows valid if it keeps each row valid.
  update_where-RowsValid :
      (k : ℕ) (f : AgentSubscription F → AgentSubscription F) (old new : List (AgentSubscription F))
      → ((s : AgentSubscription F) → RowValid s → RowValid (f s))
      → All RowValid old
      → new ≡ update_where (Subscriptions.has_id k) f old
      → All RowValid new
  update_where-RowsValid k f old new keep v e =
      rw e (All-update_where RowValid (Subscriptions.has_id k) f old (λ s hit. keep s) v)

-- The calls of the handlers that write to the table.
pub data SubscriptionCall (F : Type 0) : Type 0 where
  creates : ℕ → CreateSubscriptionRequest F → SubscriptionCall F
  renews : ℕ → RenewSubscriptionRequest F → SubscriptionCall F
  updates : ℕ → ℕ → UpdateSubscriptionRequest F → Bool → SubscriptionCall F
  cancels : ℕ → ℕ → CancelSubscriptionRequest → Bool → SubscriptionCall F
  counts deactivates suspends reactivates : ℕ → SubscriptionCall F

module _ {F : Type 0} ⦃fl : Float64 F⦄ ⦃env : Env⦄ where
  -- One call, with a context of its own, its result dropped.
  pub step : SubscriptionCall F → World F → World F
  step (creates agent req) w = (create_subscription agent req (fresh w)).1
  step (renews agent req) w = (renew_subscription agent req (fresh w)).1
  step (updates agent k req is_admin) w = (update_subscription agent k req is_admin (fresh w)).1
  step (cancels agent k req is_admin) w = (cancel_subscription agent k req is_admin (fresh w)).1
  step (counts agent) w = (increment_request_usage agent (fresh w)).1
  step (deactivates k) w = (deactivate_subscription k (fresh w)).1
  step (suspends k) w = (suspend_subscription k (fresh w)).1
  step (reactivates k) w = (reactivate_subscription k (fresh w)).1

  pub run : List (SubscriptionCall F) → World F → World F
  run [] w = w
  run (c ∷ cs) w = run cs (step c w)

  Ends-RowsValid :
      {A : Type 0} {Q : A → Database F → Type 0} {E : Database F → Type 0} (o : Result A × World F)
      → ((a : A) (d : Database F) → Q a d → RowsValid d)
      → ((d : Database F) → E d → RowsValid d)
      → Ends Q E o
      → RowsValid o.1.db
  Ends-RowsValid (ok a, w) f g h = f a w.db h
  Ends-RowsValid (err e, w) f g h = g w.db h

  module _ (w : World F) (v : RowsValid w.db) where
    same : (d : Database F) → d.subscriptions ≡ w.db.subscriptions → RowsValid d
    same d e = rw e v

    created-RowsValid :
        (agent : ℕ) (req : CreateSubscriptionRequest F)
        → RowsValid (create_subscription agent req w).1.db
    created-RowsValid agent req =
        Ends-RowsValid (create_subscription agent req w)
          (λ row d (agreed, e). rw e (
            All-append_one RowValid w.db.subscriptions row v (
              rw agreed.is_row (
                new-RowValid agent req agreed.plan agreed.quote agreed.start _ agreed.key
                  agreed.made_at agreed.reference))))
          same (create_subscription-Ends agent req w)

    renewal-RowsValid :
        (agent : ℕ) (req : RenewSubscriptionRequest F) (d : Database F)
        → IsRenewal agent (env.clock w.steps) req w.db.plans w.db.subscriptions d
        → RowsValid d
    renewal-RowsValid agent req d r =
        let (t, n, waited, changed) = r.written in
        update_where-RowsValid r.current.id _ w.db.subscriptions d.subscriptions
          (λ s u. record { dated = u.dated; limited = u.limited }) v changed

    renewed-RowsValid :
        (agent : ℕ) (req : RenewSubscriptionRequest F)
        → IsClock env
        → RowsValid (renew_subscription agent req w).1.db
    renewed-RowsValid agent req clock =
        Ends-RowsValid (renew_subscription agent req w) (λ _ d r. renewal-RowsValid agent req d r)
          (λ d h. elim h [ inl e ↦ same d e | inr r ↦ renewal-RowsValid agent req d r ])
          (renew_subscription-Ends agent req w clock)

    edit-RowsValid :
        (agent k : ℕ) (is_admin : Bool) (req : UpdateSubscriptionRequest F) (d : Database F)
        → Edited agent k is_admin w.db.plans w.db.subscriptions req d
        → RowsValid d
    edit-RowsValid agent k is_admin req d (s, found, may, (t, changed)) =
        update_where-RowsValid k _ w.db.subscriptions d.subscriptions
          (λ s u. record { dated = u.dated; limited = u.limited }) v changed

    updated-RowsValid :
        (agent k : ℕ) (is_admin : Bool) (req : UpdateSubscriptionRequest F)
        → RowsValid (update_subscription agent k req is_admin w).1.db
    updated-RowsValid agent k is_admin req =
        Ends-RowsValid (update_subscription agent k req is_admin w)
          (λ _ d h. edit-RowsValid agent k is_admin req d h)
          (λ d h. elim h [ inl e ↦ same d e | inr h' ↦ edit-RowsValid agent k is_admin req d h' ])
          (update_subscription-Ends agent k is_admin req w)

    cancelled-RowsValid :
        (agent k : ℕ) (is_admin : Bool) (req : CancelSubscriptionRequest)
        → RowsValid (cancel_subscription agent k req is_admin w).1.db
    cancelled-RowsValid agent k is_admin req =
        Ends-RowsValid (cancel_subscription agent k req is_admin w)
          (λ _ d (s, found, may, live, (t, changed)).
            update_where-RowsValid k _ w.db.subscriptions d.subscriptions
              (cancelled-RowValid req.cancel_immediately req.reason t) v changed)
          (λ d h. same d h.0)
          ((cancel-Triple agent k is_admin w.db.plans w.db.subscriptions req).apply w (refl, refl))

    counted-RowsValid : (agent : ℕ) → RowsValid (increment_request_usage agent w).1.db
    counted-RowsValid agent =
        Ends-RowsValid (increment_request_usage agent w)
          (λ _ d r.
            update_where-RowsValid r.current.id _ w.db.subscriptions d.subscriptions
              (λ s u. record { dated = u.dated; limited = u.limited }) v r.written)
          same (increment_request_usage-Ends agent w)

    set-RowsValid :
        (k : ℕ) (status : SubscriptionStatus) (message : String)
        → is_cancelled status ≡ false
        → RowsValid (set_status status message k w).1.db
    set-RowsValid k status message live =
        Ends-RowsValid (set_status status message k w)
          (λ _ d (t, changed).
            update_where-RowsValid k _ w.db.subscriptions d.subscriptions
              (λ s u. record { dated = λ h. ground (arith, live); limited = u.limited }) v changed)
          same (set_status-Ends k status message w)

  step-RowsValid :
      (c : SubscriptionCall F) (w : World F)
      → IsClock env
      → RowsValid w.db
      → RowsValid (step c w).db
  unfolding step deactivate_subscription suspend_subscription reactivate_subscription
  step-RowsValid (creates agent req) w clock v = created-RowsValid (fresh w) v agent req
  step-RowsValid (renews agent req) w clock v = renewed-RowsValid (fresh w) v agent req clock
  step-RowsValid (updates agent k req a) w clock v = updated-RowsValid (fresh w) v agent k a req
  step-RowsValid (cancels agent k req a) w clock v = cancelled-RowsValid (fresh w) v agent k a req
  step-RowsValid (counts agent) w clock v = counted-RowsValid (fresh w) v agent
  step-RowsValid (deactivates k) w clock v = set-RowsValid (fresh w) v k inactive _ refl
  step-RowsValid (suspends k) w clock v = set-RowsValid (fresh w) v k suspended _ refl
  step-RowsValid (reactivates k) w clock v = set-RowsValid (fresh w) v k active _ refl

  -- After any sequence of the calls that write subscriptions, whatever statements fail on the way,
  -- every row has a limit of requests and, where it is cancelled, a time of cancellation, if that
  -- was so before. (With a clock that is not set back.)
  pub run-RowsValid :
      (cs : List (SubscriptionCall F)) (w : World F)
      → IsClock env
      → RowsValid w.db
      → RowsValid (run cs w).db
  unfolding run
  run-RowsValid [] w clock v = v
  run-RowsValid (c ∷ cs) w clock v = run-RowsValid cs (step c w) clock (step-RowsValid c w clock v)

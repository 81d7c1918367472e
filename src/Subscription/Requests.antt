-- ===== src/Subscription/Requests.antt =====
-- `IncrementRequestUsage` and `CheckSubscriptionAccess`: what they let pass.
use bingwa.Prelude.{
  ℕ, ◌+◌, ◌≡◌, ◌≤◌, refl, sym, ◌∙◌, ap, subst, Bool, true, false, List, ltb, any_row, update_where,
  update_where-none, arith,
}
use bingwa.Domain.Subscription.{SubscriptionPlan, AgentSubscription, is_active}
use bingwa.Store.{Result, ok, err, Env, World, Database, msg, attempt, pure, ◌>>=◌, next_step}
use bingwa.Store.Triples.{
  Ends, bind-Ends, wrapping-Ends, Triple, Triple-bind, Triple-wrapping, Triple-refuse_if,
  Triple-assume,
}
use bingwa.Store.Locks.{Triple-update_subscription}
use bingwa.Subscription.Repository as Subscriptions
use bingwa.Subscription.Usage.{limit_blocks}
use bingwa.Subscription.Lookups.{Fixed, IsLatest, IsOffered, find_active-Ends, find_plan-Triple}
use bingwa.Subscription.Service.{
  increment_request_usage, check_plan, check_period, check_found, plan_allows,
  check_subscription_access,
}

module _ {F : Type 0} where
  -- The row after one more request.
  abbrev pub counted : ℕ → AgentSubscription F → AgentSubscription F
  counted t row = record row { requests_used = row.requests_used + 1; updated_at = t }

module _ {F : Type 0} ⦃env : Env⦄ (agent : ℕ) where
  -- One request is counted, on the subscription that, at the time `t`, is the agent's, active, not over
  -- and the last to end, and that its plan does not block.
  pub record IsCounted (t : ℕ) (plans : List (SubscriptionPlan F))
      (old : List (AgentSubscription F)) (d : Database F) : Type 0 where
    pub current : AgentSubscription F
    pub plan : SubscriptionPlan F
    pub counted_at : ℕ
    pub is_latest : IsLatest agent t old current
    pub offered : IsOffered current.subscription_plan_id plans plan
    pub allowed : limit_blocks current plan ≡ false
    pub present : any_row (Subscriptions.has_id current.id) old ≡ true
    pub written :
        d.subscriptions ≡ update_where (Subscriptions.has_id current.id) (counted counted_at) old

  module _ (t : ℕ) (plans : List (SubscriptionPlan F)) (old : List (AgentSubscription F)) where
    count-Triple :
        (s : AgentSubscription F) (plan : SubscriptionPlan F)
        → IsLatest agent t old s
        → IsOffered s.subscription_plan_id plans plan
        → limit_blocks s plan ≡ false
        → Triple
            (Fixed old plans)
            (Subscriptions.increment_request_usage s.id)
            (λ _. IsCounted t plans old)
            (Fixed old plans)
    unfolding Subscriptions.increment_request_usage
    count-Triple s plan latest offered allowed =
        Triple-update_subscription "failed to increment request usage" s.id
          (λ t. Subscriptions.update_subscription s.id (counted t))
          (λ t d h hit. record {
            current = s;
            plan = plan;
            counted_at = t;
            is_latest = latest;
            offered = offered;
            allowed = allowed;
            present = subst (λ l. any_row (Subscriptions.has_id s.id) l ≡ true) h.0 hit;
            written = ap (update_where (Subscriptions.has_id s.id) (counted t)) h.0;
          })
          (λ t d h miss. (
            update_where-none (Subscriptions.has_id s.id) (counted t) d.subscriptions miss ∙ h.0,
            h.1,
          ))

    increment-Ends :
        (w : World F)
        → t ≡ env.clock w.steps
        → Fixed old plans w.db
        → Ends (λ _. IsCounted t plans old) (Fixed old plans) (increment_request_usage agent w)
    unfolding increment_request_usage
    increment-Ends w e h =
        bind-Ends (λ s d. IsLatest agent t old s × Fixed old plans d) (Fixed old plans)
          (λ _. IsCounted t plans old) _ _ _
          (λ s. Triple-assume λ latest.
            Triple-bind (Triple-wrapping "plan not found" (find_plan-Triple s.subscription_plan_id))
              λ plan. Triple-assume λ offered.
                Triple-bind
                  (Triple-refuse_if (limit_blocks s plan)
                    (msg "request limit reached and overage not allowed"))
                  λ _. Triple-assume λ allowed. count-Triple s plan latest offered allowed)
          (wrapping-Ends (λ s d. IsLatest agent t old s × Fixed old plans d) (Fixed old plans)
            "no active subscription found" _ _ (rw e (find_active-Ends agent w h)))

  -- If `IncrementRequestUsage` succeeds, it has added one request to the subscription that was the
  -- agent's, active, not over and the last to end when the call began, and that has not reached its
  -- limit or has an overage rate; if it returns an error, the subscriptions are as they were.
  pub increment_request_usage-Ends :
      (w : World F)
      → Ends
          (λ _. IsCounted (env.clock w.steps) w.db.plans w.db.subscriptions)
          (λ d. d.subscriptions ≡ w.db.subscriptions)
          (increment_request_usage agent w)
  increment_request_usage-Ends w =
      subscriptions_only _ (increment_request_usage agent w)
        (increment-Ends (env.clock w.steps) w.db.plans w.db.subscriptions w refl (refl, refl))
    where
      subscriptions_only :
          (Q : Unit {0} → Database F → Type 0) (o : Result (Unit {0}) × World F)
          → Ends Q (Fixed w.db.subscriptions w.db.plans) o
          → Ends Q (λ d. d.subscriptions ≡ w.db.subscriptions) o
      subscriptions_only Q (ok a, v) h = h
      subscriptions_only Q (err x, v) h = h.0

  -- The subscription that, at the time `t`, is the agent's, active, not over and the last to end is
  -- not over at the time `t'` either, and its plan lets a request pass.
  pub record IsGranted (t t' : ℕ) (plans : List (SubscriptionPlan F))
      (old : List (AgentSubscription F)) : Type 0 where
    pub current : AgentSubscription F
    pub plan : SubscriptionPlan F
    pub is_latest : IsLatest agent t old current
    pub goes_on : t' ≤ current.current_period_end
    pub offered : IsOffered current.subscription_plan_id plans plan
    pub allowed : limit_blocks current plan ≡ false

  -- What an answer says.
  abbrev pub Grants : ℕ → ℕ → List (SubscriptionPlan F) → List (AgentSubscription F) → Bool → Type 0
  Grants t t' plans old true = IsGranted t t' plans old
  Grants t t' plans old false = Unit {0}

  grants :
      (t t' : ℕ) (plans : List (SubscriptionPlan F)) (old : List (AgentSubscription F)) (b : Bool)
      → ((b ≡ true) → IsGranted t t' plans old)
      → Grants t t' plans old b
  grants t t' plans old true h = h refl
  grants t t' plans old false h = tt

  module _ (t t' : ℕ) (plans : List (SubscriptionPlan F)) (old : List (AgentSubscription F)) where
    -- An answer that is `true` only where access is granted.
    abbrev Answer : Bool → Database F → Type 0
    Answer b d = ((b ≡ true) → IsGranted t t' plans old) × Fixed old plans d

    abbrev Never : Database F → Type 0
    Never d = ⊥

    refused : (w : World F) → Fixed old plans w.db → Ends Answer Never (pure false w)
    refused w h = ((λ e. ground arith), h)

    plan-Ends :
        (s : AgentSubscription F)
        → IsLatest agent t old s
        → t' ≤ s.current_period_end
        → (r : Result (SubscriptionPlan F)) (w : World F)
        → Ends
            (λ plan d. IsOffered s.subscription_plan_id plans plan × Fixed old plans d)
            (Fixed old plans)
            (r, w)
        → Ends Answer Never ((attempt (λ _. (r, w)) >>= λ o. pure (plan_allows s o)) w)
    plan-Ends s latest goes_on (ok plan) w h = (
      (λ e. record {
        current = s;
        plan = plan;
        is_latest = latest;
        goes_on = goes_on;
        offered = h.0;
        allowed = ground (arith, e);
      }),
      h.1,
    )
    plan-Ends s latest goes_on (err e) w h = ((λ e. ground arith), h)

    check_plan-Ends :
        (past : Bool) (s : AgentSubscription F) (w : World F)
        → IsLatest agent t old s
        → ltb s.current_period_end t' ≡ past
        → Fixed old plans w.db
        → Ends Answer Never (check_plan past s w)
    unfolding check_plan
    check_plan-Ends true s w latest e h = refused w h
    check_plan-Ends false s w latest e h =
        let lookup = Subscriptions.find_plan_by_id s.subscription_plan_id in
        plan-Ends s latest (ground (arith, e)) (lookup w).0 (lookup w).1
          ((find_plan-Triple s.subscription_plan_id).apply w h)

    check_period-Ends :
        (active : Bool) (s : AgentSubscription F) (w : World F)
        → IsLatest agent t old s
        → t' ≡ env.clock w.steps
        → Fixed old plans w.db
        → Ends Answer Never (check_period active s w)
    unfolding check_period
    check_period-Ends false s w latest e h = refused w h
    check_period-Ends true s w latest e h =
        check_plan-Ends (ltb s.current_period_end (env.clock w.steps)) s (next_step w) latest
          (ap (ltb s.current_period_end) e) h

    check_found-Ends :
        (r : Result (AgentSubscription F)) (w : World F)
        → t' ≡ env.clock w.steps
        → Ends (λ s d. IsLatest agent t old s × Fixed old plans d) (Fixed old plans) (r, w)
        → Ends Answer Never ((attempt (λ _. (r, w)) >>= check_found) w)
    unfolding check_found
    check_found-Ends (ok s) w e h = check_period-Ends (is_active s.status) s w h.0 e h.1
    check_found-Ends (err x) w e h = refused w h

  found_steps : (w : World F) → (Subscriptions.find_active_by_agent agent w).1.steps ≡ w.steps + 1
  unfolding Subscriptions.find_active_by_agent
  found_steps w = ground arith

  access-Ends :
      (w : World F)
      → let t = env.clock w.steps in
        let t' = env.clock (w.steps + 1) in
        Ends
          (Answer t t' w.db.plans w.db.subscriptions)
          (Never t t' w.db.plans w.db.subscriptions)
          (check_subscription_access agent w)
  unfolding check_subscription_access
  access-Ends w =
      let lookup = Subscriptions.find_active_by_agent agent in
      check_found-Ends (env.clock w.steps) (env.clock (w.steps + 1)) w.db.plans w.db.subscriptions
        (lookup w).0 (lookup w).1 (ap env.clock (sym (found_steps w)))
        (find_active-Ends agent w (refl, refl))

  -- `CheckSubscriptionAccess` never returns an error, writes nothing, and answers true only where the
  -- subscription that was the agent's, active, not over and the last to end when the call began is not
  -- over at the next reading of the clock, and its plan lets a request pass, as
  -- `IncrementRequestUsage` asks.
  pub check_subscription_access-Ends :
      (w : World F)
      → Ends
          (λ b d.
            Grants (env.clock w.steps) (env.clock (w.steps + 1)) w.db.plans w.db.subscriptions b
            × Fixed w.db.subscriptions w.db.plans d)
          (λ _. ⊥)
          (check_subscription_access agent w)
  check_subscription_access-Ends w = granted (check_subscription_access agent w) (access-Ends w)
    where
      granted :
          (o : Result Bool × World F)
          → Ends
              (Answer (env.clock w.steps) (env.clock (w.steps + 1)) w.db.plans w.db.subscriptions)
              (λ _. ⊥)
              o
          → Ends
              (λ b d.
                Grants (env.clock w.steps) (env.clock (w.steps + 1)) w.db.plans w.db.subscriptions b
                × Fixed w.db.subscriptions w.db.plans d)
              (λ _. ⊥)
              o
      granted (ok b, v) h = (grants _ _ w.db.plans w.db.subscriptions b h.0, h.1)
      granted (err x, v) h = h

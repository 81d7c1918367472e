-- ===== src/Subscription/Exclusion.antt =====
-- `CreateSubscription` of subscription_service.go, for an agent who has a current subscription.
use bingwa.Prelude.{
  ℕ, ◌+◌, ◌≡◌, refl, sym, ap, subst, Bool, true, false, not, Option, none, some, String, find_row,
  arith,
}
use bingwa.Float64.{Float64, ◌<f◌}
use bingwa.Domain.Subscription.{
  SubscriptionPlan, AgentSubscription, CreateSubscriptionRequest, is_active,
}
use bingwa.Store.{
  Result, ok, err, Error, Env, World, M, msg, wrapping, attempt, refuse_if, find_one, query, fails,
  next_step, ◌>>=◌, ◌>>◌,
}
use bingwa.Store.Triples.{Ends}
use bingwa.Subscription.Repository as Subscriptions
use bingwa.Subscription.Pricing.{quote_discount}
use bingwa.Subscription.Entities.{is_ok}
use bingwa.Subscription.Service.{create_subscription, build_subscription, price_due}

module _ {F : Type 0} ⦃env : Env⦄ where
  -- The action ends in an error and leaves the subscriptions.
  abbrev pub IsRefused : {A : Type 0} → World F → Result A × World F → Type 0
  IsRefused w = Ends (λ _ _. ⊥) (λ d. d.subscriptions ≡ w.db.subscriptions)

  refuse_if-IsRefused :
      {A : Type 0} (w v : World F) (c : Bool) (e : Error) (k : M F A)
      → v.db ≡ w.db
      → IsRefused w (k v)
      → IsRefused w ((refuse_if c e >> k) v)
  refuse_if-IsRefused w v true e k same h = ap (λ d. d.subscriptions) same
  refuse_if-IsRefused w v false e k same h = h

  lookup_world :
      {A : Type 0} (message : String) (r : Result (Option A)) (w v : World F)
      → (find_one message (λ _. (r, v)) w).1 ≡ v
  lookup_world message (ok (some a)) w v = refl
  lookup_world message (ok none) w v = refl
  lookup_world message (err e) w v = refl

  -- The lookup finds the current subscription where its statement does not fail.
  found_lem :
      (agent : ℕ) (v : World F) (s : AgentSubscription F)
      → fails v ≡ false
      → Subscriptions.latest (Subscriptions.is_current agent (env.clock v.steps)) v.db.subscriptions
        ≡ some s
      → attempt (Subscriptions.find_active_by_agent agent) v ≡ (ok (ok s), next_step v)
  unfolding Subscriptions.find_active_by_agent
  found_lem agent v s fine found = ground (arith, fine, found)

  busy-IsRefused :
      {A : Type 0} (agent : ℕ) (w v : World F) (s : AgentSubscription F) (e : Error)
      (k : Result (AgentSubscription F) → M F A)
      → v.db ≡ w.db
      → fails v ≡ false
      → Subscriptions.latest (Subscriptions.is_current agent (env.clock v.steps)) v.db.subscriptions
        ≡ some s
      → IsRefused w (
          (attempt (Subscriptions.find_active_by_agent agent) >>= λ r.
          refuse_if (is_ok r) e >>= λ _. k r)
            v)
  busy-IsRefused agent w v s e k same fine found =
      subst (λ o. IsRefused w (((λ _. o) >>= λ r. refuse_if (is_ok r) e >>= λ _. k r) v))
        (sym (found_lem agent v s fine found)) (ap (λ d. d.subscriptions) same)

module _ {F : Type 0} ⦃fl : Float64 F⦄ ⦃env : Env⦄ where
  -- `CreateSubscription` from its lookup of a subscription on, then from its lookup of the plan on
  abbrev quote_and_build :
      ℕ → CreateSubscriptionRequest F → SubscriptionPlan F → M F (AgentSubscription F)
  quote_and_build agent req plan = do
    quote ← quote_discount req.promotional_code plan.id plan.price
    refuse_if (req.amount_paid <f price_due plan.price plan.setup_fee quote.0)
        (msg "insufficient payment")
    build_subscription agent req plan quote

  abbrev only_one : ℕ → CreateSubscriptionRequest F → SubscriptionPlan F → M F (AgentSubscription F)
  only_one agent req plan = do
    existing ← attempt (Subscriptions.find_active_by_agent agent)
    refuse_if (is_ok existing) (msg "agent already has an active subscription")
    quote_and_build agent req plan

  abbrev public_only :
      ℕ → CreateSubscriptionRequest F → SubscriptionPlan F → M F (AgentSubscription F)
  public_only agent req plan = do
    refuse_if (not plan.is_public) (msg "subscription plan is not available for subscription")
    only_one agent req plan

  abbrev with_plan :
      ℕ → CreateSubscriptionRequest F → SubscriptionPlan F → M F (AgentSubscription F)
  with_plan agent req plan = do
    refuse_if (not (is_active plan.status)) (msg "subscription plan is not active")
    public_only agent req plan

  with_plan-IsRefused :
      (agent : ℕ) (req : CreateSubscriptionRequest F) (w v : World F) (s : AgentSubscription F)
      (r : Result (SubscriptionPlan F))
      → v.db ≡ w.db
      → fails v ≡ false
      → Subscriptions.latest (Subscriptions.is_current agent (env.clock v.steps)) v.db.subscriptions
        ≡ some s
      → IsRefused w
          ((wrapping "subscription plan not found" (λ _. (r, v)) >>= with_plan agent req) w)
  with_plan-IsRefused agent req w v s (err e) same fine found = ap (λ d. d.subscriptions) same
  with_plan-IsRefused agent req w v s (ok plan) same fine found =
      refuse_if-IsRefused w v (not (is_active plan.status)) (msg "subscription plan is not active")
        (public_only agent req plan) same
        (refuse_if-IsRefused w v (not plan.is_public)
          (msg "subscription plan is not available for subscription") (only_one agent req plan) same
          (busy-IsRefused agent w v s (msg "agent already has an active subscription")
            (λ _. quote_and_build agent req plan) same fine found))

  looked_up :
      (k : ℕ) (w : World F)
      → (r : Result (SubscriptionPlan F)) × (Subscriptions.find_plan_by_id k w ≡ (r, next_step w))
  unfolding Subscriptions.find_plan_by_id
  looked_up k w = (
    (Subscriptions.find_plan_by_id k w).0,
    λ i. (
      (Subscriptions.find_plan_by_id k w).0,
      lookup_world "failed to find subscription plan"
          (query (λ _ d. find_row (Subscriptions.plan_has_id k) d.plans) w).0 w (next_step w) i,
    ),
  )

  -- An agent who has a current subscription when it is looked up, by a statement that does not fail,
  -- gets no second one: `CreateSubscription` returns an error and changes no subscription.
  pub create_subscription-IsRefused :
      (agent : ℕ) (req : CreateSubscriptionRequest F) (w : World F) (s : AgentSubscription F)
      → fails (next_step w) ≡ false
      → Subscriptions.latest
          (Subscriptions.is_current agent (env.clock (w.steps + 1)))
          w.db.subscriptions
        ≡ some s
      → IsRefused w (create_subscription agent req w)
  unfolding create_subscription
  create_subscription-IsRefused agent req w s fine found =
      let (r, e) = looked_up req.subscription_plan_id w in
      subst
        (λ o.
          IsRefused w ((wrapping "subscription plan not found" (λ _. o) >>= with_plan agent req) w))
        (sym e) (with_plan-IsRefused agent req w (next_step w) s r refl fine found)

-- ===== src/Subscription/Extension.antt =====
-- `RenewSubscription` of subscription_service.go as a contract.
use bingwa.Prelude.{
  ℕ, ◌≡◌, ◌≤◌, ◌<◌, refl, subst, Bool, true, false, Option, List, ◌⊎◌, inl, inr, ltb, find_row,
  arith,
}
use bingwa.Float64.{Float64, ◌<f◌, ◌-f◌}
use bingwa.Domain.Subscription.{SubscriptionPlan, AgentSubscription, RenewSubscriptionRequest}
use bingwa.Store.{
  Result, ok, err, Env, IsClock, next_step, World, Database, M, refuse_if, Error, msg,
}
use bingwa.Store.Triples.{
  Ends, bind-Ends, wrapping-Ends, Triple, Triple-bind, Triple-wrapping, Triple-refuse_if,
  Triple-weaken, Triple-assume,
}
use bingwa.Store.Reads.{Triple-find_any}
use bingwa.Subscription.Repository as Subscriptions
use bingwa.Subscription.Pricing.{calculate_period_end}
use bingwa.Subscription.Service.{next_period_start, start_after, store_renewal, renew_subscription}
use bingwa.Subscription.Lookups.{Fixed, IsLatest, IsOffered, find_active-Ends, find_plan-Triple}
use bingwa.Subscription.Creation.{Untouched}
use bingwa.Subscription.Quotes.{quote-Reads}
use bingwa.Subscription.Renewal.{IsRenewed, store_renewal-Ends}

module _ {F : Type 0} ⦃fl : Float64 F⦄ ⦃env : Env⦄ where
  -- A renewal that is stored: it is of the subscription that, at the time `t`, is the agent's, active,
  -- not over and the last to end, at the plan's price less the discount, for one billing cycle from the end of the period or later, and
  -- the wait of the reset was timed out.
  pub record IsRenewal (agent t : ℕ) (req : RenewSubscriptionRequest F)
      (plans : List (SubscriptionPlan F)) (old : List (AgentSubscription F)) (d : Database F)
      : Type 0 where
    pub current : AgentSubscription F
    pub plan : SubscriptionPlan F
    pub quote : F × Option ℕ
    pub start : ℕ
    pub is_latest : IsLatest agent t old current
    pub offered : IsOffered current.subscription_plan_id plans plan
    pub covered : (req.amount_paid <f (plan.price -f quote.0)) ≡ false
    pub continues : current.current_period_end ≤ start
    pub written : IsRenewed current start (calculate_period_end start plan.billing_cycle) old d

  after-Ends :
      (P : Database F → Type 0) (b : Bool) (end : ℕ) (w : World F)
      → ((b ≡ true) → end < env.clock w.steps)
      → P w.db
      → Ends (λ start d. (end ≤ start) × P d) P (start_after b end w)
  unfolding start_after
  after-Ends P true end w late h = (ground (arith, late refl), h)
  after-Ends P false end w late h = (ground arith, h)

  start-Triple :
      (P : Database F → Type 0) (end : ℕ)
      → IsClock env
      → Triple P (next_period_start end) (λ start d. (end ≤ start) × P d) P
  unfolding next_period_start
  start-Triple P end c = record {
    apply = λ w h.
        after-Ends P (ltb end (env.clock w.steps)) end (next_step w)
          (λ late. ground (arith, c.forward w.steps)) h;
  }

  module _ (agent t : ℕ) (req : RenewSubscriptionRequest F) (plans : List (SubscriptionPlan F))
      (old : List (AgentSubscription F)) where
    abbrev Before : Database F → Type 0
    Before = Fixed old plans

    abbrev Stored : Database F → Type 0
    Stored d = IsRenewal agent t req plans old d

    abbrev Failed : Database F → Type 0
    Failed d = Untouched old d ⊎ IsRenewal agent t req plans old d

    before :
        {A : Type 0} {Q : A → Database F → Type 0} {m : M F A}
        → Triple Before m Q Before
        → Triple Before m Q Failed
    before t = Triple-weaken (λ d h. h) (λ a d h. h) (λ d h. inl h.0) t

    guard :
        (c : Bool) (e : Error)
        → Triple Before (refuse_if c e) (λ _ d. (c ≡ false) × Before d) Failed
    guard c e = before (Triple-refuse_if c e)

    store-Triple :
        (s : AgentSubscription F) (start end : ℕ) (c : Option ℕ)
        → Triple Before
            (store_renewal s start end c)
            (λ _. IsRenewed s start end old)
            (Untouched old)
    store-Triple s start end c = record {
      apply = λ w h.
          subst
            (λ l. Ends (λ _. IsRenewed s start end l) (Untouched l) (store_renewal s start end c w))
            h.0 (store_renewal-Ends s start end c w);
    }

    reread-Triple : (k : ℕ) → Triple Stored (Subscriptions.find_by_id k) (λ _. Stored) Failed
    unfolding Subscriptions.find_by_id
    reread-Triple k =
        Triple-weaken (λ d h. h) (λ a d h. h) (λ d h. inr h)
          (Triple-find_any Stored "failed to find subscription"
            (λ _ d. find_row (Subscriptions.has_id k) d.subscriptions))

    renew-Ends :
        (w : World F)
        → IsClock env
        → t ≡ env.clock w.steps
        → Before w.db
        → Ends (λ _. Stored) Failed (renew_subscription agent req w)
    unfolding renew_subscription
    renew-Ends w clock e h =
        let lookup = Subscriptions.find_active_by_agent agent in
        bind-Ends (λ s d. IsLatest agent t old s × Before d) Failed (λ _. Stored) _ _ _
          (λ s. Triple-assume λ latest.
            Triple-bind
              (Triple-wrapping "subscription plan not found"
                (before (find_plan-Triple s.subscription_plan_id)))
              λ plan. Triple-assume λ offered.
                Triple-bind (before (quote-Reads req.promotional_code plan.id plan.price Before))
                  λ quote.
                    Triple-bind
                      (guard (req.amount_paid <f (plan.price -f quote.0))
                        (msg "insufficient payment"))
                      λ _. Triple-assume λ covered.
                        Triple-bind (before (start-Triple Before s.current_period_end clock))
                          λ start. Triple-assume λ continues.
                            Triple-bind
                              (Triple-weaken (λ d h. h)
                                (λ _ d h. record {
                                  current = s;
                                  plan = plan;
                                  quote = quote;
                                  start = start;
                                  is_latest = latest;
                                  offered = offered;
                                  covered = covered;
                                  continues = continues;
                                  written = h;
                                })
                                (λ d h. inl h)
                                (store-Triple s start
                                  (calculate_period_end start plan.billing_cycle) quote.1))
                              λ _. reread-Triple s.id)
          (wrapping-Ends (λ s d. IsLatest agent t old s × Before d) Failed
            "no active subscription found" _ _
            (failed (lookup w) (rw e (find_active-Ends agent w h))))
      where
        failed :
            (o : Result (AgentSubscription F) × World F)
            → Ends (λ s d. IsLatest agent t old s × Before d) Before o
            → Ends (λ s d. IsLatest agent t old s × Before d) Failed o
        failed (ok s, v) h = h
        failed (err x, v) h = inl h.0

  pub renew_subscription-Ends :
      (agent : ℕ) (req : RenewSubscriptionRequest F) (w : World F)
      → IsClock env
      → let old = w.db.subscriptions in
        let stored = IsRenewal agent (env.clock w.steps) req w.db.plans old in
        Ends
          (λ _. stored)
          (λ d. (d.subscriptions ≡ old) ⊎ stored d)
          (renew_subscription agent req w)
  renew_subscription-Ends agent req w clock =
      renew-Ends agent (env.clock w.steps) req w.db.plans w.db.subscriptions w clock refl
        (refl, refl)

-- ===== src/Subscription/Contract.antt =====
-- `CreateSubscription` of subscription_service.go as a contract.
use bingwa.Prelude.{
  ℕ, ◌≡◌, refl, subst, Bool, true, false, not, Option, some, List, [], ◌∷◌, ◌++◌, find_row, arith,
}
use bingwa.Float64.{Float64, ◌<f◌}
use bingwa.Domain.Subscription.{
  SubscriptionPlan, AgentSubscription, CreateSubscriptionRequest, Reference, is_active,
}
use bingwa.Store.{Env, World, Database, M, refuse_if, Error, msg}
use bingwa.Store.Triples.{
  Ends, Triple, Triple-bind, Triple-wrapping, Triple-refuse_if, Triple-weaken, Triple-assume,
  Triple-now,
}
use bingwa.Subscription.Repository as Subscriptions
use bingwa.Store.Reads.{Triple-attempt, Triple-find_any, Triple-pass}
use bingwa.Subscription.Quotes.{reference-Reads, quote-Reads}
use bingwa.Subscription.Pricing.{calculate_period_end}
use bingwa.Subscription.Entities.{is_ok, new_subscription}
use bingwa.Subscription.Service.{
  store_subscription, build_subscription, create_subscription, price_due,
}
use bingwa.Subscription.Lookups.{Fixed, IsOffered, find_plan-Triple}
use bingwa.Subscription.Creation.{NewRow, Untouched, store_subscription-Ends}

module _ {F : Type 0} ⦃fl : Float64 F⦄ ⦃env : Env⦄ where
  -- What has been checked of a subscription `row` that is returned: its plan is one of the table's
  -- plans, active and public, the payment covers the price and the fee less the discount, and the
  -- row is what the request, the plan and the quote say, with a period of one billing cycle.
  pub record IsAgreed (agent : ℕ) (req : CreateSubscriptionRequest F)
      (plans : List (SubscriptionPlan F)) (row : AgentSubscription F) : Type 0 where
    pub plan : SubscriptionPlan F
    pub quote : F × Option ℕ
    pub start : ℕ
    pub reference : Reference
    pub made_at : ℕ
    pub key : ℕ
    pub offered : IsOffered req.subscription_plan_id plans plan
    pub plan_active : is_active plan.status ≡ true
    pub plan_public : plan.is_public ≡ true
    pub covered : (req.amount_paid <f price_due plan.price plan.setup_fee quote.0) ≡ false
    pub is_row :
        row
        ≡ Subscriptions.created
            (new_subscription agent req plan quote start
              (calculate_period_end start plan.billing_cycle)
              reference)
            key
            made_at

  module _ (agent : ℕ) (req : CreateSubscriptionRequest F) (plans : List (SubscriptionPlan F))
      (old : List (AgentSubscription F)) where
    -- The tables before the transaction
    abbrev Before : Database F → Type 0
    Before = Fixed old plans

    abbrev Agreed : AgentSubscription F → Database F → Type 0
    Agreed row d = IsAgreed agent req plans row × (d.subscriptions ≡ old ++ row ∷ [])

    before :
        {A : Type 0} {Q : A → Database F → Type 0} {m : M F A}
        → Triple Before m Q Before
        → Triple Before m Q (Untouched old)
    before t = Triple-weaken (λ d h. h) (λ a d h. h) (λ d h. h.0) t

    store-Triple :
        (s : AgentSubscription F) (c : Option ℕ)
        → Triple Before (store_subscription s c) (NewRow s old) (Untouched old)
    store-Triple s c = record {
      apply = λ w h.
          subst (λ l. Ends (NewRow s l) (Untouched l) (store_subscription s c w)) h.0
            (store_subscription-Ends s c w);
    }

    build-Triple :
        (plan : SubscriptionPlan F) (quote : F × Option ℕ)
        → find_row (Subscriptions.plan_has_id req.subscription_plan_id) plans ≡ some plan
        → is_active plan.status ≡ true
        → plan.is_public ≡ true
        → (req.amount_paid <f price_due plan.price plan.setup_fee quote.0) ≡ false
        → Triple Before (build_subscription agent req plan quote) Agreed (Untouched old)
    unfolding build_subscription
    build-Triple plan quote offered active public covered = Triple-bind Triple-now λ start.
        Triple-bind (before (reference-Reads Before)) λ reference.
          Triple-weaken (λ d h. h)
            (λ row d h. (
              record {
                plan = plan;
                quote = quote;
                start = start;
                reference = reference;
                made_at = h.0;
                key = h.1;
                offered = offered;
                plan_active = active;
                plan_public = public;
                covered = covered;
                is_row = h.2;
              },
              h.3,
            ))
            (λ d h. h)
            (store-Triple
              (new_subscription agent req plan quote start
                (calculate_period_end start plan.billing_cycle) reference)
              quote.1)

    guard :
        (c : Bool) (e : Error)
        → Triple Before (refuse_if c e) (λ _ d. (c ≡ false) × Before d) (Untouched old)
    guard c e = before (Triple-refuse_if c e)

    create-Triple : Triple Before (create_subscription agent req) Agreed (Untouched old)
    unfolding create_subscription Subscriptions.find_active_by_agent
    create-Triple =
        Triple-bind
          (Triple-wrapping "subscription plan not found"
            (before (find_plan-Triple req.subscription_plan_id)))
          λ plan. Triple-assume λ offered.
            Triple-bind
              (guard (not (is_active plan.status)) (msg "subscription plan is not active"))
              λ _. Triple-assume λ active.
                Triple-bind
                  (guard (not plan.is_public)
                    (msg "subscription plan is not available for subscription"))
                  λ _. Triple-assume λ public.
                    Triple-bind
                      (before (
                        Triple-attempt (
                          Triple-find_any Before "failed to find active subscription" (λ t d.
                            Subscriptions.latest (Subscriptions.is_current agent t)
                              d.subscriptions))))
                      λ existing.
                        Triple-bind
                          (before (
                            Triple-pass Before (is_ok existing)
                              (msg "agent already has an active subscription")))
                          λ _.
                            Triple-bind
                              (before (quote-Reads req.promotional_code plan.id plan.price Before))
                              λ quote.
                                Triple-bind
                                  (guard
                                    (req.amount_paid <f price_due plan.price plan.setup_fee quote.0)
                                    (msg "insufficient payment"))
                                  λ _. Triple-assume λ covered.
                                    build-Triple plan quote offered (ground arith) (ground arith)
                                      covered

  -- If `CreateSubscription` returns a subscription, its plan is one of the table's plans, active
  -- and public, the payment covers price and fee less the discount, the row is what request, plan
  -- and quote say, and it is the one row that is added; if it returns an error, the
  -- subscriptions are as they were.
  pub create_subscription-Ends :
      (agent : ℕ) (req : CreateSubscriptionRequest F) (w : World F)
      → let old = w.db.subscriptions in
        Ends
          (λ row d. IsAgreed agent req w.db.plans row × (d.subscriptions ≡ old ++ row ∷ []))
          (λ d. d.subscriptions ≡ old)
          (create_subscription agent req w)
  create_subscription-Ends agent req w =
      (create-Triple agent req w.db.plans w.db.subscriptions).apply w (refl, refl)

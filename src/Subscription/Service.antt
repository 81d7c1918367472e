-- ===== src/Subscription/Service.antt =====
-- internal/service/subscription/subscription_service.go: the operations. Logging is left out.
use bingwa.Prelude.{ℕ, ◌+◌, String, Bool, true, false, not, Option, none, some, ltb}
use bingwa.Float64.{Float64, ◌+f◌, ◌-f◌, ◌<f◌}
use bingwa.Domain.Subscription.{
  SubscriptionPlan, AgentSubscription, SubscriptionStatus, SubscriptionUsageInfo,
  CreateSubscriptionRequest, RenewSubscriptionRequest, UpdateSubscriptionRequest,
  CancelSubscriptionRequest, is_active, is_cancelled, inactive, suspended, active,
}
use bingwa.Store.{
  Result, ok, err, Env, M, unauthorized, msg, now, pure, wrapping, attempt, refuse_if, transact,
  ◌>>=◌, ◌>>◌,
}
use bingwa.Campaign.Repository
use bingwa.Subscription.Repository as Subscriptions
use bingwa.Subscription.Pricing.{
  quote_discount, calculate_period_end, generate_subscription_reference,
}
use bingwa.Subscription.Entities.{is_ok, new_subscription, is_foreign, merged}
use bingwa.Subscription.Usage.{usage_info, limit_blocks}

module _ {F : Type 0} ⦃env : Env⦄ where
  -- `if campaignID != nil { … IncrementUses … }`, on the pool; an error is only logged.
  unfoldable pub count_use : Option ℕ → M F (Unit {0})
  count_use none = pure tt
  count_use (some campaign) = do _ ← attempt (Repository.increment_uses campaign); pure tt

  unfoldable pub get_subscription : ℕ → ℕ → Bool → M F (AgentSubscription F)
  get_subscription agent k is_admin = do
    s ← Subscriptions.find_by_id k
    refuse_if (is_foreign is_admin agent s) unauthorized
    pure s

  unfoldable pub get_active_subscription : ℕ → M F (AgentSubscription F)
  get_active_subscription agent = Subscriptions.find_active_by_agent agent

  unfoldable pub update_subscription :
      ℕ → ℕ → UpdateSubscriptionRequest F → Bool → M F (AgentSubscription F)
  update_subscription agent k req is_admin = do
    s ← Subscriptions.find_by_id k
    refuse_if (is_foreign is_admin agent s) unauthorized
    wrapping "failed to update subscription" (Subscriptions.update k (merged req s))
    Subscriptions.find_by_id k

  unfoldable pub cancel_subscription : ℕ → ℕ → CancelSubscriptionRequest → Bool → M F (Unit {0})
  cancel_subscription agent k req is_admin = do
    s ← Subscriptions.find_by_id k
    refuse_if (is_foreign is_admin agent s) unauthorized
    refuse_if (is_cancelled s.status) (msg "subscription is already cancelled")
    wrapping "failed to cancel subscription"
        (Subscriptions.cancel_subscription k req.reason req.cancel_immediately)

  unfoldable pub increment_request_usage : ℕ → M F (Unit {0})
  increment_request_usage agent = do
    s ← wrapping "no active subscription found" (Subscriptions.find_active_by_agent agent)
    plan ← wrapping "plan not found" (Subscriptions.find_plan_by_id s.subscription_plan_id)
    refuse_if (limit_blocks s plan) (msg "request limit reached and overage not allowed")
    Subscriptions.increment_request_usage s.id

  -- What `CheckSubscriptionAccess` does with the plan, where the lookup's error means no.
  abbrev pub plan_allows : AgentSubscription F → Result (SubscriptionPlan F) → Bool
  plan_allows s (ok plan) = not (limit_blocks s plan)
  plan_allows s (err e) = false

  -- The rest of `CheckSubscriptionAccess`: whether the period is past, whether the status is
  -- active, and whether the subscription was found; each early return answers false.
  unfoldable pub check_plan : Bool → AgentSubscription F → M F Bool
  check_plan true s = pure false
  check_plan false s = do
    plan ← attempt (Subscriptions.find_plan_by_id s.subscription_plan_id)
    pure (plan_allows s plan)

  unfoldable pub check_period : Bool → AgentSubscription F → M F Bool
  unfolding check_plan
  check_period false s = pure false
  check_period true s = do t ← now; check_plan (ltb s.current_period_end t) s

  unfoldable pub check_found : Result (AgentSubscription F) → M F Bool
  unfolding check_period
  check_found (err e) = pure false
  check_found (ok s) = check_period (is_active s.status) s

  unfoldable pub check_subscription_access : ℕ → M F Bool
  unfolding check_found
  check_subscription_access agent = do
    r ← attempt (Subscriptions.find_active_by_agent agent)
    check_found r

  -- The admin's operations
  unfoldable pub set_status : SubscriptionStatus → String → ℕ → M F (Unit {0})
  set_status status message k =
      transact (wrapping message (Subscriptions.update_status_with_tx k status))

  unfoldable pub deactivate_subscription : ℕ → M F (Unit {0})
  unfolding set_status
  deactivate_subscription = set_status inactive "failed to deactivate subscription"

  unfoldable pub suspend_subscription : ℕ → M F (Unit {0})
  unfolding set_status
  suspend_subscription = set_status suspended "failed to suspend subscription"

  unfoldable pub reactivate_subscription : ℕ → M F (Unit {0})
  unfolding set_status
  reactivate_subscription = set_status active "failed to reactivate subscription"

  -- The transaction of `CreateSubscription`
  abbrev pub create_and_count : AgentSubscription F → Option ℕ → M F (AgentSubscription F)
  create_and_count s campaign = do
    row ← wrapping "failed to create subscription" (Subscriptions.create_with_tx s)
    count_use campaign
    pure row

  unfoldable pub store_subscription : AgentSubscription F → Option ℕ → M F (AgentSubscription F)
  store_subscription s campaign = transact (create_and_count s campaign)

  unfoldable pub start_after : Bool → ℕ → M F ℕ
  start_after true end = now
  start_after false end = pure end

  -- Where the next period begins: at the end of this one, or now, when that is past.
  unfoldable pub next_period_start : ℕ → M F ℕ
  unfolding start_after
  next_period_start end = do t ← now; start_after (ltb end t) end

  -- The transaction of `RenewSubscription`: the reset and the count are statements of the pool.
  abbrev pub renew_and_count : AgentSubscription F → ℕ → ℕ → Option ℕ → M F (Unit {0})
  renew_and_count s start end campaign = do
    wrapping "failed to update renewal info"
        (Subscriptions.update_renewal_info_with_tx s.id start end end (s.renewal_count + 1))
    _ ← attempt (Subscriptions.reset_request_usage s.id)
    count_use campaign

  unfoldable pub store_renewal : AgentSubscription F → ℕ → ℕ → Option ℕ → M F (Unit {0})
  store_renewal s start end campaign = transact (renew_and_count s start end campaign)

module _ {F : Type 0} ⦃fl : Float64 F⦄ ⦃env : Env⦄ where
  unfoldable pub get_subscription_usage : ℕ → M F (SubscriptionUsageInfo F)
  unfolding usage_info
  get_subscription_usage agent = do
    s ← wrapping "no active subscription found" (Subscriptions.find_active_by_agent agent)
    plan ← wrapping "plan not found" (Subscriptions.find_plan_by_id s.subscription_plan_id)
    t ← now
    pure (usage_info s plan t)

  -- What the customer has to pay: the price, the fee of a new subscription, less the discount.
  abbrev pub price_due : F → F → F → F
  price_due price fee discount = (price +f fee) -f discount

  -- `CreateSubscription` after its guards
  unfoldable pub build_subscription :
      ℕ
      → CreateSubscriptionRequest F
      → SubscriptionPlan F
      → F × Option ℕ
      → M F (AgentSubscription F)
  unfolding store_subscription new_subscription
  build_subscription agent req plan quote = do
    start ← now
    reference ← generate_subscription_reference
    store_subscription
        (new_subscription agent req plan quote start (calculate_period_end start plan.billing_cycle)
          reference)
        quote.1

  unfoldable pub create_subscription : ℕ → CreateSubscriptionRequest F → M F (AgentSubscription F)
  unfolding build_subscription quote_discount
  create_subscription agent req = do
    plan ←
        wrapping "subscription plan not found"
          (Subscriptions.find_plan_by_id req.subscription_plan_id)
    refuse_if (not (is_active plan.status)) (msg "subscription plan is not active")
    refuse_if (not plan.is_public) (msg "subscription plan is not available for subscription")
    existing ← attempt (Subscriptions.find_active_by_agent agent)
    refuse_if (is_ok existing) (msg "agent already has an active subscription")
    quote ← quote_discount req.promotional_code plan.id plan.price
    refuse_if (req.amount_paid <f price_due plan.price plan.setup_fee quote.0)
        (msg "insufficient payment")
    build_subscription agent req plan quote

  unfoldable pub renew_subscription : ℕ → RenewSubscriptionRequest F → M F (AgentSubscription F)
  unfolding store_renewal next_period_start quote_discount calculate_period_end
  renew_subscription agent req = do
    s ← wrapping "no active subscription found" (Subscriptions.find_active_by_agent agent)
    plan ←
        wrapping "subscription plan not found"
          (Subscriptions.find_plan_by_id s.subscription_plan_id)
    quote ← quote_discount req.promotional_code plan.id plan.price
    refuse_if (req.amount_paid <f (plan.price -f quote.0)) (msg "insufficient payment")
    start ← next_period_start s.current_period_end
    store_renewal s start (calculate_period_end start plan.billing_cycle) quote.1
    Subscriptions.find_by_id s.id

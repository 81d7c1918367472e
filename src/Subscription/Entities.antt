-- ===== src/Subscription/Entities.antt =====
-- internal/service/subscription/subscription_service.go: the values that its operations build and
-- test.
use bingwa.Prelude.{
  ℕ, Bool, true, false, ◌&&◌, not, Option, none, some, [], ◌∷◌, Text, ◌==◌, to_upper, is_some,
  get_or, if◌then◌else◌,
}
use bingwa.Domain.Subscription.{
  SubscriptionPlan, AgentSubscription, Reference, MetaKey, MetaValue, Metadata, payment_reference,
  payment_method, setup_fee, text_value, number_value, CreateSubscriptionRequest,
  UpdateSubscriptionRequest, active,
}
use bingwa.Store.{Result, ok, err}

-- Whether a call returned a row, where its error is dropped.
abbrev pub is_ok : {A : Type 0} → Result A → Bool
is_ok (ok a) = true
is_ok (err e) = false

same_key : MetaKey → MetaKey → Bool
same_key payment_reference payment_reference = true
same_key payment_method payment_method = true
same_key setup_fee setup_fee = true
same_key _ _ = false

module _ {F : Type 0} where
  -- `m[k] = v` for a key of the service's own
  unfoldable pub put : MetaKey → MetaValue F → Metadata F → Metadata F
  unfolding same_key
  put k v [] = (k, v) ∷ []
  put k v ((j, x) ∷ m) = let rest = put k v m in if same_key k j then (k, v) ∷ m else (j, x) ∷ rest

  -- The metadata of a new subscription: a nil map is made when the payment has a reference.
  unfoldable pub payment_metadata : Text → Text → F → Option (Metadata F) → Option (Metadata F)
  unfolding put
  payment_metadata [] method fee m = m
  payment_metadata (c ∷ reference) method fee m = some (
      put setup_fee (number_value fee) (
        put payment_method (text_value method)
          (put payment_reference (text_value (c ∷ reference)) (get_or m []))))

  -- The entity that `CreateSubscription` builds. `billing_usage` is an `INT` column, so that
  -- `int32(plan.BillingUsage)` keeps it.
  unfoldable pub new_subscription :
      ℕ
      → CreateSubscriptionRequest F
      → SubscriptionPlan F
      → F × Option ℕ
      → ℕ
      → ℕ
      → Reference
      → AgentSubscription F
  unfolding payment_metadata
  new_subscription agent req plan (discount, campaign) start end reference = record {
    id = 0;
    subscription_reference = reference;
    agent_identity_id = agent;
    subscription_plan_id = req.subscription_plan_id;
    promotional_campaign_id = campaign;
    start_date = start;
    end_date = none;
    current_period_start = start;
    current_period_end = end;
    auto_renew = req.auto_renew;
    renewal_count = 0;
    next_billing_date = if req.auto_renew then some end else none;
    requests_used = 0;
    requests_limit = some plan.billing_usage;
    plan_price = plan.price;
    discount_applied = discount;
    amount_paid = req.amount_paid;
    currency = to_upper req.currency;
    status = active;
    cancelled_at = none;
    cancellation_reason = none;
    metadata =
        payment_metadata req.payment_reference req.payment_method plan.setup_fee req.metadata;
    created_at = 0;
    updated_at = 0;
  }

  -- `!isAdmin && sub.AgentIdentityID != agentID`
  abbrev pub is_foreign : Bool → ℕ → AgentSubscription F → Bool
  is_foreign is_admin agent s = not is_admin && not (s.agent_identity_id == agent)

  abbrev pub merged : UpdateSubscriptionRequest F → AgentSubscription F → AgentSubscription F
  merged req s = record s {
    auto_renew = get_or req.auto_renew s.auto_renew;
    metadata = if is_some req.metadata then req.metadata else s.metadata;
  }

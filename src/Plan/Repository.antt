-- ===== src/Plan/Repository.antt =====
-- internal/repository/postgres/subscription_plans.go: one function for each statement that writes, and
-- the lookups. A subscription refers to its plan with ON DELETE CASCADE in svc_init.sql.
use bingwa.Prelude.{
  ℕ, ◌+◌, Bool, Option, none, some, [], ◌∷◌, ◌++◌, Text, ◌==◌, text_eq, find_row, any_row,
  update_where, delete_where, if◌then◌else◌,
}
use bingwa.Domain.Subscription.{SubscriptionPlan, AgentSubscription, SubscriptionStatus}
use bingwa.Store.{Database, Env, M, query, at_time, exec, insert, affected, find_one, wrapping}
use bingwa.Subscription.Repository.{plan_has_id}

module _ {F : Type 0} where
  abbrev pub has_plan_code : Text → SubscriptionPlan F → Bool
  has_plan_code code p = text_eq p.plan_code code

  -- The foreign key of a subscription
  abbrev pub of_plan : ℕ → AgentSubscription F → Bool
  of_plan k s = s.subscription_plan_id == k

  abbrev pub created_plan : SubscriptionPlan F → ℕ → ℕ → SubscriptionPlan F
  created_plan p k t = record p { id = k; created_at = t; updated_at = t }

  abbrev pub with_plan : SubscriptionPlan F → Database F → Database F
  with_plan row d = record d { plans = d.plans ++ row ∷ []; next_id = d.next_id + 1 }

  -- `plan_code` is unique.
  abbrev pub inserted_plan :
      SubscriptionPlan F → ℕ → Database F → Option (Database F × SubscriptionPlan F)
  inserted_plan p t d =
      let row = created_plan p d.next_id t in
      if any_row (has_plan_code p.plan_code) d.plans then none else some (with_plan row d, row)

  -- UPDATE subscription_plans SET f WHERE id = k
  abbrev pub update_plan :
      ℕ → (SubscriptionPlan F → SubscriptionPlan F) → Database F → Database F × Bool
  update_plan k f d =
      (record d { plans = update_where (plan_has_id k) f d.plans }, any_row (plan_has_id k) d.plans)

  -- The columns that `Update` writes.
  abbrev pub updated_plan : SubscriptionPlan F → ℕ → SubscriptionPlan F → SubscriptionPlan F
  updated_plan p t row = record row {
    name = p.name;
    description = p.description;
    price = p.price;
    setup_fee = p.setup_fee;
    billing_usage = p.billing_usage;
    billing_cycle = p.billing_cycle;
    overage_charge = p.overage_charge;
    max_offers = p.max_offers;
    max_customers = p.max_customers;
    features = p.features;
    is_public = p.is_public;
    metadata = p.metadata;
    updated_at = t;
  }

  abbrev pub with_plan_status : SubscriptionStatus → ℕ → SubscriptionPlan F → SubscriptionPlan F
  with_plan_status status t p = record p { status = status; updated_at = t }

  -- DELETE FROM subscription_plans WHERE id = k, with the subscriptions that refer to the plan
  abbrev pub without_plan : ℕ → Database F → Database F × Bool
  without_plan k d = (
    if any_row (plan_has_id k) d.plans
        then record d {
          plans = delete_where (plan_has_id k) d.plans;
          subscriptions = delete_where (of_plan k) d.subscriptions;
        }
        else d,
    any_row (plan_has_id k) d.plans,
  )

module _ {F : Type 0} ⦃env : Env⦄ where
  unfoldable pub create : SubscriptionPlan F → M F (SubscriptionPlan F)
  create p = wrapping "failed to create subscription plan" (insert (inserted_plan p))

  unfoldable pub find_by_plan_code : Text → M F (SubscriptionPlan F)
  find_by_plan_code code =
      find_one "failed to find subscription plan"
        (query λ _ d. find_row (has_plan_code code) d.plans)

  unfoldable pub update : ℕ → SubscriptionPlan F → M F (Unit {0})
  update k p = at_time λ t.
      affected
        (wrapping "failed to update subscription plan" (exec (update_plan k (updated_plan p t))))

  unfoldable pub update_status : ℕ → SubscriptionStatus → M F (Unit {0})
  update_status k status = at_time λ t.
      affected
        (wrapping "failed to update plan status" (exec (update_plan k (with_plan_status status t))))

  unfoldable pub delete : ℕ → M F (Unit {0})
  delete k = affected (wrapping "failed to delete subscription plan" (exec (without_plan k)))

  unfoldable pub exists_by_plan_code : Text → M F Bool
  exists_by_plan_code code = query λ _ d. any_row (has_plan_code code) d.plans

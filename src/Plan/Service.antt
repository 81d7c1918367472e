-- ===== src/Plan/Service.antt =====
-- internal/service/subscription_plans/subscription_plans.go. Logging is left out.
use bingwa.Prelude.{
  ℕ, String, Bool, true, false, ◌&&◌, ◌||◌, not, Option, none, some, [], ◌∷◌, Text, ◌==◌, ltb, leb,
  length, null_string, set_text, given_or, get_or, to_upper, if◌then◌else◌,
}
use bingwa.Float64.{Float64, ◌+f◌, ◌*f◌}
use bingwa.Domain.Subscription.{
  SubscriptionPlan, RenewalPeriod, CreatePlanRequest, UpdatePlanRequest, active, inactive,
  other_period,
}
use bingwa.Store.{Env, M, msg, pure, refuse, refuse_if, wrapping, ◌>>=◌, ◌>>◌}
use bingwa.Subscription.Repository.{find_plan_by_id}
use bingwa.Plan.Repository

abbrev pub is_plan_byte : ℕ → Bool
is_plan_byte b =
    leb b'a' b && leb b b'z'
    || (leb b'A' b && leb b b'Z' || (leb b'0' b && leb b b'9' || (b == b'-' || b == b'_')))

abbrev pub only_plan_bytes : Text → Bool
only_plan_bytes [] = true
only_plan_bytes (b ∷ bs) = is_plan_byte b && only_plan_bytes bs

-- `validatePlanCode`: the message of the error, if there is one
unfoldable pub plan_code_refusal : Text → Option String
plan_code_refusal code =
    if ltb (length code) 3 || ltb 50 (length code)
    then some "plan code must be between 3 and 50 characters"
    else if only_plan_bytes code
    then none
    else some "plan code can only contain letters, numbers, hyphens, and underscores"

abbrev pub is_valid_billing_cycle : RenewalPeriod → Bool
is_valid_billing_cycle other_period = false
is_valid_billing_cycle _ = true

abbrev pub check_cycle : {F : Type 0} → Option RenewalPeriod → M F (Unit {0})
check_cycle none = pure tt
check_cycle (some cycle) =
    refuse_if (not (is_valid_billing_cycle cycle)) (msg "invalid billing cycle: %s")

module _ {F : Type 0} where
  -- The entity that `CreatePlan` builds.
  unfoldable pub new_plan : CreatePlanRequest F → SubscriptionPlan F
  new_plan req = record {
    id = 0;
    plan_code = req.plan_code;
    name = req.name;
    description = null_string req.description;
    price = req.price;
    currency = to_upper req.currency;
    setup_fee = req.setup_fee;
    billing_usage = req.billing_usage;
    billing_cycle = req.billing_cycle;
    overage_charge = req.overage_charge;
    max_offers = req.max_offers;
    max_customers = req.max_customers;
    features = req.features;
    status = active;
    is_public = req.is_public;
    metadata = req.metadata;
    created_at = 0;
    updated_at = 0;
  }

  -- The fields that a request of `UpdatePlan` gives.
  unfoldable pub merged_plan : UpdatePlanRequest F → SubscriptionPlan F → SubscriptionPlan F
  merged_plan req p = record p {
    name = get_or req.name p.name;
    description = set_text req.description p.description;
    price = get_or req.price p.price;
    setup_fee = get_or req.setup_fee p.setup_fee;
    billing_usage = get_or req.billing_usage p.billing_usage;
    billing_cycle = get_or req.billing_cycle p.billing_cycle;
    overage_charge = given_or req.overage_charge p.overage_charge;
    max_offers = given_or req.max_offers p.max_offers;
    max_customers = given_or req.max_customers p.max_customers;
    features = given_or req.features p.features;
    is_public = get_or req.is_public p.is_public;
    metadata = given_or req.metadata p.metadata;
  }

  -- `hasActiveSubscriptions`, which looks at nothing
  unfoldable pub has_active_subscriptions : ℕ → M F Bool
  has_active_subscriptions k = pure false

module _ {F : Type 0} ⦃env : Env⦄ where
  unfoldable pub create_plan : CreatePlanRequest F → M F (SubscriptionPlan F)
  unfolding plan_code_refusal new_plan
  create_plan req = do
    refuse (plan_code_refusal req.plan_code)
    exists ← wrapping "failed to check plan code" (Repository.exists_by_plan_code req.plan_code)
    refuse_if exists (msg "plan code already exists")
    check_cycle (some req.billing_cycle)
    wrapping "failed to create plan" (Repository.create (new_plan req))

  unfoldable pub get_plan : ℕ → M F (SubscriptionPlan F)
  get_plan k = find_plan_by_id k

  unfoldable pub get_plan_by_code : Text → M F (SubscriptionPlan F)
  get_plan_by_code code = Repository.find_by_plan_code code

  unfoldable pub update_plan : ℕ → UpdatePlanRequest F → M F (SubscriptionPlan F)
  unfolding merged_plan
  update_plan k req = do
    p ← find_plan_by_id k
    check_cycle req.billing_cycle
    wrapping "failed to update plan" (Repository.update k (merged_plan req p))
    find_plan_by_id k

  unfoldable pub activate_plan : ℕ → M F (Unit {0})
  activate_plan k = wrapping "failed to activate plan" (Repository.update_status k active)

  unfoldable pub deactivate_plan : ℕ → M F (Unit {0})
  deactivate_plan k = wrapping "failed to deactivate plan" (Repository.update_status k inactive)

  unfoldable pub delete_plan : ℕ → M F (Unit {0})
  unfolding has_active_subscriptions
  delete_plan k = do
    found ← wrapping "failed to check subscriptions" (has_active_subscriptions k)
    refuse_if found (msg "cannot delete plan with active subscriptions")
    wrapping "failed to delete plan" (Repository.delete k)

module _ {F : Type 0} ⦃fl : Float64 F⦄ where
  -- For a number of months that is not negative
  unfoldable pub calculate_plan_cost : SubscriptionPlan F → ℕ → F
  calculate_plan_cost p months = p.setup_fee +f p.price *f fl.of_nat months

-- ===== src/Examples.antt =====
-- A small database and environment, on which the theorems are tried.
pub mod Campaigns
pub mod Subscriptions
pub mod Offers
pub mod Customers
pub mod Transactions
pub mod Schedules
pub mod Plans
use bingwa.Prelude.{ℕ, ◌+◌, ◌*◌, ◌/◌, true, false, none, some, [], ◌∷◌, Text, refl, arith}
use bingwa.Float64.{Fixed}
use bingwa.Domain.Subscription as Subscription
use bingwa.Domain.Subscription.{SubscriptionPlan, AgentSubscription, Reference}
use bingwa.Domain.Campaign as Campaign
use bingwa.Domain.Campaign.{PromotionalCampaign, CampaignCode}
use bingwa.Domain.Offer.{
  AgentOffer, OfferUssdCode, OfferStatus, UssdProcessingType, OfferType, OfferUnits, Placeholder,
}
use bingwa.Store.{Env, Database, World, IsCalendar, IsClock, IsComplete, LockWait, driver}

-- Nothing fails, the clock moves on, and a wait for a lock is timed out.
instance abbrev pub test_env : Env
test_env = record {
  fault = λ n. false;
  clock = λ n. 1000 + n;
  second_now = λ t. t + 1;
  add_date = λ t y m d. t + (y * 365 + m * 30 + d) * 100;
  year_month = λ t. 1;
  day = λ t. 1;
  second = λ t. t / 10;
  map_order = λ n.
      Placeholder.phone ∷ Placeholder.customer_phone ∷ Placeholder.amount ∷ Placeholder.price ∷ [];
  no_rows = driver 0;
  lock_wait = λ n. LockWait.timed_out;
  rows_read = λ n. none;
}

-- The same without a lock timeout.
abbrev pub no_timeout_env : Env
no_timeout_env = record test_env { lock_wait = λ n. LockWait.context_cancelled }

pub test_env-IsCalendar : IsCalendar test_env
test_env-IsCalendar = record {
  not_before = λ t y m d. omega arith;
  later = λ t y m d h. omega arith;
}

pub test_env-IsComplete : IsComplete test_env
test_env-IsComplete = record { unbroken = λ n. refl }

pub test_env-IsClock : IsClock test_env
test_env-IsClock = record { forward = λ n. omega arith }

pub no_timeout_env-IsClock : IsClock no_timeout_env
no_timeout_env-IsClock = record { forward = λ n. omega arith }

abbrev pub save10 : Text
save10 = b'S' ∷ b'A' ∷ b'V' ∷ b'E' ∷ []

-- 10 percent off, 5 of 50 uses made
abbrev pub test_campaign : PromotionalCampaign Fixed
test_campaign = record {
  id = 3;
  campaign_code = record { type_prefix = b'P' ∷ []; year_month = 0; suffix = 0 };
  name = b'T' ∷ [];
  description = none;
  promotional_code = save10;
  discount_type = Campaign.DiscountType.percentage;
  discount_value = 100_000;
  max_discount_amount = some 500_000;
  start_date = 10;
  end_date = 5000;
  max_uses = some 50;
  uses_per_user = 1;
  current_uses = 5;
  applicable_plans = [];
  target_user_types = [];
  status = Campaign.CampaignStatus.active;
  metadata = none;
  created_at = 1;
  updated_at = 1;
}

-- 1000 a month for 100 requests, with a fee of 100 and a rate for what is over
abbrev pub test_plan : SubscriptionPlan Fixed
test_plan = record {
  id = 2;
  plan_code = [];
  name = [];
  description = none;
  currency = [];
  max_offers = none;
  max_customers = none;
  features = none;
  metadata = none;
  created_at = 1;
  updated_at = 1;
  price = 10_000_000;
  setup_fee = 1_000_000;
  billing_usage = 100;
  billing_cycle = Subscription.RenewalPeriod.monthly;
  overage_charge = some 20_000;
  status = Subscription.SubscriptionStatus.active;
  is_public = true;
}

-- The current subscription of the agent 7, with 40 of 100 requests made
abbrev pub test_subscription : AgentSubscription Fixed
test_subscription = record {
  id = 5;
  subscription_reference = record { prefix = []; made_at = 0; random = [] };
  agent_identity_id = 7;
  subscription_plan_id = 2;
  promotional_campaign_id = none;
  start_date = 100;
  end_date = none;
  current_period_start = 100;
  current_period_end = 2000;
  auto_renew = true;
  renewal_count = 0;
  next_billing_date = some 2000;
  requests_used = 40;
  requests_limit = some 100;
  plan_price = 10_000_000;
  discount_applied = 0;
  amount_paid = 11_000_000;
  currency = [];
  status = Subscription.SubscriptionStatus.active;
  cancelled_at = none;
  cancellation_reason = none;
  metadata = none;
  created_at = 100;
  updated_at = 100;
}

abbrev pub test_offer : AgentOffer Fixed
test_offer = record {
  id = 4;
  agent_identity_id = 7;
  offer_code = [];
  name = [];
  description = none;
  offer_type = OfferType.voice;
  amount = 0;
  units = OfferUnits.minutes;
  price = 500_000;
  currency = [];
  discount_percentage = 0;
  validity_days = 30;
  validity_label = none;
  ussd_code_template = b'*' ∷ [];
  ussd_processing_type = UssdProcessingType.express;
  ussd_expected_response = none;
  ussd_error_pattern = none;
  is_featured = false;
  is_recurring = false;
  max_purchases_per_customer = none;
  status = OfferStatus.active;
  available_from = none;
  available_until = none;
  tags = [];
  metadata = none;
  created_at = 1;
  updated_at = 1;
  deleted_at = none;
  primary_ussd_code = none;
}

-- The code `id` of the offer `offer`
abbrev pub test_code : ℕ → ℕ → ℕ → OfferUssdCode
test_code id offer priority = record {
  id = id;
  offer_id = offer;
  ussd_code = b'*' ∷ id ∷ b'#' ∷ [];
  signature_pattern = none;
  priority = priority;
  is_active = true;
  expected_response = none;
  error_pattern = none;
  processing_type = UssdProcessingType.express;
  success_count = 0;
  failure_count = 0;
  last_used_at = none;
  last_success_at = none;
  last_failure_at = none;
  metadata = none;
  created_at = id;
  updated_at = id;
}

abbrev pub test_database : Database Fixed
test_database = record {
  plans = test_plan ∷ [];
  subscriptions = test_subscription ∷ [];
  campaigns = test_campaign ∷ [];
  offers = test_offer ∷ [];
  ussd_codes = test_code 11 4 1 ∷ test_code 12 4 2 ∷ test_code 13 9 1 ∷ [];
  customers = [];
  requests = [];
  redemptions = [];
  schedules = [];
  histories = [];
  next_id = 20;
}

abbrev pub test_world : World Fixed
test_world = record {
  db = test_database;
  uncommitted = λ d. d;
  locked = [];
  cancelled = false;
  steps = 0;
}

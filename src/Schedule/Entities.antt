-- ===== src/Schedule/Entities.antt =====
-- The entities that schedule_service.go builds, and its pure helpers.
use bingwa.Prelude.{
  given_or, ℕ, ◌+◌, Bool, true, false, ◌||◌, Option, none, some, Text, null_string, get_or, is_some,
  ltb, leb, if◌then◌else◌,
}
use bingwa.Domain.Subscription.{Reference}
use bingwa.Domain.Offer.{AgentOffer, UssdCodeExecutionInfo}
use bingwa.Domain.Transaction.{OfferRedemption, TransactionStatus, success, failed}
use bingwa.Domain.Schedule.{
  RenewalPeriod, daily, weekly, monthly, quarterly, yearly, other_period, ScheduledOffer,
  ScheduledOfferHistory, CreateScheduledOfferRequest, UpdateScheduledOfferRequest,
  ExecuteScheduledOfferInput, active,
}
use bingwa.Store.{Env}
use bingwa.Transaction.Repository.{null_time}

module _ ⦃env : Env⦄ where
  -- `calculateNextRenewal`; the last clause is `default`
  unfoldable pub calculate_next_renewal : ℕ → RenewalPeriod → ℕ
  calculate_next_renewal from daily = env.add_date from 0 0 1
  calculate_next_renewal from weekly = env.add_date from 0 0 7
  calculate_next_renewal from monthly = env.add_date from 0 1 0
  calculate_next_renewal from quarterly = env.add_date from 0 3 0
  calculate_next_renewal from yearly = env.add_date from 1 0 0
  calculate_next_renewal from other_period = env.add_date from 0 1 0

  -- The next renewal of a new schedule, where it renews by itself.
  unfoldable pub first_renewal : Bool → ℕ → Option RenewalPeriod → Option ℕ
  unfolding calculate_next_renewal
  first_renewal true from (some period) = some (calculate_next_renewal from period)
  first_renewal true from none = none
  first_renewal false from period = none

unfoldable pub new_schedule :
    ℕ → CreateScheduledOfferRequest → Reference → Option ℕ → Option ℕ → ScheduledOffer
new_schedule agent req reference next customer = record {
  id = 0;
  schedule_reference = reference;
  offer_id = req.offer_id;
  agent_identity_id = agent;
  customer_id = customer;
  customer_phone = req.customer_phone;
  scheduled_time = req.scheduled_time;
  next_renewal_date = next;
  last_renewal_date = none;
  auto_renew = req.auto_renew;
  renewal_period = req.renewal_period;
  renewal_count = 0;
  renewal_limit = req.renewal_limit;
  renew_until = req.renew_until;
  status = active;
  paused_at = none;
  cancelled_at = none;
  cancellation_reason = none;
  metadata = req.metadata;
  created_at = 0;
  updated_at = 0;
}

-- The limit is reached by the renewal with this number.
unfoldable pub limit_reached : Option ℕ → ℕ → Bool
limit_reached none count = false
limit_reached (some limit) count = leb limit count

-- `time.Now().After(scheduledOffer.RenewUntil.Time)`
unfoldable pub is_past : Option ℕ → ℕ → Bool
is_past none t = false
is_past (some until) t = ltb until t

abbrev pub execution_status : ExecuteScheduledOfferInput → TransactionStatus
execution_status input = if input.is_failed then failed else success

module _ {F : Type 0} where
  unfoldable pub new_redemption :
      ℕ
      → ExecuteScheduledOfferInput
      → ScheduledOffer
      → AgentOffer F
      → Reference
      → Text
      → UssdCodeExecutionInfo
      → ℕ × ℕ × ℕ × Option ℕ
      → OfferRedemption F
  new_redemption agent input s offer reference code info (from, until, t, completed) = record {
    id = 0;
    redemption_reference = reference;
    offer_id = s.offer_id;
    offer_request_id = none;
    agent_identity_id = agent;
    customer_id = s.customer_id;
    customer_phone = s.customer_phone;
    amount = offer.price;
    currency = offer.currency;
    ussd_code_used = code;
    ussd_response = null_string input.ussd_response;
    ussd_session_id = null_string input.ussd_session_id;
    ussd_processing_time = null_time input.ussd_processing_time;
    redemption_time = t;
    completed_at = completed;
    status = execution_status input;
    failure_reason = null_string input.failure_reason;
    retry_count = 0;
    max_retries = 3;
    ussd_code_execution_info = some info;
    valid_from = some from;
    valid_until = some until;
    metadata = none;
    created_at = 0;
    updated_at = 0;
  }

unfoldable pub new_history :
    ℕ → ExecuteScheduledOfferInput → ScheduledOffer → ℕ → ScheduledOfferHistory
new_history k input s t = record {
  id = 0;
  scheduled_offer_id = k;
  offer_redemption_id = none;
  customer_id = s.customer_id;
  customer_phone = s.customer_phone;
  renewal_time = t;
  renewal_number = s.renewal_count + 1;
  status = execution_status input;
  failure_reason = null_string input.failure_reason;
  metadata = none;
  created_at = 0;
  updated_at = 0;
}

module _ ⦃env : Env⦄ where
  -- "Recalculate next renewal if renewal settings changed"
  unfoldable pub recalculated : Bool → ScheduledOffer → Option ℕ
  unfolding calculate_next_renewal
  recalculated false s = s.next_renewal_date
  recalculated true s =
      if s.auto_renew
      then elim s.renewal_period [
        | none ↦ s.next_renewal_date
        | some period ↦ some (calculate_next_renewal s.scheduled_time period)
      ]
      else s.next_renewal_date

  -- The fields that a request of `UpdateScheduledOffer` gives.
  unfoldable pub merged : UpdateScheduledOfferRequest → ScheduledOffer → ScheduledOffer
  unfolding recalculated
  merged req s =
      let changed = record s {
        scheduled_time = get_or req.scheduled_time s.scheduled_time;
        auto_renew = get_or req.auto_renew s.auto_renew;
        renewal_period = given_or req.renewal_period s.renewal_period;
        renewal_limit = given_or req.renewal_limit s.renewal_limit;
        renew_until = given_or req.renew_until s.renew_until;
        metadata = given_or req.metadata s.metadata;
      } in
      record changed {
        next_renewal_date =
            recalculated (is_some req.auto_renew || is_some req.renewal_period) changed;
      }

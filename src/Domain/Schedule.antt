-- ===== src/Domain/Schedule.antt =====
-- internal/domain/schedule: the scheduled offers and the history of their executions.
use bingwa.Prelude.{ℕ, Bool, true, false, Option, Text}
use bingwa.Domain.Subscription.{Reference}
use bingwa.Domain.Transaction.{TransactionStatus}

-- entity.go; `other_period` is any other text of a request but the empty one.
pub data RenewalPeriod : Type 0 where
  daily weekly monthly quarterly yearly other_period : RenewalPeriod

pub data ScheduleStatus : Type 0 where
  active inactive paused cancelled expired completed : ScheduleStatus

abbrev pub is_active_schedule : ScheduleStatus → Bool
is_active_schedule active = true
is_active_schedule _ = false

pub record ScheduledOffer : Type 0 where
  pub id : ℕ
  pub schedule_reference : Reference
  pub offer_id : ℕ
  pub agent_identity_id : ℕ
  pub customer_id : Option ℕ
  pub customer_phone : Text
  pub scheduled_time : ℕ
  pub next_renewal_date : Option ℕ
  pub last_renewal_date : Option ℕ
  pub auto_renew : Bool
  pub renewal_period : Option RenewalPeriod
  pub renewal_count : ℕ
  pub renewal_limit : Option ℕ
  pub renew_until : Option ℕ
  pub status : ScheduleStatus
  pub paused_at : Option ℕ
  pub cancelled_at : Option ℕ
  pub cancellation_reason : Option Text
  pub metadata : Option Text
  pub created_at : ℕ
  pub updated_at : ℕ

pub record ScheduledOfferHistory : Type 0 where
  pub id : ℕ
  pub scheduled_offer_id : ℕ
  pub offer_redemption_id : Option ℕ
  pub customer_id : Option ℕ
  pub customer_phone : Text
  pub renewal_time : ℕ
  pub renewal_number : ℕ
  pub status : TransactionStatus
  pub failure_reason : Option Text
  pub metadata : Option Text
  pub created_at : ℕ
  pub updated_at : ℕ

-- dto.go; the empty period is `none`.
pub record CreateScheduledOfferRequest : Type 0 where
  pub offer_id : ℕ
  pub customer_phone : Text
  pub scheduled_time : ℕ
  pub auto_renew : Bool
  pub renewal_period : Option RenewalPeriod
  pub renewal_limit : Option ℕ
  pub renew_until : Option ℕ
  pub metadata : Option Text

pub record UpdateScheduledOfferRequest : Type 0 where
  pub scheduled_time : Option ℕ
  pub auto_renew : Option Bool
  pub renewal_period : Option RenewalPeriod
  pub renewal_limit : Option ℕ
  pub renew_until : Option ℕ
  pub metadata : Option Text

-- `is_failed` says that the status is the text "failed".
pub record ExecuteScheduledOfferInput : Type 0 where
  pub ussd_response : Text
  pub ussd_session_id : Text
  pub ussd_processing_time : ℕ
  pub is_failed : Bool
  pub failure_reason : Text

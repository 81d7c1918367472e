-- ===== src/Store/Schema.antt =====
-- What the tables of internal/db/migrations/svc_init.sql admit, where the services write more than
-- that.
use bingwa.Prelude.{Bool, true, false}
use bingwa.Domain.Transaction.{PaymentMethod, airtime, not_given, other_method}
use bingwa.Domain.Schedule.{ScheduleStatus, paused, completed}

pub record Schema : Type 0 where
  -- offer_redemptions.offer_request_id is NOT NULL
  pub requires_request : Bool
  -- the texts of the type payment_method
  pub payment_methods : PaymentMethod → Bool
  -- the texts of the type subscription_status, which is that of scheduled_offers.status
  pub schedule_statuses : ScheduleStatus → Bool

abbrev pub is_payment_method : PaymentMethod → Bool
is_payment_method airtime = false
is_payment_method not_given = false
is_payment_method other_method = false
is_payment_method _ = true

abbrev pub is_subscription_status : ScheduleStatus → Bool
is_subscription_status paused = false
is_subscription_status completed = false
is_subscription_status _ = true

-- The schema of the migrations.
abbrev pub migrated : Schema
migrated = record {
  requires_request = true;
  payment_methods = is_payment_method;
  schedule_statuses = is_subscription_status;
}

-- ===== src/Examples/Schedules.antt =====
-- The theorems on schedules, at one schedule of the agent 7.
use bingwa.Prelude.{◌≡◌, refl, true, false, none, some, [], ◌∷◌}
use bingwa.Float64.{fixed, Fixed}
use bingwa.Domain.Schedule.{
  ScheduledOffer, CreateScheduledOfferRequest, ExecuteScheduledOfferInput, RenewalPeriod,
  ScheduleStatus,
}
use bingwa.Store.{World}
use bingwa.Store.Triples.{Ends}
use bingwa.Store.Schema.{Schema, migrated}
use bingwa.Transaction.Creation.{IsAvailable}
use bingwa.Schedule.Service.{create_scheduled_offer, execute_scheduled_offer, get_due_schedules}
use bingwa.Schedule.Execution.{IsExecuted, execute_scheduled_offer-Ends}
use bingwa.Schedule.Blocked.{execute_scheduled_offer-blocked}
use bingwa.Schedule.Creation.{IsAhead, Same, IsScheduled, create_scheduled_offer-Ends}
use bingwa.Schedule.Moves.{ScheduleMove, called, HasMoved, called-Ends}
use bingwa.Schedule.Due.{AreDue, get_due_schedules-Ends}
use bingwa.Examples.{test_env, test_world, test_database}

-- A schema that takes what the services write
instance abbrev lenient : Schema
lenient = record {
  requires_request = false;
  payment_methods = λ m. true;
  schedule_statuses = λ s. true;
}

-- Renewed twice of three times, and due
abbrev test_schedule : ScheduledOffer
test_schedule = record {
  id = 16;
  schedule_reference = record { prefix = []; made_at = 0; random = [] };
  offer_id = 4;
  agent_identity_id = 7;
  customer_id = none;
  customer_phone = b'0' ∷ b'7' ∷ [];
  scheduled_time = 500;
  next_renewal_date = some 900;
  last_renewal_date = some 800;
  auto_renew = true;
  renewal_period = some RenewalPeriod.daily;
  renewal_count = 1;
  renewal_limit = some 3;
  renew_until = none;
  status = ScheduleStatus.active;
  paused_at = none;
  cancelled_at = none;
  cancellation_reason = none;
  metadata = none;
  created_at = 1;
  updated_at = 1;
}

abbrev schedule_world : World Fixed
schedule_world = record test_world { db = record test_database { schedules = test_schedule ∷ [] } }

abbrev success_input : ExecuteScheduledOfferInput
success_input = record {
  ussd_response = b'O' ∷ b'K' ∷ [];
  ussd_session_id = [];
  ussd_processing_time = 2;
  is_failed = false;
  failure_reason = [];
}

abbrev schedule_request : CreateScheduledOfferRequest
schedule_request = record {
  offer_id = 4;
  customer_phone = b'0' ∷ b'7' ∷ [];
  scheduled_time = 9000;
  auto_renew = true;
  renewal_period = some RenewalPeriod.weekly;
  renewal_limit = none;
  renew_until = none;
  metadata = none;
}

execute_scheduled_offer-Ends_example :
    Ends
      (λ _. IsExecuted 7 16 success_input schedule_world.db)
      (λ d. d ≡ schedule_world.db)
      (execute_scheduled_offer 7 16 success_input schedule_world)
execute_scheduled_offer-Ends_example =
    execute_scheduled_offer-Ends 7 16 success_input schedule_world

execute_scheduled_offer-blocked_example :
    Ends
      (λ _ _. ⊥)
      (λ d. d ≡ schedule_world.db)
      (execute_scheduled_offer ⦃schema = migrated⦄ 7 16 success_input schedule_world)
execute_scheduled_offer-blocked_example =
    execute_scheduled_offer-blocked ⦃schema = migrated⦄ 7 16 success_input schedule_world refl

create_scheduled_offer-Ends_example :
    Ends
      (λ row d.
        (IsAvailable 7 4 schedule_world.db × IsAhead schedule_request)
        × IsScheduled 7 schedule_request schedule_world.db row d)
      (Same 7 schedule_request schedule_world.db)
      (create_scheduled_offer 7 schedule_request schedule_world)
create_scheduled_offer-Ends_example = create_scheduled_offer-Ends 7 schedule_request schedule_world

called-Ends_example :
    Ends
      (λ _. HasMoved 7 16 ScheduleMove.pauses schedule_world.db)
      (λ d. d ≡ schedule_world.db)
      (called 7 16 ScheduleMove.pauses schedule_world)
called-Ends_example = called-Ends 7 16 ScheduleMove.pauses schedule_world

get_due_schedules-Ends_example :
    Ends
      (λ l d. AreDue 7 schedule_world.steps l schedule_world.db × (d ≡ schedule_world.db))
      (λ d. d ≡ schedule_world.db)
      (get_due_schedules 7 schedule_world)
get_due_schedules-Ends_example = get_due_schedules-Ends 7 schedule_world

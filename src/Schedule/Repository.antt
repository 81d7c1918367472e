-- ===== src/Schedule/Repository.antt =====
-- internal/repository/postgres/{scheduled_offer_repo,scheduled_offer_history_repo}.go: one function
-- for each statement that writes, and the lookups. Which statuses the column takes is the schema's.
use bingwa.Prelude.{
  ℕ, ◌+◌, Bool, true, false, ◌&&◌, Option, none, some, List, [], ◌∷◌, ◌++◌, Text, null_string, ◌==◌,
  ltb, leb, find_row, any_row, select, sort_by, update_where, if◌then◌else◌,
}
use bingwa.Domain.Schedule.{
  ScheduledOffer, ScheduledOfferHistory, ScheduleStatus, active, paused, cancelled,
  is_active_schedule,
}
use bingwa.Store.{
  Database, Env, M, query, query_rows, at_time, try_exec, tx_exec, tx_try_insert, affected,
  find_one, wrapping,
}
use bingwa.Store.Schema.{Schema}
use bingwa.Transaction.Repository.{reference_eq}

abbrev pub has_id : ℕ → ScheduledOffer → Bool
has_id k s = s.id == k

-- What the inserts make: the columns of the statements, and the defaults of the rest.
abbrev pub created_schedule : ScheduledOffer → ℕ → ℕ → ScheduledOffer
created_schedule s k t = record s {
  id = k;
  last_renewal_date = none;
  renewal_count = 0;
  paused_at = none;
  cancelled_at = none;
  cancellation_reason = none;
  created_at = t;
  updated_at = t;
}

abbrev pub created_history : ScheduledOfferHistory → ℕ → ℕ → ScheduledOfferHistory
created_history h k t = record h { id = k; created_at = t; updated_at = t }

-- The columns that `Update` writes.
abbrev pub updated : ScheduledOffer → ℕ → ScheduledOffer → ScheduledOffer
updated s t row = record row {
  scheduled_time = s.scheduled_time;
  next_renewal_date = s.next_renewal_date;
  auto_renew = s.auto_renew;
  renewal_period = s.renewal_period;
  renewal_limit = s.renewal_limit;
  renew_until = s.renew_until;
  metadata = s.metadata;
  updated_at = t;
}

abbrev pub with_status : ScheduleStatus → ℕ → ScheduledOffer → ScheduledOffer
with_status status t s = record s { status = status; updated_at = t }

abbrev pub renewed : ℕ → ℕ → ℕ → ℕ → ScheduledOffer → ScheduledOffer
renewed next last count t s = record s {
  next_renewal_date = some next;
  last_renewal_date = some last;
  renewal_count = count;
  updated_at = t;
}

-- `PauseSchedule`, `ResumeSchedule` and `CancelSchedule`
abbrev pub paused_by : ⦃env : Env⦄ → ℕ → ScheduledOffer → ScheduledOffer
paused_by ⦃env⦄ t s = record s {
  status = paused;
  paused_at = some t;
  updated_at = env.second_now t;
}

abbrev pub resumed_by : ℕ → ScheduledOffer → ScheduledOffer
resumed_by t s = record s { status = active; paused_at = none; updated_at = t }

abbrev pub cancelled_by : Text → ℕ → ScheduledOffer → ScheduledOffer
cancelled_by reason t s = record s {
  status = cancelled;
  cancelled_at = some t;
  cancellation_reason = null_string reason;
  updated_at = t;
}

-- `WHERE status = 'active' AND next_renewal_date <= $1`
abbrev pub is_due : ℕ → ScheduledOffer → Bool
is_due t s =
    is_active_schedule s.status && elim s.next_renewal_date [ none ↦ false | some n ↦ leb n t ]

-- `ORDER BY next_renewal_date ASC`, NULL last
abbrev pub renews_before : Option ℕ → Option ℕ → Bool
renews_before none _ = false
renews_before (some a) none = true
renews_before (some a) (some b) = ltb a b

module _ {F : Type 0} where
  -- UPDATE scheduled_offers SET f WHERE id = k
  abbrev pub update_schedule :
      ℕ → (ScheduledOffer → ScheduledOffer) → Database F → Database F × Bool
  update_schedule k f d = (
    record d { schedules = update_where (has_id k) f d.schedules },
    any_row (has_id k) d.schedules,
  )

  abbrev pub with_schedule : ScheduledOffer → Database F → Database F
  with_schedule row d = record d { schedules = d.schedules ++ row ∷ []; next_id = d.next_id + 1 }

  abbrev pub with_history : ScheduledOfferHistory → Database F → Database F
  with_history row d = record d { histories = d.histories ++ row ∷ []; next_id = d.next_id + 1 }

  -- `schedule_reference` is unique.
  abbrev pub inserted_schedule :
      ScheduledOffer → ℕ → Database F → Option (Database F × ScheduledOffer)
  inserted_schedule s t d =
      let row = created_schedule s d.next_id t in
      if any_row (λ x. reference_eq x.schedule_reference s.schedule_reference) d.schedules
      then none
      else some (with_schedule row d, row)

  abbrev pub inserted_history :
      ScheduledOfferHistory → ℕ → Database F → Option (Database F × ScheduledOfferHistory)
  inserted_history h t d = let row = created_history h d.next_id t in some (with_history row d, row)

  -- A status that the column does not take is refused.
  abbrev pub admitted :
      ⦃schema : Schema⦄
      → ScheduleStatus
      → (Database F → Database F × Bool)
      → Database F
      → Option (Database F × Bool)
  admitted ⦃schema⦄ status g d = if schema.schedule_statuses status then some (g d) else none

module _ {F : Type 0} ⦃env : Env⦄ where
  unfoldable pub create_with_tx : ScheduledOffer → M F ScheduledOffer
  create_with_tx s =
      wrapping "failed to create scheduled offer" (tx_try_insert (inserted_schedule s))

  unfoldable pub create_history_with_tx : ScheduledOfferHistory → M F ScheduledOfferHistory
  create_history_with_tx h =
      wrapping "failed to create history" (tx_try_insert (inserted_history h))

  unfoldable pub find_by_id : ℕ → M F ScheduledOffer
  find_by_id k =
      find_one "failed to find scheduled offer" (query λ _ d. find_row (has_id k) d.schedules)

  unfoldable pub update : ℕ → ScheduledOffer → M F (Unit {0})
  update k s = at_time λ t. affected (
      wrapping "failed to update scheduled offer"
        (try_exec λ d. some (update_schedule k (updated s t) d)))

  unfoldable pub update_renewal_info_with_tx : ℕ → ℕ → ℕ → ℕ → M F (Unit {0})
  update_renewal_info_with_tx k next last count = at_time λ t. affected (
      wrapping "failed to update renewal info"
        (tx_exec λ d. some (update_schedule k (renewed next last count t) d)))

  unfoldable pub get_due_schedules : M F (List ScheduledOffer)
  get_due_schedules = at_time λ t. wrapping "failed to get due schedules" (
      query_rows λ _ d.
        sort_by (λ a b. renews_before a.next_renewal_date b.next_renewal_date)
          (select (is_due t) d.schedules))

module _ {F : Type 0} ⦃env : Env⦄ ⦃schema : Schema⦄ where
  unfoldable pub update_status_with_tx : ℕ → ScheduleStatus → M F (Unit {0})
  update_status_with_tx k status = at_time λ t. affected (
      wrapping "failed to update status"
        (tx_exec (admitted status (update_schedule k (with_status status t)))))

  unfoldable pub pause_schedule : ℕ → M F (Unit {0})
  pause_schedule k = at_time λ t. affected (
      wrapping "failed to pause schedule"
        (try_exec (admitted paused (update_schedule k (paused_by t)))))

  unfoldable pub resume_schedule : ℕ → M F (Unit {0})
  resume_schedule k = at_time λ t. affected (
      wrapping "failed to resume schedule"
        (try_exec (admitted active (update_schedule k (resumed_by t)))))

  unfoldable pub cancel_schedule : ℕ → Text → M F (Unit {0})
  cancel_schedule k reason = at_time λ t. affected (
      wrapping "failed to cancel schedule"
        (try_exec (admitted cancelled (update_schedule k (cancelled_by reason t)))))

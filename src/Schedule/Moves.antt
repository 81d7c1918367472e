-- ===== src/Schedule/Moves.antt =====
-- `PauseScheduledOffer`, `ResumeScheduledOffer` and `CancelScheduledOffer` of schedule_service.go.
use bingwa.Prelude.{
  String, ℕ, ◌≡◌, refl, subst, true, false, not, some, Text, ◌==◌, find_row, any_row, update_where,
  update_where-none, arith,
}
use bingwa.Domain.Schedule.{ScheduledOffer, ScheduleStatus, active, paused, cancelled}
use bingwa.Store.{Env, Database, World, M, unauthorized, wrapping, try_exec, at_time, affected}
use bingwa.Store.Triples.{
  Ends, Triple, Triple-bind, Triple-wrapping, Triple-weaken, Triple-refuse_if, Triple-assume,
  Triple-find_one, Triple-return,
}
use bingwa.Store.Constraints.{Triple-try_write}
use bingwa.Store.Schema.{Schema}
use bingwa.Schedule.Repository
use bingwa.Schedule.Repository.{
  has_id, update_schedule, admitted, paused_by, resumed_by, cancelled_by,
}
use bingwa.Schedule.Service
use bingwa.Schedule.Execution.{IsOwn}

pub data ScheduleMove : Type 0 where
  pauses resumes : ScheduleMove
  cancels : Text → ScheduleMove

-- The status that a move writes, and the row.
abbrev pub target : ScheduleMove → ScheduleStatus
target pauses = paused
target resumes = active
target (cancels reason) = cancelled

abbrev pub moved_by : ⦃env : Env⦄ → ScheduleMove → ℕ → ScheduledOffer → ScheduledOffer
moved_by pauses t = paused_by t
moved_by resumes t = resumed_by t
moved_by (cancels reason) t = cancelled_by reason t

module _ {F : Type 0} ⦃env : Env⦄ ⦃schema : Schema⦄ (agent k : ℕ) where
  -- The call of a move.
  abbrev pub called : ScheduleMove → M F (Unit {0})
  called pauses = Service.pause_scheduled_offer agent k
  called resumes = Service.resume_scheduled_offer agent k
  called (cancels reason) = Service.cancel_scheduled_offer agent k reason

  -- The schedule is the agent's, the column takes the status, and only the row is written.
  pub record HasMoved (m : ScheduleMove) (old d : Database F) : Type 0 where
    pub schedule : ScheduledOffer
    pub own : IsOwn agent k schedule old
    pub takes : schema.schedule_statuses (target m) ≡ true
    pub at : ℕ
    pub is_db : d ≡ record old { schedules = update_where (has_id k) (moved_by m at) old.schedules }

  module _ (old : Database F) where
    abbrev Same : Database F → Type 0
    Same d = d ≡ old

    pub get-Triple :
        Triple Same (Service.get_scheduled_offer agent k) (λ s d. IsOwn agent k s old × Same d) Same
    unfolding Service.get_scheduled_offer Repository.find_by_id
    get-Triple =
        Triple-bind
          (Triple-find_one "failed to find scheduled offer" λ _ d. find_row (has_id k) d.schedules)
          λ s.
            Triple-bind
              (Triple-weaken {Q' = λ _ d. IsOwn agent k s old × Same d} (λ d h. h)
                (λ _ d h. (
                  (
                    subst (λ x. find_row (has_id k) x.schedules ≡ some s) h.1.1 h.1.0.1,
                    ground (arith, h.0),
                  ),
                  h.1.1,
                ))
                (λ d h. h.1) (Triple-refuse_if (not (s.agent_identity_id == agent)) unauthorized))
              λ _. Triple-return s λ d h. h

    write-Triple :
        (label : String) (m : ScheduleMove) (s : ScheduledOffer)
        → IsOwn agent k s old
        → Triple Same
            (at_time λ t.
              affected (
                wrapping label (try_exec (admitted (target m) (update_schedule k (moved_by m t))))))
            (λ _. HasMoved m old)
            Same
    write-Triple label m s own =
        Triple-try_write label (λ t. admitted (target m) (update_schedule k (moved_by m t)))
          (λ d h. h)
          (λ t d d' e same. record {
            schedule = s;
            own = own;
            takes = ground arith;
            at = t;
            is_db =
                subst
                  (λ x.
                    d'
                    ≡ record x { schedules = update_where (has_id k) (moved_by m t) x.schedules })
                  same (ground arith);
          })
          (λ t d d' e same. missed t d d' e same)
      where
        missed :
            (t : ℕ) (d d' : Database F)
            → admitted (target m) (update_schedule k (moved_by m t)) d ≡ some (d', false)
            → d ≡ old
            → d' ≡ old
        missed t d d' e same =
            let after : d'
                ≡ record d { schedules = update_where (has_id k) (moved_by m t) d.schedules } =
              ground arith in
            let none_hit : any_row (has_id k) d.schedules ≡ false = ground arith in
            rw after (rw (update_where-none (has_id k) (moved_by m t) d.schedules none_hit) same)

  -- Pausing, resuming and cancelling succeed only for a schedule of the agent, and only if the column
  -- takes the new status; then exactly the row with the id has it. An error leaves everything as it
  -- was.
  pub called-Ends :
      (m : ScheduleMove) (w : World F) → Ends (λ _. HasMoved m w.db) (λ d. d ≡ w.db) (called m w)
  unfolding Service.pause_scheduled_offer Service.resume_scheduled_offer
      Service.cancel_scheduled_offer Repository.pause_schedule Repository.resume_schedule
      Repository.cancel_schedule
  called-Ends pauses w =
      (Triple-bind (get-Triple w.db) λ s. Triple-assume λ own.
          Triple-wrapping "failed to pause schedule"
            (write-Triple w.db "failed to pause schedule" pauses s own)).apply
        w refl
  called-Ends resumes w =
      (Triple-bind (get-Triple w.db) λ s. Triple-assume λ own.
          Triple-wrapping "failed to resume schedule"
            (write-Triple w.db "failed to resume schedule" resumes s own)).apply
        w refl
  called-Ends (cancels reason) w =
      (Triple-bind (get-Triple w.db) λ s. Triple-assume λ own.
          Triple-wrapping "failed to cancel schedule"
            (write-Triple w.db "failed to cancel schedule" (cancels reason) s own)).apply
        w refl

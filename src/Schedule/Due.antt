-- ===== src/Schedule/Due.antt =====
-- `GetDueSchedules` of schedule_service.go.
use bingwa.Prelude.{
  ℕ, ◌≡◌, ◌≤◌, refl, ◌∙◌, Bool, ◌&&◌, Option, none, some, List, ◌==◌, select, sort_by, take, tally,
  tally-sort_by, tally-select, tally-take_le, arith,
}
use bingwa.Domain.Schedule.{ScheduledOffer}
use bingwa.Store.{Env, Database, World, before_break, driver, fails, next_step}
use bingwa.Store.Triples.{Ends, Ends-if, bind-Ends, wrapping-Ends, Triple-return}
use bingwa.Schedule.Repository
use bingwa.Schedule.Repository.{is_due, renews_before}
use bingwa.Schedule.Service

-- How many rows of a kind are listed, of those that are due: all of them, or at most as many where the
-- read breaks off.
abbrev pub Listed : Option ℕ → ℕ → ℕ → Type 0
Listed none listed due = listed ≡ due
Listed (some k) listed due = listed ≤ due

module _ {F : Type 0} ⦃env : Env⦄ (agent : ℕ) where
  -- The rows of the list that is read at the n-th step are, counted by any test, the agent's active
  -- schedules whose next date has come at the clock's time, or some of them where the read breaks off.
  abbrev pub AreDue : ℕ → List ScheduledOffer → Database F → Type 0
  AreDue n l d =
      (p : ScheduledOffer → Bool)
      → Listed (env.rows_read n) (tally p l) (
          tally (λ s. is_due (env.clock n) s && ((s.agent_identity_id == agent) && p s))
            d.schedules)

module _ ⦃env : Env⦄ (agent : ℕ) where
  counted :
      (n : ℕ) (rows : List ScheduledOffer) (p : ScheduledOffer → Bool)
      → tally p (
          select
            (λ s. s.agent_identity_id == agent)
            (sort_by
              (λ a b. renews_before a.next_renewal_date b.next_renewal_date)
              (select (is_due (env.clock n)) rows)))
        ≡ tally (λ s. is_due (env.clock n) s && ((s.agent_identity_id == agent) && p s)) rows
  counted n rows p =
      tally-select p (λ s. s.agent_identity_id == agent) _
      ∙ tally-sort_by (λ s. (s.agent_identity_id == agent) && p s)
          (λ a b. renews_before a.next_renewal_date b.next_renewal_date)
          (select (is_due (env.clock n)) rows)
      ∙ tally-select (λ s. (s.agent_identity_id == agent) && p s) (is_due (env.clock n)) rows

module _ {F : Type 0} ⦃env : Env⦄ (agent : ℕ) where
  due_rows : ℕ → Database F → List ScheduledOffer
  due_rows t d =
      sort_by (λ a b. renews_before a.next_renewal_date b.next_renewal_date)
        (select (is_due t) d.schedules)

  listed_lem :
      (b : Option ℕ) (n : ℕ) (d : Database F) (p : ScheduledOffer → Bool)
      → Listed b
          (tally p (
            select (λ s. s.agent_identity_id == agent) (before_break b (due_rows (env.clock n) d))))
          (tally
            (λ s. is_due (env.clock n) s && ((s.agent_identity_id == agent) && p s))
            d.schedules)
  unfolding due_rows
  listed_lem none n d p = counted agent n d.schedules p
  listed_lem (some k) n d p =
      let mine : ScheduledOffer → Bool = λ s. s.agent_identity_id == agent in
      let rows : List ScheduledOffer = due_rows (env.clock n) d in
      omega (
        arith,
        tally-select p mine (take k rows),
        tally-take_le (λ s. mine s && p s) k rows,
        tally-select p mine rows,
        counted agent n d.schedules p,
      )

  abbrev IsRead : ℕ → Database F → List ScheduledOffer → Database F → Type 0
  IsRead n old l d = (l ≡ before_break (env.rows_read n) (due_rows (env.clock n) old)) × (d ≡ old)

  repository-Ends :
      (w : World F) → Ends (IsRead w.steps w.db) (λ d. d ≡ w.db) (Repository.get_due_schedules w)
  unfolding Repository.get_due_schedules due_rows
  repository-Ends w =
      wrapping-Ends (IsRead w.steps w.db) (λ d. d ≡ w.db) "failed to get due schedules" _ _
        (Ends-if (IsRead w.steps w.db) (λ d. d ≡ w.db) (fails w) (driver w.steps) _ (next_step w)
          (λ _. refl) (λ _. (refl, refl)))

  -- GetDueSchedules changes nothing, and its list holds, each as often as the table does, exactly the
  -- agent's active schedules whose next renewal date had come when the call began; where the read of
  -- the list breaks off, it holds no schedule but those, and none more often, and is no error.
  pub get_due_schedules-Ends :
      (w : World F)
      → Ends
          (λ l d. AreDue agent w.steps l w.db × (d ≡ w.db))
          (λ d. d ≡ w.db)
          (Service.get_due_schedules agent w)
  unfolding Service.get_due_schedules
  get_due_schedules-Ends w =
      bind-Ends (IsRead w.steps w.db) (λ d. d ≡ w.db)
        (λ l d. AreDue agent w.steps l w.db × (d ≡ w.db)) _ _ _
        (λ all.
          Triple-return (select (λ s. s.agent_identity_id == agent) all)
            λ d h. ((λ p. rw h.0 (listed_lem (env.rows_read w.steps) w.steps w.db p)), h.1))
        (wrapping-Ends (IsRead w.steps w.db) (λ d. d ≡ w.db) "failed to get due schedules" _ _
          (repository-Ends w))

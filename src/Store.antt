-- ===== src/Store.antt =====
-- What the services stand on: errors (internal/pkg/errors), the database with its transactions,
-- and the process's clock. PostgreSQL, pgx and the context are the environment: `Env` says which
-- statement fails, what the clock shows and how a wait for a row lock ends.
pub mod Transactions
pub mod Triples
pub mod Reads
pub mod Locks
pub mod Constraints
pub mod Bodies
pub mod Statements
pub mod Staged
pub mod Schema
use bingwa.Prelude.{
  ℕ, ◌+◌, ◌≤◌, ◌<◌, ◌≡◌, Bool, true, false, ◌&&◌, ◌||◌, not, Option, none, some, List, [], ◌∷◌,
  String, ◌==◌, any_row, take, if◌then◌else◌,
}
use bingwa.Domain.Subscription.{SubscriptionPlan, AgentSubscription}
use bingwa.Domain.Campaign.{PromotionalCampaign}
use bingwa.Domain.Offer.{AgentOffer, OfferUssdCode, Placeholder}
use bingwa.Domain.Customer.{AgentCustomer}
use bingwa.Domain.Transaction.{OfferRequest, OfferRedemption}
use bingwa.Domain.Schedule.{ScheduledOffer, ScheduledOfferHistory}

-- The sentinels of error.go that the services compare or return, `sql.ErrNoRows`, an error of the
-- driver, `fmt.Errorf(format, …)` with its format, and `fmt.Errorf(format + ": %w", err)`. Last, the
-- panic of a nil pointer, which ends the call as an error does.
pub data Error : Type 0 where
  not_found unauthorized sql_no_rows nil_pointer : Error
  driver : ℕ → Error
  msg : String → Error
  wrap : String → Error → Error

-- `err == sql.ErrNoRows`
abbrev pub is_sql_no_rows : Error → Bool
is_sql_no_rows sql_no_rows = true
is_sql_no_rows _ = false

-- `err == xerrors.ErrNotFound`
abbrev pub is_not_found : Error → Bool
is_not_found not_found = true
is_not_found _ = false

pub data Result {ℓ} (A : Type ℓ) : Type ℓ where
  ok : A → Result A
  err : Error → Result A

-- How a statement's wait for a row lock ends when the lock is held by the caller's own open
-- transaction: by the server's lock or statement timeout, or because the context is cancelled.
pub data LockWait : Type 0 where
  timed_out context_cancelled : LockWait

abbrev pub ends_by_cancel : LockWait → Bool
ends_by_cancel timed_out = false
ends_by_cancel context_cancelled = true

pub record Env : Type 0 where
  -- whether the n-th step is a statement that fails, for whatever reason
  pub fault : ℕ → Bool
  -- `time.Now()` and SQL's `NOW()` at the n-th step
  pub clock : ℕ → ℕ
  -- the second `time.Now()` among the arguments of a statement, by what the first one gave
  pub second_now : ℕ → ℕ
  -- `t.AddDate(years, months, days)`
  pub add_date : ℕ → ℕ → ℕ → ℕ → ℕ
  -- `t.Format("200601")`, `t.Format("20060102")` and `t.Format("20060102150405")`
  pub year_month : ℕ → ℕ
  pub day : ℕ → ℕ
  pub second : ℕ → ℕ
  -- the order in which a `range` over the map of replacements goes through its keys, at the n-th step
  pub map_order : ℕ → List Placeholder
  -- what pgx's `QueryRow(…).Scan` returns for no row
  pub no_rows : Error
  pub lock_wait : ℕ → LockWait
  -- after how many rows the list that is read at the n-th step breaks off, if it does
  pub rows_read : ℕ → Option ℕ

-- The tables, with the sequence that gives new rows their ids.
pub record Database (F : Type 0) : Type 0 where
  pub plans : List (SubscriptionPlan F)
  pub subscriptions : List (AgentSubscription F)
  pub campaigns : List (PromotionalCampaign F)
  pub offers : List (AgentOffer F)
  pub ussd_codes : List OfferUssdCode
  pub customers : List AgentCustomer
  pub requests : List (OfferRequest F)
  pub redemptions : List (OfferRedemption F)
  pub schedules : List ScheduledOffer
  pub histories : List ScheduledOfferHistory
  pub next_id : ℕ

-- The committed tables, what the open transaction has written, the ids of the subscription rows
-- that it has locked, whether the request's context is cancelled, and the steps made so far.
pub record World (F : Type 0) : Type 0 where
  pub db : Database F
  pub uncommitted : Database F → Database F
  pub locked : List ℕ
  pub cancelled : Bool
  pub steps : ℕ

abbrev pub M : Type 0 → Type 0 → Type 0
M F A = World F → Result A × World F

module _ {F A : Type 0} where
  abbrev pub pure : A → M F A
  pure a w = (ok a, w)

  abbrev pub raise : Error → M F A
  raise e w = (err e, w)

  -- `if err != nil { return fmt.Errorf("…: %w", err) }`
  abbrev pub wrapping : String → M F A → M F A
  wrapping s m w = let (r, w') = m w in elim r [ ok a ↦ (ok a, w') | err e ↦ (err (wrap s e), w') ]

  -- Runs an action and keeps its error as a value.
  abbrev pub attempt : M F A → M F (Result A)
  attempt m w = let (r, w') = m w in (ok r, w')

module _ {F A : Type 0} where
  abbrev pub returned : Error → Option (Database F × A) → Result A
  returned e none = err e
  returned e (some (d, a)) = ok a

  abbrev pub stored : Database F → Option (Database F × A) → Database F
  stored old none = old
  stored old (some (d, a)) = d

infixl 5 ◌>>=◌ ◌>>◌
abbrev pub ◌>>=◌ : {F A B : Type 0} → M F A → (A → M F B) → M F B
◌>>=◌ m f w = let (r, w') = m w in elim r [ ok a ↦ f a w' | err e ↦ (err e, w') ]

abbrev pub ◌>>◌ : {F A B : Type 0} → M F A → M F B → M F B
m >> k = m >>= λ _. k

-- The rows of a list that are read.
abbrev pub before_break : {A : Type 0} → Option ℕ → List A → List A
before_break none rows = rows
before_break (some k) rows = take k rows

-- The next request: it has a context of its own, and no open transaction.
abbrev pub fresh : {F : Type 0} → World F → World F
fresh w = record w { uncommitted = λ d. d; locked = []; cancelled = false }

-- `if c { return err }`
abbrev pub refuse_if : {F : Type 0} → Bool → Error → M F (Unit {0})
refuse_if c e w = (if c then err e else ok tt, w)

-- A validation's error, which is returned as it is.
abbrev pub refuse : {F : Type 0} → Option String → M F (Unit {0})
refuse none = pure tt
refuse (some s) = raise (msg s)

module _ {F : Type 0} ⦃env : Env⦄ where
  abbrev pub next_step : World F → World F
  next_step w = record w { steps = w.steps + 1 }

  -- `time.Now()`
  abbrev pub now : M F ℕ
  now w = (ok (env.clock w.steps), next_step w)

  -- A statement with `time.Now()` among its arguments.
  abbrev pub at_time : {A : Type 0} → (ℕ → M F A) → M F A
  at_time m w = m (env.clock w.steps) w

  abbrev pub fails : World F → Bool
  fails w = w.cancelled || env.fault w.steps

  -- A `SELECT` on the pool: it sees what is committed, and SQL's `NOW()`.
  abbrev pub query : {A : Type 0} → (ℕ → Database F → A) → M F A
  query f w =
      (if fails w then err (driver w.steps) else ok (f (env.clock w.steps) w.db), next_step w)

  -- `Query` with a loop on `rows.Next()`. No such function of the repositories looks at `rows.Err()`
  -- after the loop, so that a read that breaks off gives the rows before that, and no error.
  abbrev pub query_rows : {A : Type 0} → (ℕ → Database F → List A) → M F (List A)
  query_rows f w = (
    if fails w
        then err (driver w.steps)
        else ok (before_break (env.rows_read w.steps) (f (env.clock w.steps) w.db)),
    next_step w,
  )

  -- An `UPDATE` or `DELETE` on the pool, which commits by itself. The function gives the new
  -- tables and whether a row was hit, `RowsAffected() != 0`.
  abbrev pub exec : (Database F → Database F × Bool) → M F Bool
  exec g w = (
    if fails w then err (driver w.steps) else ok (g w.db).1,
    record w { db = if fails w then w.db else (g w.db).0; steps = w.steps + 1 },
  )

  -- The caller's own transaction holds the lock of the row.
  abbrev pub waits : ℕ → World F → Bool
  waits id w = any_row (λ k. k == id) w.locked

  -- The same on one row of agent_subscriptions. If the caller's own transaction holds the row's
  -- lock, the statement can only wait, until it is timed out or the context is cancelled.
  abbrev pub exec_subscription : ℕ → (Database F → Database F × Bool) → M F Bool
  exec_subscription id g w = (
    if waits id w || fails w then err (driver w.steps) else ok (g w.db).1,
    record w {
      db = if waits id w || fails w then w.db else (g w.db).0;
      cancelled = w.cancelled || waits id w && ends_by_cancel (env.lock_wait w.steps);
      steps = w.steps + 1;
    },
  )

  -- A statement of the open transaction on one row of agent_subscriptions.
  abbrev pub tx_exec_subscription : ℕ → (Database F → Database F × Bool) → M F Bool
  tx_exec_subscription id g w = (
    if fails w then err (driver w.steps) else ok (g (w.uncommitted w.db)).1,
    record w {
      uncommitted = if fails w then w.uncommitted else (λ d. (g (w.uncommitted d)).0);
      locked = if fails w then w.locked else id ∷ w.locked;
      steps = w.steps + 1;
    },
  )

  -- `tx.QueryRow(INSERT … RETURNING id, created_at, updated_at)`: from the time and the tables,
  -- the tables with the row, and the row as it was made.
  abbrev pub tx_insert : {A : Type 0} → (ℕ → Database F → Database F × A) → M F A
  tx_insert g w =
      let t = env.clock w.steps in
      (
        if fails w then err (driver w.steps) else ok (g t (w.uncommitted w.db)).1,
        record w {
          uncommitted = if fails w then w.uncommitted else (λ d. (g t (w.uncommitted d)).0);
          steps = w.steps + 1;
        },
      )

  -- The same for a table with constraints; `none` is a row that breaks one.
  abbrev pub tx_try_insert : {A : Type 0} → (ℕ → Database F → Option (Database F × A)) → M F A
  tx_try_insert g w =
      let made = g (env.clock w.steps) (w.uncommitted w.db) in
      (
        if fails w then err (driver w.steps) else returned (driver w.steps) made,
        record w {
          uncommitted =
              if fails w
              then w.uncommitted
              else (λ d. stored (w.uncommitted d) (g (env.clock w.steps) (w.uncommitted d)));
          steps = w.steps + 1;
        },
      )

  -- An `UPDATE` of the open transaction on a table that no statement of the pool writes while it is
  -- open; `none` is a value that breaks a constraint.
  abbrev pub tx_exec : (Database F → Option (Database F × Bool)) → M F Bool
  tx_exec g w = (
    if fails w then err (driver w.steps) else returned (driver w.steps) (g (w.uncommitted w.db)),
    record w {
      uncommitted =
          if fails w then w.uncommitted else (λ d. stored (w.uncommitted d) (g (w.uncommitted d)));
      steps = w.steps + 1;
    },
  )

  -- A `SELECT` of the open transaction: it sees what the transaction has written.
  abbrev pub tx_query : {A : Type 0} → (Database F → A) → M F A
  tx_query f w =
      (if fails w then err (driver w.steps) else ok (f (w.uncommitted w.db)), next_step w)

  -- An `UPDATE` on the pool; `none` is a value that breaks a constraint of the table.
  abbrev pub try_exec : (Database F → Option (Database F × Bool)) → M F Bool
  try_exec g w = (
    if fails w then err (driver w.steps) else returned (driver w.steps) (g w.db),
    record w { db = if fails w then w.db else stored w.db (g w.db); steps = w.steps + 1 },
  )

  -- An `INSERT … RETURNING` on the pool; `none` is a row that breaks a constraint of the table.
  abbrev pub insert : {A : Type 0} → (ℕ → Database F → Option (Database F × A)) → M F A
  insert g w =
      let made = g (env.clock w.steps) w.db in
      (
        if fails w then err (driver w.steps) else returned (driver w.steps) made,
        record w { db = if fails w then w.db else stored w.db made; steps = w.steps + 1 },
      )

  -- `tx.Rollback`
  abbrev pub rollback : World F → World F
  rollback w = record w { uncommitted = λ d. d; locked = [] }

  -- `BeginTx`
  abbrev pub begin : M F (Unit {0})
  begin w = (if fails w then err (driver w.steps) else ok tt, next_step (rollback w))

  -- `tx.Commit`: a commit that fails applies nothing.
  abbrev pub commit : M F (Unit {0})
  commit w = (
    if fails w then err (driver w.steps) else ok tt,
    record w {
      db = if fails w then w.db else w.uncommitted w.db;
      uncommitted = λ d. d;
      locked = [];
      steps = w.steps + 1;
    },
  )

  -- `defer tx.Rollback(ctx)`
  abbrev pub with_rollback : {A : Type 0} → M F A → M F A
  with_rollback m w = let (r, w') = m w in (r, rollback w')

  -- A transaction that commits by itself.
  abbrev pub in_transaction : {A : Type 0} → M F A → M F A
  in_transaction m = do wrapping "failed to begin transaction" begin; with_rollback m

  -- The shape of nearly every transaction of the services.
  abbrev pub transact : {A : Type 0} → M F A → M F A
  transact body = do
    wrapping "failed to begin transaction" begin
    with_rollback do a ← body; wrapping "failed to commit transaction" commit; pure a

  -- `if result.RowsAffected() == 0 { return xerrors.ErrNotFound }`
  abbrev pub affected : M F Bool → M F (Unit {0})
  affected m = do hit ← m; refuse_if (not hit) not_found

  -- `QueryRow(…).Scan(…)`, and what the repositories make of its errors: they compare with
  -- `sql.ErrNoRows` by `==`.
  abbrev pub find_one : {A : Type 0} → String → M F (Option A) → M F A
  find_one s m w =
      let (r, w') = m w in
      elim r [
        | ok (some a) ↦ (ok a, w')
        | ok none ↦ (err (if is_sql_no_rows env.no_rows then not_found else wrap s env.no_rows), w')
        | err e ↦ (err (if is_sql_no_rows e then not_found else wrap s e), w')
      ]

-- `AddDate` with arguments that are not negative, one of them positive, gives a later time.
pub record IsCalendar (env : Env) : Type 0 where
  pub not_before : (t y m d : ℕ) → t ≤ env.add_date t y m d
  pub later : (t y m d : ℕ) → 0 < y + m + d → t < env.add_date t y m d

-- No list that is read breaks off.
pub record IsComplete (env : Env) : Type 0 where
  pub unbroken : (n : ℕ) → env.rows_read n ≡ none

-- The clock is not set back while a call runs.
pub record IsClock (env : Env) : Type 0 where
  pub forward : (n : ℕ) → env.clock n ≤ env.clock (n + 1)

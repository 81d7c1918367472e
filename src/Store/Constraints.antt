-- ===== src/Store/Constraints.antt =====
-- Rules for the statements of the pool and of a transaction on tables with constraints.
use bingwa.Prelude.{ℕ, ◌+◌, ◌≡◌, refl, Bool, true, false, Option, none, some, if◌then◌else◌, String}
use bingwa.Store.{
  M, err, Env, Database, World, returned, stored, driver, fails, try_exec, at_time, affected,
  wrapping,
}
use bingwa.Store.Triples.{Ends, Triple, Triple-at_time, Triple-affected, Triple-wrapping}

module _ {F : Type 0} ⦃env : Env⦄ where
  -- A write takes the tables from `P` to `E`, or is refused or fails, and leaves them.
  pub Triple-try_exec :
      {P E : Database F → Type 0} (g : Database F → Option (Database F × Bool))
      → ((d : Database F) → P d → E d)
      → ((d d' : Database F) (hit : Bool) → g d ≡ some (d', hit) → P d → E d')
      → Triple P (try_exec g) (λ _. E) E
  Triple-try_exec {P} {E} g kept written = record { apply = λ w h. go w (g w.db) refl (fails w) h }
    where
      go :
          (w : World F) (made : Option (Database F × Bool))
          → g w.db ≡ made
          → (b : Bool) → P w.db
          → Ends
              (λ _. E)
              E
              (
                if b then err (driver w.steps) else returned (driver w.steps) made,
                record w { db = if b then w.db else stored w.db made; steps = w.steps + 1 },
              )
      go w none e true h = kept w.db h
      go w none e false h = kept w.db h
      go w (some (d, hit)) e true h = kept w.db h
      go w (some (d, hit)) e false h = written w.db d hit e h

  -- The same for a whole `UPDATE … WHERE id = $n`.
  pub Triple-try_update :
      {P E : Database F → Type 0} (s : String) (g : ℕ → Database F → Option (Database F × Bool))
      → ((d : Database F) → P d → E d)
      → ((t : ℕ) (d d' : Database F) (hit : Bool) → g t d ≡ some (d', hit) → P d → E d')
      → Triple P (at_time λ t. affected (wrapping s (try_exec (g t)))) (λ _. E) E
  Triple-try_update s g kept written =
      Triple-at_time
        λ t. Triple-affected (Triple-wrapping s (Triple-try_exec (g t) kept (written t)))

  -- The same, with what holds where a row is hit.
  pub Triple-try_write :
      {P Q E : Database F → Type 0} (s : String) (g : ℕ → Database F → Option (Database F × Bool))
      → ((d : Database F) → P d → E d)
      → ((t : ℕ) (d d' : Database F) → g t d ≡ some (d', true) → P d → Q d')
      → ((t : ℕ) (d d' : Database F) → g t d ≡ some (d', false) → P d → E d')
      → Triple P (at_time λ t. affected (wrapping s (try_exec (g t)))) (λ _. Q) E
  Triple-try_write {P} {Q} {E} s g kept written missed = record {
    apply = λ w h. go w (g (env.clock w.steps) w.db) refl (fails w) h;
  }
    where
      go :
          (w : World F) (made : Option (Database F × Bool))
          → g (env.clock w.steps) w.db ≡ made
          → (b : Bool) → P w.db
          → let tried : M F Bool = λ _. (
            if b then err (driver w.steps) else returned (driver w.steps) made,
            record w { db = if b then w.db else stored w.db made; steps = w.steps + 1 },
          ) in
            Ends (λ _. Q) E (affected (wrapping s tried) w)
      go w none e true h = kept w.db h
      go w none e false h = kept w.db h
      go w (some (d, hit)) e true h = kept w.db h
      go w (some (d, true)) e false h = written (env.clock w.steps) w.db d e h
      go w (some (d, false)) e false h = missed (env.clock w.steps) w.db d e h

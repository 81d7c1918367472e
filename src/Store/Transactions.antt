-- ===== src/Store/Transactions.antt =====
-- What a transaction leaves in the tables, from what its body does before the commit.
use bingwa.Prelude.{◌+◌, [], ◌≡◌, refl, Bool, true, false, if◌then◌else◌}
use bingwa.Store.{
  Result, ok, err, Env, Database, World, M, driver, pure, wrapping, commit, rollback, transact,
  with_rollback, fails, next_step, ◌>>=◌, ◌>>◌,
}
use bingwa.Store.Triples.{Ends}

-- A body that returns a value will leave `Q` if its commit does not fail; until then, and when it
-- returns an error, the tables satisfy `E`.
abbrev pub EndsInside :
    {F A : Type 0} ⦃env : Env⦄
    → (A → Database F → Type 0)
    → (Database F → Type 0)
    → Result A × World F
    → Type 0
EndsInside Q E (ok a, w) = E w.db × ((fails w ≡ false) → Q a (w.uncommitted w.db))
EndsInside Q E (err e, w) = E w.db

module _ {F A : Type 0} ⦃env : Env⦄ (Q : A → Database F → Type 0) (E : Database F → Type 0) where
  commit-Ends :
      (a : A) (w : World F) (b : Bool)
      → E w.db
      → ((b ≡ false) → Q a (w.uncommitted w.db))
      → let committed : M F (Unit {0}) = λ _. (
        if b then err (driver w.steps) else ok tt,
        record w {
          db = if b then w.db else w.uncommitted w.db;
          uncommitted = λ d. d;
          locked = [];
          steps = w.steps + 1;
        },
      ) in
        Ends Q E ((with_rollback do wrapping "failed to commit transaction" committed; pure a) w)
  commit-Ends a w true e q = e
  commit-Ends a w false e q = q refl

  body-Ends :
      (r : Result A) (w : World F)
      → EndsInside Q E (r, w)
      → let body : M F A = λ _. (r, w) in
        Ends Q E
          ((with_rollback do a ← body; wrapping "failed to commit transaction" commit; pure a) w)
  body-Ends (ok a) w h = commit-Ends a w (fails w) h.0 h.1
  body-Ends (err e) w h = h

  begin-Ends :
      (body : M F A) (w : World F) (b : Bool)
      → E w.db
      → EndsInside Q E (body (next_step (rollback w)))
      → let begun : M F (Unit {0}) =
          λ _. (if b then err (driver w.steps) else ok tt, next_step (rollback w)) in
        Ends Q E (
          (do
            wrapping "failed to begin transaction" begun
            with_rollback do a ← body; wrapping "failed to commit transaction" commit; pure a)
            w)
  begin-Ends body w true e h = e
  begin-Ends body w false e h = body-Ends _ _ h

  -- The body is only asked for the world in which a transaction begins.
  pub transact-Ends :
      (body : M F A) (w : World F)
      → E w.db
      → EndsInside Q E (body (next_step (rollback w)))
      → Ends Q E (transact body w)
  transact-Ends body w e h = begin-Ends body w (fails w) e h

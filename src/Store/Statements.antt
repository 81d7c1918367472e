-- ===== src/Store/Statements.antt =====
-- Rules for the statements inside a transaction, its commit and its rollback.
use bingwa.Prelude.{
  ℕ, ◌+◌, [], ◌≡◌, refl, Bool, true, false, Option, none, some, String, if◌then◌else◌,
}
use bingwa.Store.{
  Result, ok, err, Env, Database, World, M, wrapping, now, at_time, tx_try_insert, tx_exec,
  tx_query, driver, returned, stored, fails, affected, exec, transact, commit, in_transaction,
  rollback, next_step, with_rollback, ◌>>=◌,
}
use bingwa.Store.Triples.{Ends, Triple}
use bingwa.Store.Transactions.{EndsInside, transact-Ends}
use bingwa.Store.Bodies.{EndsIn, Inside, Tables}

module _ {F : Type 0} ⦃env : Env⦄ where
  pub Inside-now : {P : Tables F} {E : Database F → Type 0} → Inside P now (λ _. P) E
  Inside-now = record { apply = λ w h. h }

  pub Inside-at_time :
      {A : Type 0} {P : Tables F} {Q : A → Tables F} {E : Database F → Type 0} {m : ℕ → M F A}
      → ((t : ℕ) → Inside P (m t) Q E)
      → Inside P (at_time m) Q E
  Inside-at_time k = record { apply = λ w h. (k (env.clock w.steps)).apply w h }

  -- What a statement adds to the transaction.
  abbrev pub then_stored :
      {X : Type 0}
      → (Database F → Option (Database F × X))
      → (Database F → Database F)
      → Database F
      → Database F
  then_stored g u x = stored (u x) (g (u x))

  -- An insert of the transaction: it makes the row, or fails, or is refused.
  pub Inside-insert :
      {A : Type 0} {P : Tables F} {Q : A → Tables F} {E : Database F → Type 0}
      (g : ℕ → Database F → Option (Database F × A))
      → ((d : Database F) (u : Database F → Database F) → P d u → E d)
      → ((t : ℕ) (d : Database F) (u : Database F → Database F) (p : Database F) (a : A)
          → g t (u d) ≡ some (p, a)
          → P d u
          → Q a d (then_stored (g t) u))
      → Inside P (tx_try_insert g) Q E
  Inside-insert {A} {P} {Q} {E} g kept made = record {
    apply = λ w h. go w (fails w) (g (env.clock w.steps) (w.uncommitted w.db)) refl h;
  }
    where
      go :
          (w : World F) (b : Bool) (o : Option (Database F × A))
          → g (env.clock w.steps) (w.uncommitted w.db) ≡ o
          → P w.db w.uncommitted
          → EndsIn Q E (
            if b then err (driver w.steps) else returned (driver w.steps) o,
            record w {
              uncommitted =
                  if b
                  then w.uncommitted
                  else (λ d. stored (w.uncommitted d) (g (env.clock w.steps) (w.uncommitted d)));
              steps = w.steps + 1;
            },
          )
      go w true o e h = kept w.db w.uncommitted h
      go w false none e h = kept w.db w.uncommitted h
      go w false (some (p, a)) e h = made (env.clock w.steps) w.db w.uncommitted p a e h

  -- A whole `UPDATE … WHERE id = $n` of the transaction.
  pub Inside-update :
      {P Q : Tables F} {E : Database F → Type 0} (s : String)
      (g : ℕ → Database F → Option (Database F × Bool))
      → ((d : Database F) (u : Database F → Database F) → P d u → E d)
      → ((t : ℕ) (d : Database F) (u : Database F → Database F) (p : Database F)
          → g t (u d) ≡ some (p, true)
          → P d u
          → Q d (then_stored (g t) u))
      → Inside P (at_time λ t. affected (wrapping s (tx_exec (g t)))) (λ _. Q) E
  Inside-update {P} {Q} {E} s g kept made = record {
    apply = λ w h. go w (fails w) (g (env.clock w.steps) (w.uncommitted w.db)) refl h;
  }
    where
      go :
          (w : World F) (b : Bool) (o : Option (Database F × Bool))
          → g (env.clock w.steps) (w.uncommitted w.db) ≡ o
          → P w.db w.uncommitted
          → let written : M F Bool = λ _. (
            if b then err (driver w.steps) else returned (driver w.steps) o,
            record w {
              uncommitted =
                  if b
                  then w.uncommitted
                  else (λ d. stored (w.uncommitted d) (g (env.clock w.steps) (w.uncommitted d)));
              steps = w.steps + 1;
            },
          ) in
            EndsIn (λ _. Q) E (affected (wrapping s written) w)
      go w true o e h = kept w.db w.uncommitted h
      go w false none e h = kept w.db w.uncommitted h
      go w false (some (p, true)) e h = made (env.clock w.steps) w.db w.uncommitted p e h
      go w false (some (p, false)) e h = kept w.db w.uncommitted h

  -- A read of the transaction.
  pub Inside-query :
      {A : Type 0} {P : Tables F} {E : Database F → Type 0} (f : Database F → A)
      → ((d : Database F) (u : Database F → Database F) → P d u → E d)
      → Inside P (tx_query f) (λ a d u. (f (u d) ≡ a) × P d u) E
  Inside-query {A} {P} {E} f kept = record { apply = λ w h. go w (fails w) h }
    where
      go :
          (w : World F) (b : Bool)
          → P w.db w.uncommitted
          → EndsIn
              (λ a d u. (f (u d) ≡ a) × P d u)
              E
              (
                if b then err (driver w.steps) else ok (f (w.uncommitted w.db)),
                record w { steps = w.steps + 1 },
              )
      go w true h = kept w.db w.uncommitted h
      go w false h = (refl, h)

  -- A transaction leaves what its body has written where it is committed, and nothing otherwise.
  pub Triple-transact :
      {A : Type 0} {P : Database F → Type 0} {Q : A → Database F → Type 0} {E : Database F → Type 0}
      {body : M F A}
      → ((d : Database F) → P d → E d)
      → Inside (λ d u. P d × (u ≡ (λ x. x))) body (λ a d u. E d × Q a (u d)) E
      → Triple P (transact body) Q E
  Triple-transact {A} {P} {Q} {E} {body} kept t = record {
    apply = λ w h. transact-Ends Q E body w (kept w.db h) (inside _ (t.apply _ (h, refl)));
  }
    where
      inside : (o : Result A × World F) → EndsIn (λ a d u. E d × Q a (u d)) E o → EndsInside Q E o
      inside (ok a, w) h = (h.0, λ _. h.1)
      inside (err e, w) h = h

  -- A commit makes what was written the tables, or leaves them.
  pub Inside-commit :
      {P : Tables F} {Q E : Database F → Type 0}
      → ((d : Database F) (u : Database F → Database F) → P d u → E d)
      → ((d : Database F) (u : Database F → Database F) → P d u → Q (u d))
      → Inside P commit (λ _ d u. Q d) E
  Inside-commit {P} {Q} {E} kept made = record { apply = λ w h. go w (fails w) h }
    where
      go :
          (w : World F) (b : Bool)
          → P w.db w.uncommitted
          → EndsIn
              (λ (_ : Unit {0}) d u. Q d)
              E
              (
                if b then err (driver w.steps) else ok tt,
                record w {
                  db = if b then w.db else w.uncommitted w.db;
                  uncommitted = λ d. d;
                  locked = [];
                  steps = w.steps + 1;
                },
              )
      go w true h = kept w.db w.uncommitted h
      go w false h = made w.db w.uncommitted h

  pub Triple-in_transaction :
      {A : Type 0} {P : Database F → Type 0} {Q : A → Database F → Type 0} {E : Database F → Type 0}
      {m : M F A}
      → ((d : Database F) → P d → E d)
      → Inside (λ d u. P d × (u ≡ (λ x. x))) m (λ a d u. Q a d) E
      → Triple P (in_transaction m) Q E
  Triple-in_transaction {A} {P} {Q} {E} {m} kept t = record { apply = λ w h. go w (fails w) h }
    where
      rolled_back :
          (o : Result A × World F) → EndsIn (λ a d u. Q a d) E o → Ends Q E (o.0, rollback o.1)
      rolled_back (ok a, w) h = h
      rolled_back (err e, w) h = h

      go :
          (w : World F) (b : Bool)
          → P w.db
          → let begun : M F (Unit {0}) =
              λ _. (if b then err (driver w.steps) else ok tt, next_step (rollback w)) in
            Ends Q E ((wrapping "failed to begin transaction" begun >>= λ _. with_rollback m) w)
      go w true h = kept w.db h
      go w false h =
          rolled_back (m (next_step (rollback w))) (t.apply (next_step (rollback w)) (h, refl))

  -- A whole `UPDATE … WHERE id = $n` of the pool while the transaction is open.
  pub Inside-pool_update :
      {P Q : Tables F} {E : Database F → Type 0} (s : String)
      (g : ℕ → Database F → Database F × Bool)
      → ((d : Database F) (u : Database F → Database F) → P d u → E d)
      → ((t : ℕ) (d : Database F) (u : Database F → Database F)
          → P d u
          → Q (g t d).0 u × E (g t d).0)
      → Inside P (at_time λ t. affected (wrapping s (exec (g t)))) (λ _. Q) E
  Inside-pool_update {P} {Q} {E} s g kept made = record {
    apply = λ w h. go w (fails w) (g (env.clock w.steps) w.db).1 h;
  }
    where
      go :
          (w : World F) (b hit : Bool)
          → P w.db w.uncommitted
          → let written : M F Bool = λ _. (
            if b then err (driver w.steps) else ok hit,
            record w {
              db = if b then w.db else (g (env.clock w.steps) w.db).0;
              steps = w.steps + 1;
            },
          ) in
            EndsIn (λ _. Q) E (affected (wrapping s written) w)
      go w true hit h = kept w.db w.uncommitted h
      go w false true h = (made (env.clock w.steps) w.db w.uncommitted h).0
      go w false false h = (made (env.clock w.steps) w.db w.uncommitted h).1

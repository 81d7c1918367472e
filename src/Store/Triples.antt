-- ===== src/Store/Triples.antt =====
-- Pre- and postconditions on the tables: what an action leaves behind when it returns a value, and
-- when it returns an error, with one rule for each way to build an action.
use bingwa.Prelude.{
  ℕ, ◌+◌, ◌≡◌, refl, arith, Bool, true, false, Option, none, some, List, String, if◌then◌else◌,
}
use bingwa.Store.{
  Error, Result, ok, err, Env, Database, World, M, pure, raise, wrapping, refuse_if, now, at_time,
  query, query_rows, before_break, exec, driver, returned, stored, insert, affected, find_one, now,
  pure, raise, ◌>>=◌, fails,
}

-- `Q` holds of a value and the tables, or `E` of an error's tables.
abbrev pub Ends :
    {F A : Type 0} → (A → Database F → Type 0) → (Database F → Type 0) → Result A × World F → Type 0
Ends Q E (ok a, w) = Q a w.db
Ends Q E (err e, w) = E w.db

pub record Triple {F A : Type 0} (P : Database F → Type 0) (m : M F A) (Q : A → Database F → Type 0)
    (E : Database F → Type 0) : Type 0 where
  pub apply : (w : World F) → P w.db → Ends Q E (m w)

module _ {F : Type 0} where
  pub bind-Ends :
      {A B : Type 0} (Q : A → Database F → Type 0) (E : Database F → Type 0)
      (R : B → Database F → Type 0) (f : A → M F B) (r : Result A) (w : World F)
      → ((a : A) → Triple (Q a) (f a) R E)
      → Ends Q E (r, w)
      → let m : M F A = λ _. (r, w) in Ends R E ((m >>= f) w)
  bind-Ends Q E R f (ok a) w k h = (k a).apply w h
  bind-Ends Q E R f (err e) w k h = h

  pub Triple-bind :
      {A B : Type 0} {P : Database F → Type 0} {Q : A → Database F → Type 0}
      {E : Database F → Type 0} {R : B → Database F → Type 0} {m : M F A} {f : A → M F B}
      → Triple P m Q E
      → ((a : A) → Triple (Q a) (f a) R E)
      → Triple P (m >>= f) R E
  Triple-bind {Q} {E} {R} {m} {f} t k = record {
    apply = λ w h. bind-Ends Q E R f (m w).0 (m w).1 k (t.apply w h);
  }

  pub Ends-if :
      {A : Type 0} (Q : A → Database F → Type 0) (E : Database F → Type 0) (b : Bool) (e : Error)
      (a : A) (w : World F)
      → ((b ≡ true) → E w.db)
      → ((b ≡ false) → Q a w.db)
      → Ends Q E (if b then err e else ok a, w)
  Ends-if Q E true e a w h k = h refl
  Ends-if Q E false e a w h k = k refl

  -- What is not refused fails the test.
  pub Triple-refuse_if :
      {P : Database F → Type 0} (c : Bool) (e : Error)
      → Triple P (refuse_if c e) (λ _ d. (c ≡ false) × P d) P
  Triple-refuse_if {P} c e = record {
    apply = λ w h. Ends-if _ P c e tt w (λ _. h) (λ no_refusal. (no_refusal, h));
  }

  pub wrapping-Ends :
      {A : Type 0} (Q : A → Database F → Type 0) (E : Database F → Type 0) (s : String)
      (r : Result A) (w : World F)
      → Ends Q E (r, w)
      → let m : M F A = λ _. (r, w) in Ends Q E (wrapping s m w)
  wrapping-Ends Q E s (ok a) w h = h
  wrapping-Ends Q E s (err e) w h = h

  pub Triple-wrapping :
      {A : Type 0} {P : Database F → Type 0} {Q : A → Database F → Type 0} {E : Database F → Type 0}
      {m : M F A} (s : String)
      → Triple P m Q E
      → Triple P (wrapping s m) Q E
  Triple-wrapping {Q} {E} {m} s t = record {
    apply = λ w h. wrapping-Ends Q E s (m w).0 (m w).1 (t.apply w h);
  }

  pub Triple-pure : {A : Type 0} {P E : Database F → Type 0} (a : A) → Triple P (pure a) (λ _. P) E
  Triple-pure a = record { apply = λ w h. h }

  pub Triple-return :
      {A : Type 0} {P E : Database F → Type 0} {Q : A → Database F → Type 0} (a : A)
      → ((d : Database F) → P d → Q a d)
      → Triple P (pure a) Q E
  Triple-return a h = record { apply = λ w k. h w.db k }

  pub Triple-raise :
      {A : Type 0} {P : Database F → Type 0} {Q : A → Database F → Type 0} (e : Error)
      → Triple P (raise {A = A} e) Q P
  Triple-raise e = record { apply = λ w h. h }

  -- An action that a test chooses.
  pub Triple-if :
      {A : Type 0} {P : Database F → Type 0} {Q : A → Database F → Type 0} {E : Database F → Type 0}
      (b : Bool) {m k : M F A}
      → Triple P m Q E
      → Triple P k Q E
      → Triple P (if b then m else k) Q E
  Triple-if true x y = x
  Triple-if false x y = y

  -- What the precondition says of values alone may be assumed.
  pub Triple-assume :
      {A X : Type 0} {P : Database F → Type 0} {Q : A → Database F → Type 0}
      {E : Database F → Type 0} {m : M F A}
      → (X → Triple P m Q E)
      → Triple (λ d. X × P d) m Q E
  Triple-assume k = record { apply = λ w h. (k h.0).apply w h.1 }

  -- The consequence rule.
  pub Triple-weaken :
      {A : Type 0} {P P' : Database F → Type 0} {Q Q' : A → Database F → Type 0}
      {E E' : Database F → Type 0} {m : M F A}
      → ((d : Database F) → P' d → P d)
      → ((a : A) (d : Database F) → Q a d → Q' a d)
      → ((d : Database F) → E d → E' d)
      → Triple P m Q E
      → Triple P' m Q' E'
  Triple-weaken {A} {Q} {Q'} {E} {E'} {m} pre post fail t = record {
    apply = λ w h. go (m w) (t.apply w (pre w.db h));
  }
    where
      go : (o : Result A × World F) → Ends Q E o → Ends Q' E' o
      go (ok a, w) h = post a w.db h
      go (err e, w) h = fail w.db h

module _ {F : Type 0} ⦃env : Env⦄ where
  pub Triple-now : {P E : Database F → Type 0} → Triple P now (λ _. P) E
  Triple-now = record { apply = λ w h. h }

  -- A read tells what it read.
  pub Triple-query :
      {A : Type 0} {P : Database F → Type 0} (f : ℕ → Database F → A)
      → Triple P (query f) (λ a d. ((t : ℕ) × (a ≡ f t d)) × P d) P
  Triple-query {P} f = record {
    apply = λ w h. Ends-if _ P (fails w) _ _ _ (λ _. h) (λ _. ((env.clock w.steps, refl), h));
  }

  -- A list read tells what it read, up to where it breaks off.
  pub Triple-query_rows :
      {A : Type 0} {P : Database F → Type 0} (f : ℕ → Database F → List A)
      → Triple P
          (query_rows f)
          (λ l d. ((n : ℕ) × (l ≡ before_break (env.rows_read n) (f (env.clock n) d))) × P d)
          P
  Triple-query_rows {P} f = record {
    apply = λ w h. Ends-if _ P (fails w) _ _ _ (λ _. h) (λ _. ((w.steps, refl), h));
  }

  pub Triple-at_time :
      {A : Type 0} {P : Database F → Type 0} {Q : A → Database F → Type 0} {E : Database F → Type 0}
      {m : ℕ → M F A}
      → ((t : ℕ) → Triple P (m t) Q E)
      → Triple P (at_time m) Q E
  Triple-at_time k = record { apply = λ w h. (k (env.clock w.steps)).apply w h }

  -- A write takes the tables from `P` to `Q`, or fails and leaves them.
  pub Triple-exec :
      {P : Database F → Type 0} {Q : Database F → Type 0} (g : Database F → Database F × Bool)
      → ((d : Database F) → P d → Q (g d).0)
      → Triple P (exec g) (λ _. Q) P
  Triple-exec {P} {Q} g keep = record {
    apply =
        λ w h. Ends-if (λ _. Q) P (fails w) _ _ _ (λ bad. rw bad h) (λ fine. rw fine (keep w.db h));
  }

  pub Ends-found :
      {A : Type 0} (Q : A → Database F → Type 0) (E : Database F → Type 0) (s : String)
      (r : Result (Option A)) (w : World F)
      → ((a : A) → (r ≡ ok (some a)) → Q a w.db)
      → E w.db
      → let m : M F (Option A) = λ _. (r, w) in Ends Q E (find_one s m w)
  Ends-found Q E s (ok (some a)) w h k = h a refl
  Ends-found Q E s (ok none) w h k = k
  Ends-found Q E s (err e) w h k = k

  -- A row that is returned is what the statement finds.
  pub Triple-find_one :
      {A : Type 0} {P : Database F → Type 0} (s : String) (f : ℕ → Database F → Option A)
      → Triple P (find_one s (query f)) (λ a d. ((t : ℕ) × (f t d ≡ some a)) × P d) P
  Triple-find_one {A} {P} s f = record {
    apply = λ w h.
        Ends-found (λ a d. ((t : ℕ) × (f t d ≡ some a)) × P d) P s (query f w).0 (query f w).1
          (λ a e. ((env.clock w.steps, ok_of w a e), h)) h;
  }
    where
      ok_of :
          (w : World F) (a : A) → (query f w).0 ≡ ok (some a) → f (env.clock w.steps) w.db ≡ some a
      ok_of w a e = ground arith

  -- An inserted row takes the tables from `P` to `Q`, or nothing is inserted.
  pub Triple-insert :
      {A : Type 0} {P : Database F → Type 0} {Q : A → Database F → Type 0}
      (g : ℕ → Database F → Option (Database F × A))
      → ((t : ℕ) (d d' : Database F) (a : A) → g t d ≡ some (d', a) → P d → Q a d')
      → Triple P (insert g) Q P
  Triple-insert {A} {P} {Q} g keep = record {
    apply = λ w h. go w (g (env.clock w.steps) w.db) refl (fails w) h;
  }
    where
      go :
          (w : World F) (made : Option (Database F × A))
          → g (env.clock w.steps) w.db ≡ made
          → (b : Bool) → P w.db
          → Ends Q P (
            if b then err (driver w.steps) else returned (driver w.steps) made,
            record w { db = if b then w.db else stored w.db made; steps = w.steps + 1 },
          )
      go w none e true h = h
      go w none e false h = h
      go w (some (d, a)) e true h = h
      go w (some (d, a)) e false h = keep (env.clock w.steps) w.db d a e h

  -- An update that may hit no row keeps what it keeps.
  pub Triple-affected :
      {P E : Database F → Type 0} {m : M F Bool}
      → Triple P m (λ _. E) E
      → Triple P (affected m) (λ _. E) E
  Triple-affected t =
      Triple-bind t λ hit. Triple-weaken (λ d h. h) (λ _ d h. h.1) (λ d h. h) (Triple-refuse_if _ _)

  -- The same for a whole `UPDATE … WHERE id = $n`.
  pub Triple-update :
      {P E : Database F → Type 0} (s : String) (g : ℕ → Database F → Database F × Bool)
      → ((d : Database F) → P d → E d)
      → ((t : ℕ) (d : Database F) → P d → E (g t d).0)
      → Triple P (at_time λ t. affected (wrapping s (exec (g t)))) (λ _. E) E
  Triple-update s g kept written = Triple-at_time λ t. Triple-affected (
      Triple-wrapping s
        (Triple-weaken (λ d h. h) (λ _ d h. h) kept (Triple-exec (g t) (written t))))

-- Where both outcomes leave the same, the tables have it.
pub Ends-always :
    {F A : Type 0} (P : Database F → Type 0) (o : Result A × World F) → Ends (λ _. P) P o → P o.1.db
Ends-always P (ok a, w) h = h
Ends-always P (err e, w) h = h

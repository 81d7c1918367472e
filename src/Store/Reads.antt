-- ===== src/Store/Reads.antt =====
-- Rules for actions that read, and for those whose error is kept or dropped.
use bingwa.Prelude.{refl, none, some, ◌≡◌, subst, sym, ℕ, Bool, Option, List, String, All, All-take}
use bingwa.Store.{
  refuse, Error, Result, ok, err, Env, Database, World, M, attempt, refuse_if, find_one, query,
  query_rows, before_break,
}
use bingwa.Store.Triples.{
  Ends, Triple, Triple-weaken, Triple-find_one, Triple-query, Triple-query_rows, Triple-refuse_if,
}

module _ {F : Type 0} ⦃env : Env⦄ where
  pub Triple-attempt :
      {A : Type 0} {P : Database F → Type 0} {m : M F A}
      → Triple P m (λ _. P) P
      → Triple P (attempt m) (λ _. P) P
  Triple-attempt {A} {P} {m} t = record { apply = λ w h. go (m w) (t.apply w h) }
    where
      go : (o : Result A × World F) → Ends (λ _. P) P o → P o.1.db
      go (ok a, w) h = h
      go (err e, w) h = h

  pub Triple-find_any :
      {A : Type 0} (P : Database F → Type 0) (s : String) (f : ℕ → Database F → Option A)
      → Triple P (find_one s (query f)) (λ _. P) P
  Triple-find_any P s f = Triple-weaken (λ d h. h) (λ a d h. h.1) (λ d h. h) (Triple-find_one s f)

  pub Triple-pass :
      (P : Database F → Type 0) (c : Bool) (e : Error) → Triple P (refuse_if c e) (λ _. P) P
  Triple-pass P c e = Triple-weaken (λ d h. h) (λ a d h. h.1) (λ d h. h) (Triple-refuse_if c e)

  -- What an attempt knows of its action's outcome.
  abbrev pub Either :
      {A : Type 0}
      → (A → Database F → Type 0)
      → (Database F → Type 0)
      → Result A
      → Database F
      → Type 0
  Either Q E (ok a) d = Q a d
  Either Q E (err e) d = E d

  pub Triple-outcome :
      {A : Type 0} {P : Database F → Type 0} {Q : A → Database F → Type 0}
      {E E' : Database F → Type 0} {m : M F A}
      → Triple P m Q E
      → Triple P (attempt m) (Either Q E) E'
  Triple-outcome {A} {P} {Q} {E} {E'} {m} t = record { apply = λ w h. go (m w) (t.apply w h) }
    where
      go : (o : Result A × World F) → Ends Q E o → Either Q E o.0 o.1.db
      go (ok a, w) h = h
      go (err e, w) h = h

  pub Triple-read :
      {A : Type 0} (P : Database F → Type 0) (f : ℕ → Database F → A)
      → Triple P (query f) (λ _. P) P
  Triple-read P f = Triple-weaken (λ d h. h) (λ _ d h. h.1) (λ d h. h) (Triple-query f)

  pub Triple-rows :
      {A : Type 0} (P : Database F → Type 0) (f : ℕ → Database F → List A)
      → Triple P (query_rows f) (λ _. P) P
  Triple-rows P f = Triple-weaken (λ d h. h) (λ _ d h. h.1) (λ d h. h) (Triple-query_rows f)

  -- An action whose error is only logged.
  pub Triple-logged :
      {A : Type 0} {P X E : Database F → Type 0} {m : M F A}
      → Triple P m (λ _. X) X
      → Triple P (attempt m) (λ _. X) E
  Triple-logged {A} {P} {X} {E} {m} t = record { apply = λ w h. go (m w) (t.apply w h) }
    where
      go : (o : Result A × World F) → Ends (λ _. X) X o → X o.1.db
      go (ok a, w) h = h
      go (err e, w) h = h

  -- An action that never changes the tables keeps every predicate on them.
  pub Triple-unchanged :
      {A : Type 0} {P : Database F → Type 0} {m : M F A}
      → ((w : World F) → Ends (λ _ d. d ≡ w.db) (λ d. d ≡ w.db) (m w))
      → Triple P m (λ _. P) P
  Triple-unchanged {A} {P} {m} same = record { apply = λ w h. go w h (m w) (same w) }
    where
      go :
          (w : World F)
          → P w.db
          → (o : Result A × World F) → Ends (λ _ d. d ≡ w.db) (λ d. d ≡ w.db) o
          → Ends (λ _. P) P o
      go w h (ok a, w') e = subst P (sym e) h
      go w h (err x, w') e = subst P (sym e) h

-- What all rows have, those that are read have.
pub All-before_break :
    {A : Type 0} (P : A → Type 0) (b : Option ℕ) (xs : List A)
    → All P xs
    → All P (before_break b xs)
All-before_break P none xs h = h
All-before_break P (some k) xs h = All-take P k xs h

-- A validation passes only without a message.
pub Triple-refuse :
    {F : Type 0} (P : Database F → Type 0) (o : Option String)
    → Triple P (refuse o) (λ _ d. (o ≡ none) × P d) P
Triple-refuse P none = record { apply = λ w h. (refl, h) }
Triple-refuse P (some s) = record { apply = λ w h. h }

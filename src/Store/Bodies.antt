-- ===== src/Store/Bodies.antt =====
-- Rules for the bodies of transactions: predicates on the committed tables and on what the open
-- transaction makes of them.
use bingwa.Prelude.{◌≡◌, refl, Bool, true, false, String}
use bingwa.Store.{Error, Result, ok, err, Database, World, M, pure, wrapping, refuse_if, ◌>>=◌}

-- What holds of the tables and of the open transaction, or of the tables after an error.
abbrev pub EndsIn :
    {F A : Type 0}
    → (A → Database F → (Database F → Database F) → Type 0)
    → (Database F → Type 0)
    → Result A × World F
    → Type 0
EndsIn Q E (ok a, w) = Q a w.db w.uncommitted
EndsIn Q E (err e, w) = E w.db

pub record Inside {F A : Type 0} (P : Database F → (Database F → Database F) → Type 0) (m : M F A)
    (Q : A → Database F → (Database F → Database F) → Type 0) (E : Database F → Type 0)
    : Type 0 where
  pub apply : (w : World F) → P w.db w.uncommitted → EndsIn Q E (m w)

-- A predicate on the tables and on what the transaction makes of them.
abbrev pub Tables : Type 0 → Type 1
Tables F = Database F → (Database F → Database F) → Type 0

module _ {F : Type 0} where
  pub Inside-bind :
      {A B : Type 0} {P : Tables F} {Q : A → Tables F} {E : Database F → Type 0} {R : B → Tables F}
      {m : M F A} {f : A → M F B}
      → Inside P m Q E
      → ((a : A) → Inside (Q a) (f a) R E)
      → Inside P (m >>= f) R E
  Inside-bind {A} {B} {P} {Q} {E} {R} {m} {f} t k = record { apply = λ w h. go (m w) (t.apply w h) }
    where
      go :
          (o : Result A × World F)
          → EndsIn Q E o
          → EndsIn R E (let n : M F A = λ _. o in (n >>= f) o.1)
      go (ok a, w) h = (k a).apply w h
      go (err e, w) h = h

  pub Inside-wrapping :
      {A : Type 0} {P : Tables F} {Q : A → Tables F} {E : Database F → Type 0} {m : M F A}
      (s : String)
      → Inside P m Q E
      → Inside P (wrapping s m) Q E
  Inside-wrapping {A} {P} {Q} {E} {m} s t = record { apply = λ w h. go (m w) (t.apply w h) }
    where
      go :
          (o : Result A × World F)
          → EndsIn Q E o
          → EndsIn Q E (let n : M F A = λ _. o in wrapping s n o.1)
      go (ok a, w) h = h
      go (err e, w) h = h

  pub Inside-weaken :
      {A : Type 0} {P P' : Tables F} {Q Q' : A → Tables F} {E E' : Database F → Type 0} {m : M F A}
      → ((d : Database F) (u : Database F → Database F) → P' d u → P d u)
      → ((a : A) (d : Database F) (u : Database F → Database F) → Q a d u → Q' a d u)
      → ((d : Database F) → E d → E' d)
      → Inside P m Q E
      → Inside P' m Q' E'
  Inside-weaken {A} {P} {P'} {Q} {Q'} {E} {E'} {m} pre post fail t = record {
    apply = λ w h. go (m w) (t.apply w (pre w.db w.uncommitted h));
  }
    where
      go : (o : Result A × World F) → EndsIn Q E o → EndsIn Q' E' o
      go (ok a, w) h = post a w.db w.uncommitted h
      go (err e, w) h = fail w.db h

  pub Inside-return :
      {A : Type 0} {P : Tables F} {Q : A → Tables F} {E : Database F → Type 0} (a : A)
      → ((d : Database F) (u : Database F → Database F) → P d u → Q a d u)
      → Inside P (pure a) Q E
  Inside-return a k = record { apply = λ w h. k w.db w.uncommitted h }

  pub Inside-refuse_if :
      {P : Tables F} {E : Database F → Type 0} (c : Bool) (e : Error)
      → ((d : Database F) (u : Database F → Database F) → P d u → E d)
      → Inside P (refuse_if c e) (λ _ d u. (c ≡ false) × P d u) E
  Inside-refuse_if {P} {E} c e kept = record { apply = λ w h. go c w h }
    where
      go :
          (b : Bool) (w : World F)
          → P w.db w.uncommitted
          → EndsIn (λ _ d u. (b ≡ false) × P d u) E (refuse_if b e w)
      go true w h = kept w.db w.uncommitted h
      go false w h = (refl, h)

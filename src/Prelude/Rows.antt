-- ===== src/Prelude/Rows.antt =====
-- Predicates on the rows of a table, and how the statements keep them.
use mathlib.Core.Path.{◌≡◌, refl, subst}
use mathlib.Core.Logic.{◌⊎◌, inl, inr}
use mathlib.Core.Bool.{Bool, true, false, ◌||◌}
use mathlib.Core.Option.{some}
use mathlib.Core.List.{List, [], ◌∷◌, ◌++◌}
use native.Mathlib.Omega.{arith}
use bingwa.Prelude.Tests.{Bool-cases}
use bingwa.Prelude.Tables.{find_row, any_row, update_where, delete_where, update_where-none}

module _ {ℓ} {A : Type ℓ} where
  abbrev pub All {κ} : (A → Type κ) → List A → Type κ
  All P [] = Unit
  All P (x ∷ xs) = P x × All P xs

  -- No two rows satisfy the condition: what a primary key or a UNIQUE column gives.
  abbrev pub AtMostOne : (A → Bool) → List A → Type 0
  AtMostOne p [] = Unit
  AtMostOne p (x ∷ xs) = (p x ≡ true → any_row p xs ≡ false) × AtMostOne p xs

  pub All-append_one {κ} :
      (P : A → Type κ) (xs : List A) (a : A) → All P xs → P a → All P (xs ++ a ∷ [])
  All-append_one P [] a h k = (k, tt)
  All-append_one P (x ∷ xs) a h k = (h.0, All-append_one P xs a h.1 k)

  pub All-found {κ} :
      (P : A → Type κ) (p : A → Bool) (xs : List A) (a : A)
      → All P xs
      → find_row p xs ≡ some a
      → P a
  All-found P p [] a h e = cc
  All-found P p (x ∷ xs) a h e = elim (Bool-cases (p x)) [
    | inl hit ↦ subst P (ground arith) h.0
    | inr miss ↦ All-found P p xs a h.1 (ground arith)
  ]

  pub All-weaken {κ ι} :
      (P : A → Type κ) (Q : A → Type ι) (xs : List A) → ((a : A) → P a → Q a) → All P xs → All Q xs
  All-weaken P Q [] f h = tt
  All-weaken P Q (x ∷ xs) f h = (f x h.0, All-weaken P Q xs f h.1)

  pub All-both {κ ι} :
      (P : A → Type κ) (Q : A → Type ι) (xs : List A)
      → All P xs
      → All Q xs
      → All (λ a. P a × Q a) xs
  All-both P Q [] h k = tt
  All-both P Q (x ∷ xs) h k = ((h.0, k.0), All-both P Q xs h.1 k.1)

  pub All-delete_where {κ} :
      (P : A → Type κ) (p : A → Bool) (xs : List A) → All P xs → All P (delete_where p xs)
  All-delete_where P p [] h = tt
  All-delete_where P p (x ∷ xs) h = elim (Bool-cases (p x)) [
    | inl hit ↦ rw hit (All-delete_where P p xs h.1)
    | inr miss ↦ rw miss (h.0, All-delete_where P p xs h.1)
  ]

  -- An update whose function keeps the predicate on the rows that it hits.
  pub All-update_where {κ} :
      (P : A → Type κ) (p : A → Bool) (f : A → A) (xs : List A)
      → ((a : A) → p a ≡ true → P a → P (f a))
      → All P xs
      → All P (update_where p f xs)
  All-update_where P p f [] keep h = tt
  All-update_where P p f (x ∷ xs) keep h = elim (Bool-cases (p x)) [
    | inl hit ↦ rw hit (keep x hit h.0, All-update_where P p f xs keep h.1)
    | inr miss ↦ rw miss (h.0, All-update_where P p f xs keep h.1)
  ]

  -- An update of the one row that is found.
  pub All-update_found {κ} :
      (P : A → Type κ) (p : A → Bool) (f : A → A) (xs : List A) (a : A)
      → AtMostOne p xs
      → find_row p xs ≡ some a
      → P (f a)
      → All P xs
      → All P (update_where p f xs)
  All-update_found P p f [] a u e k h = tt
  All-update_found P p f (x ∷ xs) a u e k h = elim (Bool-cases (p x)) [
    | inl hit ↦
        rw (hit, update_where-none p f xs (u.0 hit)) (subst (λ y. P (f y)) (ground arith) k, h.1)
    | inr miss ↦ rw miss (h.0, All-update_found P p f xs a u.1 (ground arith) k h.1)
  ]

  pub any_row-update_where :
      (q p : A → Bool) (f : A → A) (xs : List A)
      → ((x : A) → q (f x) ≡ q x)
      → any_row q (update_where p f xs) ≡ any_row q xs
  any_row-update_where q p f [] keep = refl
  any_row-update_where q p f (x ∷ xs) keep =
      ground (arith, keep x, any_row-update_where q p f xs keep)

  pub AtMostOne-update_where :
      (q p : A → Bool) (f : A → A) (xs : List A)
      → ((x : A) → q (f x) ≡ q x)
      → AtMostOne q xs
      → AtMostOne q (update_where p f xs)
  AtMostOne-update_where q p f [] keep h = tt
  AtMostOne-update_where q p f (x ∷ xs) keep h = (
    ground (arith, keep x, h.0, any_row-update_where q p f xs keep),
    AtMostOne-update_where q p f xs keep h.1,
  )

  pub any_row-append_one :
      (q : A → Bool) (xs : List A) (a : A) → any_row q (xs ++ a ∷ []) ≡ (any_row q xs || q a)
  any_row-append_one q [] a = ground arith
  any_row-append_one q (x ∷ xs) a = ground (arith, any_row-append_one q xs a)

  pub AtMostOne-append_one :
      (q : A → Bool) (xs : List A) (a : A)
      → (q a ≡ true → any_row q xs ≡ false)
      → AtMostOne q xs
      → AtMostOne q (xs ++ a ∷ [])
  AtMostOne-append_one q [] a k h = (λ _. refl, tt)
  AtMostOne-append_one q (x ∷ xs) a k h = (
    λ hit. ground (arith, any_row-append_one q xs a, h.0 hit, k),
    AtMostOne-append_one q xs a (λ hit. ground (arith, k hit)) h.1,
  )

  any_row-delete_where :
      (q p : A → Bool) (xs : List A) → any_row q xs ≡ false → any_row q (delete_where p xs) ≡ false
  any_row-delete_where q p [] h = refl
  any_row-delete_where q p (x ∷ xs) h = ground (arith, any_row-delete_where q p xs)

  pub AtMostOne-delete_where :
      (q p : A → Bool) (xs : List A) → AtMostOne q xs → AtMostOne q (delete_where p xs)
  AtMostOne-delete_where q p [] h = tt
  AtMostOne-delete_where q p (x ∷ xs) h = elim (Bool-cases (p x)) [
    | inl hit ↦ rw hit (AtMostOne-delete_where q p xs h.1)
    | inr miss ↦
        rw miss (λ e. any_row-delete_where q p xs (h.0 e), AtMostOne-delete_where q p xs h.1)
  ]

  -- A key that no row has.
  pub any_row-All-false :
      (q : A → Bool) (xs : List A) → All (λ x. q x ≡ false) xs → any_row q xs ≡ false
  any_row-All-false q [] h = refl
  any_row-All-false q (x ∷ xs) h = ground (arith, h.0, any_row-All-false q xs h.1)

module _ {A : Type 0} where
  -- The row is in the table.
  abbrev pub Contains : A → List A → Type 0
  Contains a [] = ⊥
  Contains a (x ∷ xs) = (x ≡ a) ⊎ Contains a xs

  pub All-Contains : (xs : List A) → All (λ x. Contains x xs) xs
  All-Contains [] = tt
  All-Contains (x ∷ xs) = (
    inl refl,
    All-weaken (λ y. Contains y xs) (λ y. Contains y (x ∷ xs)) xs (λ y h. inr h) (All-Contains xs),
  )

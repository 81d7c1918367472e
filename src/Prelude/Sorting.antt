-- ===== src/Prelude/Sorting.antt =====
-- Sorting a list of rows: `sort.Slice`, and SQL's `ORDER BY`.
use Prim.Native.Nat.{ℕ, zero, suc, ◌≤◌}
use native.Mathlib.Omega.{arith}
use mathlib.Core.Path.{◌≡◌, refl, ap, ◌∙◌}
use mathlib.Core.Bool.{Bool, true, false, ◌&&◌}
use mathlib.Core.Logic.{inl, inr}
use mathlib.Core.List.{List, [], ◌∷◌}
use bingwa.Prelude.Tests.{if◌then◌else◌, Bool-cases}
use bingwa.Prelude.Tables.{select, length}
use bingwa.Prelude.Rows.{All}

module _ {ℓ} {A : Type ℓ} where
  abbrev pub insert_by : (A → A → Bool) → A → List A → List A
  insert_by less x [] = x ∷ []
  insert_by less x (y ∷ ys) =
      let rest = insert_by less x ys in if less y x then y ∷ rest else x ∷ y ∷ ys

  -- A stable sort by insertion.
  abbrev pub sort_by : (A → A → Bool) → List A → List A
  sort_by less [] = []
  sort_by less (x ∷ xs) = insert_by less x (sort_by less xs)

  All-insert_by {κ} :
      (P : A → Type κ) (less : A → A → Bool) (x : A) (ys : List A)
      → P x
      → All P ys
      → All P (insert_by less x ys)
  All-insert_by P less x [] h k = (h, tt)
  All-insert_by P less x (y ∷ ys) h k =
      elim (less y x) as (λ b. All P (if b then y ∷ insert_by less x ys else x ∷ y ∷ ys)) [
        | true ↦ (k.0, All-insert_by P less x ys h k.1)
        | false ↦ (h, k)
      ]

  pub All-sort_by {κ} :
      (P : A → Type κ) (less : A → A → Bool) (xs : List A) → All P xs → All P (sort_by less xs)
  All-sort_by P less [] h = tt
  All-sort_by P less (x ∷ xs) h =
      All-insert_by P less x (sort_by less xs) h.0 (All-sort_by P less xs h.1)

  -- The rows that a `SELECT` returns satisfy its condition, and what every row of the table does.
  pub All-select {κ} :
      (P : A → Type κ) (p : A → Bool) (xs : List A)
      → All P xs
      → All (λ x. (p x ≡ true) × P x) (select p xs)
  All-select P p [] h = tt
  All-select P p (x ∷ xs) h = elim (Bool-cases (p x)) [
    | inl hit ↦ rw hit ((hit, h.0), All-select P p xs h.1)
    | inr miss ↦ rw miss (All-select P p xs h.1)
  ]

  length-insert_by :
      (less : A → A → Bool) (x : A) (ys : List A) → length (insert_by less x ys) ≡ suc (length ys)
  length-insert_by less x [] = refl
  length-insert_by less x (y ∷ ys) =
      elim (less y x)
        as (λ b.
          length (if b then y ∷ insert_by less x ys else x ∷ y ∷ ys) ≡ suc (suc (length ys))) [
            | true ↦ ap suc (length-insert_by less x ys)
            | false ↦ refl
          ]

  pub length-sort_by : (less : A → A → Bool) (xs : List A) → length (sort_by less xs) ≡ length xs
  length-sort_by less [] = refl
  length-sort_by less (x ∷ xs) =
      length-insert_by less x (sort_by less xs) ∙ ap suc (length-sort_by less xs)

  -- How many rows satisfy a test.
  abbrev pub tally : (A → Bool) → List A → ℕ
  tally p xs = length (select p xs)

  -- The rows before the place where a list breaks off.
  abbrev pub take : ℕ → List A → List A
  take zero xs = []
  take (suc k) [] = []
  take (suc k) (x ∷ xs) = x ∷ take k xs

  pub All-take {κ} : (P : A → Type κ) (k : ℕ) (xs : List A) → All P xs → All P (take k xs)
  All-take P zero xs h = tt
  All-take P (suc k) [] h = tt
  All-take P (suc k) (x ∷ xs) h = (h.0, All-take P k xs h.1)

  pub tally-take_le : (p : A → Bool) (k : ℕ) (xs : List A) → tally p (take k xs) ≤ tally p xs
  tally-take_le p zero xs = omega arith
  tally-take_le p (suc k) [] = omega arith
  tally-take_le p (suc k) (x ∷ xs) = elim (Bool-cases (p x)) [
    | inl hit ↦ ground (arith, tally-take_le p k xs)
    | inr miss ↦ ground (arith, tally-take_le p k xs)
  ]

  tally-insert_by :
      (p : A → Bool) (less : A → A → Bool) (x : A) (ys : List A)
      → tally p (insert_by less x ys) ≡ tally p (x ∷ ys)
  tally-insert_by p less x [] = refl
  tally-insert_by p less x (y ∷ ys) = elim (Bool-cases (less y x)) [
    | inl earlier ↦ ground (arith, tally-insert_by p less x ys)
    | inr later ↦ ground arith
  ]

  -- Sorting keeps the rows.
  pub tally-sort_by :
      (p : A → Bool) (less : A → A → Bool) (xs : List A) → tally p (sort_by less xs) ≡ tally p xs
  tally-sort_by p less [] = refl
  tally-sort_by p less (x ∷ xs) =
      tally-insert_by p less x (sort_by less xs) ∙ ground (arith, tally-sort_by p less xs)

  pub tally-select :
      (p q : A → Bool) (xs : List A) → tally p (select q xs) ≡ tally (λ x. q x && p x) xs
  tally-select p q [] = refl
  tally-select p q (x ∷ xs) = elim (Bool-cases (q x)) [
    | inl kept ↦ ground (arith, tally-select p q xs)
    | inr left_out ↦ ground (arith, tally-select p q xs)
  ]

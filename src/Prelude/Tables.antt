-- ===== src/Prelude/Tables.antt =====
-- Tables as lists of rows: what `SELECT`, `UPDATE` and `DELETE` with a `WHERE` clause do, and the
-- laws that the components share.
use Prim.Native.Nat.{ℕ, suc}
use mathlib.Core.Path.{◌≡◌, refl, ap}
use mathlib.Core.Bool.{Bool, true, false, ◌||◌}
use mathlib.Core.Option.{Option, none, some}
use mathlib.Core.List.{List, [], ◌∷◌, ◌++◌, map}
use native.Mathlib.Omega.{arith}
use bingwa.Prelude.Tests.{if◌then◌else◌}

module _ {ℓ} {A : Type ℓ} where
  abbrev pub length : List A → ℕ
  length [] = 0
  length (_ ∷ xs) = suc (length xs)

  -- SELECT … WHERE p: the matching rows, in table order.
  abbrev pub select : (A → Bool) → List A → List A
  select p [] = []
  select p (x ∷ xs) = let rest = select p xs in if p x then x ∷ rest else rest

  -- The first matching row.
  abbrev pub find_row : (A → Bool) → List A → Option A
  find_row p [] = none
  find_row p (x ∷ xs) = if p x then some x else find_row p xs

  -- SELECT EXISTS(…)
  abbrev pub any_row : (A → Bool) → List A → Bool
  any_row p [] = false
  any_row p (x ∷ xs) = p x || any_row p xs

  -- UPDATE … SET f WHERE p
  abbrev pub update_where : (A → Bool) → (A → A) → List A → List A
  update_where p f [] = []
  update_where p f (x ∷ xs) = (if p x then f x else x) ∷ update_where p f xs

  -- DELETE … WHERE p
  abbrev pub delete_where : (A → Bool) → List A → List A
  delete_where p [] = []
  delete_where p (x ∷ xs) = let rest = delete_where p xs in if p x then rest else x ∷ rest

  pub any_row-false : (p : A → Bool) (xs : List A) → any_row p xs ≡ false → find_row p xs ≡ none
  any_row-false p [] h = refl
  any_row-false p (x ∷ xs) h = ground (arith, any_row-false p xs)

  pub any_row-find_row :
      (p : A → Bool) (xs : List A) (a : A) → find_row p xs ≡ some a → any_row p xs ≡ true
  any_row-find_row p [] a h = ground arith
  any_row-find_row p (x ∷ xs) a h = ground (arith, any_row-find_row p xs a)

  -- What was found satisfies the condition.
  pub find_row_sound : (p : A → Bool) (xs : List A) (a : A) → find_row p xs ≡ some a → p a ≡ true
  find_row_sound p [] a h = ground arith
  find_row_sound p (x ∷ xs) a h = ground (arith, find_row_sound p xs a)

  -- An update of rows that match nowhere changes nothing.
  pub update_where-none :
      (p : A → Bool) (f : A → A) (xs : List A) → any_row p xs ≡ false → update_where p f xs ≡ xs
  update_where-none p f [] h = refl
  update_where-none p f (x ∷ xs) h = ground (arith, update_where-none p f xs)

  pub length-update_where :
      (p : A → Bool) (f : A → A) (xs : List A) → length (update_where p f xs) ≡ length xs
  length-update_where p f [] = refl
  length-update_where p f (x ∷ xs) = ap suc (length-update_where p f xs)

  -- After an update that keeps the condition, the row that is found is the updated one.
  pub find_row-update_where :
      (p : A → Bool) (f : A → A) (xs : List A) (a : A)
      → ((x : A) → p (f x) ≡ p x)
      → find_row p xs ≡ some a
      → find_row p (update_where p f xs) ≡ some (f a)
  find_row-update_where p f [] a keep h = ground arith
  find_row-update_where p f (x ∷ xs) a keep h =
      ground (arith, keep x, find_row-update_where p f xs a keep)

  -- Rows appended behind the first match do not hide it.
  pub find_row-append_new :
      (p : A → Bool) (xs : List A) (a : A)
      → any_row p xs ≡ false
      → p a ≡ true
      → find_row p (xs ++ a ∷ []) ≡ some a
  find_row-append_new p [] a h k = ground arith
  find_row-append_new p (x ∷ xs) a h k = ground (arith, find_row-append_new p xs a)

  -- An update that keeps what is read of each row.
  pub map-update_where {ℓ'} :
      {B : Type ℓ'} (g : A → B) (p : A → Bool) (f : A → A) (xs : List A)
      → ((x : A) → g (f x) ≡ g x)
      → map g (update_where p f xs) ≡ map g xs
  map-update_where g p f [] keep = refl
  map-update_where g p f (x ∷ xs) keep =
      elim (p x) as (λ b. map g ((if b then f x else x) ∷ update_where p f xs) ≡ map g (x ∷ xs)) [
        | true ↦ λ i. keep x i ∷ map-update_where g p f xs keep i
        | false ↦ λ i. g x ∷ map-update_where g p f xs keep i
      ]

-- ===== src/Prelude/Selections.antt =====
-- The rows that a `SELECT` leaves out, and the writes that touch only those.
use mathlib.Core.Path.{◌≡◌, refl, sym, ◌∙◌, subst}
use mathlib.Core.Logic.{inl, inr}
use mathlib.Core.Bool.{Bool, true, false}
use mathlib.Core.Option.{some}
use mathlib.Core.List.{List, [], ◌∷◌, ◌++◌}
use native.Mathlib.Omega.{arith}
use bingwa.Prelude.Tests.{Bool-cases}
use bingwa.Prelude.Tables.{find_row, any_row, update_where, update_where-none, select}
use bingwa.Prelude.Rows.{All, AtMostOne}

module _ {ℓ} {A : Type ℓ} where
  All-no_row {κ} :
      (Q : A → Type κ) (p : A → Bool) (xs : List A)
      → any_row p xs ≡ false
      → All (λ x. p x ≡ true → Q x) xs
  All-no_row Q p [] h = tt
  All-no_row Q p (x ∷ xs) h = (λ e. absurd (no (p x) h e), All-no_row Q p xs (ground arith))
    where
      no : (b : Bool) → any_row p (x ∷ xs) ≡ false → p x ≡ true → ⊥
      no b k e = ground arith

  -- What holds of the row that is found by a unique key holds of every row with the key.
  pub All-unique_found {κ} :
      (Q : A → Type κ) (p : A → Bool) (xs : List A) (a : A)
      → AtMostOne p xs
      → find_row p xs ≡ some a
      → Q a
      → All (λ x. p x ≡ true → Q x) xs
  All-unique_found Q p [] a u e q = tt
  All-unique_found Q p (x ∷ xs) a u e q = elim (Bool-cases (p x)) [
    | inl hit ↦ (λ _. subst Q (ground arith) q, All-no_row Q p xs (u.0 hit))
    | inr miss ↦ (λ k. ground arith, All-unique_found Q p xs a u.1 (ground arith) q)
  ]

  -- An update of rows that are left out, before and after, does not show.
  pub select-update_where :
      (q p : A → Bool) (f : A → A) (xs : List A)
      → ((x : A) → q (f x) ≡ q x)
      → All (λ x. p x ≡ true → q x ≡ false) xs
      → select q (update_where p f xs) ≡ select q xs
  select-update_where q p f [] keep h = refl
  select-update_where q p f (x ∷ xs) keep h = elim (Bool-cases (p x)) [
    | inl hit ↦ ground (arith, select-update_where q p f xs keep h.1, h.0 hit, keep x)
    | inr miss ↦ ground (arith, select-update_where q p f xs keep h.1)
  ]

  pub select-append_one :
      (q : A → Bool) (xs : List A) (a : A) → q a ≡ false → select q (xs ++ a ∷ []) ≡ select q xs
  select-append_one q [] a h = ground arith
  select-append_one q (x ∷ xs) a h = ground (arith, select-append_one q xs a h)

module _ {ℓ} {A : Type ℓ} (p : A → Bool) where
  -- Where one row at most is hit, an update is told by what it makes of that row.
  pub update_where-found :
      (f g : A → A) (xs : List A) (a : A)
      → AtMostOne p xs
      → find_row p xs ≡ some a
      → f a ≡ g a
      → update_where p f xs ≡ update_where p g xs
  update_where-found f g [] a u e same = refl
  update_where-found f g (x ∷ xs) a u e same = elim (Bool-cases (p x)) [
    | inl hit ↦
        let here : x ≡ a = ground arith in
        let rest : update_where p f xs ≡ update_where p g xs =
          update_where-none p f xs (u.0 hit) ∙ sym (update_where-none p g xs (u.0 hit)) in
        let now : f x ≡ g x = subst (λ y. f y ≡ g y) (sym here) same in ground (arith, rest, now)
    | inr miss ↦ ground (arith, update_where-found f g xs a u.1 (ground arith) same)
  ]

  -- A second update that overwrites the first is the only one.
  pub update_where-twice :
      (f g : A → A) (xs : List A)
      → ((x : A) → p (f x) ≡ p x)
      → ((x : A) → g (f x) ≡ g x)
      → update_where p g (update_where p f xs) ≡ update_where p g xs
  update_where-twice f g [] keep over = refl
  update_where-twice f g (x ∷ xs) keep over =
      ground (arith, keep x, over x, update_where-twice f g xs keep over)

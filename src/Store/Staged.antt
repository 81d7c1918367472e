-- ===== src/Store/Staged.antt =====
-- Rules for the bodies of transactions whose postconditions speak of the tables as they will be when
-- the transaction is committed.
use bingwa.Prelude.{ℕ, ◌≡◌, sym, ap, subst, Bool, true, Option, some, String}
use bingwa.Store.{
  Env, Database, M, wrapping, tx_try_insert, tx_exec, affected, at_time, stored, transact,
}
use bingwa.Store.Triples.{Triple}
use bingwa.Store.Bodies.{Inside, Inside-weaken, Tables}
use bingwa.Store.Statements.{Inside-insert, Inside-update, Triple-transact}

module _ {F : Type 0} where
  -- `S` holds of the tables, and `X` of the tables with what the transaction has written.
  abbrev pub Staged : (Database F → Type 0) → (Database F → Type 0) → Tables F
  Staged S X d u = S d × X (u d)

  -- What the precondition says of values alone may be assumed.
  pub Inside-assume :
      {A X : Type 0} {P : Tables F} {Q : A → Tables F} {E : Database F → Type 0} {m : M F A}
      → (X → Inside P m Q E)
      → Inside (λ d u. X × P d u) m Q E
  Inside-assume k = record { apply = λ w h. (k h.0).apply w h.1 }

module _ {F : Type 0} ⦃env : Env⦄ where
  pub Inside-staged_insert :
      {A : Type 0} {S X : Database F → Type 0} {Y : A → Database F → Type 0}
      (g : ℕ → Database F → Option (Database F × A))
      → ((t : ℕ) (x p : Database F) (a : A) → g t x ≡ some (p, a) → X x → Y a p)
      → Inside (Staged S X) (tx_try_insert g) (λ a. Staged S (Y a)) S
  Inside-staged_insert {A} {S} {X} {Y} g made =
      Inside-insert g (λ d u h. h.0)
        λ t d u p a e h. (h.0, subst (Y a) (sym (ap (stored (u d)) e)) (made t (u d) p a e h.1))

  pub Inside-staged_update :
      {S X Y : Database F → Type 0} (s : String) (g : ℕ → Database F → Option (Database F × Bool))
      → ((t : ℕ) (x p : Database F) → g t x ≡ some (p, true) → X x → Y p)
      → Inside (Staged S X) (at_time λ t. affected (wrapping s (tx_exec (g t)))) (λ _. Staged S Y) S
  Inside-staged_update {S} {X} {Y} s g made =
      Inside-update s g (λ d u h. h.0)
        λ t d u p e h. (h.0, subst Y (sym (ap (stored (u d)) e)) (made t (u d) p e h.1))

  -- A transaction ends with what its body has staged, or with the tables as they were.
  pub Triple-staged :
      {A : Type 0} {S : Database F → Type 0} {Y : A → Database F → Type 0} {body : M F A}
      → Inside (Staged S S) body (λ a. Staged S (Y a)) S
      → Triple S (transact body) Y S
  Triple-staged {A} {S} {Y} {body} t =
      Triple-transact {P = S} {Q = Y} {E = S} (λ d h. h)
        (Inside-weaken (λ d u h. (h.0, subst (λ v. S (v d)) (sym h.1) h.0)) (λ a d u h. h)
          (λ d h. h) t)

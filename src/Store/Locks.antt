-- ===== src/Store/Locks.antt =====
-- Statements of the pool on a row that a transaction may have locked.
use bingwa.Prelude.{ℕ, Bool, true, false, not, ◌≡◌, refl, if◌then◌else◌, ◌||◌, String}
use bingwa.Store.{
  not_found, refuse_if, Env, Database, exec_subscription, at_time, affected, wrapping, fails, waits,
}
use bingwa.Store.Triples.{Triple, Ends-if, Triple-at_time, Triple-wrapping, Triple-bind}

module _ {F : Type 0} ⦃env : Env⦄ where
  -- The tables go from `P` to `Q`, or the statement fails and leaves them.
  pub Triple-exec_subscription :
      {P : Database F → Type 0} {Q : Bool → Database F → Type 0} (k : ℕ)
      (g : Database F → Database F × Bool)
      → ((d : Database F) → P d → Q (g d).1 (g d).0)
      → Triple P (exec_subscription k g) Q P
  Triple-exec_subscription {P} {Q} k g keep = record {
    apply = λ w h.
        Ends-if Q P (waits k w || fails w) _ _ _ (λ bad. rw bad h) (λ fine. rw fine (keep w.db h));
  }

  -- What a statement leaves, by whether it has hit a row.
  abbrev Hit : (Database F → Type 0) → (Database F → Type 0) → Bool → Database F → Type 0
  Hit Q P b d = if b then Q d else P d

  not_found-Triple :
      (P Q : Database F → Type 0) (b : Bool)
      → Triple (Hit Q P b) (refuse_if (not b) not_found) (λ _. Q) P
  not_found-Triple P Q true = record { apply = λ w h. h }
  not_found-Triple P Q false = record { apply = λ w h. h }

  Hit-intro :
      (P Q : Database F → Type 0) (b : Bool) (d : Database F)
      → ((b ≡ true) → Q d)
      → ((b ≡ false) → P d)
      → Hit Q P b d
  Hit-intro P Q true d h k = h refl
  Hit-intro P Q false d h k = k refl

  -- The same for a whole `UPDATE … WHERE id = $n`, which may hit no row.
  pub Triple-update_subscription :
      {P : Database F → Type 0} {Q : Database F → Type 0} (s : String) (k : ℕ)
      (g : ℕ → Database F → Database F × Bool)
      → ((t : ℕ) (d : Database F) → P d → (g t d).1 ≡ true → Q (g t d).0)
      → ((t : ℕ) (d : Database F) → P d → (g t d).1 ≡ false → P (g t d).0)
      → Triple P (at_time λ t. affected (wrapping s (exec_subscription k (g t)))) (λ _. Q) P
  Triple-update_subscription {P} {Q} s k g hit miss = Triple-at_time λ t.
      Triple-bind {Q = Hit Q P}
        (Triple-wrapping s (
          Triple-exec_subscription k (g t)
            λ d h. Hit-intro P Q (g t d).1 (g t d).0 (hit t d h) (miss t d h)))
        λ b. not_found-Triple P Q b

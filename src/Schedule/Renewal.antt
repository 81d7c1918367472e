-- ===== src/Schedule/Renewal.antt =====
-- `shouldContinueRenewal` of schedule_service.go.
use bingwa.Prelude.{
  ℕ, ◌≡◌, refl, sym, ◌⊎◌, inl, inr, Bool, true, false, not, Option, none, some, arith,
  if◌then◌else◌,
}
use bingwa.Domain.Schedule.{ScheduledOffer}
use bingwa.Store.{Env, Database, pure, now}
use bingwa.Store.Bodies.{Inside, Inside-bind, Inside-weaken, Inside-return, Tables}
use bingwa.Schedule.Entities.{limit_reached, is_past}
use bingwa.Schedule.Service

module _ ⦃env : Env⦄ where
  -- The end date is past, or not, on the clock.
  abbrev pub IsPast : Bool → Option ℕ → Type 0
  IsPast b until = (n : ℕ) × (is_past until (env.clock n) ≡ b)

  -- Whether the schedule goes on after the renewal with the number: not if the limit is reached, and
  -- not after the end date.
  abbrev pub Continues : Bool → ScheduledOffer → ℕ → Type 0
  Continues true s n = (limit_reached s.renewal_limit n ≡ false) × IsPast false s.renew_until
  Continues false s n = (limit_reached s.renewal_limit n ≡ true) ⊎ IsPast true s.renew_until

module _ {F : Type 0} ⦃env : Env⦄ {P : Tables F} {E : Database F → Type 0} where
  clock-Inside : Inside P now (λ t d u. ((n : ℕ) × (t ≡ env.clock n)) × P d u) E
  clock-Inside = record { apply = λ w h. ((w.steps, refl), h) }

  end-Inside :
      (until : Option ℕ)
      → Inside P (Service.within_end until) (λ b d u. IsPast (not b) until × P d u) E
  unfolding Service.within_end is_past
  end-Inside none = Inside-return true λ d u h. ((0, refl), h)
  end-Inside (some until) =
      Inside-bind clock-Inside
        λ t. Inside-return (not (is_past (some until) t)) λ d u h. (past t h.0, h.1)
    where
      past :
          (t : ℕ)
          → ((n : ℕ) × (t ≡ env.clock n))
          → IsPast (not (not (is_past (some until) t))) (some until)
      past t (n, e) = (n, rw (sym e) (ground arith))

  pub continue-Inside :
      (s : ScheduledOffer) (n : ℕ)
      → Inside P (Service.should_continue_renewal s n) (λ b d u. Continues b s n × P d u) E
  unfolding Service.should_continue_renewal
  continue-Inside s n = go (limit_reached s.renewal_limit n) refl
    where
      verdict :
          limit_reached s.renewal_limit n ≡ false
          → (b : Bool) → IsPast (not b) s.renew_until
          → Continues b s n
      verdict below true h = (below, h)
      verdict below false h = inr h

      go :
          (b : Bool)
          → limit_reached s.renewal_limit n ≡ b
          → Inside P
              (if b then pure false else Service.within_end s.renew_until)
              (λ r d u. Continues r s n × P d u)
              E
      go true e = Inside-return false λ d u h. (inl e, h)
      go false e =
          Inside-weaken (λ d u h. h) (λ b d u h. (verdict e b h.0, h.1)) (λ d h. h)
            (end-Inside s.renew_until)

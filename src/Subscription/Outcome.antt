-- ===== src/Subscription/Outcome.antt =====
-- What `RenewSubscription` means for the agent: the end of the period, and the usage.
use bingwa.Prelude.{
  ◌==◌, Bool-cases, update_where, ℕ, ◌≡◌, ◌<◌, refl, ap, true, List, [], ◌∷◌, map, All, inl, inr,
  map-update_where, arith,
}
use bingwa.Float64.{Float64}
use bingwa.Domain.Subscription.{
  AgentSubscription, RenewSubscriptionRequest, RenewalPeriod, daily, weekly, monthly, quarterly,
  yearly, other_period,
}
use bingwa.Store.{
  Result, ok, err, Env, IsClock, IsCalendar, World, Database, timed_out, context_cancelled,
}
use bingwa.Store.Triples.{Ends}
use bingwa.Subscription.Repository as Subscriptions
use bingwa.Subscription.Pricing.{calculate_period_end}
use bingwa.Subscription.Service.{renew_subscription}
use bingwa.Subscription.Lookups.{IsLatest}
use bingwa.Subscription.Extension.{IsRenewal, renew_subscription-Ends}

-- Each billing cycle ends later than it starts.
calculate_period_end-later :
    ⦃env : Env⦄ (start : ℕ) (cycle : RenewalPeriod)
    → IsCalendar env
    → start < calculate_period_end start cycle
unfolding calculate_period_end
calculate_period_end-later start daily cal = cal.later start 0 0 1 (omega arith)
calculate_period_end-later start weekly cal = cal.later start 0 0 7 (omega arith)
calculate_period_end-later start monthly cal = cal.later start 0 1 0 (omega arith)
calculate_period_end-later start quarterly cal = cal.later start 0 3 0 (omega arith)
calculate_period_end-later start yearly cal = cal.later start 1 0 0 (omega arith)
calculate_period_end-later start other_period cal = cal.later start 0 1 0 (omega arith)

module _ {F : Type 0} where
  -- What each subscription has used, by the order of the rows.
  abbrev pub usages : List (AgentSubscription F) → List (ℕ × ℕ)
  usages = map λ s. (s.id, s.requests_used)

  -- Every row with the id `k` ends at `end`.
  abbrev pub EndsAt : ℕ → ℕ → List (AgentSubscription F) → Type 0
  EndsAt k end = All λ row. ((row.id == k) ≡ true) → row.current_period_end ≡ end

  update_where-EndsAt :
      (k end : ℕ) (f : AgentSubscription F → AgentSubscription F) (xs : List (AgentSubscription F))
      → ((s : AgentSubscription F) → (f s).current_period_end ≡ end)
      → EndsAt k end (update_where (Subscriptions.has_id k) f xs)
  update_where-EndsAt k end f [] set = tt
  update_where-EndsAt k end f (s ∷ xs) set = elim (Bool-cases (s.id == k)) [
    | inl hit ↦ rw hit ((λ _. set s), update_where-EndsAt k end f xs set)
    | inr miss ↦ rw miss ((λ h. ground arith), update_where-EndsAt k end f xs set)
  ]

module _ {F : Type 0} ⦃fl : Float64 F⦄ ⦃env : Env⦄ (agent : ℕ) (req : RenewSubscriptionRequest F)
    (w : World F) where
  Ends-weaken :
      {A : Type 0} {Q Q' : A → Database F → Type 0} {E E' : Database F → Type 0}
      (o : Result A × World F)
      → ((a : A) (d : Database F) → Q a d → Q' a d)
      → ((d : Database F) → E d → E' d)
      → Ends Q E o
      → Ends Q' E' o
  Ends-weaken (ok a, v) f g h = f a v.db h
  Ends-weaken (err e, v) f g h = g v.db h

  stored-usages :
      (old : List (AgentSubscription F)) (d : Database F)
      → IsRenewal agent (env.clock w.steps) req w.db.plans old d
      → usages d.subscriptions ≡ usages old
  stored-usages old d r =
      let (t, n, waited, changed) = r.written in
      rw changed (
        map-update_where (λ s. (s.id, s.requests_used)) (Subscriptions.has_id r.current.id) _ old
          (λ s. refl))

  -- No call of `RenewSubscription`, whatever it returns, changes what a subscription has used: the
  -- reset waits for the row that the call's own transaction has locked. (With a clock that is not
  -- set back.)
  pub renew_subscription-usages :
      IsClock env
      → let kept = λ (d : Database F). usages d.subscriptions ≡ usages w.db.subscriptions in
        Ends (λ _. kept) kept (renew_subscription agent req w)
  renew_subscription-usages clock =
      Ends-weaken (renew_subscription agent req w) (λ _ d r. stored-usages w.db.subscriptions d r)
        (λ d h. elim h [ inl same ↦ ap usages same | inr r ↦ stored-usages w.db.subscriptions d r ])
        (renew_subscription-Ends agent req w clock)

  not_timed_out :
      ((n : ℕ) → env.lock_wait n ≡ context_cancelled) → (n : ℕ) → env.lock_wait n ≡ timed_out → ⊥
  not_timed_out never n h = ground (arith, never n)

  -- Where no lock timeout is set, so that only the end of the request's context ends a wait for a
  -- lock, `RenewSubscription` never succeeds and changes no subscription. (With a clock that is not
  -- set back.)
  pub renew_subscription-blocked :
      IsClock env
      → ((n : ℕ) → env.lock_wait n ≡ context_cancelled)
      → Ends (λ _ _. ⊥) (λ d. d.subscriptions ≡ w.db.subscriptions) (renew_subscription agent req w)
  renew_subscription-blocked clock never =
      Ends-weaken (renew_subscription agent req w)
        (λ _ d r. not_timed_out never r.written.1 r.written.2)
        (λ d h. elim h [
          | inl same ↦ same
          | inr r ↦ elim (not_timed_out never r.written.1 r.written.2) [ ]
        ])
        (renew_subscription-Ends agent req w clock)

  -- A renewal that succeeds is of the subscription that was the agent's, active, not over and the last
  -- to end when the call began, and the rows with its id then end later than it did. (With a clock that is not set back, and a calendar
  -- whose `AddDate` goes forward.)
  pub renew_subscription-extends :
      IsClock env
      → IsCalendar env
      → Ends
          (λ _ d.
            (s : AgentSubscription F) × (end : ℕ) × IsLatest agent
              (env.clock w.steps)
              w.db.subscriptions
              s
            × (s.current_period_end < end)
            × EndsAt s.id end d.subscriptions)
          (λ _. Unit {0})
          (renew_subscription agent req w)
  renew_subscription-extends clock cal =
      Ends-weaken (renew_subscription agent req w)
        (λ _ d r.
          let later = calculate_period_end-later r.start r.plan.billing_cycle cal in
          let (t, n, waited, changed) = r.written in
          (
            r.current,
            calculate_period_end r.start r.plan.billing_cycle,
            r.is_latest,
            ground (arith, later, r.continues),
            rw changed (update_where-EndsAt r.current.id _ _ w.db.subscriptions (λ s. refl)),
          ))
        (λ d h. tt) (renew_subscription-Ends agent req w clock)

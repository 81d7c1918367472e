-- ===== src/Subscription/Access.antt =====
-- The counts of `GetSubscriptionUsage`, and the guard of `IncrementRequestUsage`.
use bingwa.Prelude.{
  ℕ, ◌+◌, ◌-◌, ◌≡◌, refl, Bool, true, false, ◌&&◌, not, Option, none, some, ltb, leb, get_or,
  is_some, if◌then◌else◌, arith,
}
use bingwa.Float64.{Float64}
use bingwa.Domain.Subscription.{SubscriptionPlan, AgentSubscription, is_active}
use bingwa.Campaign.Discount.{whole_days, used_up}
use bingwa.Subscription.Usage.{
  can_make_requests, limit_blocks, usage_info, requests_left, within_or_overage, days_remaining,
  is_expiring,
}

expiring_days : (end t : ℕ) → is_expiring end t ≡ leb (days_remaining end t) 7
expiring_days end t =
    elim (ltb t end)
      as (λ b.
        (if b then leb (whole_days (end - t)) 7 else true)
        ≡ leb (if b then whole_days (end - t) else 0) 7) [ true ↦ refl | false ↦ refl ]

within_or_overage-used_up :
    {F : Type 0} (limit : Option ℕ) (used : ℕ) (charge : Option F) (can : Bool)
    → within_or_overage limit used charge can
      ≡ (can && not (used_up limit used && (if is_some charge then false else true)))
within_or_overage-used_up none used charge can = ground arith
within_or_overage-used_up (some limit) used charge can = ground arith

module _ {F : Type 0} where
  -- `GetSubscriptionUsage` says that an agent can make requests just when the subscription is
  -- active, its period is not over, and the guard of `IncrementRequestUsage` lets a request pass.
  pub can_make_requests_iff :
      (s : AgentSubscription F) (plan : SubscriptionPlan F) (t : ℕ)
      → can_make_requests s plan t
        ≡ (is_active s.status && ltb t s.current_period_end && not (limit_blocks s plan))
  unfolding can_make_requests
  can_make_requests_iff s plan t =
      within_or_overage-used_up s.requests_limit s.requests_used plan.overage_charge _

  abbrev pub overage_count : Option (ℕ × F × F) → ℕ
  overage_count none = 0
  overage_count (some (n, charge, rate)) = n

module _ {F : Type 0} ⦃fl : Float64 F⦄ where
  balance :
      (limit used : ℕ) (charge : Option F)
      → get_or (requests_left (some limit) used) 0 + used
        ≡ limit + (if ltb limit used then used - limit else 0)
  balance limit used charge = ground arith

  count-if :
      (b : Bool) (n : ℕ) (charge rate : F)
      → overage_count (if b then some (n, charge, rate) else none) ≡ (if b then n else 0)
  count-if true n charge rate = refl
  count-if false n charge rate = refl

  -- For a limited subscription, what `GetSubscriptionUsage` shows as remaining, added to what is
  -- used, gives the limit and the requests over it; with an overage rate, those are the count that
  -- is billed; and the subscription is shown as expiring just when at most 7 days are left.
  usage_info-balance :
      (s : AgentSubscription F) (plan : SubscriptionPlan F) (t limit : ℕ) (rate : F)
      → s.requests_limit ≡ some limit
      → plan.overage_charge ≡ some rate
      → let info = usage_info s plan t in
        (get_or info.requests_remaining 0 + s.requests_used ≡ limit + overage_count info.overage)
        × (info.is_expiring ≡ leb info.days_remaining 7)
  unfolding usage_info
  usage_info-balance s plan t limit rate limited charged = (
    rw limited (
        rw charged (
          rw (count-if (ltb limit s.requests_used) _ _ rate)
            (balance limit s.requests_used (some rate)))),
    expiring_days s.current_period_end t,
  )

-- ===== src/Subscription/Pricing.antt =====
-- The helpers of subscription_service.go: promotional codes, billing periods and references.
use bingwa.Prelude.{
  ℕ, zero, suc, ◌+◌, ◌-◌, ◌%◌, ◌||◌, not, Option, none, some, [], ◌∷◌, Text, ltb, if◌then◌else◌,
}
use bingwa.Float64.{Float64, ◌*f◌, ◌/f◌, ◌<f◌}
use bingwa.Domain.Campaign.{
  PromotionalCampaign, DiscountType, percentage, fixed_amount, free_trial, other_discount,
  is_active,
}
use bingwa.Domain.Subscription.{
  RenewalPeriod, daily, weekly, monthly, quarterly, yearly, other_period, Reference,
}
use bingwa.Store.{
  Result, ok, err, Env, M, msg, now, pure, wrapping, attempt, refuse_if, ◌>>=◌, ◌>>◌,
}
use bingwa.Campaign.Repository
use bingwa.Campaign.Discount.{used_up, plan_excluded}

-- `charset[i]`
abbrev pub charset_at : ℕ → ℕ
charset_at i = if ltb i 26 then b'A' + i else b'0' + (i - 26)

module _ ⦃env : Env⦄ where
  -- `calculatePeriodEnd`; the last clause is `default`
  unfoldable pub calculate_period_end : ℕ → RenewalPeriod → ℕ
  calculate_period_end start daily = env.add_date start 0 0 1
  calculate_period_end start weekly = env.add_date start 0 0 7
  calculate_period_end start monthly = env.add_date start 0 1 0
  calculate_period_end start quarterly = env.add_date start 0 3 0
  calculate_period_end start yearly = env.add_date start 1 0 0
  calculate_period_end start other_period = env.add_date start 0 1 0

module _ {F : Type 0} ⦃env : Env⦄ where
  -- `generateRandomString`: each character is picked by the clock.
  unfoldable pub generate_random_string : ℕ → M F Text
  generate_random_string zero = pure []
  generate_random_string (suc n) = do
    t ← now
    rest ← generate_random_string n
    pure (charset_at (t % 36) ∷ rest)

  -- `generateSubscriptionReference`
  unfoldable pub generate_subscription_reference : M F Reference
  unfolding generate_random_string
  generate_subscription_reference = do
    t ← now
    random ← generate_random_string 6
    pure (record { prefix = b'S' ∷ b'U' ∷ b'B' ∷ []; made_at = env.second t; random = random })

module _ {F : Type 0} ⦃fl : Float64 F⦄ where
  open fl use {nought, hundred}

  unfoldable pub by_type : DiscountType → F → Option F → F → F
  by_type percentage v none base = base *f (v /f hundred)
  by_type percentage v (some top) base =
      if top <f (base *f (v /f hundred)) then top else base *f (v /f hundred)
  by_type fixed_amount v top base = if base <f v then base else v
  by_type free_trial v top base = base
  by_type other_discount v top base = nought

  -- The `switch` of `applyPromotionalCode`, with the discount's initial zero.
  unfoldable pub promotional_discount : PromotionalCampaign F → F → F
  unfolding by_type
  promotional_discount c base = by_type c.discount_type c.discount_value c.max_discount_amount base

  -- The outcome of `applyPromotionalCode` where its error is only logged.
  abbrev pub or_nothing : Result (F × ℕ) → F × Option ℕ
  or_nothing (ok (discount, id)) = (discount, some id)
  or_nothing (err _) = (nought, none)

module _ {F : Type 0} ⦃fl : Float64 F⦄ ⦃env : Env⦄ where
  open fl use {nought}

  unfoldable pub apply_promotional_code : Text → ℕ → F → M F (F × ℕ)
  unfolding promotional_discount
  apply_promotional_code code plan_id base = do
    c ← wrapping "promotional code not found" (Repository.find_by_promotional_code code)
    t ← now
    refuse_if (not (is_active c.status) || ltb t c.start_date || ltb c.end_date t)
        (msg "promotional code is not active")
    refuse_if (plan_excluded c.applicable_plans plan_id)
        (msg "promotional code not applicable to this plan")
    refuse_if (used_up c.max_uses c.current_uses) (msg "promotional code usage limit reached")
    pure (promotional_discount c base, c.id)

  -- `if req.PromotionalCode != "" { … }`: the discount, and the campaign that gave it.
  unfoldable pub quote_discount : Text → ℕ → F → M F (F × Option ℕ)
  quote_discount [] plan_id base = pure (nought, none)
  quote_discount (c ∷ code) plan_id base = do
    r ← attempt (apply_promotional_code (c ∷ code) plan_id base)
    pure (or_nothing r)

-- ===== src/Campaign/Discount.antt =====
-- The pure part of internal/service/campaign/campaign.go: validation, activity and discounts.
use bingwa.Prelude.{
  ℕ, ◌-◌, ◌/◌, Bool, true, false, ◌&&◌, ◌||◌, not, Option, none, some, List, [], ◌∷◌, Text, text_eq,
  ◌==◌, ltb, leb, length, if◌then◌else◌,
}
use bingwa.Float64.{Float64, ◌*f◌, ◌/f◌, ◌<f◌}
use bingwa.Domain.Campaign.{
  PromotionalCampaign, DiscountType, percentage, fixed_amount, free_trial, other_discount,
  is_active,
}
use bingwa.Store.{Error, msg}

-- `c.MaxUses.Valid && c.CurrentUses >= int(c.MaxUses.Int32)`
abbrev pub used_up : Option ℕ → ℕ → Bool
used_up none uses = false
used_up (some limit) uses = leb limit uses

-- `IsCampaignActive`, at the time `t`
unfoldable pub is_campaign_active : {F : Type 0} → PromotionalCampaign F → ℕ → Bool
is_campaign_active c t =
    if not (is_active c.status)
    then false
    else if ltb t c.start_date || ltb c.end_date t
    then false
    else if used_up c.max_uses c.current_uses
    then false
    else true

-- The loops over `ApplicablePlans` and `TargetUserTypes`, with their `break`.
unfoldable pub plan_listed : List ℕ → ℕ → Bool
plan_listed [] k = false
plan_listed (p ∷ ps) k = p == k || plan_listed ps k

unfoldable pub user_type_listed : List Text → Text → Bool
user_type_listed [] u = false
user_type_listed (t ∷ ts) u = text_eq t u || user_type_listed ts u

-- `len(l) > 0 && !found`
abbrev pub plan_excluded : List ℕ → ℕ → Bool
plan_excluded ps k = ltb 0 (length ps) && not (plan_listed ps k)

abbrev pub user_type_excluded : List Text → Text → Bool
user_type_excluded ts u = ltb 0 (length ts) && not (text_eq u []) && not (user_type_listed ts u)

-- `validatePromotionalCode`: the length in bytes, then each character.
unfoldable pub is_code_byte : ℕ → Bool
is_code_byte c =
    leb b'a' c && leb c b'z'
    || leb b'A' c && leb c b'Z'
    || leb b'0' c && leb c b'9'
    || c == b'-'
    || c == b'_'

unfoldable pub only_code_bytes : Text → Bool
unfolding is_code_byte
only_code_bytes [] = true
only_code_bytes (c ∷ s) = is_code_byte c && only_code_bytes s

unfoldable pub validate_promotional_code : Text → Option Error
validate_promotional_code code =
    if ltb (length code) 3 || ltb 50 (length code)
    then some (msg "promotional code must be between 3 and 50 characters")
    else if not (only_code_bytes code)
    then some (msg "promotional code can only contain letters, numbers, hyphens, and underscores")
    else none

-- `remaining := limit - uses`, or 0 where that is negative
abbrev pub remaining : Option ℕ → ℕ → Option ℕ
remaining none uses = none
remaining (some limit) uses = some (if ltb limit uses then 0 else limit - uses)

-- `GetRemainingUses`; `none` is -1, unlimited
unfoldable pub get_remaining_uses : {F : Type 0} → PromotionalCampaign F → Option ℕ
get_remaining_uses c = remaining c.max_uses c.current_uses

-- `int(duration.Hours() / 24)` of a duration in nanoseconds
abbrev pub nanoseconds_per_day : ℕ
nanoseconds_per_day = 86_400_000_000_000

abbrev pub whole_days : ℕ → ℕ
whole_days d = d / nanoseconds_per_day

-- `GetCampaignDaysRemaining`, at the time `t`
unfoldable pub get_campaign_days_remaining : {F : Type 0} → PromotionalCampaign F → ℕ → ℕ
get_campaign_days_remaining c t = if ltb c.end_date t then 0 else whole_days (c.end_date - t)

module _ {F : Type 0} ⦃fl : Float64 F⦄ where
  open fl use {nought, one, hundred}

  unfoldable pub validate_discount_type_and_value : DiscountType → F → Option Error
  validate_discount_type_and_value percentage v =
      if v <f nought || hundred <f v
      then some (msg "percentage discount must be between 0 and 100")
      else none
  validate_discount_type_and_value fixed_amount v =
      if v <f nought then some (msg "fixed amount discount cannot be negative") else none
  validate_discount_type_and_value free_trial v =
      if v <f one then some (msg "free trial days must be at least 1") else none
  validate_discount_type_and_value other_discount v = some (msg "invalid discount type: %s")

  -- `c.MaxDiscountAmount.Valid && discount > c.MaxDiscountAmount.Float64`
  abbrev pub capped : Option F → F → F
  capped none d = d
  capped (some top) d = if top <f d then top else d

  abbrev pub discount_for : DiscountType → F → Option F → F → F
  discount_for percentage v top price = capped top (price *f (v /f hundred))
  discount_for fixed_amount v top price = if price <f v then price else v
  discount_for free_trial v top price = price
  discount_for other_discount v top price = nought

  -- `CalculateDiscount`
  unfoldable pub calculate_discount : PromotionalCampaign F → F → F
  calculate_discount c price =
      discount_for c.discount_type c.discount_value c.max_discount_amount price

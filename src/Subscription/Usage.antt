-- ===== src/Subscription/Usage.antt =====
-- Usage and access: the pure part of `GetSubscriptionUsage`, and what the checks test.
use bingwa.Prelude.{
  ℕ, ◌-◌, Bool, true, false, ◌&&◌, Option, none, some, ltb, leb, is_some, if◌then◌else◌,
}
use bingwa.Float64.{Float64, ◌*f◌, ◌/f◌, ◌<f◌}
use bingwa.Domain.Subscription.{
  SubscriptionPlan, AgentSubscription, SubscriptionUsageInfo, is_active,
}
use bingwa.Campaign.Discount.{whole_days, used_up}

-- `RequestsLimit - RequestsUsed`, or 0 where that is negative
abbrev pub requests_left : Option ℕ → ℕ → Option ℕ
requests_left none used = none
requests_left (some limit) used = some (if ltb limit used then 0 else limit - used)

-- `int(duration.Hours() / 24)`, 0 once the period is over
abbrev pub days_remaining : ℕ → ℕ → ℕ
days_remaining end t = if ltb t end then whole_days (end - t) else 0

abbrev pub is_expiring : ℕ → ℕ → Bool
is_expiring end t = if ltb t end then leb (whole_days (end - t)) 7 else true

module _ {F : Type 0} where
  -- The last block of `GetSubscriptionUsage`, which sets `CanMakeRequests`.
  abbrev pub within_or_overage : Option ℕ → ℕ → Option F → Bool → Bool
  within_or_overage none used charge can = can
  within_or_overage (some limit) used charge can =
      if ltb used limit then can else if is_some charge then can else false

  unfoldable pub can_make_requests : AgentSubscription F → SubscriptionPlan F → ℕ → Bool
  can_make_requests s plan t =
      within_or_overage s.requests_limit s.requests_used plan.overage_charge
        (is_active s.status && ltb t s.current_period_end)

  -- `sub.RequestsLimit.Valid && sub.RequestsUsed >= limit && !plan.OverageCharge.Valid`
  abbrev pub limit_blocks : AgentSubscription F → SubscriptionPlan F → Bool
  limit_blocks s plan =
      used_up s.requests_limit s.requests_used
      && (if is_some plan.overage_charge then false else true)

module _ {F : Type 0} ⦃fl : Float64 F⦄ where
  open fl use {nought, hundred, of_nat}

  -- The entries "overage_count", "overage_charge" and "overage_rate" of the answer's metadata.
  abbrev pub overage : Option ℕ → ℕ → Option F → Option (ℕ × F × F)
  overage none used charge = none
  overage (some limit) used none = none
  overage (some limit) used (some rate) =
      if ltb limit used then some (used - limit, of_nat (used - limit) *f rate, rate) else none

  abbrev pub at_most_hundred : F → F
  at_most_hundred p = if hundred <f p then hundred else p

  abbrev pub usage_percentage : Option ℕ → ℕ → F
  usage_percentage none used = nought
  usage_percentage (some limit) used = at_most_hundred ((of_nat used /f of_nat limit) *f hundred)

  -- `GetSubscriptionUsage` from the two rows and the time.
  unfoldable pub usage_info : AgentSubscription F → SubscriptionPlan F → ℕ → SubscriptionUsageInfo F
  unfolding can_make_requests
  usage_info s plan t = record {
    subscription_id = s.id;
    requests_used = s.requests_used;
    requests_limit = s.requests_limit;
    requests_remaining = requests_left s.requests_limit s.requests_used;
    overage = overage s.requests_limit s.requests_used plan.overage_charge;
    usage_percentage = usage_percentage s.requests_limit s.requests_used;
    days_remaining = days_remaining s.current_period_end t;
    is_expiring = is_expiring s.current_period_end t;
    can_make_requests = can_make_requests s plan t;
  }

-- ===== src/Campaign/Validation.antt =====
-- When `ValidateCampaign` of campaign.go accepts a promotional code.
use bingwa.Prelude.{
  Bool-cases, inl, inr, if◌then◌else◌, ℕ, ◌+◌, ◌≤◌, ◌<◌, ◌≡◌, ◌↔◌, ◌⊎◌, Bool, true, false, Option,
  none, some, List, [], ◌∷◌, Text, text_eq_iff, to_upper, arith, find_row,
}
use bingwa.Domain.Campaign.{
  PromotionalCampaign, CampaignStatus, ValidateCampaignRequest, ValidateCampaignResponse,
}
use bingwa.Store.{wrap, is_sql_no_rows, Result, ok, err, Env, World, fails}
use bingwa.Campaign.Repository.{has_promotional_code, find_by_promotional_code}
use bingwa.Campaign.Discount.{
  used_up, is_campaign_active, plan_listed, user_type_listed, plan_excluded, user_type_excluded,
}
use bingwa.Campaign.Service.{verdict, validate_campaign}

abbrev pub Listed : List ℕ → ℕ → Type 0
Listed [] k = ⊥
Listed (p ∷ ps) k = (p ≡ k) ⊎ Listed ps k

abbrev pub ListedText : List Text → Text → Type 0
ListedText [] u = ⊥
ListedText (t ∷ ts) u = (t ≡ u) ⊎ ListedText ts u

plan_listed_iff : (ps : List ℕ) (k : ℕ) → (plan_listed ps k ≡ true) ↔ Listed ps k
unfolding plan_listed
plan_listed_iff [] k = ground arith
plan_listed_iff (p ∷ ps) k = ground (arith, plan_listed_iff ps k)

user_type_listed_iff :
    (ts : List Text) (u : Text) → (user_type_listed ts u ≡ true) ↔ ListedText ts u
unfolding user_type_listed
user_type_listed_iff [] u = ground arith
user_type_listed_iff (t ∷ ts) u = ground (arith, text_eq_iff t u, user_type_listed_iff ts u)

-- No restriction, or a listed value.
abbrev pub PlanAllowed : List ℕ → ℕ → Type 0
PlanAllowed ps k = (ps ≡ []) ⊎ Listed ps k

abbrev pub UserTypeAllowed : List Text → Text → Type 0
UserTypeAllowed ts u = (ts ≡ []) ⊎ (u ≡ []) ⊎ ListedText ts u

plan_excluded_iff : (ps : List ℕ) (k : ℕ) → (plan_excluded ps k ≡ false) ↔ PlanAllowed ps k
plan_excluded_iff [] k = ground arith
plan_excluded_iff (p ∷ ps) k = ground (arith, plan_listed_iff (p ∷ ps) k)

user_type_excluded_iff :
    (ts : List Text) (u : Text) → (user_type_excluded ts u ≡ false) ↔ UserTypeAllowed ts u
user_type_excluded_iff [] u = ground arith
user_type_excluded_iff (t ∷ ts) u =
    ground (arith, text_eq_iff u [], user_type_listed_iff (t ∷ ts) u)

abbrev pub UsesLeft : Option ℕ → ℕ → Type 0
UsesLeft none uses = Unit {0}
UsesLeft (some limit) uses = uses < limit

used_up_iff : (limit : Option ℕ) (uses : ℕ) → (used_up limit uses ≡ false) ↔ UsesLeft limit uses
used_up_iff none uses = ground arith
used_up_iff (some limit) uses = ground arith

-- What a campaign has to be for a request at the time `t`.
pub record IsRedeemable {F : Type 0} (c : PromotionalCampaign F) (req : ValidateCampaignRequest)
    (t : ℕ) : Type 0 where
  pub status_active : c.status ≡ CampaignStatus.active
  pub started : c.start_date ≤ t
  pub not_ended : t ≤ c.end_date
  pub uses_left : UsesLeft c.max_uses c.current_uses
  pub plan_allowed : PlanAllowed c.applicable_plans req.plan_id
  pub user_type_allowed : UserTypeAllowed c.target_user_types req.user_type

module _ {F : Type 0} ⦃env : Env⦄ where
  verdict_iff :
      (c : PromotionalCampaign F) (req : ValidateCampaignRequest) (t : ℕ)
      → ((verdict c req t).valid ≡ true) ↔ IsRedeemable c req t
  unfolding is_campaign_active
  verdict_iff c req t = ground (
    arith,
    used_up_iff c.max_uses c.current_uses,
    plan_excluded_iff c.applicable_plans req.plan_id,
    user_type_excluded_iff c.target_user_types req.user_type,
  )

  -- The answer is a response that says "valid".
  abbrev pub accepts : Result (ValidateCampaignResponse F) → Bool
  accepts (ok r) = r.valid
  accepts (err e) = false

  -- For a code that the table holds (in upper case), the statement succeeding: the service says
  -- "valid" exactly when the campaign is active, has started, has not ended, has uses left, and
  -- its lists of plans and of user types are empty or name the request's (an empty user type is
  -- let through), at the clock's next time.
  pub validate_campaign_iff :
      (req : ValidateCampaignRequest) (w : World F) (c : PromotionalCampaign F)
      → fails w ≡ false
      → find_row (has_promotional_code (to_upper req.promotional_code)) w.db.campaigns ≡ some c
      → (accepts (validate_campaign req w).0 ≡ true) ↔ IsRedeemable c req (env.clock (w.steps + 1))
  unfolding validate_campaign find_by_promotional_code
  validate_campaign_iff req w c fine found =
      ground (arith, verdict_iff c req (env.clock (w.steps + 1)))

  -- A code that the table does not hold, the statement succeeding, gets the answer "not valid" if
  -- pgx's error for no row is `sql.ErrNoRows` itself, and otherwise an error that wraps pgx's.
  pub validate_campaign-unknown :
      (req : ValidateCampaignRequest) (w : World F)
      → fails w ≡ false
      → find_row (has_promotional_code (to_upper req.promotional_code)) w.db.campaigns ≡ none
      → (validate_campaign req w).0 ≡ (
          if is_sql_no_rows env.no_rows
          then ok (record { valid = false; campaign = none; message = "Invalid promotional code" })
          else err (wrap "failed to find campaign" env.no_rows))
  unfolding validate_campaign find_by_promotional_code
  validate_campaign-unknown req w fine found = elim (Bool-cases (is_sql_no_rows env.no_rows)) [
    | inl same ↦ ground arith
    | inr other ↦ ground arith
  ]

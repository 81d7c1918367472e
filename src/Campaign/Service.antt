-- ===== src/Campaign/Service.antt =====
-- internal/service/campaign/campaign.go: the operations. Logging and the listing are left out.
use bingwa.Prelude.{
  null_string, ℕ, zero, suc, ◌+◌, true, false, Option, none, some, [], ◌∷◌, Text, to_upper, ltb,
  get_or, if◌then◌else◌,
}
use bingwa.Float64.{Float64, ◌-f◌, ◌<f◌}
use bingwa.Domain.Campaign.{
  PromotionalCampaign, CampaignStatus, CampaignCode, DiscountType, percentage, fixed_amount,
  free_trial, other_discount, CreateCampaignRequest, UpdateCampaignRequest, ValidateCampaignRequest,
  ValidateCampaignResponse,
}
use bingwa.Store.{
  Error, msg, is_not_found, Result, ok, err, Env, M, now, pure, raise, wrapping, attempt, refuse_if,
  ◌>>=◌, ◌>>◌,
}
use bingwa.Campaign.Repository
use bingwa.Campaign.Discount.{
  used_up, is_campaign_active, plan_excluded, user_type_excluded, validate_promotional_code,
  validate_discount_type_and_value, calculate_discount,
}

-- `if err := validate(…); err != nil { return err }`
abbrev pub check : {F : Type 0} → Option Error → M F (Unit {0})
check none w = (ok tt, w)
check (some e) w = (err e, w)

-- `if req.X != nil { c.X = … }` on a nullable column.
abbrev pub some_or : {A : Type 0} → Option A → Option A → Option A
some_or none old = old
some_or (some a) old = some a

abbrev pub described : Option Text → Option Text → Option Text
described none old = old
described (some s) old = null_string s

-- The `switch` of `generateCampaignCode`.
abbrev pub type_prefix : DiscountType → Text
type_prefix percentage = b'P' ∷ b'T' ∷ []
type_prefix fixed_amount = b'F' ∷ b'X' ∷ []
type_prefix free_trial = b'T' ∷ b'L' ∷ []
type_prefix other_discount = []

module _ {F : Type 0} ⦃env : Env⦄ where
  -- The loop of `generateCampaignCode`, from attempt `i` with `left` attempts left.
  unfoldable pub campaign_code_from : ℕ → ℕ → DiscountType → M F CampaignCode
  campaign_code_from zero i t =
      raise (msg "failed to generate unique campaign code after %d attempts")
  campaign_code_from (suc left) i t = do
    at ← now
    let code : CampaignCode = record {
      type_prefix = type_prefix t;
      year_month = env.year_month at;
      suffix = i;
    }
    exists ← wrapping "failed to check campaign code" (Repository.exists_by_campaign_code code)
    if exists then campaign_code_from left (i + 1) t else pure code

  -- `maxAttempts := 5`
  unfoldable pub generate_campaign_code : DiscountType → M F CampaignCode
  unfolding campaign_code_from
  generate_campaign_code = campaign_code_from 5 0

  unfoldable pub activate_campaign : ℕ → M F (Unit {0})
  activate_campaign id =
      wrapping "failed to activate campaign" (Repository.update_status id CampaignStatus.active)

  unfoldable pub deactivate_campaign : ℕ → M F (Unit {0})
  deactivate_campaign id =
      wrapping "failed to deactivate campaign" (Repository.update_status id CampaignStatus.inactive)

  -- A campaign that has been used stays.
  unfoldable pub delete_campaign : ℕ → M F (Unit {0})
  delete_campaign id = do
    c ← Repository.find_by_id id
    refuse_if (ltb 0 c.current_uses) (msg "cannot delete campaign that has been used %d times")
    wrapping "failed to delete campaign" (Repository.delete id)

  unfoldable pub get_campaign_by_code : Text → M F (PromotionalCampaign F)
  get_campaign_by_code code = Repository.find_by_promotional_code (to_upper code)

  -- What `ValidateCampaign` answers for a campaign that was found, at the time `t`.
  abbrev pub verdict :
      PromotionalCampaign F → ValidateCampaignRequest → ℕ → ValidateCampaignResponse F
  verdict c req t =
      if is_campaign_active c t
      then if plan_excluded c.applicable_plans req.plan_id
        then record {
          valid = false;
          campaign = some c;
          message = "This promotional code is not applicable to the selected plan";
        }
        else if user_type_excluded c.target_user_types req.user_type
        then record {
          valid = false;
          campaign = some c;
          message = "This promotional code is not available for your user type";
        }
        else if used_up c.max_uses c.current_uses
        then record {
          valid = false;
          campaign = some c;
          message = "This promotional code has reached its usage limit";
        }
        else record { valid = true; campaign = some c; message = "Promotional code is valid" }
      else record {
        valid = false;
        campaign = some c;
        message = "This promotional code is not currently active";
      }

  -- The `if err == xerrors.ErrNotFound` of `ValidateCampaign`.
  abbrev pub answer_lookup :
      ValidateCampaignRequest → Result (PromotionalCampaign F) → M F (ValidateCampaignResponse F)
  answer_lookup req (ok c) = do t ← now; pure (verdict c req t)
  answer_lookup req (err e) =
      if is_not_found e
      then pure (record { valid = false; campaign = none; message = "Invalid promotional code" })
      else raise e

  unfoldable pub validate_campaign : ValidateCampaignRequest → M F (ValidateCampaignResponse F)
  validate_campaign req = do
    found ← attempt (Repository.find_by_promotional_code (to_upper req.promotional_code))
    answer_lookup req found

  unfoldable pub extend_campaign : ℕ → ℕ → M F (Unit {0})
  extend_campaign id days = do
    refuse_if (ltb days 1) (msg "extension days must be positive")
    c ← Repository.find_by_id id
    wrapping "failed to extend campaign"
        (Repository.update id (record c { end_date = env.add_date c.end_date 0 0 days }))

module _ {F : Type 0} ⦃fl : Float64 F⦄ ⦃env : Env⦄ where
  open fl use {nought}

  -- The entity that `CreateCampaign` builds.
  abbrev pub new_campaign : CreateCampaignRequest F → CampaignCode → PromotionalCampaign F
  new_campaign req code = record {
    id = 0;
    campaign_code = code;
    name = req.name;
    description = null_string req.description;
    promotional_code = to_upper req.promotional_code;
    discount_type = req.discount_type;
    discount_value = req.discount_value;
    max_discount_amount = req.max_discount_amount;
    start_date = req.start_date;
    end_date = req.end_date;
    max_uses = req.max_uses;
    uses_per_user = req.uses_per_user;
    current_uses = 0;
    applicable_plans = req.applicable_plans;
    target_user_types = req.target_user_types;
    status = CampaignStatus.active;
    metadata = req.metadata;
    created_at = 0;
    updated_at = 0;
  }

  unfoldable pub create_campaign : CreateCampaignRequest F → M F (PromotionalCampaign F)
  create_campaign req = do
    refuse_if (ltb req.end_date req.start_date) (msg "end date must be after start date")
    check (validate_discount_type_and_value req.discount_type req.discount_value)
    check (validate_promotional_code req.promotional_code)
    exists ←
        wrapping "failed to check promotional code"
          (Repository.exists_by_promotional_code req.promotional_code)
    refuse_if exists (msg "promotional code '%s' already exists")
    code ← wrapping "failed to generate campaign code" (generate_campaign_code req.discount_type)
    wrapping "failed to create campaign" (Repository.create (new_campaign req code))

  abbrev pub check_discount : DiscountType → Option F → M F (Unit {0})
  check_discount t none w = (ok tt, w)
  check_discount t (some v) w = check (validate_discount_type_and_value t v) w

  -- The fields that the request sets.
  abbrev pub changed : PromotionalCampaign F → UpdateCampaignRequest F → PromotionalCampaign F
  changed c req = record c {
    name = get_or req.name c.name;
    description = described req.description c.description;
    discount_value = get_or req.discount_value c.discount_value;
    max_discount_amount = some_or req.max_discount_amount c.max_discount_amount;
    start_date = get_or req.start_date c.start_date;
    end_date = get_or req.end_date c.end_date;
    max_uses = some_or req.max_uses c.max_uses;
    uses_per_user = get_or req.uses_per_user c.uses_per_user;
    applicable_plans = get_or req.applicable_plans c.applicable_plans;
    target_user_types = get_or req.target_user_types c.target_user_types;
    metadata = some_or req.metadata c.metadata;
  }

  unfoldable pub update_campaign : ℕ → UpdateCampaignRequest F → M F (PromotionalCampaign F)
  update_campaign id req = do
    c ← Repository.find_by_id id
    check_discount c.discount_type req.discount_value
    let new = changed c req
    refuse_if (ltb new.end_date new.start_date) (msg "end date must be after start date")
    wrapping "failed to update campaign" (Repository.update id new)
    Repository.find_by_id id

  -- `ApplyCampaign`: the discount and the price that is left.
  unfoldable pub apply_campaign : ℕ → F → M F (F × F)
  apply_campaign id price = do
    c ← Repository.find_by_id id
    let discount = calculate_discount c price
    let final = price -f discount
    pure (discount, (if final <f nought then nought else final))

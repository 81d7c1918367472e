-- ===== src/Examples/Campaigns.antt =====
-- The theorems on campaigns, at a campaign with 10 percent off.
use bingwa.Prelude.{◌≡◌, ◌↔◌, refl, true, false, List, [], ◌∷◌, any_row, to_upper, arith, Text}
use bingwa.Float64.{fixed, fixed-IsIeee, Fixed, ◌≼◌}
use bingwa.Domain.Campaign.{CampaignCode, DiscountType, ValidateCampaignRequest}
use bingwa.Store.{ok, err, wrap, driver}
use bingwa.Campaign.Repository.{has_campaign_code, exists_by_campaign_code}
use bingwa.Campaign.Discount.{calculate_discount, validate_discount_type_and_value}
use bingwa.Campaign.Invariant.{CampaignsValid}
use bingwa.Campaign.Service.{
  validate_campaign, campaign_code_from, generate_campaign_code, type_prefix,
}
use bingwa.Campaign.Bounds.{calculate_discount-bounds}
use bingwa.Campaign.Validation.{
  accepts, IsRedeemable, validate_campaign_iff, validate_campaign-unknown,
}
use bingwa.Campaign.Codes.{generate_campaign_code-total}
use bingwa.Campaign.Operations.{CampaignCall, run, run-CampaignsValid}
use bingwa.Examples.{test_env, test_env-IsCalendar, test_campaign, test_world, save10}

calculate_discount-bounds_example :
    (0 ≼ calculate_discount test_campaign 10_000_000)
    × (calculate_discount test_campaign 10_000_000 ≼ 10_000_000)
unfolding validate_discount_type_and_value
calculate_discount-bounds_example =
    calculate_discount-bounds test_campaign 10_000_000 fixed-IsIeee refl refl refl

abbrev request : Text → ValidateCampaignRequest
request code = record { promotional_code = code; plan_id = 2; user_type = [] }

validate_campaign_iff_example :
    (accepts (validate_campaign (request save10) test_world).0 ≡ true)
    ↔ IsRedeemable test_campaign (request save10) 1001
unfolding to_upper
validate_campaign_iff_example =
    validate_campaign_iff (request save10) test_world test_campaign refl refl

validate_campaign-unknown_example :
    (validate_campaign (request []) test_world).0 ≡ err (wrap "failed to find campaign" (driver 0))
unfolding to_upper
validate_campaign-unknown_example = validate_campaign-unknown (request []) test_world refl refl

abbrev first_code : CampaignCode
first_code = record {
  type_prefix = type_prefix DiscountType.percentage;
  year_month = 1;
  suffix = 0;
}

generated : (generate_campaign_code DiscountType.percentage test_world).0 ≡ ok first_code
unfolding generate_campaign_code campaign_code_from exists_by_campaign_code
generated = refl

free : any_row (has_campaign_code first_code) test_world.db.campaigns ≡ false
free = refl

generate_campaign_code-total_example :
    (c : CampaignCode) × ((generate_campaign_code DiscountType.percentage test_world).0 ≡ ok c)
generate_campaign_code-total_example =
    generate_campaign_code-total 0 1 DiscountType.percentage test_world refl (λ n. refl) (λ n. refl)
      (omega arith) free

valid : CampaignsValid test_world.db
unfolding validate_discount_type_and_value to_upper
valid = record {
  rows = (record { dates = omega arith; discount = refl; upper = refl }, tt);
  ids = λ k. ((λ e. refl), tt);
  codes = λ code. ((λ e. refl), tt);
  below = (omega arith, tt);
}

abbrev calls : List (CampaignCall Fixed)
calls = CampaignCall.extends 3 7 ∷ CampaignCall.increments 3 ∷ CampaignCall.deactivates 3 ∷ []

run-CampaignsValid_example : CampaignsValid (run calls test_world).db
run-CampaignsValid_example = run-CampaignsValid calls test_world test_env-IsCalendar valid

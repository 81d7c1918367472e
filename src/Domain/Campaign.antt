-- ===== src/Domain/Campaign.antt =====
-- internal/domain/campaign: promotional campaigns and the requests of the service.
use bingwa.Prelude.{ℕ, Bool, Option, List, String, Text}

-- entity.go; `other_discount` is any other text.
pub data DiscountType : Type 0 where
  percentage fixed_amount free_trial other_discount : DiscountType

pub data CampaignStatus : Type 0 where
  active inactive expired cancelled suspended : CampaignStatus

abbrev pub is_active : CampaignStatus → Bool
is_active active = Bool.true
is_active _ = Bool.false

-- "CMP-", a type prefix, the year and month of the clock, and a suffix after a collision.
pub record CampaignCode : Type 0 where
  pub type_prefix : Text
  pub year_month : ℕ
  pub suffix : ℕ

pub record PromotionalCampaign (F : Type 0) : Type 0 where
  pub id : ℕ
  pub campaign_code : CampaignCode
  pub name : Text
  pub description : Option Text
  pub promotional_code : Text
  pub discount_type : DiscountType
  pub discount_value : F
  pub max_discount_amount : Option F
  pub start_date : ℕ
  pub end_date : ℕ
  pub max_uses : Option ℕ
  pub uses_per_user : ℕ
  pub current_uses : ℕ
  pub applicable_plans : List ℕ
  pub target_user_types : List Text
  pub status : CampaignStatus
  pub metadata : Option Text
  pub created_at : ℕ
  pub updated_at : ℕ

-- dto.go
pub record CreateCampaignRequest (F : Type 0) : Type 0 where
  pub name : Text
  pub description : Text
  pub promotional_code : Text
  pub discount_type : DiscountType
  pub discount_value : F
  pub max_discount_amount : Option F
  pub start_date : ℕ
  pub end_date : ℕ
  pub max_uses : Option ℕ
  pub uses_per_user : ℕ
  pub applicable_plans : List ℕ
  pub target_user_types : List Text
  pub metadata : Option Text

pub record UpdateCampaignRequest (F : Type 0) : Type 0 where
  pub name : Option Text
  pub description : Option Text
  pub discount_value : Option F
  pub max_discount_amount : Option F
  pub start_date : Option ℕ
  pub end_date : Option ℕ
  pub max_uses : Option ℕ
  pub uses_per_user : Option ℕ
  pub applicable_plans : Option (List ℕ)
  pub target_user_types : Option (List Text)
  pub metadata : Option Text

pub record ValidateCampaignRequest : Type 0 where
  pub promotional_code : Text
  pub plan_id : ℕ
  pub user_type : Text

pub record ValidateCampaignResponse (F : Type 0) : Type 0 where
  pub valid : Bool
  pub campaign : Option (PromotionalCampaign F)
  pub message : String

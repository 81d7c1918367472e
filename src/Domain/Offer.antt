-- ===== src/Domain/Offer.antt =====
-- internal/domain/offer: the offers of an agent and their USSD codes.
use bingwa.Prelude.{ℕ, Bool, Option, List, Text}

pub data UssdProcessingType : Type 0 where
  express multistep callback : UssdProcessingType

-- entity.go, `OfferUSSDCode`
pub record OfferUssdCode : Type 0 where
  pub id : ℕ
  pub offer_id : ℕ
  pub ussd_code : Text
  pub signature_pattern : Option Text
  pub priority : ℕ
  pub is_active : Bool
  pub expected_response : Option Text
  pub error_pattern : Option Text
  pub processing_type : UssdProcessingType
  pub success_count : ℕ
  pub failure_count : ℕ
  pub last_used_at : Option ℕ
  pub last_success_at : Option ℕ
  pub last_failure_at : Option ℕ
  pub metadata : Option Text
  pub created_at : ℕ
  pub updated_at : ℕ

pub data OfferStatus : Type 0 where
  active inactive paused suspended archived : OfferStatus

-- `other_type` and `other_units` are any other text of a request.
pub data OfferType : Type 0 where
  data_bundle sms voice combo other_type : OfferType

pub data OfferUnits : Type 0 where
  gb mb kb minutes messages units other_units : OfferUnits

-- entity.go, `AgentOffer`. `primary_ussd_code` is no column: `FindByID` fills it.
pub record AgentOffer (F : Type 0) : Type 0 where
  pub id : ℕ
  pub agent_identity_id : ℕ
  pub offer_code : Text
  pub name : Text
  pub description : Option Text
  pub offer_type : OfferType
  pub amount : F
  pub units : OfferUnits
  pub price : F
  pub currency : Text
  pub discount_percentage : F
  pub validity_days : ℕ
  pub validity_label : Option Text
  pub ussd_code_template : Text
  pub ussd_processing_type : UssdProcessingType
  pub ussd_expected_response : Option Text
  pub ussd_error_pattern : Option Text
  pub is_featured : Bool
  pub is_recurring : Bool
  pub max_purchases_per_customer : Option ℕ
  pub status : OfferStatus
  pub available_from : Option ℕ
  pub available_until : Option ℕ
  pub tags : List Text
  pub metadata : Option Text
  pub created_at : ℕ
  pub updated_at : ℕ
  pub deleted_at : Option ℕ
  pub primary_ussd_code : Option OfferUssdCode

-- entity.go, `USSDCodeExecutionInfo`
pub record UssdCodeExecutionInfo : Type 0 where
  pub ussd_code_id : ℕ
  pub ussd_code : Text
  pub processing_type : UssdProcessingType
  pub expected_response : Text
  pub error_pattern : Text
  pub signature_pattern : Text
  pub priority : ℕ
  pub fallback_codes : List Text
  pub is_fallback : Bool

-- The keys of the maps of replacements in ussd_code_gen.go.
pub data Placeholder : Type 0 where
  phone customer_phone amount price : Placeholder

-- dto.go
pub record CreateOfferRequest (F : Type 0) : Type 0 where
  pub name : Text
  pub description : Text
  pub offer_type : OfferType
  pub amount : F
  pub units : OfferUnits
  pub price : F
  pub currency : Text
  pub discount_percentage : F
  pub validity_days : ℕ
  pub validity_label : Text
  pub ussd_code_template : Text
  pub ussd_processing_type : UssdProcessingType
  pub ussd_expected_response : Text
  pub ussd_error_pattern : Text
  pub is_featured : Bool
  pub is_recurring : Bool
  pub max_purchases_per_customer : Option ℕ
  pub available_from : Option ℕ
  pub available_until : Option ℕ
  pub tags : List Text
  pub metadata : Option Text

pub record UpdateOfferRequest (F : Type 0) : Type 0 where
  pub name : Option Text
  pub description : Option Text
  pub offer_type : Option OfferType
  pub amount : Option F
  pub units : Option OfferUnits
  pub price : Option F
  pub discount_percentage : Option F
  pub validity_days : Option ℕ
  pub validity_label : Option Text
  pub ussd_code_template : Option Text
  pub ussd_processing_type : Option UssdProcessingType
  pub ussd_expected_response : Option Text
  pub ussd_error_pattern : Option Text
  pub is_featured : Option Bool
  pub is_recurring : Option Bool
  pub max_purchases_per_customer : Option ℕ
  pub available_from : Option ℕ
  pub available_until : Option ℕ
  pub tags : Option (List Text)
  pub metadata : Option Text

pub record AddUssdCodeRequest : Type 0 where
  pub ussd_code : Text
  pub signature_pattern : Text
  pub priority : ℕ
  pub expected_response : Text
  pub error_pattern : Text
  pub processing_type : UssdProcessingType
  pub metadata : Option Text

pub record UpdateUssdCodeRequest : Type 0 where
  pub ussd_code : Option Text
  pub signature_pattern : Option Text
  pub priority : Option ℕ
  pub is_active : Option Bool
  pub expected_response : Option Text
  pub error_pattern : Option Text
  pub processing_type : Option UssdProcessingType
  pub metadata : Option Text

-- One entry of `ReorderUSSDCodesRequest.Codes`.
pub record CodePriority : Type 0 where
  pub id : ℕ
  pub priority : ℕ

pub record RecordUssdResultRequest : Type 0 where
  pub ussd_code_id : ℕ
  pub success : Bool

-- ===== src/Domain/Transaction.antt =====
-- internal/domain/transaction: the requests for offers and their redemptions.
use bingwa.Prelude.{ℕ, Bool, true, false, Option, Text}
use bingwa.Domain.Subscription.{Reference}
use bingwa.Domain.Offer.{UssdCodeExecutionInfo}

-- entity.go; `other_method` is any other text of a request.
pub data PaymentMethod : Type 0 where
  mpesa airtel_money tigopesa card bank agent_balance airtime not_given other_method : PaymentMethod

pub data TransactionStatus : Type 0 where
  pending processing success failed cancelled reversed : TransactionStatus

-- `status == success || status == failed`
abbrev pub is_final : TransactionStatus → Bool
is_final success = true
is_final failed = true
is_final _ = false

abbrev pub is_failed : TransactionStatus → Bool
is_failed failed = true
is_failed _ = false

pub record OfferRequest (F : Type 0) : Type 0 where
  pub id : ℕ
  pub request_reference : Reference
  pub offer_id : ℕ
  pub agent_identity_id : ℕ
  pub customer_id : Option ℕ
  pub customer_phone : Text
  pub customer_name : Option Text
  pub payment_method : PaymentMethod
  pub amount_paid : F
  pub currency : Text
  pub mpesa_transaction_id : Option Text
  pub mpesa_receipt_number : Option Text
  pub mpesa_transaction_date : Option ℕ
  pub mpesa_phone_number : Option Text
  pub mpesa_message : Option Text
  pub request_time : ℕ
  pub processed_at : Option ℕ
  pub status : TransactionStatus
  pub failure_reason : Option Text
  pub retry_count : ℕ
  pub device_info : Option Text
  pub metadata : Option Text
  pub created_at : ℕ
  pub updated_at : ℕ

-- `ussd_code_execution_info` is no column: it is only part of the answer.
pub record OfferRedemption (F : Type 0) : Type 0 where
  pub id : ℕ
  pub redemption_reference : Reference
  pub offer_id : ℕ
  pub offer_request_id : Option ℕ
  pub agent_identity_id : ℕ
  pub customer_id : Option ℕ
  pub customer_phone : Text
  pub amount : F
  pub currency : Text
  pub ussd_code_used : Text
  pub ussd_response : Option Text
  pub ussd_session_id : Option Text
  pub ussd_processing_time : Option ℕ
  pub redemption_time : ℕ
  pub completed_at : Option ℕ
  pub status : TransactionStatus
  pub failure_reason : Option Text
  pub retry_count : ℕ
  pub max_retries : ℕ
  pub ussd_code_execution_info : Option UssdCodeExecutionInfo
  pub valid_from : Option ℕ
  pub valid_until : Option ℕ
  pub metadata : Option Text
  pub created_at : ℕ
  pub updated_at : ℕ

-- dto.go; the zero time is `none`.
pub record CreateOfferRequestInput (F : Type 0) : Type 0 where
  pub offer_id : ℕ
  pub customer_phone : Text
  pub customer_name : Text
  pub payment_method : PaymentMethod
  pub amount_paid : F
  pub currency : Text
  pub mpesa_transaction_id : Text
  pub mpesa_receipt_number : Text
  pub mpesa_transaction_date : Option ℕ
  pub mpesa_phone_number : Text
  pub mpesa_message : Text
  pub device_info : Option Text
  pub metadata : Option Text

-- `processing_time` is the positive part of `USSDProcessingTime`.
pub record UpdateUssdResponseInput : Type 0 where
  pub ussd_response : Text
  pub ussd_session_id : Text
  pub ussd_processing_time : ℕ
  pub status : TransactionStatus
  pub failure_reason : Text

-- ===== src/Transaction/Entities.antt =====
-- The entities that transaction_service.go builds.
use bingwa.Prelude.{
  ℕ, Bool, true, false, ◌&&◌, not, Option, none, some, [], ◌∷◌, Text, null_string, to_upper,
  if◌then◌else◌,
}
use bingwa.Domain.Subscription.{Reference}
use bingwa.Domain.Offer.{UssdCodeExecutionInfo}
use bingwa.Domain.Transaction.{
  OfferRequest, OfferRedemption, TransactionStatus, PaymentMethod, CreateOfferRequestInput, pending,
  success, failed, mpesa, not_given,
}

-- "Default to M-Pesa if not provided"
abbrev pub or_mpesa : PaymentMethod → PaymentMethod
or_mpesa not_given = mpesa
or_mpesa m = m

abbrev pub is_empty : Text → Bool
is_empty [] = true
is_empty (c ∷ s) = false

-- `if ussdCode == "" { ussdCode = offer.USSDCodeTemplate }`
abbrev pub or_template : Text → Text → Text
or_template [] template = template
or_template (c ∷ s) template = c ∷ s

abbrev pub initial_status : Bool → TransactionStatus
initial_status is_completed = if is_completed then success else pending

module _ {F : Type 0} where
  -- `isRequestCompleted`
  unfoldable pub is_request_completed : CreateOfferRequestInput F → Bool
  is_request_completed input =
      not (is_empty input.mpesa_transaction_id) && not (is_empty input.mpesa_receipt_number)

  unfoldable pub new_request :
      ℕ
      → CreateOfferRequestInput F
      → Reference
      → Option ℕ
      → TransactionStatus
      → ℕ
      → Option ℕ
      → OfferRequest F
  new_request agent input reference customer status t processed = record {
    id = 0;
    request_reference = reference;
    offer_id = input.offer_id;
    agent_identity_id = agent;
    customer_id = customer;
    customer_phone = input.customer_phone;
    customer_name = null_string input.customer_name;
    payment_method = or_mpesa input.payment_method;
    amount_paid = input.amount_paid;
    currency = to_upper input.currency;
    mpesa_transaction_id = null_string input.mpesa_transaction_id;
    mpesa_receipt_number = null_string input.mpesa_receipt_number;
    mpesa_transaction_date = input.mpesa_transaction_date;
    mpesa_phone_number = null_string input.mpesa_phone_number;
    mpesa_message = null_string input.mpesa_message;
    request_time = t;
    processed_at = processed;
    status = status;
    failure_reason = none;
    retry_count = 0;
    device_info = input.device_info;
    metadata = input.metadata;
    created_at = 0;
    updated_at = 0;
  }

  unfoldable pub new_redemption :
      ℕ
      → CreateOfferRequestInput F
      → Reference
      → Option ℕ
      → TransactionStatus
      → Text
      → UssdCodeExecutionInfo
      → ℕ × ℕ × ℕ × Option ℕ
      → OfferRedemption F
  new_redemption agent input reference customer status code info (from, until, t, completed) =
      record {
        id = 0;
        redemption_reference = reference;
        offer_id = input.offer_id;
        offer_request_id = none;
        agent_identity_id = agent;
        customer_id = customer;
        customer_phone = input.customer_phone;
        amount = input.amount_paid;
        currency = to_upper input.currency;
        ussd_code_used = code;
        ussd_response = none;
        ussd_session_id = none;
        ussd_processing_time = none;
        redemption_time = t;
        completed_at = completed;
        status = status;
        failure_reason = none;
        retry_count = 0;
        max_retries = 3;
        ussd_code_execution_info = some info;
        valid_from = some from;
        valid_until = some until;
        metadata = none;
        created_at = 0;
        updated_at = 0;
      }

  -- The two entities of `createFailedRequest`.
  unfoldable pub failed_request :
      ℕ → CreateOfferRequestInput F → Reference → Option ℕ → Text → ℕ → OfferRequest F
  failed_request agent input reference customer reason t = record {
    id = 0;
    request_reference = reference;
    offer_id = input.offer_id;
    agent_identity_id = agent;
    customer_id = customer;
    customer_phone = input.customer_phone;
    customer_name = none;
    payment_method = input.payment_method;
    amount_paid = input.amount_paid;
    currency = to_upper input.currency;
    mpesa_transaction_id = none;
    mpesa_receipt_number = none;
    mpesa_transaction_date = none;
    mpesa_phone_number = none;
    mpesa_message = none;
    request_time = t;
    processed_at = none;
    status = failed;
    failure_reason = some reason;
    retry_count = 0;
    device_info = none;
    metadata = none;
    created_at = 0;
    updated_at = 0;
  }

  unfoldable pub failed_redemption :
      ℕ → CreateOfferRequestInput F → Reference → Text → ℕ → OfferRedemption F
  failed_redemption agent input reference reason t = record {
    id = 0;
    redemption_reference = reference;
    offer_id = input.offer_id;
    offer_request_id = none;
    agent_identity_id = agent;
    customer_id = none;
    customer_phone = input.customer_phone;
    amount = input.amount_paid;
    currency = to_upper input.currency;
    ussd_code_used = [];
    ussd_response = none;
    ussd_session_id = none;
    ussd_processing_time = none;
    redemption_time = t;
    completed_at = none;
    status = failed;
    failure_reason = some reason;
    retry_count = 0;
    max_retries = 3;
    ussd_code_execution_info = none;
    valid_from = none;
    valid_until = none;
    metadata = none;
    created_at = 0;
    updated_at = 0;
  }

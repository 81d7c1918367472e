-- ===== src/Examples/Transactions.antt =====
-- The theorems on requests for offers, at a failed request with its redemption.
use bingwa.Prelude.{◌≡◌, true, none, some, [], ◌∷◌, Text}
use bingwa.Float64.{fixed, Fixed}
use bingwa.Domain.Transaction.{
  OfferRequest, OfferRedemption, CreateOfferRequestInput, UpdateUssdResponseInput,
  TransactionStatus, PaymentMethod, success,
}
use bingwa.Store.{World}
use bingwa.Store.Triples.{Ends}
use bingwa.Store.Schema.{Schema, migrated}
use bingwa.Transaction.Entities.{is_request_completed, initial_status}
use bingwa.Transaction.Service.{
  create_offer_request, update_offer_request_status, retry_failed_request,
}
use bingwa.Transaction.Creation.{IsAvailable, Refused, create_offer_request-Ends}
use bingwa.Transaction.Storing.{IsStored}
use bingwa.Transaction.Moves.{IsMoved}
use bingwa.Transaction.Retries.{
  OwnRequest, IsRetried, CountedAtMost, update_offer_request_status-Ends, retry_failed_request-Ends,
}
use bingwa.Examples.{test_env, test_world, test_database}

instance abbrev test_schema : Schema
test_schema = migrated

abbrev test_phone : Text
test_phone = b'0' ∷ b'7' ∷ b'1' ∷ b'2' ∷ b'3' ∷ b'4' ∷ b'5' ∷ b'6' ∷ b'7' ∷ b'8' ∷ []

abbrev test_request : OfferRequest Fixed
test_request = record {
  id = 14;
  request_reference = record { prefix = []; made_at = 0; random = [] };
  offer_id = 4;
  agent_identity_id = 7;
  customer_id = none;
  customer_phone = test_phone;
  customer_name = none;
  payment_method = PaymentMethod.mpesa;
  amount_paid = 500_000;
  currency = [];
  mpesa_transaction_id = none;
  mpesa_receipt_number = none;
  mpesa_transaction_date = none;
  mpesa_phone_number = none;
  mpesa_message = none;
  request_time = 1;
  processed_at = none;
  status = TransactionStatus.failed;
  failure_reason = none;
  retry_count = 1;
  device_info = none;
  metadata = none;
  created_at = 1;
  updated_at = 1;
}

abbrev test_redemption : OfferRedemption Fixed
test_redemption = record {
  id = 15;
  redemption_reference = record { prefix = []; made_at = 0; random = [] };
  offer_id = 4;
  offer_request_id = some 14;
  agent_identity_id = 7;
  customer_id = none;
  customer_phone = test_phone;
  amount = 500_000;
  currency = [];
  ussd_code_used = [];
  ussd_response = none;
  ussd_session_id = none;
  ussd_processing_time = none;
  redemption_time = 1;
  completed_at = none;
  status = TransactionStatus.failed;
  failure_reason = none;
  retry_count = 0;
  max_retries = 3;
  ussd_code_execution_info = none;
  valid_from = none;
  valid_until = none;
  metadata = none;
  created_at = 1;
  updated_at = 1;
}

abbrev request_world : World Fixed
request_world = record test_world {
  db = record test_database { requests = test_request ∷ []; redemptions = test_redemption ∷ [] };
}

-- Paid, so that it counts as completed
abbrev order : CreateOfferRequestInput Fixed
order = record {
  offer_id = 4;
  customer_phone = test_phone;
  customer_name = [];
  payment_method = PaymentMethod.mpesa;
  amount_paid = 500_000;
  currency = [];
  mpesa_transaction_id = b'T' ∷ [];
  mpesa_receipt_number = b'R' ∷ [];
  mpesa_transaction_date = none;
  mpesa_phone_number = [];
  mpesa_message = [];
  device_info = none;
  metadata = none;
}

create_offer_request-Ends_example :
    Ends
      (λ _ d.
        IsAvailable 7 4 request_world.db
        × IsStored 7 order (initial_status (is_request_completed order)) request_world.db d)
      (Refused 7 order request_world.db)
      (create_offer_request true 7 order request_world)
create_offer_request-Ends_example = create_offer_request-Ends true 7 order request_world

abbrev response : UpdateUssdResponseInput
response = record {
  ussd_response = b'O' ∷ b'K' ∷ [];
  ussd_session_id = [];
  ussd_processing_time = 3;
  status = success;
  failure_reason = [];
}

update_offer_request_status-Ends_example :
    Ends
      (λ _ d.
        ((r : OfferRequest Fixed) × OwnRequest 7 14 r request_world.db)
        × IsMoved 14 success (some response) request_world.db d)
      (λ d. d.requests ≡ test_request ∷ [])
      (update_offer_request_status 7 14 success (some response) request_world)
update_offer_request_status-Ends_example =
    update_offer_request_status-Ends 7 14 success (some response) request_world

retry_failed_request-Ends_example :
    Ends
      (λ _. IsRetried 7 14 request_world.db)
      (CountedAtMost 14 request_world.db)
      (retry_failed_request 7 14 request_world)
retry_failed_request-Ends_example = retry_failed_request-Ends 7 14 request_world

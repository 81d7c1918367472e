-- ===== src/Examples/Offers.antt =====
-- The theorems on USSD codes, at two codes of the agent's offer and one of another's.
use bingwa.Float64.{fixed, Fixed}
use bingwa.Domain.Offer.{
  CreateOfferRequest, UpdateOfferRequest, OfferType, OfferUnits, UssdProcessingType,
}
use bingwa.Offer.Lookup.{IsOffer}
use bingwa.Offer.Management.{create_offer, update_offer}
use bingwa.Offer.Creation.{IsValid, IsCreated, create_offer-Ends}
use bingwa.Offer.Settings.{
  OfferMove, IsWritten, IsUpdated, moved_by, managed, managed-Ends, update_offer-Ends,
}
use bingwa.Prelude.{◌≡◌, ◌⊎◌, refl, true, false, none, some, [], ◌∷◌, arith}
use bingwa.Offer.Isolation.{others, UniqueIds}
use bingwa.Offer.Calls.{UssdCall, step, IsStranger, step-others, step-stranger}
use bingwa.Store.Triples.{Ends}
use bingwa.Offer.Codes.{delete_ussd_code}
use bingwa.Offer.Deletion.{HasCode, delete_ussd_code-HasCode}
use bingwa.Examples.{test_env, test_env-IsComplete, test_world, test_code}

unique : UniqueIds test_world.db.ussd_codes
unique k = ((λ e. ground arith), ((λ e. ground arith), ((λ e. refl), tt)))

step-others_example :
    others 4 (step 7 4 (UssdCall.deletes 11) test_world).db.ussd_codes ≡ test_code 13 9 1 ∷ []
step-others_example = step-others 7 4 (UssdCall.deletes 11) test_world unique

stranger : IsStranger 8 4 test_world.db.offers
stranger o e = ground arith

step-stranger_example : (step 8 4 (UssdCall.makes_primary 12) test_world).db ≡ test_world.db
step-stranger_example = step-stranger 8 4 (UssdCall.makes_primary 12) test_world stranger

delete_ussd_code-HasCode_example :
    Ends (λ _. HasCode 4) (HasCode 4) (delete_ussd_code 7 4 11 test_world)
delete_ussd_code-HasCode_example =
    delete_ussd_code-HasCode 4 7 11 test_world test_env-IsComplete unique refl

abbrev airtime_offer : CreateOfferRequest Fixed
airtime_offer = record {
  name = b'A' ∷ [];
  description = [];
  offer_type = OfferType.data_bundle;
  amount = 50_000;
  units = OfferUnits.gb;
  price = 500_000;
  currency = b'K' ∷ b'E' ∷ b'S' ∷ [];
  discount_percentage = 0;
  validity_days = 30;
  validity_label = [];
  ussd_code_template = b'*' ∷ b'1' ∷ b'#' ∷ [];
  ussd_processing_type = UssdProcessingType.express;
  ussd_expected_response = [];
  ussd_error_pattern = [];
  is_featured = false;
  is_recurring = true;
  max_purchases_per_customer = none;
  available_from = none;
  available_until = none;
  tags = [];
  metadata = none;
}

abbrev half_price : UpdateOfferRequest Fixed
half_price = record {
  name = none;
  description = none;
  offer_type = none;
  amount = none;
  units = none;
  price = some 250_000;
  discount_percentage = none;
  validity_days = some 14;
  validity_label = none;
  ussd_code_template = none;
  ussd_processing_type = none;
  ussd_expected_response = none;
  ussd_error_pattern = none;
  is_featured = none;
  is_recurring = none;
  max_purchases_per_customer = none;
  available_from = none;
  available_until = none;
  tags = none;
  metadata = none;
}

create_offer-Ends_example :
    Ends
      (λ o d.
        IsValid airtime_offer
        × ((c : IsCreated 7 airtime_offer test_world.db d) × IsOffer c.offer.id o d))
      (λ d. (d ≡ test_world.db) ⊎ IsCreated 7 airtime_offer test_world.db d)
      (create_offer 7 airtime_offer test_world)
create_offer-Ends_example = create_offer-Ends 7 airtime_offer test_world

managed-Ends_example :
    Ends
      (λ _. IsWritten 7 4 (moved_by OfferMove.pauses) test_world.db)
      (λ d. d ≡ test_world.db)
      (managed 7 4 OfferMove.pauses test_world)
managed-Ends_example = managed-Ends 7 4 OfferMove.pauses test_world

update_offer-Ends_example :
    Ends
      (λ o d. IsOffer 4 o d × IsUpdated 7 4 half_price test_world.db d)
      (λ d. (d ≡ test_world.db) ⊎ IsUpdated 7 4 half_price test_world.db d)
      (update_offer 7 4 half_price test_world)
update_offer-Ends_example = update_offer-Ends 7 4 half_price test_world

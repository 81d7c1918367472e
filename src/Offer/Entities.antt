-- ===== src/Offer/Entities.antt =====
-- internal/service/offer/offers.go: the values that the management of USSD codes builds
-- and tests.
use bingwa.Prelude.{
  set_text, null_string, ℕ, Bool, true, false, ◌||◌, none, List, [], ◌∷◌, ◌==◌, any_row, is_some,
  get_or, if◌then◌else◌,
}
use bingwa.Domain.Offer.{OfferUssdCode, AddUssdCodeRequest, UpdateUssdCodeRequest, CodePriority}

abbrev pub new_code : ℕ → ℕ → AddUssdCodeRequest → OfferUssdCode
new_code offer priority req = record {
  id = 0;
  offer_id = offer;
  ussd_code = req.ussd_code;
  signature_pattern = null_string req.signature_pattern;
  priority = priority;
  is_active = true;
  expected_response = null_string req.expected_response;
  error_pattern = null_string req.error_pattern;
  processing_type = req.processing_type;
  success_count = 0;
  failure_count = 0;
  last_used_at = none;
  last_success_at = none;
  last_failure_at = none;
  metadata = req.metadata;
  created_at = 0;
  updated_at = 0;
}

-- The fields of `UpdateUSSDCode` that its request sets, the priority and the code checked before.
abbrev pub merged_code : UpdateUssdCodeRequest → OfferUssdCode → OfferUssdCode
merged_code req c = record c {
  ussd_code = get_or req.ussd_code c.ussd_code;
  signature_pattern = set_text req.signature_pattern c.signature_pattern;
  priority = get_or req.priority c.priority;
  is_active = get_or req.is_active c.is_active;
  expected_response = set_text req.expected_response c.expected_response;
  error_pattern = set_text req.error_pattern c.error_pattern;
  processing_type = get_or req.processing_type c.processing_type;
  metadata = if is_some req.metadata then req.metadata else c.metadata;
}

-- `priorityMap[code.Priority]` for one of the codes
abbrev pub has_duplicate : List CodePriority → Bool
has_duplicate [] = false
has_duplicate (c ∷ cs) = any_row (λ x. x.priority == c.priority) cs || has_duplicate cs

-- `len(activeCodes) == 1 && activeCodes[0].ID == ussdCodeID`
abbrev pub is_only : ℕ → List OfferUssdCode → Bool
is_only k (c ∷ []) = c.id == k
is_only k _ = false

-- ===== src/Offer/Terms.antt =====
-- The validation, the codes, the labels and the prices of offers in internal/service/offer/offers.go.
use bingwa.Prelude.{
  ℕ, zero, suc, ◌+◌, ◌/◌, ◌%◌, Bool, true, false, ◌&&◌, not, Option, none, some, [], ◌∷◌, ◌++◌,
  Text, ◌==◌, ltb, length, String, if◌then◌else◌,
}
use bingwa.Float64.{Float64, ◌-f◌, ◌*f◌, ◌/f◌, ◌<f◌}
use bingwa.Domain.Offer.{
  AgentOffer, OfferType, OfferUnits, OfferStatus, CreateOfferRequest, data_bundle, sms, voice,
  combo, other_type, gb, mb, kb, minutes, messages, units, other_units,
}

-- The map of `validateOfferTypeAndUnits`
abbrev pub is_combination : OfferType → OfferUnits → Bool
is_combination data_bundle gb = true
is_combination data_bundle mb = true
is_combination data_bundle kb = true
is_combination sms messages = true
is_combination voice minutes = true
is_combination combo units = true
is_combination _ _ = false

abbrev pub is_known_type : OfferType → Bool
is_known_type other_type = false
is_known_type _ = true

-- The message of the error, if there is one.
unfoldable pub units_refusal : OfferType → OfferUnits → Option String
units_refusal kind unit =
    if not (is_known_type kind)
    then some "invalid offer type: %s"
    else if is_combination kind unit
    then none
    else some "invalid units '%s' for offer type '%s'"

abbrev pub begins_with : ℕ → Text → Bool
begins_with c [] = false
begins_with c (b ∷ t) = b == c

abbrev pub ends_with : ℕ → Text → Bool
ends_with c [] = false
ends_with c (b ∷ []) = b == c
ends_with c (b ∷ (b' ∷ t)) = ends_with c (b' ∷ t)

-- `validateUSSDCodeTemplate`; its loop over the placeholders returns nil in any case.
unfoldable pub template_refusal : Text → Option String
template_refusal template =
    if not (begins_with b'*' template)
    then some "USSD code must start with *"
    else if not (ends_with b'#' template)
    then some "USSD code must end with #"
    else if ltb (length template) 3
    then some "USSD code is too short"
    else none

-- The decimal digits of a number in front of a text, with a digit for each unit of fuel at most.
unfoldable pub digits : ℕ → ℕ → Text → Text
digits zero n rest = rest
digits (suc fuel) n rest =
    let more = digits fuel (n / 10) ((b'0' + n % 10) ∷ rest) in
    if ltb n 10 then (b'0' + n) ∷ rest else more

-- `%d` of an int64 that is not negative, which has 19 digits at most
unfoldable pub decimal : ℕ → Text
unfolding digits
decimal n = digits 19 n []

-- `strings.ToUpper(string(req.Type))` and of the units; others are refused before.
abbrev pub type_text : OfferType → Text
type_text data_bundle = b'D' ∷ b'A' ∷ b'T' ∷ b'A' ∷ []
type_text sms = b'S' ∷ b'M' ∷ b'S' ∷ []
type_text voice = b'V' ∷ b'O' ∷ b'I' ∷ b'C' ∷ b'E' ∷ []
type_text combo = b'C' ∷ b'O' ∷ b'M' ∷ b'B' ∷ b'O' ∷ []
type_text other_type = []

abbrev pub units_text : OfferUnits → Text
units_text gb = b'G' ∷ b'B' ∷ []
units_text mb = b'M' ∷ b'B' ∷ []
units_text kb = b'K' ∷ b'B' ∷ []
units_text minutes = b'M' ∷ b'I' ∷ b'N' ∷ b'U' ∷ b'T' ∷ b'E' ∷ b'S' ∷ []
units_text messages = b'S' ∷ b'M' ∷ b'S' ∷ []
units_text units = b'U' ∷ b'N' ∷ b'I' ∷ b'T' ∷ b'S' ∷ []
units_text other_units = []

-- The suffix of a further attempt
abbrev pub attempt_text : ℕ → Text
attempt_text zero = []
attempt_text (suc i) = b'-' ∷ decimal (suc i)

-- `generateValidityLabel`
unfoldable pub generate_validity_label : ℕ → Text
unfolding decimal
generate_validity_label days =
    if days == 1
    then b'1' ∷ b' ' ∷ b'd' ∷ b'a' ∷ b'y' ∷ []
    else if days == 7
    then b'1' ∷ b' ' ∷ b'w' ∷ b'e' ∷ b'e' ∷ b'k' ∷ []
    else if days == 30
    then b'1' ∷ b' ' ∷ b'm' ∷ b'o' ∷ b'n' ∷ b't' ∷ b'h' ∷ []
    else if days == 90
    then b'3' ∷ b' ' ∷ b'm' ∷ b'o' ∷ b'n' ∷ b't' ∷ b'h' ∷ b's' ∷ []
    else if days == 365
    then b'1' ∷ b' ' ∷ b'y' ∷ b'e' ∷ b'a' ∷ b'r' ∷ []
    else if days % 30 == 0
    then decimal (days / 30) ++ (b' ' ∷ b'm' ∷ b'o' ∷ b'n' ∷ b't' ∷ b'h' ∷ b's' ∷ [])
    else if days % 7 == 0
    then decimal (days / 7) ++ (b' ' ∷ b'w' ∷ b'e' ∷ b'e' ∷ b'k' ∷ b's' ∷ [])
    else decimal days ++ (b' ' ∷ b'd' ∷ b'a' ∷ b'y' ∷ b's' ∷ [])

module _ {F : Type 0} ⦃fl : Float64 F⦄ where
  -- The code of the i-th attempt of `generateOfferCode`, from 0
  unfoldable pub offer_code_at : ℕ → CreateOfferRequest F → ℕ → Text
  unfolding decimal
  offer_code_at agent req i =
      type_text req.offer_type
      ++ b'-'
        ∷ (fl.whole req.amount
            ++ (units_text req.units
                ++ b'-'
                  ∷ (decimal req.validity_days ++ b'D' ∷ b'-' ∷ (decimal agent ++ attempt_text i))))

  unfoldable pub calculate_discounted_price : AgentOffer F → F
  calculate_discounted_price o =
      if fl.nought <f o.discount_percentage
      then o.price -f o.price *f (o.discount_percentage /f fl.hundred)
      else o.price

abbrev pub is_active_offer : OfferStatus → Bool
is_active_offer OfferStatus.active = true
is_active_offer _ = false

module _ {F : Type 0} where
  -- `IsOfferAvailable` at the time that its clock shows
  unfoldable pub is_offer_available : AgentOffer F → ℕ → Bool
  is_offer_available o t =
      is_active_offer o.status
      && (not (elim o.available_from [ none ↦ false | some from ↦ ltb t from ])
          && not (elim o.available_until [ none ↦ false | some until ↦ ltb until t ]))

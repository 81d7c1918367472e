-- ===== src/Offer/Checks.antt =====
-- The checks of the operations on USSD codes of offers.go.
use bingwa.Prelude.{
  ℕ, Bool, true, false, not, ◌&&◌, ◌==◌, Option, none, some, Text, any_row, select, sort_by,
  text_eq,
}
use bingwa.Domain.Offer.{OfferUssdCode}
use bingwa.Store.{unauthorized, Env, Database, msg}
use bingwa.Store.Triples.{Triple-weaken, Triple, Triple-bind, Triple-wrapping, Triple-pure}
use bingwa.Store.Reads.{Triple-pass, Triple-read, Triple-rows}
use bingwa.Offer.Repository
use bingwa.Offer.Repository.{of_offer, by_creation, by_success, is_active_code, has_code}
use bingwa.Offer.Entities.{is_only}
use bingwa.Offer.Lookup.{find_offer-Triple}
use bingwa.Offer.Codes.{
  own_offer, list_codes, check_code, check_moved, check_priority, check_not_last,
}

module _ {F : Type 0} ⦃env : Env⦄ (P : Database F → Type 0) (offer : ℕ) where
  list-Reads : Triple P (list_codes offer) (λ _. P) P
  unfolding list_codes Repository.list_by_offer_id
  list-Reads = Triple-wrapping "failed to list USSD codes" (
      Triple-wrapping "failed to list USSD codes"
        (Triple-rows P (λ _ d. sort_by by_creation (select (of_offer offer) d.ussd_codes))))

  pub check_code-Reads :
      (c : OfferUssdCode) (code : Option Text) → Triple P (check_code offer c code) (λ _. P) P
  unfolding check_code Repository.exists_by_offer_and_code
  check_code-Reads c none = Triple-pure tt
  check_code-Reads c (some code) =
      Triple-bind
        (Triple-wrapping "failed to check USSD code"
          (Triple-read P (λ _ d. any_row (has_code offer code) d.ussd_codes)))
        λ exists.
          Triple-pass P (exists && not (text_eq code c.ussd_code))
            (msg "USSD code already exists for this offer")

  check_moved-Reads :
      (b : Bool) (k priority : ℕ) → Triple P (check_moved b offer k priority) (λ _. P) P
  unfolding check_moved
  check_moved-Reads false k priority = Triple-pure tt
  check_moved-Reads true k priority = Triple-bind list-Reads λ codes.
      Triple-pass P (any_row (λ c. not (c.id == k) && c.priority == priority) codes)
        (msg "USSD code with priority %d already exists")

  pub check_priority-Reads :
      (c : OfferUssdCode) (k : ℕ) (priority : Option ℕ)
      → Triple P (check_priority offer c k priority) (λ _. P) P
  unfolding check_priority
  check_priority-Reads c k none = Triple-pure tt
  check_priority-Reads c k (some priority) =
      check_moved-Reads (not (priority == c.priority)) k priority

  pub check_not_last-Reads : (b : Bool) (k : ℕ) → Triple P (check_not_last b offer k) (λ _. P) P
  unfolding check_not_last Repository.get_active_codes_by_priority
  check_not_last-Reads true k = Triple-pure tt
  check_not_last-Reads false k =
      Triple-bind
        (Triple-wrapping "failed to get active codes" (
          Triple-wrapping "failed to get active codes" (
            Triple-rows P
              (λ _ d. sort_by by_success (select (is_active_code offer) d.ussd_codes)))))
        λ codes. Triple-pass P (is_only k codes) (msg "cannot deactivate the last active USSD code")

  pub own_offer-Reads : (agent : ℕ) → Triple P (own_offer agent offer) (λ _. P) P
  unfolding own_offer
  own_offer-Reads agent =
      Triple-bind (Triple-weaken (λ d h. h) (λ _ d h. h.1) (λ d h. h) (find_offer-Triple P offer))
        λ o. Triple-pass P (not (o.agent_identity_id == agent)) unauthorized

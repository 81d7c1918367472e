-- ===== src/Offer/Codes.antt =====
-- internal/service/offer/offers.go: the management of an offer's USSD codes. Logging is left out.
use bingwa.Prelude.{
  ℕ, ◌+◌, ◌-◌, Bool, true, false, ◌&&◌, ◌||◌, not, Option, none, some, List, [], ◌∷◌, Text, ◌==◌,
  text_eq, ltb, leb, any_row, sort_by, length, String,
}
use bingwa.Domain.Offer.{
  OfferUssdCode, AddUssdCodeRequest, UpdateUssdCodeRequest, CodePriority, RecordUssdResultRequest,
}
use bingwa.Store.{
  Result, ok, err, Env, M, unauthorized, msg, pure, raise, wrapping, attempt, refuse_if, ◌>>=◌,
  ◌>>◌,
}
use bingwa.Offer.Repository
use bingwa.Offer.Entities.{new_code, merged_code, has_duplicate, is_only}

module _ {F : Type 0} where
  -- `for _, x := range xs { if err := f(x); err != nil { return err } }`
  abbrev pub for_each : {A : Type 0} → List A → (A → M F (Unit {0})) → M F (Unit {0})
  for_each [] f = pure tt
  for_each (x ∷ xs) f = f x >>= λ _. for_each xs f

module _ {F : Type 0} ⦃env : Env⦄ where
  -- "Verify offer ownership", with which every operation begins.
  unfoldable pub own_offer : ℕ → ℕ → M F (Unit {0})
  own_offer agent offer = do
    o ← Repository.find_offer offer
    refuse_if (not (o.agent_identity_id == agent)) unauthorized

  -- "Get existing USSD code" and "Verify USSD code belongs to this offer"
  unfoldable pub own_code : ℕ → ℕ → M F OfferUssdCode
  own_code offer k = do
    c ← Repository.find_code k
    refuse_if (not (c.offer_id == offer)) unauthorized
    pure c

  unfoldable pub list_codes : ℕ → M F (List OfferUssdCode)
  list_codes offer = wrapping "failed to list USSD codes" (Repository.list_by_offer_id offer)

  -- `UpdatePriority`, where a test asks for it
  unfoldable pub move_if : Bool → String → ℕ → ℕ → M F (Unit {0})
  move_if true message k priority = wrapping message (Repository.update_priority k priority)
  move_if false message k priority = pure tt

  unfoldable pub shift_ussd_priorities : ℕ → ℕ → M F (Unit {0})
  unfolding list_codes move_if
  shift_ussd_priorities offer from = do
    codes ← list_codes offer
    for_each (sort_by (λ a b. ltb b.priority a.priority) codes) λ c.
        move_if (leb from c.priority) "failed to update priority for code %d" c.id (c.priority + 1)

  -- "If no priority provided or priority is 1": the priority of the new code.
  unfoldable pub make_room : Bool → ℕ → ℕ → M F ℕ
  unfolding list_codes shift_ussd_priorities
  make_room true offer priority = do
    wrapping "failed to shift priorities" (shift_ussd_priorities offer 1)
    pure 1
  make_room false offer priority = do
    codes ← list_codes offer
    refuse_if (any_row (λ c. c.priority == priority) codes)
        (msg "USSD code with priority %d already exists")
    pure priority

  unfoldable pub add_own_code : ℕ → AddUssdCodeRequest → M F OfferUssdCode
  unfolding make_room
  add_own_code offer req = do
    exists ←
        wrapping "failed to check USSD code existence"
          (Repository.exists_by_offer_and_code offer req.ussd_code)
    refuse_if exists (msg "USSD code already exists for this offer")
    priority ← make_room (req.priority == 0 || req.priority == 1) offer req.priority
    wrapping "failed to add USSD code" (Repository.create_code (new_code offer priority req))

  unfoldable pub add_ussd_code : ℕ → ℕ → AddUssdCodeRequest → M F OfferUssdCode
  unfolding own_offer add_own_code
  add_ussd_code agent offer req = do own_offer agent offer; add_own_code offer req

  -- The checks of `UpdateUSSDCode` on a new code and a new priority
  unfoldable pub check_code : ℕ → OfferUssdCode → Option Text → M F (Unit {0})
  check_code offer c none = pure tt
  check_code offer c (some code) = do
    exists ← wrapping "failed to check USSD code" (Repository.exists_by_offer_and_code offer code)
    refuse_if (exists && not (text_eq code c.ussd_code))
        (msg "USSD code already exists for this offer")

  unfoldable pub check_moved : Bool → ℕ → ℕ → ℕ → M F (Unit {0})
  unfolding list_codes
  check_moved false offer k priority = pure tt
  check_moved true offer k priority = do
    codes ← list_codes offer
    refuse_if (any_row (λ c. not (c.id == k) && c.priority == priority) codes)
        (msg "USSD code with priority %d already exists")

  unfoldable pub check_priority : ℕ → OfferUssdCode → ℕ → Option ℕ → M F (Unit {0})
  unfolding check_moved
  check_priority offer c k none = pure tt
  check_priority offer c k (some priority) =
      check_moved (not (priority == c.priority)) offer k priority

  unfoldable pub update_own_code : ℕ → ℕ → UpdateUssdCodeRequest → M F OfferUssdCode
  unfolding own_code check_code check_priority
  update_own_code offer k req = do
    c ← own_code offer k
    check_code offer c req.ussd_code
    check_priority offer c k req.priority
    wrapping "failed to update USSD code" (Repository.update_ussd_code k (merged_code req c))
    Repository.find_code k

  unfoldable pub update_ussd_code : ℕ → ℕ → ℕ → UpdateUssdCodeRequest → M F OfferUssdCode
  unfolding own_offer update_own_code
  update_ussd_code agent offer k req = do own_offer agent offer; update_own_code offer k req

  -- `SetUSSDCodeAsPrimary` after its guards; the test is "already priority 1".
  unfoldable pub move_to_front : Bool → ℕ → OfferUssdCode → ℕ → M F (Unit {0})
  unfolding list_codes move_if
  move_to_front true offer c k = pure tt
  move_to_front false offer c k = do
    codes ← list_codes offer
    for_each (sort_by (λ a b. ltb a.priority b.priority) codes) λ x.
        move_if (not (x.id == k) && leb 1 x.priority && ltb x.priority c.priority)
          "failed to update priority" x.id (x.priority + 1)
    wrapping "failed to set as primary" (Repository.update_priority k 1)

  unfoldable pub make_own_code_primary : ℕ → ℕ → M F (Unit {0})
  unfolding own_code move_to_front
  make_own_code_primary offer k = do c ← own_code offer k; move_to_front (c.priority == 1) offer c k

  unfoldable pub set_ussd_code_as_primary : ℕ → ℕ → ℕ → M F (Unit {0})
  unfolding own_offer make_own_code_primary
  set_ussd_code_as_primary agent offer k = do own_offer agent offer; make_own_code_primary offer k

  -- One code of the request belongs to the offer; the lookup's error is replaced.
  abbrev pub or_missing : Result OfferUssdCode → M F OfferUssdCode
  or_missing (ok c) = pure c
  or_missing (err e) = raise (msg "USSD code %d not found")

  unfoldable pub check_belongs : ℕ → CodePriority → M F (Unit {0})
  check_belongs offer entry = do
    r ← attempt (Repository.find_code entry.id)
    c ← or_missing r
    refuse_if (not (c.offer_id == offer)) (msg "USSD code %d does not belong to offer %d")

  unfoldable pub reorder_own_codes : ℕ → List CodePriority → M F (Unit {0})
  unfolding check_belongs
  reorder_own_codes offer codes = do
    refuse_if (has_duplicate codes) (msg "duplicate priority %d in request")
    for_each codes (check_belongs offer)
    for_each codes λ entry.
        wrapping "failed to update priority for code %d"
          (Repository.update_priority entry.id entry.priority)

  unfoldable pub reorder_ussd_codes : ℕ → ℕ → List CodePriority → M F (Unit {0})
  unfolding own_offer reorder_own_codes
  reorder_ussd_codes agent offer codes = do own_offer agent offer; reorder_own_codes offer codes

  -- The adjustment of one priority after a deletion; an error is only logged.
  unfoldable pub close_gap : ℕ → ℕ → OfferUssdCode → M F (Unit {0})
  unfolding move_if
  close_gap k priority c = do
    _ ← attempt (move_if (not (c.id == k) && ltb priority c.priority) "" c.id (c.priority - 1))
    pure tt

  unfoldable pub delete_own_code : ℕ → ℕ → M F (Unit {0})
  unfolding own_code list_codes close_gap
  delete_own_code offer k = do
    c ← own_code offer k
    codes ← list_codes offer
    refuse_if (length codes == 1) (msg "cannot delete the last USSD code")
    wrapping "failed to delete USSD code" (Repository.delete_code k)
    for_each codes (close_gap k c.priority)

  unfoldable pub delete_ussd_code : ℕ → ℕ → ℕ → M F (Unit {0})
  unfolding own_offer delete_own_code
  delete_ussd_code agent offer k = do own_offer agent offer; delete_own_code offer k

  unfoldable pub check_not_last : Bool → ℕ → ℕ → M F (Unit {0})
  check_not_last true offer k = pure tt
  check_not_last false offer k = do
    codes ← wrapping "failed to get active codes" (Repository.get_active_codes_by_priority offer)
    refuse_if (is_only k codes) (msg "cannot deactivate the last active USSD code")

  unfoldable pub toggle_own_code : ℕ → ℕ → Bool → M F (Unit {0})
  unfolding own_code check_not_last
  toggle_own_code offer k is_active = do
    _ ← own_code offer k
    check_not_last is_active offer k
    wrapping "failed to toggle status" (Repository.toggle_active k is_active)

  unfoldable pub toggle_ussd_code_status : ℕ → ℕ → ℕ → Bool → M F (Unit {0})
  unfolding own_offer toggle_own_code
  toggle_ussd_code_status agent offer k is_active = do
    own_offer agent offer
    toggle_own_code offer k is_active

  unfoldable pub record_result : Bool → ℕ → M F (Unit {0})
  record_result true k = wrapping "failed to record success" (Repository.record_success k)
  record_result false k = wrapping "failed to record failure" (Repository.record_failure k)

  unfoldable pub record_own_result : ℕ → RecordUssdResultRequest → M F (Unit {0})
  unfolding own_code record_result
  record_own_result offer req = do
    _ ← own_code offer req.ussd_code_id
    record_result req.success req.ussd_code_id

  unfoldable pub record_ussd_result : ℕ → ℕ → RecordUssdResultRequest → M F (Unit {0})
  unfolding own_offer record_own_result
  record_ussd_result agent offer req = do own_offer agent offer; record_own_result offer req

  unfoldable pub list_ussd_codes : ℕ → ℕ → M F (List OfferUssdCode)
  unfolding own_offer list_codes
  list_ussd_codes agent offer = do own_offer agent offer; list_codes offer

  unfoldable pub get_active_ussd_codes : ℕ → ℕ → M F (List OfferUssdCode)
  unfolding own_offer
  get_active_ussd_codes agent offer = do
    own_offer agent offer
    wrapping "failed to get active codes" (Repository.get_active_codes_by_priority offer)

  unfoldable pub get_primary_ussd_code : ℕ → ℕ → M F OfferUssdCode
  unfolding own_offer
  get_primary_ussd_code agent offer = do
    own_offer agent offer
    wrapping "failed to get primary USSD code" (Repository.get_primary_ussd_code offer)

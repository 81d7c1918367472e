-- ===== src/Offer/Repository.antt =====
-- internal/repository/postgres/offer_ussd_code_repo.go, and the lookup of an offer in
-- agent_offers_repo.go: one function for each statement.
use bingwa.Prelude.{
  ℕ, ◌+◌, String, Bool, true, false, ◌&&◌, ◌||◌, Option, none, some, List, [], ◌∷◌, ◌++◌, Text,
  ◌==◌, text_eq, ltb, select, find_row, any_row, update_where, delete_where, sort_by, is_some,
  if◌then◌else◌,
}
use bingwa.Domain.Offer.{AgentOffer, OfferUssdCode}
use bingwa.Store.{
  Database, Env, M, Result, ok, err, not_found, query, query_rows, at_time, exec, insert, affected,
  find_one, wrapping, attempt, raise, pure, ◌>>=◌,
}

abbrev pub code_has_id : ℕ → OfferUssdCode → Bool
code_has_id k c = c.id == k

-- `WHERE offer_id = $1`
abbrev pub of_offer : ℕ → OfferUssdCode → Bool
of_offer offer c = c.offer_id == offer

abbrev pub is_active_code : ℕ → OfferUssdCode → Bool
is_active_code offer c = c.offer_id == offer && c.is_active

abbrev pub has_code : ℕ → Text → OfferUssdCode → Bool
has_code offer code c = c.offer_id == offer && text_eq c.ussd_code code

-- `ORDER BY priority ASC, created_at ASC`
abbrev pub by_creation : OfferUssdCode → OfferUssdCode → Bool
by_creation a b =
    ltb a.priority b.priority || a.priority == b.priority && ltb a.created_at b.created_at

-- `ORDER BY priority ASC, success_count DESC`
abbrev pub by_success : OfferUssdCode → OfferUssdCode → Bool
by_success a b =
    ltb a.priority b.priority || a.priority == b.priority && ltb b.success_count a.success_count

-- What `Create` inserts: the columns of the statement, and the defaults of the rest.
abbrev pub created_code : OfferUssdCode → ℕ → ℕ → OfferUssdCode
created_code c k t = record c {
  id = k;
  success_count = 0;
  failure_count = 0;
  last_used_at = none;
  last_success_at = none;
  last_failure_at = none;
  created_at = t;
  updated_at = t;
}

abbrev pub first_row : {A : Type 0} → List A → Option A
first_row [] = none
first_row (x ∷ xs) = some x

module _ {F : Type 0} where
  -- `WHERE id = $1 AND deleted_at IS NULL`
  abbrev pub offer_has_id : ℕ → AgentOffer F → Bool
  offer_has_id k o = o.id == k && (if is_some o.deleted_at then false else true)

  -- UPDATE offer_ussd_codes SET f WHERE id = k
  abbrev pub update_code : ℕ → (OfferUssdCode → OfferUssdCode) → Database F → Database F × Bool
  update_code k f d = (
    record d { ussd_codes = update_where (code_has_id k) f d.ussd_codes },
    any_row (code_has_id k) d.ussd_codes,
  )

  abbrev pub with_code : OfferUssdCode → Database F → Database F
  with_code row d = record d { ussd_codes = d.ussd_codes ++ row ∷ []; next_id = d.next_id + 1 }

  -- `unique_offer_ussd` refuses a code that the offer has.
  abbrev pub inserted_code : OfferUssdCode → ℕ → Database F → Option (Database F × OfferUssdCode)
  inserted_code c t d =
      let row = created_code c d.next_id t in
      if any_row (has_code c.offer_id c.ussd_code) d.ussd_codes
      then none
      else some (with_code row d, row)

-- The columns that `Update` writes.
abbrev pub updated_code : OfferUssdCode → ℕ → OfferUssdCode → OfferUssdCode
updated_code c t row = record row {
  ussd_code = c.ussd_code;
  signature_pattern = c.signature_pattern;
  priority = c.priority;
  is_active = c.is_active;
  expected_response = c.expected_response;
  error_pattern = c.error_pattern;
  processing_type = c.processing_type;
  metadata = c.metadata;
  updated_at = t;
}

abbrev pub moved : ℕ → ℕ → OfferUssdCode → OfferUssdCode
moved priority t c = record c { priority = priority; updated_at = t }

abbrev pub succeeded : ℕ → OfferUssdCode → OfferUssdCode
succeeded t c = record c {
  success_count = c.success_count + 1;
  last_used_at = some t;
  last_success_at = some t;
  updated_at = t;
}

abbrev pub failed : ℕ → OfferUssdCode → OfferUssdCode
failed t c = record c {
  failure_count = c.failure_count + 1;
  last_used_at = some t;
  last_failure_at = some t;
  updated_at = t;
}

-- `loadPrimaryUSSDCode`
abbrev pub loaded : Result OfferUssdCode → Option OfferUssdCode
loaded (ok c) = some c
loaded (err e) = none

module _ {F : Type 0} ⦃env : Env⦄ where
  -- `FindByID` of an offer tells a missing row by the text of the error; it then reads the primary
  -- code, and drops an error.
  abbrev pub found_offer : Option (AgentOffer F) → M F (AgentOffer F)
  found_offer none = raise not_found
  found_offer (some o) = pure o

  unfoldable pub get_primary_ussd_code : ℕ → M F OfferUssdCode
  get_primary_ussd_code offer =
      find_one "failed to get primary USSD code"
        (query λ _ d. first_row (sort_by by_success (select (is_active_code offer) d.ussd_codes)))

  unfoldable pub find_offer : ℕ → M F (AgentOffer F)
  find_offer k = do
    row ←
        wrapping "failed to find offer"
          (wrapping "failed to scan offer row" (query λ _ d. find_row (offer_has_id k) d.offers))
    o ← found_offer row
    primary ← attempt (get_primary_ussd_code o.id)
    pure (record o { primary_ussd_code = loaded primary })

  unfoldable pub find_code : ℕ → M F OfferUssdCode
  find_code k =
      find_one "failed to find USSD code" (query λ _ d. find_row (code_has_id k) d.ussd_codes)

  unfoldable pub list_by_offer_id : ℕ → M F (List OfferUssdCode)
  list_by_offer_id offer =
      wrapping "failed to list USSD codes"
        (query_rows λ _ d. sort_by by_creation (select (of_offer offer) d.ussd_codes))

  unfoldable pub get_active_codes_by_priority : ℕ → M F (List OfferUssdCode)
  get_active_codes_by_priority offer =
      wrapping "failed to get active codes"
        (query_rows λ _ d. sort_by by_success (select (is_active_code offer) d.ussd_codes))

  unfoldable pub exists_by_offer_and_code : ℕ → Text → M F Bool
  exists_by_offer_and_code offer code = query λ _ d. any_row (has_code offer code) d.ussd_codes

  unfoldable pub create_code : OfferUssdCode → M F OfferUssdCode
  create_code c = wrapping "failed to create USSD code" (insert (inserted_code c))

  -- `UPDATE offer_ussd_codes SET f WHERE id = $n`, with its two errors
  unfoldable pub write_code : String → ℕ → (ℕ → OfferUssdCode → OfferUssdCode) → M F (Unit {0})
  write_code message k f = at_time λ t. affected (wrapping message (exec (update_code k (f t))))

  unfoldable pub update_ussd_code : ℕ → OfferUssdCode → M F (Unit {0})
  unfolding write_code
  update_ussd_code k c = write_code "failed to update USSD code" k (updated_code c)

  unfoldable pub update_priority : ℕ → ℕ → M F (Unit {0})
  unfolding write_code
  update_priority k priority = write_code "failed to update priority" k (moved priority)

  unfoldable pub toggle_active : ℕ → Bool → M F (Unit {0})
  unfolding write_code
  toggle_active k is_active =
      write_code "failed to toggle active status" k
        λ t c. record c { is_active = is_active; updated_at = t }

  unfoldable pub record_success : ℕ → M F (Unit {0})
  unfolding write_code
  record_success k = write_code "failed to record success" k succeeded

  unfoldable pub record_failure : ℕ → M F (Unit {0})
  unfolding write_code
  record_failure k = write_code "failed to record failure" k failed

  unfoldable pub delete_code : ℕ → M F (Unit {0})
  delete_code k = affected (
      wrapping "failed to delete USSD code" (
        exec λ d. (
          record d { ussd_codes = delete_where (code_has_id k) d.ussd_codes },
          any_row (code_has_id k) d.ussd_codes,
        )))

-- ===== src/Offer/Table.antt =====
-- internal/repository/postgres/agent_offers_repo.go: one function for each statement that writes, and
-- the lookups by code. `offer_code` is unique, deleted offers included.
use bingwa.Prelude.{
  ℕ, ◌+◌, Bool, true, ◌&&◌, not, Option, none, some, [], ◌∷◌, ◌++◌, Text, text_eq, is_some,
  find_row, any_row, update_where, if◌then◌else◌, String,
}
use bingwa.Domain.Offer.{AgentOffer, OfferUssdCode, OfferStatus}
use bingwa.Store.{
  Database, Env, M, query, at_time, exec, tx_try_insert, affected, wrapping, attempt, transact,
  pure, ◌>>=◌,
}
use bingwa.Offer.Repository.{
  offer_has_id, inserted_code, found_offer, get_primary_ussd_code, loaded,
}

-- The initial code of `Create`
abbrev pub initial_code : {F : Type 0} → AgentOffer F → OfferUssdCode
initial_code o = record {
  id = 0;
  offer_id = o.id;
  ussd_code = o.ussd_code_template;
  signature_pattern = none;
  priority = 1;
  is_active = true;
  expected_response = o.ussd_expected_response;
  error_pattern = o.ussd_error_pattern;
  processing_type = o.ussd_processing_type;
  success_count = 0;
  failure_count = 0;
  last_used_at = none;
  last_success_at = none;
  last_failure_at = none;
  metadata = none;
  created_at = 0;
  updated_at = 0;
}

module _ {F : Type 0} where
  abbrev pub has_offer_code : Text → AgentOffer F → Bool
  has_offer_code code o = text_eq o.offer_code code

  abbrev pub has_live_code : Text → AgentOffer F → Bool
  has_live_code code o = text_eq o.offer_code code && not (is_some o.deleted_at)

  -- What `Create` inserts: the columns of the statement, and the defaults of the rest.
  abbrev pub created_offer : AgentOffer F → ℕ → ℕ → AgentOffer F
  created_offer o k t = record o {
    id = k;
    created_at = t;
    updated_at = t;
    deleted_at = none;
    primary_ussd_code = none;
  }

  abbrev pub with_offer : AgentOffer F → Database F → Database F
  with_offer row d = record d { offers = d.offers ++ row ∷ []; next_id = d.next_id + 1 }

  abbrev pub inserted_offer : AgentOffer F → ℕ → Database F → Option (Database F × AgentOffer F)
  inserted_offer o t d =
      let row = created_offer o d.next_id t in
      if any_row (has_offer_code o.offer_code) d.offers then none else some (with_offer row d, row)

  -- UPDATE agent_offers SET f WHERE id = k AND deleted_at IS NULL
  abbrev pub update_row : ℕ → (AgentOffer F → AgentOffer F) → Database F → Database F × Bool
  update_row k f d = (
    record d { offers = update_where (offer_has_id k) f d.offers },
    any_row (offer_has_id k) d.offers,
  )

  -- The columns that `Update` writes.
  abbrev pub updated_offer : AgentOffer F → ℕ → AgentOffer F → AgentOffer F
  updated_offer o t row = record row {
    name = o.name;
    description = o.description;
    offer_type = o.offer_type;
    amount = o.amount;
    units = o.units;
    price = o.price;
    discount_percentage = o.discount_percentage;
    validity_days = o.validity_days;
    validity_label = o.validity_label;
    ussd_code_template = o.ussd_code_template;
    ussd_processing_type = o.ussd_processing_type;
    ussd_expected_response = o.ussd_expected_response;
    ussd_error_pattern = o.ussd_error_pattern;
    is_featured = o.is_featured;
    is_recurring = o.is_recurring;
    max_purchases_per_customer = o.max_purchases_per_customer;
    available_from = o.available_from;
    available_until = o.available_until;
    tags = o.tags;
    metadata = o.metadata;
    updated_at = t;
  }

  abbrev pub with_offer_status : OfferStatus → ℕ → AgentOffer F → AgentOffer F
  with_offer_status status t o = record o { status = status; updated_at = t }

  abbrev pub deleted_offer : ⦃env : Env⦄ → ℕ → AgentOffer F → AgentOffer F
  deleted_offer ⦃env⦄ t o = record o { deleted_at = some t; updated_at = env.second_now t }

module _ {F : Type 0} ⦃env : Env⦄ where
  -- The offer and its initial code, in one transaction
  unfoldable pub insert_offer : AgentOffer F → M F (AgentOffer F)
  insert_offer o = do
    row ← wrapping "failed to create offer" (tx_try_insert (inserted_offer o))
    _ ←
        wrapping "failed to create USSD code"
          (wrapping "failed to create USSD code" (tx_try_insert (inserted_code (initial_code row))))
    pure row

  unfoldable pub create : AgentOffer F → M F (AgentOffer F)
  unfolding insert_offer
  create o = transact (insert_offer o)

  unfoldable pub find_by_offer_code : Text → M F (AgentOffer F)
  find_by_offer_code code = do
    row ←
        wrapping "failed to find offer by code" (
          wrapping "failed to scan offer row" (query λ _ d. find_row (has_live_code code) d.offers))
    o ← found_offer row
    primary ← attempt (get_primary_ussd_code o.id)
    pure (record o { primary_ussd_code = loaded primary })

  -- `UPDATE agent_offers SET f WHERE id = $n AND deleted_at IS NULL`, with its two errors
  unfoldable pub write_offer : String → ℕ → (ℕ → AgentOffer F → AgentOffer F) → M F (Unit {0})
  write_offer message k f = at_time λ t. affected (wrapping message (exec (update_row k (f t))))

  unfoldable pub update : ℕ → AgentOffer F → M F (Unit {0})
  unfolding write_offer
  update k o = write_offer "failed to update offer" k (updated_offer o)

  unfoldable pub update_status : ℕ → OfferStatus → M F (Unit {0})
  unfolding write_offer
  update_status k status = write_offer "failed to update status" k (with_offer_status status)

  unfoldable pub soft_delete : ℕ → M F (Unit {0})
  unfolding write_offer
  soft_delete k = write_offer "failed to delete offer" k deleted_offer

  unfoldable pub exists_by_offer_code : Text → M F Bool
  exists_by_offer_code code = query λ _ d. any_row (has_live_code code) d.offers

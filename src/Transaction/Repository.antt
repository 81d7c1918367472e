-- ===== src/Transaction/Repository.antt =====
-- internal/repository/postgres/{offer_request_repo,offer_redemption_repo}.go: one function for each
-- statement. A constraint that refuses a row is that of svc_init.sql or of the given schema.
use bingwa.Prelude.{
  ℕ, ◌+◌, Bool, false, ◌&&◌, ◌||◌, not, Option, none, some, [], ◌∷◌, ◌++◌, Text, null_string, ◌==◌,
  ltb, text_eq, find_row, any_row, update_where, is_some, if◌then◌else◌,
}
use bingwa.Domain.Subscription.{Reference}
use bingwa.Domain.Transaction.{
  OfferRequest, OfferRedemption, TransactionStatus, UpdateUssdResponseInput, is_final,
}
use bingwa.Store.{
  Database, Env, M, query, at_time, exec, tx_exec, tx_try_insert, tx_query, affected, find_one,
  wrapping,
}
use bingwa.Store.Schema.{Schema}

abbrev pub reference_eq : Reference → Reference → Bool
reference_eq a b = text_eq a.prefix b.prefix && a.made_at == b.made_at && text_eq a.random b.random

-- `sql.NullTime{Time: t, Valid: true}` for a final status
abbrev pub ended_at : TransactionStatus → ℕ → Option ℕ
ended_at status t = if is_final status then some t else none

-- `sql.NullInt32{Int32: n, Valid: n > 0}`
abbrev pub null_time : ℕ → Option ℕ
null_time n = if ltb 0 n then some n else none

module _ {F : Type 0} where
  abbrev pub request_has_id : ℕ → OfferRequest F → Bool
  request_has_id k r = r.id == k

  abbrev pub redemption_has_id : ℕ → OfferRedemption F → Bool
  redemption_has_id k r = r.id == k

  -- `WHERE offer_request_id = $1`
  abbrev pub redeems : ℕ → OfferRedemption F → Bool
  redeems k r = elim r.offer_request_id [ none ↦ false | some j ↦ j == k ]

  -- What the inserts make: the columns of the statements, and the defaults of the rest.
  abbrev pub created_request : OfferRequest F → ℕ → ℕ → OfferRequest F
  created_request r k t = record r {
    id = k;
    processed_at = none;
    failure_reason = none;
    retry_count = 0;
    created_at = t;
    updated_at = t;
  }

  abbrev pub created_redemption : OfferRedemption F → ℕ → ℕ → OfferRedemption F
  created_redemption r k t = record r {
    id = k;
    ussd_response = none;
    ussd_session_id = none;
    ussd_processing_time = none;
    completed_at = none;
    failure_reason = none;
    retry_count = 0;
    ussd_code_execution_info = none;
    created_at = t;
    updated_at = t;
  }

  abbrev pub with_request : OfferRequest F → Database F → Database F
  with_request row d = record d { requests = d.requests ++ row ∷ []; next_id = d.next_id + 1 }

  abbrev pub with_redemption : OfferRedemption F → Database F → Database F
  with_redemption row d = record d {
    redemptions = d.redemptions ++ row ∷ [];
    next_id = d.next_id + 1;
  }

  -- The struct keeps its other fields, and gets the id and the times that are returned.
  abbrev pub returned_request : OfferRequest F → ℕ → ℕ → OfferRequest F
  returned_request r k t = record r { id = k; created_at = t; updated_at = t }

  abbrev pub returned_redemption : OfferRedemption F → ℕ → ℕ → OfferRedemption F
  returned_redemption r k t = record r { id = k; created_at = t; updated_at = t }

  -- SET status, failure_reason, processed_at, updated_at
  abbrev pub request_moved : TransactionStatus → Text → ℕ → OfferRequest F → OfferRequest F
  request_moved status reason t r = record r {
    status = status;
    failure_reason = null_string reason;
    processed_at = ended_at status t;
    updated_at = t;
  }

  abbrev pub redemption_moved : TransactionStatus → Text → ℕ → OfferRedemption F → OfferRedemption F
  redemption_moved status reason t r = record r {
    status = status;
    failure_reason = null_string reason;
    completed_at = ended_at status t;
    updated_at = t;
  }

  abbrev pub retried : ℕ → OfferRequest F → OfferRequest F
  retried t r = record r { retry_count = r.retry_count + 1; updated_at = t }

  -- The columns that `UpdateUSSDResponse` writes.
  abbrev pub answered : UpdateUssdResponseInput → ℕ → OfferRedemption F → OfferRedemption F
  answered input t r = record r {
    ussd_response = null_string input.ussd_response;
    ussd_session_id = null_string input.ussd_session_id;
    ussd_processing_time = null_time input.ussd_processing_time;
    status = input.status;
    failure_reason = null_string input.failure_reason;
    completed_at = ended_at input.status t;
    updated_at = t;
  }

  -- UPDATE … SET f WHERE id = k
  abbrev pub update_request : ℕ → (OfferRequest F → OfferRequest F) → Database F → Database F × Bool
  update_request k f d = (
    record d { requests = update_where (request_has_id k) f d.requests },
    any_row (request_has_id k) d.requests,
  )

  abbrev pub update_redemption :
      ℕ → (OfferRedemption F → OfferRedemption F) → Database F → Database F × Bool
  update_redemption k f d = (
    record d { redemptions = update_where (redemption_has_id k) f d.redemptions },
    any_row (redemption_has_id k) d.redemptions,
  )

module _ {F : Type 0} ⦃schema : Schema⦄ where
  -- `request_reference` is unique, and the payment method one of the enumeration.
  abbrev pub inserted_request :
      OfferRequest F → ℕ → Database F → Option (Database F × OfferRequest F)
  inserted_request r t d =
      if any_row (λ x. reference_eq x.request_reference r.request_reference) d.requests
        || not (schema.payment_methods r.payment_method)
      then none
      else some (with_request (created_request r d.next_id t) d, returned_request r d.next_id t)

  -- `redemption_reference` is unique, and the request may have to be given.
  abbrev pub inserted_redemption :
      OfferRedemption F → ℕ → Database F → Option (Database F × OfferRedemption F)
  inserted_redemption r t d =
      if any_row (λ x. reference_eq x.redemption_reference r.redemption_reference) d.redemptions
        || schema.requires_request && not (is_some r.offer_request_id)
      then none
      else some
          (with_redemption (created_redemption r d.next_id t) d, returned_redemption r d.next_id t)

module _ {F : Type 0} ⦃env : Env⦄ where
  unfoldable pub create_request_with_tx : ⦃schema : Schema⦄ → OfferRequest F → M F (OfferRequest F)
  create_request_with_tx r =
      wrapping "failed to create offer request" (tx_try_insert (inserted_request r))

  unfoldable pub create_redemption_with_tx :
      ⦃schema : Schema⦄ → OfferRedemption F → M F (OfferRedemption F)
  create_redemption_with_tx r =
      wrapping "failed to create redemption" (tx_try_insert (inserted_redemption r))

  unfoldable pub find_request : ℕ → M F (OfferRequest F)
  find_request k =
      find_one "failed to find offer request" (query λ _ d. find_row (request_has_id k) d.requests)

  unfoldable pub find_redemption : ℕ → M F (OfferRedemption F)
  find_redemption k =
      find_one "failed to find redemption"
        (query λ _ d. find_row (redemption_has_id k) d.redemptions)

  unfoldable pub update_request_status_with_tx : ℕ → TransactionStatus → Text → M F (Unit {0})
  update_request_status_with_tx k status reason = at_time λ t. affected (
      wrapping "failed to update status"
        (tx_exec λ d. some (update_request k (request_moved status reason t) d)))

  unfoldable pub update_redemption_status_with_tx : ℕ → TransactionStatus → Text → M F (Unit {0})
  update_redemption_status_with_tx k status reason = at_time λ t. affected (
      wrapping "failed to update status"
        (tx_exec λ d. some (update_redemption k (redemption_moved status reason t) d)))

  -- A statement of the pool, also where the service has a transaction open.
  unfoldable pub update_ussd_response : ℕ → UpdateUssdResponseInput → M F (Unit {0})
  update_ussd_response k input = at_time λ t.
      affected
        (wrapping "failed to update USSD response" (exec (update_redemption k (answered input t))))

  unfoldable pub increment_retry_count : ℕ → M F (Unit {0})
  increment_retry_count k = at_time λ t.
      affected (wrapping "failed to increment retry count" (exec (update_request k (retried t))))

  -- The query of `UpdateOfferRequestStatus` itself; `Scan` returns the driver's error for no row.
  unfoldable pub redemption_of_request : ℕ → M F (Option (OfferRedemption F))
  redemption_of_request k = tx_query λ d. find_row (redeems k) d.redemptions

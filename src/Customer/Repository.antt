-- ===== src/Customer/Repository.antt =====
-- internal/repository/postgres/agent_customer_repo.go: one function for each statement. The
-- constraints of `agent_customers` are those of internal/db/migrations/svc_init.sql.
use bingwa.Prelude.{
  ℕ, ◌+◌, String, Bool, true, false, ◌&&◌, ◌||◌, not, Option, none, some, [], ◌∷◌, ◌++◌, Text, ◌==◌,
  text_eq, find_row, any_row, update_where, is_some, if◌then◌else◌,
}
use bingwa.Domain.Customer.{AgentCustomer, CustomerReference}
use bingwa.Store.{
  Database, Env, M, not_found, query, at_time, exec, try_exec, insert, affected, wrapping, raise,
  pure, ◌>>=◌,
}

-- `deleted_at IS NULL`
abbrev pub is_live : AgentCustomer → Bool
is_live c = not (is_some c.deleted_at)

-- `WHERE id = $1 AND deleted_at IS NULL`
abbrev pub has_id : ℕ → AgentCustomer → Bool
has_id k c = c.id == k && is_live c

abbrev pub reference_eq : CustomerReference → CustomerReference → Bool
reference_eq a b = a.agent == b.agent && a.day == b.day && text_eq a.random b.random

abbrev pub has_reference : CustomerReference → AgentCustomer → Bool
has_reference r c = reference_eq c.customer_reference r

-- The columns of `unique_agent_customer_phone`, which also counts deleted rows.
abbrev pub has_phone : ℕ → Text → AgentCustomer → Bool
has_phone agent phone c = c.agent_identity_id == agent && text_eq c.phone_number phone

-- `WHERE agent_identity_id = $1 AND phone_number = $2 AND deleted_at IS NULL`
abbrev pub has_live_phone : ℕ → Text → AgentCustomer → Bool
has_live_phone agent phone c = has_phone agent phone c && is_live c

-- What `Create` inserts: the columns of the statement, and the defaults of the rest.
abbrev pub created : AgentCustomer → ℕ → ℕ → AgentCustomer
created c k t = record c {
  id = k;
  is_verified = false;
  verified_at = none;
  created_at = t;
  updated_at = t;
  deleted_at = none;
}

-- The columns that `Update` writes.
abbrev pub updated : AgentCustomer → ℕ → AgentCustomer → AgentCustomer
updated c t row = record row {
  full_name = c.full_name;
  phone_number = c.phone_number;
  alt_phone_number = c.alt_phone_number;
  email = c.email;
  notes = c.notes;
  tags = c.tags;
  metadata = c.metadata;
  updated_at = t;
}

abbrev pub with_status : Bool → ℕ → AgentCustomer → AgentCustomer
with_status is_active t c = record c { is_active = is_active; updated_at = t }

abbrev pub verified : ⦃env : Env⦄ → ℕ → AgentCustomer → AgentCustomer
verified ⦃env⦄ t c = record c {
  is_verified = true;
  verified_at = some t;
  updated_at = env.second_now t;
}

abbrev pub deleted : ⦃env : Env⦄ → ℕ → AgentCustomer → AgentCustomer
deleted ⦃env⦄ t c = record c { deleted_at = some t; updated_at = env.second_now t }

module _ {F : Type 0} where
  -- UPDATE agent_customers SET f WHERE id = k AND deleted_at IS NULL
  abbrev pub update_row : ℕ → (AgentCustomer → AgentCustomer) → Database F → Database F × Bool
  update_row k f d = (
    record d { customers = update_where (has_id k) f d.customers },
    any_row (has_id k) d.customers,
  )

  abbrev pub with_row : AgentCustomer → Database F → Database F
  with_row row d = record d { customers = d.customers ++ row ∷ []; next_id = d.next_id + 1 }

  -- The references and the phone numbers of an agent are unique.
  abbrev pub inserted : AgentCustomer → ℕ → Database F → Option (Database F × AgentCustomer)
  inserted c t d =
      let row = created c d.next_id t in
      if any_row (has_phone c.agent_identity_id c.phone_number) d.customers
        || any_row (has_reference c.customer_reference) d.customers
      then none
      else some (with_row row d, row)

  -- The phone number is refused if another row of the agent has it.
  abbrev pub rewritten : ℕ → AgentCustomer → ℕ → Database F → Option (Database F × Bool)
  rewritten k c t d =
      if any_row (λ x. has_phone c.agent_identity_id c.phone_number x && not (x.id == k))
        d.customers
      then none
      else some (update_row k (updated c t) d)

module _ {F : Type 0} ⦃env : Env⦄ where
  -- The lookups tell a missing row by the text of the error.
  abbrev pub found : Option AgentCustomer → M F AgentCustomer
  found none = raise not_found
  found (some c) = pure c

  -- `QueryRow` and `scanCustomerRow`
  unfoldable pub find_customer : String → (AgentCustomer → Bool) → M F AgentCustomer
  find_customer s p = do
    row ← wrapping s (wrapping "failed to scan customer row" (query λ _ d. find_row p d.customers))
    found row

  unfoldable pub find_by_id : ℕ → M F AgentCustomer
  unfolding find_customer
  find_by_id k = find_customer "failed to find customer" (has_id k)

  unfoldable pub find_by_reference : CustomerReference → M F AgentCustomer
  unfolding find_customer
  find_by_reference r =
      find_customer "failed to find customer by reference" (λ c. has_reference r c && is_live c)

  unfoldable pub find_by_agent_and_phone : ℕ → Text → M F AgentCustomer
  unfolding find_customer
  find_by_agent_and_phone agent phone =
      find_customer "failed to find customer by phone" (has_live_phone agent phone)

  unfoldable pub create : AgentCustomer → M F AgentCustomer
  create c = wrapping "failed to create customer" (insert (inserted c))

  unfoldable pub update : ℕ → AgentCustomer → M F (Unit {0})
  update k c =
      at_time λ t. affected (wrapping "failed to update customer" (try_exec (rewritten k c t)))

  -- `UPDATE agent_customers SET f WHERE id = $n AND deleted_at IS NULL`, with its two errors
  unfoldable pub write_row : String → ℕ → (ℕ → AgentCustomer → AgentCustomer) → M F (Unit {0})
  write_row message k f = at_time λ t. affected (wrapping message (exec (update_row k (f t))))

  unfoldable pub update_status : ℕ → Bool → M F (Unit {0})
  unfolding write_row
  update_status k is_active = write_row "failed to update status" k (with_status is_active)

  unfoldable pub mark_as_verified : ℕ → M F (Unit {0})
  unfolding write_row
  mark_as_verified k = write_row "failed to verify customer" k verified

  unfoldable pub soft_delete : ℕ → M F (Unit {0})
  unfolding write_row
  soft_delete k = write_row "failed to delete customer" k deleted

  unfoldable pub exists_by_agent_and_phone : ℕ → Text → M F Bool
  exists_by_agent_and_phone agent phone =
      query λ _ d. any_row (has_live_phone agent phone) d.customers

  unfoldable pub exists_by_reference : CustomerReference → M F Bool
  exists_by_reference r = query λ _ d. any_row (has_reference r) d.customers

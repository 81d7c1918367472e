-- ===== src/Customer/Validity.antt =====
-- The rows of agent_customers under the calls of customer.go.
use bingwa.Prelude.{
  ℕ, ◌≡◌, true, false, ◌||◌, none, some, List, All, All-append_one, All-update_where, All-found,
  any_row, is_some, arith, Bool-cases, inl, inr,
}
use bingwa.Domain.Customer.{AgentCustomer}
use bingwa.Store.{Env, Database, World}
use bingwa.Customer.Repository.{has_id, has_phone, has_reference, inserted, created, with_row}
use bingwa.Customer.Phone.{phone_refusal}
use bingwa.Customer.Keeping.{Keeps}
use bingwa.Customer.Calls.{CustomerCall, run, run-keeps}

-- The phone number is one that `validatePhoneNumber` accepts, and who is verified has a time of it.
pub record RowValid (c : AgentCustomer) : Type 0 where
  pub phone : phone_refusal c.phone_number ≡ none
  pub dated : c.is_verified ≡ true → is_some c.verified_at ≡ true

module _ {F : Type 0} where
  abbrev pub CustomersValid : Database F → Type 0
  CustomersValid d = All RowValid d.customers

  -- What an insert that is not refused makes.
  pub inserted_row :
      (c : AgentCustomer) (t : ℕ) (d d' : Database F) (row : AgentCustomer)
      → inserted c t d ≡ some (d', row)
      → (row ≡ created c d.next_id t)
        × (d' ≡ with_row row d)
        × (any_row (has_phone c.agent_identity_id c.phone_number) d.customers ≡ false)
  inserted_row c t d d' row e =
      elim (Bool-cases (
        any_row (has_phone c.agent_identity_id c.phone_number) d.customers
        || any_row (has_reference c.customer_reference) d.customers)) [
          | inl taken ↦ ground arith
          | inr free ↦ (ground arith, ground arith, ground arith)
        ]

  valid-Keeps : (agent : ℕ) → Keeps agent CustomersValid
  valid-Keeps agent = record {
    insert = λ c t d d' row mine fine e h.
        let (is_row, is_db, free) = inserted_row c t d d' row e in
        rw is_db (
          All-append_one RowValid d.customers row h
            (rw is_row (record { phone = fine; dated = λ v. ground arith })));
    write = λ k c f d e mine edit h.
        let found : RowValid c = All-found RowValid (has_id k) d.customers c h e in
        All-update_where RowValid (has_id k) f d.customers
          (λ x hit v. record {
            phone = edit.phone x found.phone v.phone;
            dated = edit.dated x v.dated;
          })
          h;
  }

  -- Every sequence of the calls of an agent that write keeps the customers' rows valid, whatever
  -- statement fails on the way: the phone number is one that the validation accepts, and a verified
  -- customer has the time of the verification.
  pub run-CustomersValid :
      ⦃env : Env⦄ (agent : ℕ) (cs : List CustomerCall) (w : World F)
      → CustomersValid w.db
      → CustomersValid (run agent cs w).db
  run-CustomersValid agent cs w h = run-keeps agent CustomersValid (valid-Keeps agent) cs w h

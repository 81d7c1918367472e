-- ===== src/Customer/Registration.antt =====
-- `CreateCustomer`, `GetOrCreateCustomer` and `BulkImportCustomers` of customer.go: which customers
-- they add.
use bingwa.Prelude.{
  ℕ, ◌≡◌, refl, subst, false, none, some, List, [], ◌∷◌, Text, find_row, any_row,
  find_row-append_new, text_eq_refl, arith,
}
use bingwa.Domain.Customer.{AgentCustomer, CustomerReference, CreateCustomerRequest}
use bingwa.Store.{Result, ok, err, Env, Database, World, msg, pure}
use bingwa.Store.Triples.{Ends, Triple, Triple-bind, Triple-wrapping, Triple-assume, Triple-insert}
use bingwa.Store.Reads.{Triple-pass, Triple-read, Triple-outcome, Either}
use bingwa.Customer.Repository
use bingwa.Customer.Repository.{has_live_phone, has_phone, is_live, inserted, created, with_row}
use bingwa.Customer.Phone.{phone_refusal}
use bingwa.Customer.Service
use bingwa.Customer.Keeping.{find_customer-Triple, validate-Triple, reference-Reads}
use bingwa.Customer.Validity.{inserted_row}

-- The row that a registration adds, and the tables after it.
pub record IsRegistered {F : Type 0} (agent : ℕ) (req : CreateCustomerRequest) (old : Database F)
    (row : AgentCustomer) (d : Database F) : Type 0 where
  pub reference : CustomerReference
  pub made_at : ℕ
  pub is_row : row ≡ created (Service.new_customer agent reference req) old.next_id made_at
  pub is_db : d ≡ with_row row old
  pub valid : phone_refusal req.phone_number ≡ none
  pub unused : any_row (has_phone agent req.phone_number) old.customers ≡ false

module _ {F : Type 0} ⦃env : Env⦄ (agent : ℕ) (req : CreateCustomerRequest) (old : Database F) where
  abbrev Same : Database F → Type 0
  Same d = d ≡ old

  registered :
      (reference : CustomerReference) (t : ℕ) (d d' : Database F) (row : AgentCustomer)
      → phone_refusal req.phone_number ≡ none
      → inserted (Service.new_customer agent reference req) t d ≡ some (d', row)
      → d ≡ old
      → IsRegistered agent req old row d'
  unfolding Service.new_customer
  registered reference t d d' row fine e same =
      let (is_row, is_db, unused) =
        inserted_row (Service.new_customer agent reference req) t d d' row e in
      record {
        reference = reference;
        made_at = t;
        is_row =
            subst (λ x. row ≡ created (Service.new_customer agent reference req) x.next_id t) same
              is_row;
        is_db = subst (λ x. d' ≡ with_row row x) same is_db;
        valid = fine;
        unused =
            subst (λ x. any_row (has_phone agent req.phone_number) x.customers ≡ false) same unused;
      }

  pub create-Triple :
      Triple Same (Service.create_customer agent req) (IsRegistered agent req old) Same
  unfolding Service.create_customer Service.generate_customer_reference
      Repository.exists_by_agent_and_phone Repository.create
  create-Triple = Triple-bind (validate-Triple Same req.phone_number) λ _. Triple-assume λ fine.
      Triple-bind
        (Triple-wrapping "failed to check customer existence"
          (Triple-read Same (λ _ d. any_row (has_live_phone agent req.phone_number) d.customers)))
        λ exists.
          Triple-bind (Triple-pass Same exists (msg "customer with phone number %s already exists"))
            λ _.
              Triple-bind
                (Triple-wrapping "failed to generate customer reference"
                  (reference-Reads Same 5 agent))
                λ reference. Triple-wrapping "failed to create customer" (
                  Triple-wrapping "failed to create customer" (
                    Triple-insert (inserted (Service.new_customer agent reference req))
                      λ t d d' row e h. registered reference t d d' row fine e h))

no_live :
    (agent : ℕ) (phone : Text) (xs : List AgentCustomer)
    → any_row (has_phone agent phone) xs ≡ false
    → any_row (has_live_phone agent phone) xs ≡ false
no_live agent phone [] h = refl
no_live agent phone (x ∷ xs) h = ground (arith, no_live agent phone xs)

module _ {F : Type 0} ⦃env : Env⦄ where
  -- CreateCustomer returns a customer only for a phone number that the validation accepts and that no
  -- customer of the agent has had, deleted ones included; it adds exactly the row of the request, not
  -- verified and active. When it returns an error, nothing has changed.
  pub create_customer-Ends :
      (agent : ℕ) (req : CreateCustomerRequest) (w : World F)
      → Ends (IsRegistered agent req w.db) (λ d. d ≡ w.db) (Service.create_customer agent req w)
  create_customer-Ends agent req w = (create-Triple agent req w.db).apply w refl

  -- A customer that is not deleted has the id, and is the agent's with the phone number.
  abbrev pub IsCustomerWith : ℕ → Text → ℕ → Database F → Type 0
  IsCustomerWith agent phone k d =
      (c : AgentCustomer) × (find_row (has_live_phone agent phone) d.customers ≡ some c)
      × (c.id ≡ k)

  module _ (agent : ℕ) (phone : Text) where
    registered_found :
        (old d : Database F) (row : AgentCustomer)
        → IsRegistered agent (Service.bare_request agent phone) old row d
        → IsCustomerWith agent phone row.id d
    unfolding Service.bare_request Service.new_customer
    registered_found old d row r = (
      row,
      rw r.is_db (
          find_row-append_new (has_live_phone agent phone) old.customers row
            (no_live agent phone old.customers r.unused)
            (rw r.is_row (ground (arith, text_eq_refl phone)))),
      refl,
    )

    or_create-Triple :
        (old : Database F) (r : Result AgentCustomer)
        → Triple
            (λ d.
              Either
                (λ c x. (find_row (has_live_phone agent phone) x.customers ≡ some c) × (x ≡ old))
                (λ x. x ≡ old)
                r
                d)
            (Service.or_create agent phone r)
            (IsCustomerWith agent phone)
            (λ d. d ≡ old)
    unfolding Service.or_create
    or_create-Triple old (ok c) = record { apply = λ w h. (c, h.0, refl) }
    or_create-Triple old (err e) =
        Triple-bind (create-Triple agent (Service.bare_request agent phone) old) λ c. new c
      where
        new :
            (c : AgentCustomer)
            → Triple
                (IsRegistered agent (Service.bare_request agent phone) old c)
                (pure c.id)
                (IsCustomerWith agent phone)
                (λ d. d ≡ old)
        new c = record { apply = λ w h. registered_found old w.db c h }

    -- The id that GetOrCreateCustomer returns is that of a customer of the agent with the phone
    -- number, who is not deleted; when it returns an error, nothing has changed.
    get_or_create_customer-Ends :
        (w : World F)
        → Ends
            (IsCustomerWith agent phone)
            (λ d. d ≡ w.db)
            (Service.get_or_create_customer agent phone w)
    unfolding Service.get_or_create_customer Repository.find_by_agent_and_phone
    get_or_create_customer-Ends w =
        (Triple-bind
            (Triple-outcome (
              find_customer-Triple (λ d. d ≡ w.db) "failed to find customer by phone"
                (has_live_phone agent phone)))
            (or_create-Triple w.db)).apply
          w refl

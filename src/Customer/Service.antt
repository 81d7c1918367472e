-- ===== src/Customer/Service.antt =====
-- internal/service/customer/customer.go. Logging is left out.
use bingwa.Prelude.{
  set_text, given_or, ℕ, zero, suc, Bool, true, false, not, Option, none, some, List, [], ◌∷◌, ◌++◌,
  Text, null_string, ◌==◌, text_eq, any_row, delete_where, get_or, if◌then◌else◌,
}
use bingwa.Domain.Customer.{
  AgentCustomer, CustomerReference, CreateCustomerRequest, UpdateCustomerRequest, made_for,
}
use bingwa.Store.{
  refuse, Error, Result, ok, err, Env, M, unauthorized, msg, pure, raise, wrapping, attempt,
  refuse_if, now, ◌>>=◌, ◌>>◌,
}
use bingwa.Subscription.Pricing.{generate_random_string}
use bingwa.Customer.Repository
use bingwa.Customer.Phone.{phone_refusal}

-- The entity that `CreateCustomer` builds.
unfoldable pub new_customer : ℕ → CustomerReference → CreateCustomerRequest → AgentCustomer
new_customer agent reference req = record {
  id = 0;
  agent_identity_id = agent;
  customer_reference = reference;
  full_name = null_string req.full_name;
  phone_number = req.phone_number;
  alt_phone_number = null_string req.alt_phone_number;
  email = null_string req.email;
  is_active = true;
  is_verified = false;
  verified_at = none;
  notes = null_string req.notes;
  tags = req.tags;
  metadata = req.metadata;
  created_at = 0;
  updated_at = 0;
  deleted_at = none;
}

-- The fields that a request of `UpdateCustomer` gives.
unfoldable pub merged : UpdateCustomerRequest → AgentCustomer → AgentCustomer
merged req c = record c {
  full_name = set_text req.full_name c.full_name;
  phone_number = get_or req.phone_number c.phone_number;
  alt_phone_number = set_text req.alt_phone_number c.alt_phone_number;
  email = set_text req.email c.email;
  notes = set_text req.notes c.notes;
  tags = get_or req.tags c.tags;
  metadata = given_or req.metadata c.metadata;
}

-- `AddTag` and `RemoveTag` on the tags
abbrev pub has_tag : Text → List Text → Bool
has_tag tag = any_row λ t. text_eq t tag

unfoldable pub with_tag : Text → List Text → List Text
with_tag tag tags = tags ++ tag ∷ []

unfoldable pub without_tag : Text → List Text → List Text
without_tag tag = delete_where λ t. text_eq t tag

-- "Created via scheduled offer"
abbrev pub created_via : Text
created_via =
    b'C' ∷ b'r' ∷ b'e' ∷ b'a' ∷ b't' ∷ b'e' ∷ b'd' ∷ b' ' ∷ b'v' ∷ b'i' ∷ b'a' ∷ b' ' ∷ b's' ∷ b'c'
    ∷ b'h' ∷ b'e' ∷ b'd' ∷ b'u' ∷ b'l' ∷ b'e' ∷ b'd' ∷ b' ' ∷ b'o' ∷ b'f' ∷ b'f' ∷ b'e' ∷ b'r' ∷ []

-- The request of `GetOrCreateCustomer`
unfoldable pub bare_request : ℕ → Text → CreateCustomerRequest
bare_request agent phone = record {
  full_name = [];
  phone_number = phone;
  alt_phone_number = [];
  email = [];
  notes = created_via;
  tags = [];
  metadata = some (made_for agent);
}

-- What `BulkImportCustomers` keeps of one creation: the id or 0, and the error or nil.
abbrev pub outcome : Result AgentCustomer → ℕ × Option Error
outcome (ok c) = (c.id, none)
outcome (err e) = (0, some e)

module _ {F : Type 0} where
  unfoldable pub validate_phone_number : Text → M F (Unit {0})
  unfolding phone_refusal
  validate_phone_number phone = refuse (phone_refusal phone)

module _ {F : Type 0} ⦃env : Env⦄ where
  unfoldable pub reference_from : ℕ → ℕ → M F CustomerReference
  reference_from zero agent =
      raise (msg "failed to generate unique customer reference after %d attempts")
  reference_from (suc left) agent = do
    t ← now
    random ← generate_random_string 4
    let r : CustomerReference = record { agent = agent; day = env.day t; random = random }
    exists ← wrapping "failed to check reference" (Repository.exists_by_reference r)
    if exists then reference_from left agent else pure r

  -- `maxAttempts := 5`
  unfoldable pub generate_customer_reference : ℕ → M F CustomerReference
  unfolding reference_from
  generate_customer_reference = reference_from 5

  unfoldable pub create_customer : ℕ → CreateCustomerRequest → M F AgentCustomer
  unfolding validate_phone_number generate_customer_reference new_customer
  create_customer agent req = do
    validate_phone_number req.phone_number
    exists ←
        wrapping "failed to check customer existence"
          (Repository.exists_by_agent_and_phone agent req.phone_number)
    refuse_if exists (msg "customer with phone number %s already exists")
    reference ← wrapping "failed to generate customer reference" (generate_customer_reference agent)
    wrapping "failed to create customer" (Repository.create (new_customer agent reference req))

  -- `if err == nil && existingCustomer != nil`
  unfoldable pub or_create : ℕ → Text → Result AgentCustomer → M F ℕ
  unfolding create_customer bare_request
  or_create agent phone (ok c) = pure c.id
  or_create agent phone (err e) = do c ← create_customer agent (bare_request agent phone); pure c.id

  unfoldable pub get_or_create_customer : ℕ → Text → M F ℕ
  unfolding or_create
  get_or_create_customer agent phone = do
    r ← attempt (Repository.find_by_agent_and_phone agent phone)
    or_create agent phone r

  -- "Verify ownership", with which the operations on one customer begin.
  unfoldable pub get_customer : ℕ → ℕ → M F AgentCustomer
  get_customer agent k = do
    c ← Repository.find_by_id k
    refuse_if (not (c.agent_identity_id == agent)) unauthorized
    pure c

  unfoldable pub get_customer_by_reference : ℕ → CustomerReference → M F AgentCustomer
  get_customer_by_reference agent r = do
    c ← Repository.find_by_reference r
    refuse_if (not (c.agent_identity_id == agent)) unauthorized
    pure c

  unfoldable pub get_customer_by_phone : ℕ → Text → M F AgentCustomer
  get_customer_by_phone agent phone = Repository.find_by_agent_and_phone agent phone

  -- "Check if new phone number conflicts with another customer"
  unfoldable pub check_conflict : Bool → ℕ → Text → M F (Unit {0})
  check_conflict true agent phone = pure tt
  check_conflict false agent phone = do
    exists ←
        wrapping "failed to check phone existence"
          (Repository.exists_by_agent_and_phone agent phone)
    refuse_if exists (msg "phone number already in use by another customer")

  unfoldable pub check_phone : ℕ → AgentCustomer → Option Text → M F (Unit {0})
  unfolding validate_phone_number check_conflict
  check_phone agent c none = pure tt
  check_phone agent c (some phone) = do
    validate_phone_number phone
    check_conflict (text_eq phone c.phone_number) agent phone

  unfoldable pub update_customer : ℕ → ℕ → UpdateCustomerRequest → M F AgentCustomer
  unfolding get_customer check_phone merged
  update_customer agent k req = do
    c ← get_customer agent k
    check_phone agent c req.phone_number
    wrapping "failed to update customer" (Repository.update k (merged req c))
    Repository.find_by_id k

  unfoldable pub activate_customer : ℕ → ℕ → M F (Unit {0})
  unfolding get_customer
  activate_customer agent k = do
    _ ← get_customer agent k
    wrapping "failed to activate customer" (Repository.update_status k true)

  unfoldable pub deactivate_customer : ℕ → ℕ → M F (Unit {0})
  unfolding get_customer
  deactivate_customer agent k = do
    _ ← get_customer agent k
    wrapping "failed to deactivate customer" (Repository.update_status k false)

  unfoldable pub verify_customer : ℕ → ℕ → M F (Unit {0})
  unfolding get_customer
  verify_customer agent k = do
    c ← get_customer agent k
    refuse_if c.is_verified (msg "customer already verified")
    wrapping "failed to verify customer" (Repository.mark_as_verified k)

  unfoldable pub delete_customer : ℕ → ℕ → M F (Unit {0})
  unfolding get_customer
  delete_customer agent k = do
    _ ← get_customer agent k
    wrapping "failed to delete customer" (Repository.soft_delete k)

  unfoldable pub add_tag : ℕ → ℕ → Text → M F (Unit {0})
  unfolding get_customer with_tag
  add_tag agent k tag = do
    c ← get_customer agent k
    refuse_if (has_tag tag c.tags) (msg "tag already exists")
    Repository.update k (record c { tags = with_tag tag c.tags })

  unfoldable pub remove_tag : ℕ → ℕ → Text → M F (Unit {0})
  unfolding get_customer without_tag
  remove_tag agent k tag = do
    c ← get_customer agent k
    Repository.update k (record c { tags = without_tag tag c.tags })

  unfoldable pub bulk_import_customers :
      ℕ → List CreateCustomerRequest → M F (List ℕ × List (Option Error))
  unfolding create_customer
  bulk_import_customers agent [] = pure ([], [])
  bulk_import_customers agent (req ∷ reqs) = do
    r ← attempt (create_customer agent req)
    rest ← bulk_import_customers agent reqs
    pure ((outcome r).0 ∷ rest.0, (outcome r).1 ∷ rest.1)

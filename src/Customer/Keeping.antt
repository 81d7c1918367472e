-- ===== src/Customer/Keeping.antt =====
-- What the calls of customer.go keep: a predicate on the tables that their inserts and their updates
-- of rows keep is kept by every call.
use bingwa.Prelude.{
  ℕ, zero, suc, ◌≡◌, refl, Bool, true, false, ◌&&◌, not, subst, Option, none, some, Text, ◌==◌,
  String, find_row, any_row, is_some, arith, Bool-cases, inl, inr,
}
use bingwa.Domain.Customer.{AgentCustomer, CustomerReference, CreateCustomerRequest}
use bingwa.Store.{Env, Database, unauthorized, msg, pure}
use bingwa.Store.Triples.{
  Triple, Triple-bind, Triple-wrapping, Triple-weaken, Triple-pure, Triple-raise, Triple-query,
  Triple-refuse_if, Triple-insert, Triple-update, Triple-now, Triple-if, Triple-assume,
}
use bingwa.Store.Reads.{Triple-refuse, Triple-pass, Triple-read}
use bingwa.Store.Constraints.{Triple-try_update}
use bingwa.Subscription.Quotes.{random-Reads}
use bingwa.Customer.Repository
use bingwa.Customer.Repository.{
  has_id, has_reference, has_live_phone, has_phone, inserted, update_row, rewritten,
}
use bingwa.Customer.Phone.{phone_refusal}
use bingwa.Customer.Service

-- An update of the row that was read as `c` keeps who and what the row is.
pub record IsEdit (c : AgentCustomer) (f : AgentCustomer → AgentCustomer) : Type 0 where
  pub same_id : (x : AgentCustomer) → (f x).id ≡ x.id
  pub same_agent : (x : AgentCustomer) → (f x).agent_identity_id ≡ x.agent_identity_id
  pub phone :
      (x : AgentCustomer)
      → phone_refusal c.phone_number ≡ none
      → phone_refusal x.phone_number ≡ none
      → phone_refusal (f x).phone_number ≡ none
  pub dated :
      (x : AgentCustomer)
      → (x.is_verified ≡ true → is_some x.verified_at ≡ true)
      → (f x).is_verified ≡ true
      → is_some (f x).verified_at ≡ true

-- The tables keep `I` when a call of the agent inserts or updates a customer.
pub record Keeps {F : Type 0} (agent : ℕ) (I : Database F → Type 0) : Type 0 where
  pub insert :
      (c : AgentCustomer) (t : ℕ) (d d' : Database F) (row : AgentCustomer)
      → c.agent_identity_id ≡ agent
      → phone_refusal c.phone_number ≡ none
      → inserted c t d ≡ some (d', row)
      → I d
      → I d'
  pub write :
      (k : ℕ) (c : AgentCustomer) (f : AgentCustomer → AgentCustomer) (d : Database F)
      → find_row (has_id k) d.customers ≡ some c
      → (c.agent_identity_id == agent) ≡ true
      → IsEdit c f
      → I d
      → I (update_row k f d).0

module _ {F : Type 0} ⦃env : Env⦄ (P : Database F → Type 0) where
  pub find_customer-Triple :
      (s : String) (p : AgentCustomer → Bool)
      → Triple P (Repository.find_customer s p) (λ c d. (find_row p d.customers ≡ some c) × P d) P
  unfolding Repository.find_customer
  find_customer-Triple s p =
      Triple-bind
        (Triple-wrapping s (
          Triple-wrapping "failed to scan customer row" (
            Triple-weaken {Q' = λ r d. (find_row p d.customers ≡ r) × P d} (λ d h. h)
              (λ r d h. (ground (arith, h.0), h.1)) (λ d h. h)
              (Triple-query λ _ d. find_row p d.customers))))
        found-Triple
    where
      found-Triple :
          (r : Option AgentCustomer)
          → Triple
              (λ d. (find_row p d.customers ≡ r) × P d)
              (Repository.found r)
              (λ c d. (find_row p d.customers ≡ some c) × P d)
              P
      found-Triple none = record { apply = λ w h. h.1 }
      found-Triple (some c) = record { apply = λ w h. h }

  pub validate-Triple :
      (phone : Text)
      → Triple P (Service.validate_phone_number phone) (λ _ d. (phone_refusal phone ≡ none) × P d) P
  unfolding Service.validate_phone_number
  validate-Triple phone = Triple-refuse P (phone_refusal phone)

  pub reference-Reads : (left agent : ℕ) → Triple P (Service.reference_from left agent) (λ _. P) P
  unfolding Service.reference_from Repository.exists_by_reference
  reference-Reads zero agent = Triple-raise _
  reference-Reads (suc left) agent = Triple-bind Triple-now λ t.
      Triple-bind (random-Reads 4 P) λ random.
        Triple-bind
          (Triple-wrapping "failed to check reference"
            (Triple-read P (λ _ d. any_row (has_reference (made t random)) d.customers)))
          λ exists. Triple-if exists (reference-Reads left agent) (Triple-pure (made t random))
    where
      made : ℕ → Text → CustomerReference
      made t random = record { agent = agent; day = env.day t; random = random }

  -- A customer that is found is the agent's.
  pub get_customer-Triple :
      (agent k : ℕ)
      → Triple P
          (Service.get_customer agent k)
          (λ c d.
            (find_row (has_id k) d.customers ≡ some c)
            × ((c.agent_identity_id == agent) ≡ true)
            × P d)
          P
  unfolding Service.get_customer Repository.find_by_id
  get_customer-Triple agent k =
      Triple-bind (find_customer-Triple "failed to find customer" (has_id k)) λ c.
        Triple-bind
          (Triple-weaken (λ d h. h) (λ _ d h. h) (λ d h. h.1)
            (Triple-refuse_if (not (c.agent_identity_id == agent)) unauthorized))
          λ _. mine c
    where
      mine :
          (c : AgentCustomer)
          → Triple
              (λ d.
                (not (c.agent_identity_id == agent) ≡ false)
                × ((find_row (has_id k) d.customers ≡ some c) × P d))
              (pure c)
              (λ x d.
                (find_row (has_id k) d.customers ≡ some x)
                × ((x.agent_identity_id == agent) ≡ true)
                × P d)
              P
      mine c = record { apply = λ w h. (h.1.0, ground (arith, h.0), h.1.1) }

module _ {F : Type 0} ⦃env : Env⦄ (agent : ℕ) (I : Database F → Type 0)
    (keeps : Keeps agent I) where
  -- The customer `c` was read, and the tables are still those that were read.
  abbrev pub Held : ℕ → AgentCustomer → Database F → Type 0
  Held k c d =
      (find_row (has_id k) d.customers ≡ some c) × ((c.agent_identity_id == agent) ≡ true) × I d

  -- A call that writes the row of a customer of the agent keeps `I`.
  pub edit-Triple :
      (s : String) (k : ℕ) (c : AgentCustomer) (f : ℕ → AgentCustomer → AgentCustomer)
      → ((t : ℕ) → IsEdit c (f t))
      → Triple (Held k c) (Repository.write_row s k f) (λ _. I) I
  unfolding Repository.write_row
  edit-Triple s k c f edits =
      Triple-update s (λ t. update_row k (f t)) (λ d h. h.2)
        (λ t d h. keeps.write k c (f t) d h.0 h.1 (edits t) h.2)

  rewritten-I :
      (k : ℕ) (c x : AgentCustomer) (t : ℕ) (d d' : Database F) (hit : Bool)
      → IsEdit c (Repository.updated x t)
      → rewritten k x t d ≡ some (d', hit)
      → Held k c d
      → I d'
  rewritten-I k c x t d d' hit edits e h =
      elim (Bool-cases (
        any_row (λ y. has_phone x.agent_identity_id x.phone_number y && not (y.id == k))
          d.customers)) [
            | inl taken ↦ ground arith
            | inr free ↦
                subst I (ground arith)
                  (keeps.write k c (Repository.updated x t) d h.0 h.1 edits h.2)
          ]

  pub update-Triple :
      (k : ℕ) (c x : AgentCustomer)
      → ((t : ℕ) → IsEdit c (Repository.updated x t))
      → Triple (Held k c) (Repository.update k x) (λ _. I) I
  unfolding Repository.update
  update-Triple k c x edits =
      Triple-try_update "failed to update customer" (rewritten k x) (λ d h. h.2)
        (λ t d d' hit e h. rewritten-I k c x t d d' hit (edits t) e h)

  inserted-I :
      (c : AgentCustomer)
      → c.agent_identity_id ≡ agent
      → phone_refusal c.phone_number ≡ none
      → Triple I (Repository.create c) (λ _. I) I
  unfolding Repository.create
  inserted-I c mine fine =
      Triple-wrapping "failed to create customer"
        (Triple-insert (inserted c) λ t d d' row e h. keeps.insert c t d d' row mine fine e h)

  pub create-Triple :
      (req : CreateCustomerRequest) → Triple I (Service.create_customer agent req) (λ _. I) I
  unfolding Service.create_customer Service.new_customer Service.generate_customer_reference
      Repository.exists_by_agent_and_phone
  create-Triple req = Triple-bind (validate-Triple I req.phone_number) λ _. Triple-assume λ fine.
      Triple-bind
        (Triple-wrapping "failed to check customer existence"
          (Triple-read I (λ _ d. any_row (has_live_phone agent req.phone_number) d.customers)))
        λ exists.
          Triple-bind (Triple-pass I exists (msg "customer with phone number %s already exists"))
            λ _.
              Triple-bind
                (Triple-wrapping "failed to generate customer reference"
                  (reference-Reads I 5 agent))
                λ reference.
                  Triple-wrapping "failed to create customer"
                    (inserted-I (Service.new_customer agent reference req) refl fine)

-- ===== src/Customer/Editing.antt =====
-- The operations of customer.go that write, and what they keep.
use bingwa.Prelude.{
  ℕ, ◌≡◌, refl, Bool, true, false, Option, none, some, Text, text_eq, any_row, is_some, get_or,
  String,
}
use bingwa.Domain.Customer.{AgentCustomer, UpdateCustomerRequest}
use bingwa.Store.{Result, ok, err, Env, Database, M, msg, wrapping, ◌>>=◌}
use bingwa.Store.Triples.{
  Triple, Triple-bind, Triple-wrapping, Triple-weaken, Triple-pure, Triple-assume,
}
use bingwa.Store.Reads.{Triple-pass, Triple-read, Triple-attempt}
use bingwa.Customer.Repository
use bingwa.Customer.Repository.{has_id, has_live_phone}
use bingwa.Customer.Phone.{phone_refusal}
use bingwa.Customer.Service
use bingwa.Customer.Keeping.{
  IsEdit, Keeps, Held, find_customer-Triple, validate-Triple, get_customer-Triple, edit-Triple,
  update-Triple, create-Triple,
}

module _ {F : Type 0} ⦃env : Env⦄ (agent : ℕ) (I : Database F → Type 0)
    (keeps : Keeps agent I) where
  or_create-Triple :
      (phone : Text) (r : Result AgentCustomer)
      → Triple I (Service.or_create agent phone r) (λ _. I) I
  unfolding Service.or_create
  or_create-Triple phone (ok c) = Triple-pure c.id
  or_create-Triple phone (err e) =
      Triple-bind (create-Triple agent I keeps (Service.bare_request agent phone))
        λ c. Triple-pure c.id

  pub get_or_create-Triple :
      (phone : Text) → Triple I (Service.get_or_create_customer agent phone) (λ _. I) I
  unfolding Service.get_or_create_customer Repository.find_by_agent_and_phone
  get_or_create-Triple phone =
      Triple-bind
        (Triple-attempt (
          Triple-weaken (λ d h. h) (λ _ d h. h.1) (λ d h. h)
            (find_customer-Triple I "failed to find customer by phone"
              (has_live_phone agent phone))))
        (or_create-Triple phone)

  -- The operations that write one row of a customer that was read.
  pub edits-Triple :
      (k : ℕ) {A : Type 0} (m : AgentCustomer → M F A)
      → ((c : AgentCustomer) → Triple (Held agent I keeps k c) (m c) (λ _. I) I)
      → Triple I (Service.get_customer agent k >>= m) (λ _. I) I
  edits-Triple k m body = Triple-bind (get_customer-Triple I agent k) body

  pub held :
      {A : Type 0} (k : ℕ) (c : AgentCustomer) {Q : A → Database F → Type 0} {m : M F A}
      → Triple (Held agent I keeps k c) m Q (Held agent I keeps k c)
      → Triple (Held agent I keeps k c) m Q I
  held k c t = Triple-weaken (λ d h. h) (λ _ d h. h) (λ d h. h.2) t

  pub written-Triple :
      (k : ℕ) (s s' : String) (f : ℕ → AgentCustomer → AgentCustomer)
      → ((c : AgentCustomer) (t : ℕ) → IsEdit c (f t))
      → (c : AgentCustomer)
      → Triple (Held agent I keeps k c) (wrapping s (Repository.write_row s' k f)) (λ _. I) I
  written-Triple k s s' f edits c = Triple-wrapping s (edit-Triple agent I keeps s' k c f (edits c))

  conflict-Reads :
      (P : Database F → Type 0) (b : Bool) (phone : Text)
      → Triple P (Service.check_conflict b agent phone) (λ _. P) P
  unfolding Service.check_conflict Repository.exists_by_agent_and_phone
  conflict-Reads P true phone = Triple-pure tt
  conflict-Reads P false phone =
      Triple-bind
        (Triple-wrapping "failed to check phone existence"
          (Triple-read P (λ _ d. any_row (has_live_phone agent phone) d.customers)))
        λ exists. Triple-pass P exists (msg "phone number already in use by another customer")

  -- A new phone number, where one is given, is valid.
  abbrev IsNewPhone : Option Text → Type 0
  IsNewPhone none = Unit
  IsNewPhone (some phone) = phone_refusal phone ≡ none

  check_phone-Triple :
      (P : Database F → Type 0) (c : AgentCustomer) (phone : Option Text)
      → Triple P (Service.check_phone agent c phone) (λ _ d. IsNewPhone phone × P d) P
  unfolding Service.check_phone
  check_phone-Triple P c none = record { apply = λ w h. (tt, h) }
  check_phone-Triple P c (some phone) = Triple-bind (validate-Triple P phone) λ _.
      Triple-assume λ fine.
        Triple-weaken (λ d h. h) (λ _ d h. (fine, h)) (λ d h. h)
          (conflict-Reads P (text_eq phone c.phone_number) phone)

  merged-IsEdit :
      (req : UpdateCustomerRequest) (c : AgentCustomer) (t : ℕ)
      → IsNewPhone req.phone_number
      → IsEdit c (Repository.updated (Service.merged req c) t)
  unfolding Service.merged
  merged-IsEdit req c t fine = record {
    same_id = λ x. refl;
    same_agent = λ x. refl;
    phone = λ x old _. new_phone req.phone_number fine old;
    dated = λ x h. h;
  }
    where
      new_phone :
          (p : Option Text)
          → IsNewPhone p
          → phone_refusal c.phone_number ≡ none
          → phone_refusal (get_or p c.phone_number) ≡ none
      new_phone none fine old = old
      new_phone (some p) fine old = fine

  pub update_customer-Triple :
      (k : ℕ) (req : UpdateCustomerRequest)
      → Triple I (Service.update_customer agent k req) (λ _. I) I
  unfolding Service.update_customer Repository.find_by_id
  update_customer-Triple k req = edits-Triple k _ λ c. Triple-bind (held k c (check_new c)) λ _.
      Triple-assume λ fine.
        Triple-bind
          (Triple-wrapping "failed to update customer" (
            update-Triple agent I keeps k c (Service.merged req c)
              (λ t. merged-IsEdit req c t fine)))
          λ _.
            Triple-weaken (λ d h. h) (λ _ d h. h.1) (λ d h. h)
              (find_customer-Triple I "failed to find customer" (has_id k))
    where
      check_new :
          (c : AgentCustomer)
          → Triple
              (Held agent I keeps k c)
              (Service.check_phone agent c req.phone_number)
              (λ _ d. IsNewPhone req.phone_number × Held agent I keeps k c d)
              (Held agent I keeps k c)
      check_new c = check_phone-Triple (Held agent I keeps k c) c req.phone_number

  pub kept :
      (c : AgentCustomer) (f : ℕ → AgentCustomer → AgentCustomer)
      → ((t : ℕ) (x : AgentCustomer) → (f t x).id ≡ x.id)
      → ((t : ℕ) (x : AgentCustomer) → (f t x).agent_identity_id ≡ x.agent_identity_id)
      → ((t : ℕ) (x : AgentCustomer) → (f t x).phone_number ≡ x.phone_number)
      → ((t : ℕ) (x : AgentCustomer)
          → (x.is_verified ≡ true → is_some x.verified_at ≡ true)
          → (f t x).is_verified ≡ true
          → is_some (f t x).verified_at ≡ true)
      → (t : ℕ) → IsEdit c (f t)
  kept c f same_id same_agent same_phone dated t = record {
    same_id = same_id t;
    same_agent = same_agent t;
    phone = λ x _ fine. rw (same_phone t x) fine;
    dated = dated t;
  }

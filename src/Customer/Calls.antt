-- ===== src/Customer/Calls.antt =====
-- The calls of customer.go that write, one by one and in sequence, and what they keep.
use bingwa.Prelude.{ℕ, refl, Bool, true, false, List, [], ◌∷◌, Text, String}
use bingwa.Domain.Customer.{AgentCustomer, CreateCustomerRequest, UpdateCustomerRequest}
use bingwa.Store.{Env, Database, World, fresh, msg, wrapping, ◌>>=◌}
use bingwa.Store.Triples.{Ends-always, Triple, Triple-bind, Triple-pure}
use bingwa.Store.Reads.{Triple-pass, Triple-attempt}
use bingwa.Customer.Repository
use bingwa.Customer.Repository.{has_id, has_live_phone}
use bingwa.Customer.Service
use bingwa.Customer.Editing.{
  get_or_create-Triple, edits-Triple, written-Triple, update_customer-Triple, kept, held,
}
use bingwa.Customer.Keeping.{IsEdit, Keeps, Held, update-Triple, create-Triple}

pub data CustomerCall : Type 0 where
  creates : CreateCustomerRequest → CustomerCall
  gets_or_creates : Text → CustomerCall
  updates : ℕ → UpdateCustomerRequest → CustomerCall
  activates deactivates verifies deletes : ℕ → CustomerCall
  adds_tag removes_tag : ℕ → Text → CustomerCall
  imports : List CreateCustomerRequest → CustomerCall

module _ {F : Type 0} ⦃env : Env⦄ (agent : ℕ) where
  -- One call of the agent, its result dropped.
  pub step : CustomerCall → World F → World F
  step (creates req) w = (Service.create_customer agent req w).1
  step (gets_or_creates phone) w = (Service.get_or_create_customer agent phone w).1
  step (updates k req) w = (Service.update_customer agent k req w).1
  step (activates k) w = (Service.activate_customer agent k w).1
  step (deactivates k) w = (Service.deactivate_customer agent k w).1
  step (verifies k) w = (Service.verify_customer agent k w).1
  step (deletes k) w = (Service.delete_customer agent k w).1
  step (adds_tag k tag) w = (Service.add_tag agent k tag w).1
  step (removes_tag k tag) w = (Service.remove_tag agent k tag w).1
  step (imports reqs) w = (Service.bulk_import_customers agent reqs w).1

  pub run : List CustomerCall → World F → World F
  run [] w = w
  run (c ∷ cs) w = run cs (step c (fresh w))

  module _ (I : Database F → Type 0) (keeps : Keeps agent I) where
    status-Triple :
        (k : ℕ) (is_active : Bool) (s : String)
        → Triple I
            (Service.get_customer agent k >>= λ _.
              wrapping s (Repository.update_status k is_active))
            (λ _. I)
            I
    unfolding Repository.update_status
    status-Triple k is_active s = edits-Triple agent I keeps k _ (
        written-Triple agent I keeps k s "failed to update status"
          (Repository.with_status is_active)
          λ c.
            kept agent I keeps c (Repository.with_status is_active) (λ t x. refl) (λ t x. refl)
              (λ t x. refl) (λ t x h. h))

    verify-Triple : (k : ℕ) → Triple I (Service.verify_customer agent k) (λ _. I) I
    unfolding Service.verify_customer Repository.mark_as_verified
    verify-Triple k = edits-Triple agent I keeps k _ λ c.
        Triple-bind
          (held agent I keeps k c
            (Triple-pass (Held agent I keeps k c) c.is_verified (msg "customer already verified")))
          λ _.
            written-Triple agent I keeps k "failed to verify customer" "failed to verify customer"
              Repository.verified
              (λ x.
                kept agent I keeps x Repository.verified (λ t y. refl) (λ t y. refl) (λ t y. refl)
                  (λ t y h e. refl))
              c

    delete-Triple : (k : ℕ) → Triple I (Service.delete_customer agent k) (λ _. I) I
    unfolding Service.delete_customer Repository.soft_delete
    delete-Triple k = edits-Triple agent I keeps k _ (
        written-Triple agent I keeps k "failed to delete customer" "failed to delete customer"
          Repository.deleted
          λ c.
            kept agent I keeps c Repository.deleted (λ t x. refl) (λ t x. refl) (λ t x. refl)
              (λ t x h. h))

    tags-IsEdit :
        (c : AgentCustomer) (tags : List Text) (t : ℕ)
        → IsEdit c (Repository.updated (record c { tags = tags }) t)
    tags-IsEdit c tags t = record {
      same_id = λ x. refl;
      same_agent = λ x. refl;
      phone = λ x old _. old;
      dated = λ x h. h;
    }

    add_tag-Triple : (k : ℕ) (tag : Text) → Triple I (Service.add_tag agent k tag) (λ _. I) I
    unfolding Service.add_tag
    add_tag-Triple k tag = edits-Triple agent I keeps k _ λ c.
        Triple-bind
          (held agent I keeps k c (
            Triple-pass (Held agent I keeps k c) (Service.has_tag tag c.tags)
              (msg "tag already exists")))
          λ _. update-Triple agent I keeps k c _ (tags-IsEdit c (Service.with_tag tag c.tags))

    remove_tag-Triple : (k : ℕ) (tag : Text) → Triple I (Service.remove_tag agent k tag) (λ _. I) I
    unfolding Service.remove_tag
    remove_tag-Triple k tag =
        edits-Triple agent I keeps k _
          λ c. update-Triple agent I keeps k c _ (tags-IsEdit c (Service.without_tag tag c.tags))

    import-Triple :
        (reqs : List CreateCustomerRequest)
        → Triple I (Service.bulk_import_customers agent reqs) (λ _. I) I
    unfolding Service.bulk_import_customers
    import-Triple [] = Triple-pure ([], [])
    import-Triple (req ∷ reqs) = Triple-bind (Triple-attempt (create-Triple agent I keeps req)) λ r.
        Triple-bind (import-Triple reqs)
          λ rest. Triple-pure ((Service.outcome r).0 ∷ rest.0, (Service.outcome r).1 ∷ rest.1)

    -- Every call keeps what inserts and updates of rows of the agent keep.
    pub step-keeps : (c : CustomerCall) (w : World F) → I w.db → I (step c w).db
    unfolding step Service.activate_customer Service.deactivate_customer
    step-keeps (creates req) w h = Ends-always I _ ((create-Triple agent I keeps req).apply w h)
    step-keeps (gets_or_creates phone) w h =
        Ends-always I _ ((get_or_create-Triple agent I keeps phone).apply w h)
    step-keeps (updates k req) w h =
        Ends-always I _ ((update_customer-Triple agent I keeps k req).apply w h)
    step-keeps (activates k) w h =
        Ends-always I _ ((status-Triple k true "failed to activate customer").apply w h)
    step-keeps (deactivates k) w h =
        Ends-always I _ ((status-Triple k false "failed to deactivate customer").apply w h)
    step-keeps (verifies k) w h = Ends-always I _ ((verify-Triple k).apply w h)
    step-keeps (deletes k) w h = Ends-always I _ ((delete-Triple k).apply w h)
    step-keeps (adds_tag k tag) w h = Ends-always I _ ((add_tag-Triple k tag).apply w h)
    step-keeps (removes_tag k tag) w h = Ends-always I _ ((remove_tag-Triple k tag).apply w h)
    step-keeps (imports reqs) w h = Ends-always I _ ((import-Triple reqs).apply w h)

    -- So does every sequence of calls.
    pub run-keeps : (cs : List CustomerCall) (w : World F) → I w.db → I (run cs w).db
    unfolding run
    run-keeps [] w h = h
    run-keeps (c ∷ cs) w h = run-keeps cs (step c (fresh w)) (step-keeps c (fresh w) h)

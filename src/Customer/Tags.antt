-- ===== src/Customer/Tags.antt =====
-- The tags of a customer under `AddTag` and `RemoveTag` of customer.go.
use bingwa.Prelude.{
  ℕ, ◌≡◌, refl, sym, ◌∙◌, ap, subst, Bool, true, false, ◌&&◌, not, ◌⊎◌, inl, inr, some, List, [],
  ◌∷◌, Text, text_eq_refl, ◌==◌, AtMostOne, AtMostOne-update_where, Bool-cases, any_row,
  any_row-find_row, find_row, find_row-update_where, update_where, update_where-found,
  update_where-twice, arith,
}
use bingwa.Domain.Customer.{AgentCustomer}
use bingwa.Store.{Env, Database, World, msg, ◌>>◌}
use bingwa.Store.Triples.{Ends, Triple, Triple-bind, Triple-weaken, Triple-refuse_if, Triple-assume}
use bingwa.Store.Constraints.{Triple-try_write}
use bingwa.Customer.Repository
use bingwa.Customer.Repository.{has_id, has_phone, rewritten, updated, update_row}
use bingwa.Customer.Keeping.{get_customer-Triple}
use bingwa.Customer.Service
use bingwa.Customer.Service.{has_tag, with_tag, without_tag}

without_tag-with_tag :
    (tag : Text) (tags : List Text)
    → has_tag tag tags ≡ false
    → without_tag tag (with_tag tag tags) ≡ tags
unfolding without_tag with_tag
without_tag-with_tag tag [] h = ground (arith, text_eq_refl tag)
without_tag-with_tag tag (t ∷ ts) h = ground (arith, without_tag-with_tag tag ts)

-- The row with other tags.
abbrev pub retagged : List Text → ℕ → AgentCustomer → AgentCustomer
retagged tags t c = record c { tags = tags; updated_at = t }

module _ {F : Type 0} (k : ℕ) where
  -- Of all tables, exactly the tags of the customer and the time of its update are other than before.
  abbrev pub IsRetagged : List Text → Database F → Database F → Type 0
  IsRetagged tags old d =
      (t : ℕ) × (d
        ≡ record old { customers = update_where (has_id k) (retagged tags t) old.customers })

module _ {F : Type 0} (agent k : ℕ) (tag : Text) where
  -- The customer is the agent's and had not had the tag; its tags are now what `f` makes of them.
  pub record IsTagged (f : List Text → List Text) (old d : Database F) : Type 0 where
    pub row : AgentCustomer
    pub found : find_row (has_id k) old.customers ≡ some row
    pub mine : (row.agent_identity_id == agent) ≡ true
    pub untagged : has_tag tag row.tags ≡ false
    pub written : IsRetagged k (f row.tags) old d

module _ {F : Type 0} ⦃env : Env⦄ (k : ℕ) (base : Database F)
    (unique : AtMostOne (has_id k) base.customers) (c : AgentCustomer)
    (found : find_row (has_id k) base.customers ≡ some c) (tags : List Text) where
  abbrev Row : AgentCustomer
  Row = record c { tags = tags }

  rewritten-IsRetagged :
      (t : ℕ) (d' : Database F) (hit : Bool)
      → rewritten k Row t base ≡ some (d', hit)
      → IsRetagged k tags base d'
  rewritten-IsRetagged t d' hit e =
      elim (Bool-cases (
        any_row (λ y. has_phone c.agent_identity_id c.phone_number y && not (y.id == k))
          base.customers)) [
            | inl taken ↦ ground arith
            | inr free ↦
                let after : d' ≡ (update_row k (updated Row t) base).0 = ground arith in
                (
                  t,
                  after
                      ∙ ap (λ l. record base { customers = l })
                          (update_where-found (has_id k) (updated Row t) (retagged tags t)
                            base.customers c unique found refl),
                )
          ]

  write-Triple :
      Triple (λ d. d ≡ base) (Repository.update k Row) (λ _. IsRetagged k tags base) (λ d. d ≡ base)
  unfolding Repository.update
  write-Triple =
      Triple-try_write "failed to update customer" (rewritten k Row) (λ d h. h)
        (λ t d d' e h.
          rewritten-IsRetagged t d' true (subst (λ x. rewritten k Row t x ≡ some (d', true)) h e))
        (λ t d d' e h.
          absurd (missed t d' (subst (λ x. rewritten k Row t x ≡ some (d', false)) h e)))
    where
      missed : (t : ℕ) (d' : Database F) → rewritten k Row t base ≡ some (d', false) → ⊥
      missed t d' e =
          elim (Bool-cases (
            any_row (λ y. has_phone c.agent_identity_id c.phone_number y && not (y.id == k))
              base.customers)) [
                | inl taken ↦ ground arith
                | inr free ↦ ground (arith, any_row-find_row (has_id k) base.customers c found)
              ]

module _ {F : Type 0} ⦃env : Env⦄ (agent k : ℕ) (tag : Text) (old : Database F)
    (unique : AtMostOne (has_id k) old.customers) where
  abbrev Tagged : Database F → Type 0
  Tagged = IsTagged agent k tag (with_tag tag) old

  abbrev Restored : Database F → Type 0
  Restored = IsTagged agent k tag (λ tags. tags) old

  add-Triple : Triple (λ d. d ≡ old) (Service.add_tag agent k tag) (λ _. Tagged) (λ d. d ≡ old)
  unfolding Service.add_tag
  add-Triple = Triple-bind (get_customer-Triple (λ d. d ≡ old) agent k) λ c.
      Triple-bind
        (Triple-weaken
          {Q' = λ _ d.
            ((has_tag tag c.tags ≡ false)
              × (find_row (has_id k) old.customers ≡ some c)
              × ((c.agent_identity_id == agent) ≡ true))
            × (d ≡ old)}
          (λ d h. h)
          (λ _ d h. (
            (h.0, subst (λ x. find_row (has_id k) x.customers ≡ some c) h.1.2 h.1.0, h.1.1),
            h.1.2,
          ))
          (λ d h. h.2) (Triple-refuse_if (has_tag tag c.tags) (msg "tag already exists")))
        λ _. Triple-assume λ known.
          Triple-weaken (λ d h. h)
            (λ _ d h. record {
              row = c;
              found = known.1;
              mine = known.2;
              untagged = known.0;
              written = h;
            })
            (λ d h. h) (write-Triple k old unique c known.1 (with_tag tag c.tags))

  -- From the tables that `AddTag` left.
  module _ (mid : Database F) (tagged : Tagged mid) where
    abbrev first : AgentCustomer → AgentCustomer
    first = retagged (with_tag tag tagged.row.tags) tagged.written.0

    mid_customers : mid.customers ≡ update_where (has_id k) first old.customers
    mid_customers = ap (λ d. d.customers) tagged.written.1

    mid_unique : AtMostOne (has_id k) mid.customers
    mid_unique =
        subst (AtMostOne (has_id k)) (sym mid_customers)
          (AtMostOne-update_where (has_id k) (has_id k) first old.customers (λ x. refl) unique)

    mid_found :
        (c : AgentCustomer) → find_row (has_id k) mid.customers ≡ some c → first tagged.row ≡ c
    mid_found c e =
        let here : find_row (has_id k) mid.customers ≡ some (first tagged.row) =
          subst (λ l. find_row (has_id k) l ≡ some (first tagged.row)) (sym mid_customers)
            (find_row-update_where (has_id k) first old.customers tagged.row (λ x. refl)
              tagged.found) in
        ground (arith, here, e)

    restored :
        (c : AgentCustomer) (d : Database F)
        → find_row (has_id k) mid.customers ≡ some c
        → IsRetagged k (without_tag tag c.tags) mid d
        → Restored d
    restored c d e (t, changed) =
        let tags : without_tag tag c.tags ≡ tagged.row.tags =
          subst (λ x. without_tag tag x.tags ≡ tagged.row.tags) (mid_found c e)
            (without_tag-with_tag tag tagged.row.tags tagged.untagged) in
        let second : AgentCustomer → AgentCustomer = retagged tagged.row.tags t in
        let rows : update_where (has_id k) second mid.customers
            ≡ update_where (has_id k) second old.customers =
          ap (update_where (has_id k) second) mid_customers
          ∙ update_where-twice (has_id k) first second old.customers (λ x. refl) (λ x. refl) in
        let plain : d ≡ record mid { customers = update_where (has_id k) second mid.customers } =
          subst
            (λ ts.
              d ≡ record mid { customers = update_where (has_id k) (retagged ts t) mid.customers })
            tags changed in
        record {
          row = tagged.row;
          found = tagged.found;
          mine = tagged.mine;
          untagged = tagged.untagged;
          written = (
            t,
            plain
                ∙ ap (λ l. record mid { customers = l }) rows
                ∙ ap {A = Database F}
                    (λ x. record x { customers = update_where (has_id k) second old.customers })
                    tagged.written.1,
          );
        }

    remove-from :
        Triple (λ d. d ≡ mid) (Service.remove_tag agent k tag) (λ _. Restored) (λ d. d ≡ mid)
    unfolding Service.remove_tag
    remove-from =
        Triple-bind
          (Triple-weaken {Q' = λ c d. (find_row (has_id k) mid.customers ≡ some c) × (d ≡ mid)}
            (λ d h. h)
            (λ c d h. (subst (λ x. find_row (has_id k) x.customers ≡ some c) h.2 h.0, h.2))
            (λ d h. h) (get_customer-Triple (λ d. d ≡ mid) agent k))
          λ c. Triple-assume λ e.
            Triple-weaken (λ d h. h) (λ _ d h. restored c d e h) (λ d h. h)
              (write-Triple k mid mid_unique c e (without_tag tag c.tags))

  remove-Triple : Triple Tagged (Service.remove_tag agent k tag) (λ _. Restored) Tagged
  remove-Triple = record {
    apply = λ w h.
        (Triple-weaken (λ d e. e) (λ _ d q. q) (λ d e. subst Tagged (sym e) h)
            (remove-from w.db h)).apply
          w refl;
  }

-- Where one row at most has the id and is not deleted: AddTag succeeds only for a customer of the
-- agent that did not have the tag, and of all tables only that customer's tags, which the tag is
-- appended to, and the time of its update are then others; an error changes nothing. If RemoveTag of
-- the same tag succeeds after it, the tags are as they were before both, and if RemoveTag returns an
-- error, the tag is still there and nothing else has changed.
pub tags-round_trip :
    {F : Type 0} ⦃env : Env⦄ (agent k : ℕ) (tag : Text) (w : World F)
    → AtMostOne (has_id k) w.db.customers
    → Ends
        (λ _. IsTagged agent k tag (with_tag tag) w.db)
        (λ d. d ≡ w.db)
        (Service.add_tag agent k tag w)
      × Ends
          (λ _. IsTagged agent k tag (λ tags. tags) w.db)
          (λ d. (d ≡ w.db) ⊎ IsTagged agent k tag (with_tag tag) w.db d)
          ((Service.add_tag agent k tag >> Service.remove_tag agent k tag) w)
tags-round_trip agent k tag w unique = (
  (add-Triple agent k tag w.db unique).apply w refl,
  (Triple-bind
        (Triple-weaken (λ d h. h) (λ _ d h. h) (λ d h. inl h) (add-Triple agent k tag w.db unique))
        λ _.
          Triple-weaken (λ d h. h) (λ _ d h. h) (λ d h. inr h)
            (remove-Triple agent k tag w.db unique)).apply
      w refl,
)

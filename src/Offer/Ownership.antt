-- ===== src/Offer/Ownership.antt =====
-- The parts that the operations on USSD codes of offers.go share, and the codes of other offers.
use bingwa.Prelude.{
  ℕ, ◌+◌, ◌≡◌, refl, ◌∙◌, Bool, true, false, not, ◌==◌, List, [], ◌∷◌, String, All, All-weaken,
  All-select, All-sort_by, AtMostOne-update_where, find_row, select, sort_by, update_where, ltb,
  leb, arith,
}
use bingwa.Domain.Offer.{OfferUssdCode}
use bingwa.Store.{Env, Database, M, unauthorized}
use bingwa.Store.Triples.{
  Triple, Triple-bind, Triple-wrapping, Triple-refuse_if, Triple-weaken, Triple-pure,
  Triple-find_one, Triple-query_rows, Triple-update,
}
use bingwa.Store.Reads.{All-before_break}
use bingwa.Offer.Repository
use bingwa.Offer.Repository.{code_has_id, of_offer, by_creation, by_success, is_active_code}
use bingwa.Offer.Codes.{for_each, own_offer, own_code, list_codes, move_if, shift_ussd_priorities}
use bingwa.Offer.Checks.{own_offer-Reads}
use bingwa.Offer.Isolation.{
  others, Owns, UniqueIds, Owns-rows, Owns-found, Owns-update_where, others-update_where,
}

module _ {F : Type 0} ⦃env : Env⦄ where
  -- A loop whose body, run on an element for which `G` holds, keeps `G` of the elements to come.
  pub for_each-Triple :
      {A : Type 0} (P : Database F → Type 0) (G : A → Database F → Type 0) (f : A → M F (Unit {0}))
      → ((x : A) (ys : List A)
          → Triple
              (λ d. G x d × All (λ y. G y d) ys × P d)
              (f x)
              (λ _ d. All (λ y. G y d) ys × P d)
              P)
      → (xs : List A) → Triple (λ d. All (λ x. G x d) xs × P d) (for_each xs f) (λ _. P) P
  for_each-Triple P G f body [] = record { apply = λ w h. h.1 }
  for_each-Triple P G f body (x ∷ xs) =
      Triple-bind (Triple-weaken (λ d h. (h.0.0, h.0.1, h.1)) (λ _ d h. h) (λ d h. h) (body x xs))
        λ _. for_each-Triple P G f body xs

module _ {F : Type 0} ⦃env : Env⦄ (offer : ℕ) (old : List OfferUssdCode) where
  -- The codes of the other offers are these, and no id stands twice.
  abbrev pub Kept : Database F → Type 0
  Kept d = (others offer d.ussd_codes ≡ old) × UniqueIds d.ussd_codes

  abbrev pub OwnsId : ℕ → Database F → Type 0
  OwnsId k d = Owns offer k d.ussd_codes

  -- Each of these belongs to the offer.
  abbrev pub OwnsAll : {A : Type 0} → (A → ℕ) → List A → Database F → Type 0
  OwnsAll key ys d = All (λ y. OwnsId (key y) d) ys

  -- Updates by `f` keep the predicate.
  abbrev pub Stable : (ℕ → OfferUssdCode → OfferUssdCode) → (Database F → Type 0) → Type 0
  Stable f R = (k t : ℕ) (d : Database F) → R d → R (Repository.update_code k (f t) d).0

  pub OwnsId-Stable :
      (j : ℕ) (f : ℕ → OfferUssdCode → OfferUssdCode)
      → ((t : ℕ) (c : OfferUssdCode) → (f t c).id ≡ c.id)
      → ((t : ℕ) (c : OfferUssdCode) → (f t c).offer_id ≡ c.offer_id)
      → Stable f (OwnsId j)
  OwnsId-Stable j f same_id same_offer k t d h =
      Owns-update_where offer j k (f t) d.ussd_codes (same_id t) (same_offer t) h

  pub OwnsAll-Stable :
      {A : Type 0} (key : A → ℕ) (ys : List A) (priority : ℕ)
      → Stable (Repository.moved priority) (OwnsAll key ys)
  OwnsAll-Stable key ys priority k t d h =
      All-weaken (λ y. OwnsId (key y) d)
        (λ y.
          Owns offer (key y)
            (update_where (code_has_id k) (Repository.moved priority t) d.ussd_codes))
        ys
        (λ y mine.
          OwnsId-Stable (key y) (Repository.moved priority) (λ t c. refl) (λ t c. refl) k t d mine)
        h

  -- An update of a code of the offer keeps the others, and every stable predicate.
  pub write-Triple :
      (R : Database F → Type 0) (message : String) (k : ℕ) (f : ℕ → OfferUssdCode → OfferUssdCode)
      → ((t : ℕ) (c : OfferUssdCode) → (f t c).id ≡ c.id)
      → ((t : ℕ) (c : OfferUssdCode) → (f t c).offer_id ≡ c.offer_id)
      → Stable f R
      → Triple
          (λ d. OwnsId k d × R d × Kept d)
          (Repository.write_code {F = F} message k f)
          (λ _ d. R d × Kept d)
          (λ d. R d × Kept d)
  unfolding Repository.write_code
  write-Triple R message k f same_id same_offer stable =
      Triple-update message (λ t. Repository.update_code k (f t)) (λ d h. (h.1, h.2))
        (λ t d h. (
          stable k t d h.1,
          (
            others-update_where offer k (f t) d.ussd_codes (same_offer t) h.0 ∙ h.2.0,
            λ j.
                AtMostOne-update_where (code_has_id j) (code_has_id k) (f t) d.ussd_codes
                  (λ c. rw (same_id t c) refl) (h.2.1 j),
          ),
        ))

  pub move-Triple :
      (R : Database F → Type 0) (k priority : ℕ)
      → Stable (Repository.moved priority) R
      → Triple
          (λ d. OwnsId k d × R d × Kept d)
          (Repository.update_priority {F = F} k priority)
          (λ _ d. R d × Kept d)
          (λ d. R d × Kept d)
  unfolding Repository.update_priority
  move-Triple R k priority stable =
      write-Triple R "failed to update priority" k (Repository.moved priority) (λ t c. refl)
        (λ t c. refl) stable

  pub move_if-Triple :
      (R : Database F → Type 0) (b : Bool) (message : String) (k priority : ℕ)
      → Stable (Repository.moved priority) R
      → Triple
          (λ d. OwnsId k d × R d × Kept d)
          (move_if {F = F} b message k priority)
          (λ _ d. R d × Kept d)
          (λ d. R d × Kept d)
  unfolding move_if
  move_if-Triple R true message k priority stable =
      Triple-wrapping message (move-Triple R k priority stable)
  move_if-Triple R false message k priority stable = record { apply = λ w h. (h.1, h.2) }

  -- A single update of a code of the offer.
  pub write_one-Triple :
      (message : String) (k : ℕ) (f : ℕ → OfferUssdCode → OfferUssdCode)
      → ((t : ℕ) (c : OfferUssdCode) → (f t c).id ≡ c.id)
      → ((t : ℕ) (c : OfferUssdCode) → (f t c).offer_id ≡ c.offer_id)
      → Triple
          (λ d. OwnsId k d × Kept d)
          (Repository.write_code {F = F} message k f)
          (λ _. Kept)
          Kept
  write_one-Triple message k f same_id same_offer =
      Triple-weaken (λ d h. (h.0, tt, h.1)) (λ _ d h. h.1) (λ d h. h.1)
        (write-Triple (λ d. Unit {0}) message k f same_id same_offer (λ k t d h. tt))

  -- The codes of the offer that a `SELECT` lists belong to it.
  pub list_with-Triple :
      (R : Database F → Type 0)
      → Triple
          (λ d. R d × Kept d)
          (list_codes {F = F} offer)
          (λ codes d. OwnsAll (λ c. c.id) codes d × R d × Kept d)
          (λ d. R d × Kept d)
  unfolding list_codes Repository.list_by_offer_id
  list_with-Triple R = Triple-wrapping "failed to list USSD codes" (
      Triple-wrapping "failed to list USSD codes" (
        Triple-weaken (λ d h. h)
          (λ codes d h. (
            rw h.0.1 (
                All-before_break (λ c. OwnsId c.id d) (env.rows_read h.0.0)
                  (sort_by by_creation (select (of_offer offer) d.ussd_codes))
                  (All-sort_by (λ c. OwnsId c.id d) by_creation
                    (select (of_offer offer) d.ussd_codes)
                    (All-weaken
                      (λ c.
                        ((c.offer_id == offer) ≡ true)
                        × (((c.offer_id == offer) ≡ true) → OwnsId c.id d))
                      (λ c. OwnsId c.id d) (select (of_offer offer) d.ussd_codes) (λ c g. g.1 g.0)
                      (All-select (λ c. ((c.offer_id == offer) ≡ true) → OwnsId c.id d)
                        (of_offer offer) d.ussd_codes (Owns-rows offer d.ussd_codes h.1.1.1))))),
            h.1.0,
            h.1.1,
          ))
          (λ d h. h)
          (Triple-query_rows λ _ d. sort_by by_creation (select (of_offer offer) d.ussd_codes))))

  pub list-Triple :
      Triple Kept (list_codes {F = F} offer) (λ codes d. OwnsAll (λ c. c.id) codes d × Kept d) Kept
  list-Triple =
      Triple-weaken (λ d h. (tt, h)) (λ codes d h. (h.0, h.2)) (λ d h. h.1)
        (list_with-Triple (λ d. Unit {0}))

  pub own_code-Triple :
      (k : ℕ) → Triple Kept (own_code {F = F} offer k) (λ _ d. OwnsId k d × Kept d) Kept
  unfolding own_code Repository.find_code
  own_code-Triple k =
      Triple-bind
        (Triple-find_one "failed to find USSD code" (λ _ d. find_row (code_has_id k) d.ussd_codes))
        λ c.
          Triple-bind {Q = λ _ d. OwnsId k d × Kept d}
            (Triple-weaken (λ d h. h)
              (λ _ d h. (
                Owns-found offer k d.ussd_codes c (h.1.1.1 k) h.1.0.1 (ground (arith, h.0)),
                h.1.1,
              ))
              (λ d h. h.1) (Triple-refuse_if (not (c.offer_id == offer)) unauthorized))
            λ _. Triple-pure c

  pub shift-Triple :
      (from : ℕ) → Triple Kept (shift_ussd_priorities {F = F} offer from) (λ _. Kept) Kept
  unfolding shift_ussd_priorities
  shift-Triple from = Triple-bind list-Triple λ codes.
      Triple-weaken
        (λ d h.
          (All-sort_by (λ c. OwnsId c.id d) (λ a b. ltb b.priority a.priority) codes h.0, h.1))
        (λ _ d h. h) (λ d h. h)
        (for_each-Triple Kept (λ c d. OwnsId c.id d)
          (λ c.
            move_if (leb from c.priority) "failed to update priority for code %d" c.id
              (c.priority + 1))
          (λ c ys.
            Triple-weaken (λ d h. h) (λ _ d h. h) (λ d h. h.1)
              (move_if-Triple (OwnsAll (λ y. y.id) ys) (leb from c.priority)
                "failed to update priority for code %d" c.id (c.priority + 1)
                (OwnsAll-Stable (λ y. y.id) ys (c.priority + 1))))
          (sort_by (λ a b. ltb b.priority a.priority) codes))

  pub own_offer-Triple : (agent : ℕ) → Triple Kept (own_offer {F = F} agent offer) (λ _. Kept) Kept
  own_offer-Triple agent = own_offer-Reads Kept offer agent

-- ===== src/Offer/Safety.antt =====
-- Adding, updating, toggling and recording USSD codes in offers.go, and the codes of other offers.
use bingwa.Prelude.{
  ℕ, ◌≡◌, refl, ◌∙◌, subst, Bool, true, false, ◌||◌, ◌==◌, some, List, Bool-cases, inl, inr,
  any_row, find_row, arith,
}
use bingwa.Domain.Offer.{
  OfferUssdCode, AddUssdCodeRequest, UpdateUssdCodeRequest, RecordUssdResultRequest,
}
use bingwa.Store.{Env, Database, M, msg}
use bingwa.Store.Triples.{
  Triple, Triple-bind, Triple-wrapping, Triple-weaken, Triple-pure, Triple-insert,
}
use bingwa.Store.Reads.{Triple-find_any, Triple-pass, Triple-read}
use bingwa.Offer.Repository
use bingwa.Offer.Repository.{code_has_id, of_offer, by_success, is_active_code, has_code}
use bingwa.Offer.Entities.{new_code, merged_code}
use bingwa.Offer.Codes
use bingwa.Offer.Codes.{
  for_each, list_codes, move_if, make_room, check_code, check_moved, check_priority, move_to_front,
  or_missing, check_belongs, close_gap, check_not_last, record_result,
}
use bingwa.Offer.Isolation.{others, others-append_one}
use bingwa.Offer.Checks.{check_code-Reads, check_priority-Reads, check_not_last-Reads}
use bingwa.Offer.Ownership.{
  Kept, OwnsId, own_offer-Triple, own_code-Triple, list-Triple, write_one-Triple, shift-Triple,
}

module _ {F : Type 0} ⦃env : Env⦄ (offer : ℕ) (old : List OfferUssdCode) where
  -- The codes of the other offers are these.
  abbrev pub Safe : Database F → Type 0
  Safe d = others offer d.ussd_codes ≡ old

  pub safe :
      {A : Type 0} {m : M F A}
      → Triple (Kept offer old) m (λ _. Kept offer old) (Kept offer old)
      → Triple (Kept offer old) m (λ _. Safe) Safe
  safe t = Triple-weaken (λ d h. h) (λ _ d h. h.0) (λ d h. h.0) t

  safe' :
      {A : Type 0} {Q : A → Database F → Type 0} {m : M F A}
      → Triple (Kept offer old) m Q (Kept offer old)
      → Triple (Kept offer old) m Q Safe
  safe' t = Triple-weaken (λ d h. h) (λ _ d h. h) (λ d h. h.0) t

  -- The code `k` belongs to the offer.
  abbrev pub Owned : ℕ → Database F → Type 0
  Owned k d = OwnsId offer old k d × Kept offer old d

  owned :
      {A : Type 0} (k : ℕ) {Q : A → Database F → Type 0} {m : M F A}
      → Triple (Owned k) m Q (Owned k)
      → Triple (Owned k) m Q (Kept offer old)
  owned k t = Triple-weaken (λ d h. h) (λ _ d h. h) (λ d h. h.1) t

  inserted-Safe :
      (c : OfferUssdCode) (t : ℕ) (d d' : Database F) (row : OfferUssdCode)
      → c.offer_id ≡ offer
      → Repository.inserted_code c t d ≡ some (d', row)
      → Safe d
      → Safe d'
  inserted-Safe c t d d' row mine e h =
      elim (Bool-cases (any_row (has_code c.offer_id c.ussd_code) d.ussd_codes)) [
        | inl taken ↦ ground arith
        | inr free ↦
            let appended =
              others-append_one offer d.ussd_codes (Repository.created_code c d.next_id t)
                (ground arith) in
            subst Safe {x = Repository.with_code (Repository.created_code c d.next_id t) d} {y = d'}
              (ground arith) (appended ∙ h)
      ]

  create-Triple :
      (priority : ℕ) (req : AddUssdCodeRequest)
      → Triple
          (Kept offer old)
          (Repository.create_code {F = F} (new_code offer priority req))
          (λ _. Safe)
          Safe
  unfolding Repository.create_code
  create-Triple priority req =
      Triple-weaken (λ d h. h.0) (λ _ d h. h) (λ d h. h)
        (Triple-wrapping "failed to create USSD code" (
          Triple-insert (Repository.inserted_code (new_code offer priority req))
            λ t d d' c e h. inserted-Safe (new_code offer priority req) t d d' c refl e h))

  make_room-Triple :
      (b : Bool) (priority : ℕ)
      → Triple
          (Kept offer old)
          (make_room {F = F} b offer priority)
          (λ _. Kept offer old)
          (Kept offer old)
  unfolding make_room
  make_room-Triple true priority =
      Triple-bind (Triple-wrapping "failed to shift priorities" (shift-Triple offer old 1))
        λ _. Triple-pure 1
  make_room-Triple false priority =
      Triple-bind (Triple-weaken (λ d h. h) (λ _ d h. h.1) (λ d h. h) (list-Triple offer old))
        λ codes.
          Triple-bind
            (Triple-pass (Kept offer old) (any_row (λ c. c.priority == priority) codes)
              (msg "USSD code with priority %d already exists"))
            λ _. Triple-pure priority

  pub add-Triple :
      (agent : ℕ) (req : AddUssdCodeRequest)
      → Triple (Kept offer old) (Codes.add_ussd_code {F = F} agent offer req) (λ _. Safe) Safe
  unfolding Codes.add_ussd_code Codes.add_own_code Repository.exists_by_offer_and_code
  add-Triple agent req = Triple-bind (safe' (own_offer-Triple offer old agent)) λ _.
      Triple-bind
        (safe' (
          Triple-wrapping "failed to check USSD code existence" (
            Triple-read (Kept offer old)
              (λ _ d. any_row (has_code offer req.ussd_code) d.ussd_codes))))
        λ exists.
          Triple-bind
            (safe'
              (Triple-pass (Kept offer old) exists (msg "USSD code already exists for this offer")))
            λ _.
              Triple-bind
                (safe' (make_room-Triple (req.priority == 0 || req.priority == 1) req.priority))
                λ priority. Triple-wrapping "failed to add USSD code" (create-Triple priority req)

  pub update-Triple :
      (agent k : ℕ) (req : UpdateUssdCodeRequest)
      → Triple
          (Kept offer old)
          (Codes.update_ussd_code {F = F} agent offer k req)
          (λ _. Kept offer old)
          (Kept offer old)
  unfolding Codes.update_ussd_code Codes.update_own_code Repository.update_ussd_code
      Repository.find_code
  update-Triple agent k req = Triple-bind (own_offer-Triple offer old agent) λ _.
      Triple-bind (own_code-Triple offer old k) λ c.
        Triple-bind (owned k (check_code-Reads (Owned k) offer c req.ussd_code)) λ _.
          Triple-bind (owned k (check_priority-Reads (Owned k) offer c k req.priority)) λ _.
            Triple-bind
              (Triple-wrapping "failed to update USSD code" (
                write_one-Triple offer old "failed to update USSD code" k
                  (Repository.updated_code (merged_code req c)) (λ t c. refl) (λ t c. refl)))
              λ _.
                Triple-find_any (Kept offer old) "failed to find USSD code"
                  (λ _ d. find_row (code_has_id k) d.ussd_codes)

  pub toggle-Triple :
      (agent k : ℕ) (is_active : Bool)
      → Triple
          (Kept offer old)
          (Codes.toggle_ussd_code_status {F = F} agent offer k is_active)
          (λ _. Kept offer old)
          (Kept offer old)
  unfolding Codes.toggle_ussd_code_status Codes.toggle_own_code Repository.toggle_active
  toggle-Triple agent k is_active = Triple-bind (own_offer-Triple offer old agent) λ _.
      Triple-bind (own_code-Triple offer old k) λ c.
        Triple-bind (owned k (check_not_last-Reads (Owned k) offer is_active k)) λ _.
          Triple-wrapping "failed to toggle status" (
            write_one-Triple offer old "failed to toggle active status" k
              (λ t c. record c { is_active = is_active; updated_at = t }) (λ t c. refl)
              (λ t c. refl))

  record_result-Triple :
      (b : Bool) (k : ℕ)
      → Triple (Owned k) (record_result {F = F} b k) (λ _. Kept offer old) (Kept offer old)
  unfolding record_result Repository.record_success Repository.record_failure
  record_result-Triple true k = Triple-wrapping "failed to record success" (
      write_one-Triple offer old "failed to record success" k Repository.succeeded (λ t c. refl)
        (λ t c. refl))
  record_result-Triple false k = Triple-wrapping "failed to record failure" (
      write_one-Triple offer old "failed to record failure" k Repository.failed (λ t c. refl)
        (λ t c. refl))

  pub record-Triple :
      (agent : ℕ) (req : RecordUssdResultRequest)
      → Triple
          (Kept offer old)
          (Codes.record_ussd_result {F = F} agent offer req)
          (λ _. Kept offer old)
          (Kept offer old)
  unfolding Codes.record_ussd_result Codes.record_own_result
  record-Triple agent req = Triple-bind (own_offer-Triple offer old agent) λ _.
      Triple-bind (own_code-Triple offer old req.ussd_code_id)
        λ c. record_result-Triple req.success req.ussd_code_id

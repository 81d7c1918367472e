-- ===== src/Offer/Deletion.antt =====
-- `DeleteUSSDCode` of offers.go, and the number of codes of the offer.
use bingwa.Prelude.{
  ℕ, ◌-◌, ◌≡◌, refl, sym, ◌∙◌, ap, Bool, true, false, not, ◌&&◌, ◌==◌, List, [], ◌∷◌, String,
  AtMostOne, Bool-cases, inl, inr, any_row, any_row-update_where, find_row, select, sort_by,
  length-sort_by, delete_where, ltb, length, arith,
}
use bingwa.Domain.Offer.{OfferUssdCode}
use bingwa.Store.{Env, IsComplete, World, Database, unauthorized, msg}
use bingwa.Store.Triples.{
  Ends, Triple, Triple-bind, Triple-wrapping, Triple-refuse_if, Triple-weaken, Triple-pure,
  Triple-affected, Triple-exec, Triple-query_rows, Triple-update,
}
use bingwa.Store.Reads.{Triple-pass, Triple-find_any, Triple-logged}
use bingwa.Offer.Repository
use bingwa.Offer.Repository.{code_has_id, of_offer, by_creation}
use bingwa.Offer.Codes
use bingwa.Offer.Codes.{for_each, own_code, list_codes, move_if, close_gap}
use bingwa.Offer.Checks.{own_offer-Reads}
use bingwa.Offer.Isolation.{UniqueIds}

module _ {A : Type 0} where
  select_none : (p : A → Bool) (xs : List A) → any_row p xs ≡ false → length (select p xs) ≡ 0
  select_none p [] h = refl
  select_none p (x ∷ xs) h = elim (Bool-cases (p x)) [
    | inl hit ↦ ground (arith, h)
    | inr miss ↦ rw miss (select_none p xs (ground arith))
  ]

  delete_where_none : (q : A → Bool) (xs : List A) → any_row q xs ≡ false → delete_where q xs ≡ xs
  delete_where_none q [] h = refl
  delete_where_none q (x ∷ xs) h = elim (Bool-cases (q x)) [
    | inl hit ↦ ground (arith, h)
    | inr miss ↦ rw miss (ap (◌∷◌ x) (delete_where_none q xs (ground arith)))
  ]

  -- Of several matching rows one is left when at most one row is deleted.
  any_row-delete_where_one :
      (p q : A → Bool) (xs : List A)
      → AtMostOne q xs
      → (length (select p xs) == 1) ≡ false
      → any_row p xs ≡ true
      → any_row p (delete_where q xs) ≡ true
  any_row-delete_where_one p q [] u many h = h
  any_row-delete_where_one p q (x ∷ xs) u many h = elim (Bool-cases (q x)) [
    | inl hit ↦
        rw (hit, delete_where_none q xs (u.0 hit))
          (elim (Bool-cases (any_row p xs)) [
            | inl other ↦ other
            | inr none_left ↦ ground (arith, h, many, none_left, select_none p xs none_left)
          ])
    | inr miss ↦ rw miss (elim (Bool-cases (p x)) [
      | inl here ↦ rw here refl
      | inr not_here ↦ ground (arith, h, many, any_row-delete_where_one p q xs u.1)
    ])
  ]

module _ {F : Type 0} ⦃env : Env⦄ (offer : ℕ) where
  -- The offer has a code.
  abbrev pub HasCode : Database F → Type 0
  HasCode d = any_row (of_offer offer) d.ussd_codes ≡ true

  -- It has, and no id stands twice.
  abbrev Full : Database F → Type 0
  Full d = HasCode d × UniqueIds d.ussd_codes

  move-Triple :
      (k priority : ℕ)
      → Triple HasCode (Repository.update_priority {F = F} k priority) (λ _. HasCode) HasCode
  unfolding Repository.update_priority Repository.write_code
  move-Triple k priority =
      Triple-update "failed to update priority"
        (λ t. Repository.update_code k (Repository.moved priority t)) (λ d h. h)
        (λ t d h.
          any_row-update_where (of_offer offer) (code_has_id k) (Repository.moved priority t)
            d.ussd_codes (λ c. refl)
          ∙ h)

  move_if-Triple :
      (b : Bool) (message : String) (k priority : ℕ)
      → Triple HasCode (move_if {F = F} b message k priority) (λ _. HasCode) HasCode
  unfolding move_if
  move_if-Triple true message k priority = Triple-wrapping message (move-Triple k priority)
  move_if-Triple false message k priority = Triple-pure tt

  gaps-Triple :
      (k priority : ℕ) (codes : List OfferUssdCode)
      → Triple HasCode (for_each codes (close_gap {F = F} k priority)) (λ _. HasCode) HasCode
  unfolding close_gap
  gaps-Triple k priority [] = Triple-pure tt
  gaps-Triple k priority (c ∷ cs) =
      Triple-bind
        (Triple-bind
          (Triple-logged
            (move_if-Triple (not (c.id == k) && ltb priority c.priority) "" c.id (c.priority - 1)))
          λ _. Triple-pure tt)
        λ _. gaps-Triple k priority cs

  list-Triple :
      IsComplete env
      → Triple Full
          (list_codes {F = F} offer)
          (λ codes d. (length (select (of_offer offer) d.ussd_codes) ≡ length codes) × Full d)
          Full
  unfolding list_codes Repository.list_by_offer_id
  list-Triple complete = Triple-wrapping "failed to list USSD codes" (
      Triple-wrapping "failed to list USSD codes" (
        Triple-weaken (λ d h. h)
          (λ codes d h. (
            rw (h.0.1, complete.unbroken h.0.0)
                (sym (length-sort_by by_creation (select (of_offer offer) d.ussd_codes))),
            h.1,
          ))
          (λ d h. h)
          (Triple-query_rows λ _ d. sort_by by_creation (select (of_offer offer) d.ussd_codes))))

  own_code-Triple : (k : ℕ) → Triple Full (own_code {F = F} offer k) (λ _. Full) Full
  unfolding own_code Repository.find_code
  own_code-Triple k =
      Triple-bind
        (Triple-find_any Full "failed to find USSD code"
          (λ _ d. find_row (code_has_id k) d.ussd_codes))
        λ c.
          Triple-bind (Triple-pass Full (not (c.offer_id == offer)) unauthorized) λ _. Triple-pure c

  removed-Triple :
      (k : ℕ) (codes : List OfferUssdCode)
      → Triple
          (λ d.
            ((length codes == 1) ≡ false)
            × ((length (select (of_offer offer) d.ussd_codes) ≡ length codes) × Full d))
          (Repository.delete_code {F = F} k)
          (λ _. HasCode)
          HasCode
  unfolding Repository.delete_code
  removed-Triple k codes = Triple-affected (
      Triple-wrapping "failed to delete USSD code" (
        Triple-weaken (λ d h. h) (λ _ d h. h) (λ d h. h.1.1.0)
          (Triple-exec {Q = HasCode}
            (λ d. (
              record d { ussd_codes = delete_where (code_has_id k) d.ussd_codes },
              any_row (code_has_id k) d.ussd_codes,
            ))
            (λ d h.
              any_row-delete_where_one (of_offer offer) (code_has_id k) d.ussd_codes (h.1.1.1 k)
                (rw h.1.0 h.0) h.1.1.0))))

  delete-Triple :
      (agent k : ℕ)
      → IsComplete env
      → Triple Full (Codes.delete_ussd_code {F = F} agent offer k) (λ _. HasCode) HasCode
  unfolding Codes.delete_ussd_code Codes.delete_own_code
  delete-Triple agent k complete =
      Triple-bind
        (Triple-weaken (λ d h. h) (λ _ d h. h) (λ d h. h.0) (own_offer-Reads Full offer agent))
        λ _.
          Triple-bind (Triple-weaken (λ d h. h) (λ _ d h. h) (λ d h. h.0) (own_code-Triple k)) λ c.
            Triple-bind (Triple-weaken (λ d h. h) (λ _ d h. h) (λ d h. h.0) (list-Triple complete))
              λ codes.
                Triple-bind
                  (Triple-weaken (λ d h. h) (λ _ d h. h) (λ d h. h.1.0)
                    (Triple-refuse_if (length codes == 1) (msg "cannot delete the last USSD code")))
                  λ _.
                    Triple-bind
                      (Triple-wrapping "failed to delete USSD code" (removed-Triple k codes))
                      λ _. gaps-Triple k c.priority codes

  -- Where no id of a code stands twice and no list that is read breaks off, an offer that has a code
  -- has one after `DeleteUSSDCode`, whether the call succeeds or fails.
  pub delete_ussd_code-HasCode :
      (agent k : ℕ) (w : World F)
      → IsComplete env
      → UniqueIds w.db.ussd_codes
      → HasCode w.db
      → Ends (λ _. HasCode) HasCode (Codes.delete_ussd_code agent offer k w)
  delete_ussd_code-HasCode agent k w complete unique has =
      (delete-Triple agent k complete).apply w (has, unique)

-- ===== src/Offer/Moves.antt =====
-- `SetUSSDCodeAsPrimary` and `DeleteUSSDCode` of offers.go, and the codes of other offers.
use bingwa.Prelude.{
  ℕ, ◌+◌, ◌-◌, ◌≡◌, refl, ◌∙◌, Bool, true, false, not, ◌&&◌, ◌==◌, List, All-sort_by, All-weaken,
  All-delete_where, AtMostOne-delete_where, any_row, sort_by, delete_where, ltb, leb, length,
}
use bingwa.Domain.Offer.{OfferUssdCode}
use bingwa.Store.{Env, Database, msg}
use bingwa.Store.Triples.{
  Triple, Triple-bind, Triple-wrapping, Triple-weaken, Triple-pure, Triple-affected, Triple-exec,
}
use bingwa.Store.Reads.{Triple-pass, Triple-logged}
use bingwa.Offer.Repository
use bingwa.Offer.Repository.{code_has_id}
use bingwa.Offer.Codes
use bingwa.Offer.Codes.{for_each, move_if, move_to_front, or_missing, check_belongs, close_gap}
use bingwa.Offer.Isolation.{Owns, others-delete_where}
use bingwa.Offer.Ownership.{
  Kept, OwnsId, OwnsAll, for_each-Triple, own_offer-Triple, own_code-Triple, list_with-Triple,
  OwnsId-Stable, OwnsAll-Stable, move_if-Triple, move-Triple,
}

-- The test of the loop of `SetUSSDCodeAsPrimary`
abbrev in_front : OfferUssdCode → ℕ → OfferUssdCode → Bool
in_front c k x = not (x.id == k) && leb 1 x.priority && ltb x.priority c.priority

module _ {F : Type 0} ⦃env : Env⦄ (offer : ℕ) (old : List OfferUssdCode) where
  -- The code `k` belongs to the offer.
  abbrev Owned : ℕ → Database F → Type 0
  Owned k d = OwnsId offer old k d × Kept offer old d

  -- So do the codes that a loop has before it.
  abbrev Rest : List OfferUssdCode → Database F → Type 0
  Rest = OwnsAll offer old (λ y. y.id)

  front-loop-Triple :
      (c : OfferUssdCode) (k : ℕ) (codes : List OfferUssdCode)
      → Triple
          (λ d. Rest codes d × Owned k d)
          (for_each codes
            λ x. move_if {F = F} (in_front c k x) "failed to update priority" x.id (x.priority + 1))
          (λ _. Owned k)
          (Owned k)
  front-loop-Triple c k codes =
      for_each-Triple (Owned k) (λ y d. OwnsId offer old y.id d)
        (λ x. move_if (in_front c k x) "failed to update priority" x.id (x.priority + 1))
        (λ x ys.
          Triple-weaken (λ d h. (h.0, (h.1, h.2.0), h.2.1)) (λ _ d h. (h.0.0, (h.0.1, h.1)))
            (λ d h. (h.0.1, h.1))
            (move_if-Triple offer old (λ d. Rest ys d × OwnsId offer old k d) (in_front c k x)
              "failed to update priority" x.id (x.priority + 1)
              (λ j t d h. (
                OwnsAll-Stable offer old (λ y. y.id) ys (x.priority + 1) j t d h.0,
                OwnsId-Stable offer old k (Repository.moved (x.priority + 1)) (λ t c. refl)
                    (λ t c. refl) j t d h.1,
              ))))
        codes

  front-Triple :
      (b : Bool) (c : OfferUssdCode) (k : ℕ)
      → Triple (Owned k) (move_to_front {F = F} b offer c k) (λ _. Kept offer old) (Kept offer old)
  unfolding move_to_front
  front-Triple true c k = record { apply = λ w h. h.1 }
  front-Triple false c k =
      Triple-bind
        (Triple-weaken (λ d h. h) (λ _ d h. h) (λ d h. h.1)
          (list_with-Triple offer old (OwnsId offer old k)))
        λ codes.
          Triple-bind
            (Triple-weaken
              (λ d h. (
                All-sort_by (λ y. OwnsId offer old y.id d) (λ a b. ltb a.priority b.priority) codes
                    h.0,
                (h.1, h.2),
              ))
              (λ _ d h. h) (λ d h. h.1)
              (front-loop-Triple c k (sort_by (λ a b. ltb a.priority b.priority) codes)))
            λ _. Triple-wrapping "failed to set as primary" (
              Triple-weaken (λ d h. (h.0, tt, h.1)) (λ _ d h. h.1) (λ d h. h.1)
                (move-Triple offer old (λ d. Unit {0}) k 1 (λ j t d h. tt)))

  pub primary-Triple :
      (agent k : ℕ)
      → Triple
          (Kept offer old)
          (Codes.set_ussd_code_as_primary {F = F} agent offer k)
          (λ _. Kept offer old)
          (Kept offer old)
  unfolding Codes.set_ussd_code_as_primary Codes.make_own_code_primary
  primary-Triple agent k =
      Triple-bind (own_offer-Triple offer old agent)
        λ _. Triple-bind (own_code-Triple offer old k) λ c. front-Triple (c.priority == 1) c k

  -- A priority that is adjusted after a deletion.
  close_gap-Triple :
      (k priority : ℕ) (c : OfferUssdCode) (ys : List OfferUssdCode)
      → Triple
          (λ d. OwnsId offer old c.id d × Rest ys d × Kept offer old d)
          (close_gap {F = F} k priority c)
          (λ _ d. Rest ys d × Kept offer old d)
          (Kept offer old)
  unfolding close_gap
  close_gap-Triple k priority c ys =
      Triple-bind
        (Triple-logged (
          move_if-Triple offer old (Rest ys) (not (c.id == k) && ltb priority c.priority) "" c.id
            (c.priority - 1) (OwnsAll-Stable offer old (λ y. y.id) ys (c.priority - 1))))
        λ _. Triple-pure tt

  removed-Triple :
      (k : ℕ) (codes : List OfferUssdCode)
      → Triple
          (λ d. Rest codes d × OwnsId offer old k d × Kept offer old d)
          (Repository.delete_code {F = F} k)
          (λ _ d. Rest codes d × Kept offer old d)
          (Kept offer old)
  unfolding Repository.delete_code
  removed-Triple k codes =
      Triple-weaken (λ d h. h) (λ _ d h. h) (λ d h. h.1)
        (Triple-affected (
          Triple-wrapping "failed to delete USSD code" (
            Triple-weaken (λ d h. h) (λ _ d h. h) (λ d h. (h.0, h.2))
              (Triple-exec {Q = λ d. Rest codes d × Kept offer old d}
                (λ d. (
                  record d { ussd_codes = delete_where (code_has_id k) d.ussd_codes },
                  any_row (code_has_id k) d.ussd_codes,
                ))
                (λ d h. (
                  All-weaken (λ y. Owns offer y.id d.ussd_codes)
                      (λ y. Owns offer y.id (delete_where (code_has_id k) d.ussd_codes)) codes
                      (λ y mine.
                        All-delete_where
                          (λ c. ((c.id == y.id) ≡ true) → (c.offer_id == offer) ≡ true)
                          (code_has_id k) d.ussd_codes mine)
                      h.0,
                  (
                    others-delete_where offer k d.ussd_codes h.1 ∙ h.2.0,
                    λ j.
                        AtMostOne-delete_where (code_has_id j) (code_has_id k) d.ussd_codes
                          (h.2.1 j),
                  ),
                ))))))

  pub delete-Triple :
      (agent k : ℕ)
      → Triple
          (Kept offer old)
          (Codes.delete_ussd_code {F = F} agent offer k)
          (λ _. Kept offer old)
          (Kept offer old)
  unfolding Codes.delete_ussd_code Codes.delete_own_code
  delete-Triple agent k = Triple-bind (own_offer-Triple offer old agent) λ _.
      Triple-bind (own_code-Triple offer old k) λ c.
        Triple-bind
          (Triple-weaken (λ d h. h) (λ _ d h. h) (λ d h. h.1)
            (list_with-Triple offer old (OwnsId offer old k)))
          λ codes.
            Triple-bind
              (Triple-weaken (λ d h. h) (λ _ d h. h) (λ d h. h.2)
                (Triple-pass (λ d. Rest codes d × OwnsId offer old k d × Kept offer old d)
                  (length codes == 1) (msg "cannot delete the last USSD code")))
              λ _.
                Triple-bind (Triple-wrapping "failed to delete USSD code" (removed-Triple k codes))
                  λ _.
                    for_each-Triple (Kept offer old) (λ c d. OwnsId offer old c.id d)
                      (close_gap k c.priority) (λ x ys. close_gap-Triple k c.priority x ys) codes

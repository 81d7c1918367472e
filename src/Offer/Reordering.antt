-- ===== src/Offer/Reordering.antt =====
-- `ReorderUSSDCodes` of offers.go, and the codes of other offers.
use bingwa.Prelude.{ℕ, ◌≡◌, not, ◌==◌, some, List, [], ◌∷◌, find_row, arith}
use bingwa.Domain.Offer.{OfferUssdCode, CodePriority}
use bingwa.Store.{Env, Database, wrapping, msg, Result, ok, err}
use bingwa.Store.Triples.{
  Triple, Triple-bind, Triple-wrapping, Triple-refuse_if, Triple-weaken, Triple-find_one,
}
use bingwa.Store.Reads.{Triple-pass, Triple-outcome, Either}
use bingwa.Offer.Repository
use bingwa.Offer.Repository.{code_has_id}
use bingwa.Offer.Entities.{has_duplicate}
use bingwa.Offer.Codes
use bingwa.Offer.Codes.{for_each, move_if, move_to_front, or_missing, check_belongs, close_gap}
use bingwa.Offer.Isolation.{Owns-found}
use bingwa.Offer.Ownership.{
  Kept, OwnsId, OwnsAll, for_each-Triple, own_offer-Triple, OwnsAll-Stable, move-Triple,
}

module _ {F : Type 0} ⦃env : Env⦄ (offer : ℕ) (old : List OfferUssdCode) where
  or_missing-Triple :
      (R : Database F → Type 0) (k : ℕ) (r : Result OfferUssdCode)
      → Triple
          (Either
            (λ c d.
              ((t : ℕ) × (find_row (code_has_id k) d.ussd_codes ≡ some c))
              × (R d × Kept offer old d))
            (λ d. R d × Kept offer old d)
            r)
          (or_missing r)
          (λ c d. (find_row (code_has_id k) d.ussd_codes ≡ some c) × (R d × Kept offer old d))
          (Kept offer old)
  or_missing-Triple R k (ok c) = record { apply = λ w h. (h.0.1, h.1) }
  or_missing-Triple R k (err e) = record { apply = λ w h. h.1 }

  -- The check of `ReorderUSSDCodes` finds that a code of the request belongs to the offer.
  belongs-Triple :
      (R : Database F → Type 0) (entry : CodePriority)
      → Triple
          (λ d. R d × Kept offer old d)
          (check_belongs offer entry)
          (λ _ d. OwnsId offer old entry.id d × R d × Kept offer old d)
          (Kept offer old)
  unfolding check_belongs Repository.find_code
  belongs-Triple R entry =
      Triple-bind
        (Triple-outcome (
          Triple-find_one "failed to find USSD code"
            (λ _ d. find_row (code_has_id entry.id) d.ussd_codes)))
        λ r. Triple-bind (or_missing-Triple R entry.id r) λ c.
          Triple-weaken (λ d h. h)
            (λ _ d h. (
              Owns-found offer entry.id d.ussd_codes c (h.1.1.1.1 entry.id) h.1.0
                  (ground (arith, h.0)),
              h.1.1.0,
              h.1.1.1,
            ))
            (λ d h. h.1.1)
            (Triple-refuse_if (not (c.offer_id == offer))
              (msg "USSD code %d does not belong to offer %d"))

  all_belong-Triple :
      (R : Database F → Type 0) (entries : List CodePriority)
      → Triple
          (λ d. R d × Kept offer old d)
          (for_each entries (check_belongs offer))
          (λ _ d. OwnsAll offer old (λ y. y.id) entries d × R d × Kept offer old d)
          (Kept offer old)
  all_belong-Triple R [] = record { apply = λ w h. (tt, h.0, h.1) }
  all_belong-Triple R (e ∷ es) = Triple-bind (belongs-Triple R e) λ _.
      Triple-weaken (λ d h. ((h.0, h.1), h.2)) (λ _ d h. ((h.1.0, h.0), h.1.1, h.2)) (λ d h. h)
        (all_belong-Triple (λ d. OwnsId offer old e.id d × R d) es)

  pub reorder-Triple :
      (agent : ℕ) (entries : List CodePriority)
      → Triple
          (Kept offer old)
          (Codes.reorder_ussd_codes {F = F} agent offer entries)
          (λ _. Kept offer old)
          (Kept offer old)
  unfolding Codes.reorder_ussd_codes Codes.reorder_own_codes
  reorder-Triple agent entries = Triple-bind (own_offer-Triple offer old agent) λ _.
      Triple-bind
        (Triple-pass (Kept offer old) (has_duplicate entries)
          (msg "duplicate priority %d in request"))
        λ _.
          Triple-bind
            (Triple-weaken (λ d h. (tt, h)) (λ _ d h. (h.0, h.2)) (λ d h. h)
              (all_belong-Triple (λ d. Unit {0}) entries))
            λ _.
              for_each-Triple (Kept offer old) (λ e d. OwnsId offer old e.id d)
                (λ e.
                  wrapping "failed to update priority for code %d"
                    (Repository.update_priority e.id e.priority))
                (λ e es. Triple-wrapping "failed to update priority for code %d" (
                  Triple-weaken (λ d h. h) (λ _ d h. h) (λ d h. h.1)
                    (move-Triple offer old (OwnsAll offer old (λ y. y.id) es) e.id e.priority
                      (OwnsAll-Stable offer old (λ y. y.id) es e.priority))))
                entries

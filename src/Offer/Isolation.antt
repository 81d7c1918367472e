-- ===== src/Offer/Isolation.antt =====
-- The USSD codes of one offer and those of the others, in the table of codes.
use bingwa.Prelude.{
  ℕ, ◌≡◌, refl, true, false, not, ◌==◌, some, List, [], ◌∷◌, ◌++◌, All, All-weaken, All-both,
  All-update_where, AtMostOne, any_row, find_row, select, update_where, delete_where, Bool-cases,
  inl, inr, arith,
}
use bingwa.Domain.Offer.{OfferUssdCode}
use bingwa.Offer.Repository.{code_has_id}

-- The codes of the other offers.
abbrev pub others : ℕ → List OfferUssdCode → List OfferUssdCode
others offer = select λ c. not (c.offer_id == offer)

-- Every code with the id `k` belongs to the offer.
abbrev pub Owns : ℕ → ℕ → List OfferUssdCode → Type 0
Owns offer k = All λ c. ((c.id == k) ≡ true) → (c.offer_id == offer) ≡ true

-- `id` is the primary key.
abbrev pub UniqueIds : List OfferUssdCode → Type 0
UniqueIds codes = (k : ℕ) → AtMostOne (code_has_id k) codes

-- An update that keeps the offer, of codes that belong to it, keeps the others.
pub others-update_where :
    (offer k : ℕ) (f : OfferUssdCode → OfferUssdCode) (codes : List OfferUssdCode)
    → ((c : OfferUssdCode) → (f c).offer_id ≡ c.offer_id)
    → Owns offer k codes
    → others offer (update_where (code_has_id k) f codes) ≡ others offer codes
others-update_where offer k f [] keep h = refl
others-update_where offer k f (c ∷ cs) keep h = elim (Bool-cases (c.id == k)) [
  | inl hit ↦ ground (arith, others-update_where offer k f cs keep h.1, h.0 hit, keep c)
  | inr miss ↦ ground (arith, others-update_where offer k f cs keep h.1)
]

pub others-delete_where :
    (offer k : ℕ) (codes : List OfferUssdCode)
    → Owns offer k codes
    → others offer (delete_where (code_has_id k) codes) ≡ others offer codes
others-delete_where offer k [] h = refl
others-delete_where offer k (c ∷ cs) h = elim (Bool-cases (c.id == k)) [
  | inl hit ↦ ground (arith, others-delete_where offer k cs h.1, h.0 hit)
  | inr miss ↦ ground (arith, others-delete_where offer k cs h.1)
]

pub others-append_one :
    (offer : ℕ) (codes : List OfferUssdCode) (c : OfferUssdCode)
    → (c.offer_id == offer) ≡ true
    → others offer (codes ++ c ∷ []) ≡ others offer codes
others-append_one offer [] c h = ground arith
others-append_one offer (x ∷ xs) c h = ground (arith, others-append_one offer xs c h)

-- A code that is found by its id belongs to the offer, and so does every row with the id.
Owns-none :
    (offer k : ℕ) (codes : List OfferUssdCode)
    → any_row (code_has_id k) codes ≡ false
    → Owns offer k codes
Owns-none offer k [] h = tt
Owns-none offer k (c ∷ cs) h = ((λ e. ground arith), Owns-none offer k cs (ground arith))

pub Owns-found :
    (offer k : ℕ) (codes : List OfferUssdCode) (c : OfferUssdCode)
    → AtMostOne (code_has_id k) codes
    → find_row (code_has_id k) codes ≡ some c
    → (c.offer_id == offer) ≡ true
    → Owns offer k codes
Owns-found offer k [] c u e h = tt
Owns-found offer k (x ∷ xs) c u e h = elim (Bool-cases (x.id == k)) [
  | inl hit ↦ ((λ _. ground arith), Owns-none offer k xs (u.0 hit))
  | inr miss ↦ ((λ e'. ground arith), Owns-found offer k xs c u.1 (ground arith) h)
]

any_row_self :
    (codes : List OfferUssdCode) → All (λ c. any_row (code_has_id c.id) codes ≡ true) codes
any_row_self [] = tt
any_row_self (x ∷ xs) = (
  ground arith,
  All-weaken (λ c. any_row (code_has_id c.id) xs ≡ true)
      (λ c. any_row (code_has_id c.id) (x ∷ xs) ≡ true) xs (λ c h. ground (arith, h))
      (any_row_self xs),
)

-- The rows with the id of a row of the offer belong to the offer.
pub Owns-rows :
    (offer : ℕ) (codes : List OfferUssdCode)
    → UniqueIds codes
    → All (λ c. ((c.offer_id == offer) ≡ true) → Owns offer c.id codes) codes
Owns-rows offer [] u = tt
Owns-rows offer (x ∷ xs) u = (
  λ h. ((λ _. h), Owns-none offer x.id xs ((u x.id).0 (ground arith))),
  All-weaken
      (λ c.
        (any_row (code_has_id c.id) xs ≡ true)
        × (((c.offer_id == offer) ≡ true) → Owns offer c.id xs))
      (λ c. ((c.offer_id == offer) ≡ true) → Owns offer c.id (x ∷ xs)) xs
      (λ c h mine. ((λ same. ground (arith, (u x.id).0, h.0)), h.1 mine))
      (All-both (λ c. any_row (code_has_id c.id) xs ≡ true)
        (λ c. ((c.offer_id == offer) ≡ true) → Owns offer c.id xs) xs (any_row_self xs)
        (Owns-rows offer xs (λ k. (u k).1))),
)

-- An update that keeps ids and offers keeps what belongs to the offer.
pub Owns-update_where :
    (offer j k : ℕ) (f : OfferUssdCode → OfferUssdCode) (codes : List OfferUssdCode)
    → ((c : OfferUssdCode) → (f c).id ≡ c.id)
    → ((c : OfferUssdCode) → (f c).offer_id ≡ c.offer_id)
    → Owns offer j codes
    → Owns offer j (update_where (code_has_id k) f codes)
Owns-update_where offer j k f codes same_id same_offer h =
    All-update_where (λ c. ((c.id == j) ≡ true) → (c.offer_id == offer) ≡ true) (code_has_id k) f
      codes (λ c hit mine. rw (same_id c, same_offer c) mine) h

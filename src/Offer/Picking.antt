-- ===== src/Offer/Picking.antt =====
-- The choice among the active codes of an offer in ussd_code_gen.go.
use bingwa.Prelude.{
  ℕ, ◌+◌, ◌≤◌, ◌≡◌, refl, ap, subst, ◌⊎◌, inl, inr, true, false, some, List, [], ◌∷◌, length,
  select, sort_by, insert_by, length-sort_by, All, All-weaken, All-sort_by, All-select, arith,
  Bool-cases, Contains, All-Contains,
}
use bingwa.Domain.Offer.{OfferUssdCode, UssdCodeExecutionInfo}
use bingwa.Offer.Repository.{first_row, by_success, is_active_code}

-- The first code of the sorted list has the least priority.
module _ (y : OfferUssdCode) (ys : List OfferUssdCode) where
  abbrev Least : OfferUssdCode → List OfferUssdCode → Type 0
  Least c = All λ x. c.priority ≤ x.priority

  inserted-Least :
      (s : List OfferUssdCode)
      → length s ≡ length ys
      → ((c : OfferUssdCode) → first_row s ≡ some c → Least c ys)
      → (c : OfferUssdCode) → first_row (insert_by by_success y s) ≡ some c
      → Least c (y ∷ ys)
  inserted-Least [] e h c f = (ground arith, empty ys (ground arith))
    where
      empty : (l : List OfferUssdCode) → length l ≡ 0 → Least c l
      empty [] k = tt
      empty (x ∷ xs) k = absurd (omega arith)
  inserted-Least (x ∷ xs) e h c f = elim (Bool-cases (by_success x y)) [
    | inl before ↦
        let same : x ≡ c = ground arith in
        (ground (arith, same), subst (λ z. Least z ys) same (h x refl))
    | inr after ↦
        let same : y ≡ c = ground arith in
        (
          ground (arith, same),
          All-weaken (λ z. x.priority ≤ z.priority) (λ z. c.priority ≤ z.priority) ys
              (λ z l. ground (arith, same, l)) (h x refl),
        )
  ]

least_first :
    (xs : List OfferUssdCode) (c : OfferUssdCode)
    → first_row (sort_by by_success xs) ≡ some c
    → All (λ x. c.priority ≤ x.priority) xs
least_first [] c h = tt
least_first (y ∷ ys) c h =
    inserted-Least y ys (sort_by by_success ys) (length-sort_by by_success ys) (least_first ys) c h

-- The code that is picked is one of the offer's active codes, none of them with a lower priority,
-- and all the others are there to fall back on.
pub record IsPrimary (offer : ℕ) (codes : List OfferUssdCode) (info : UssdCodeExecutionInfo)
    : Type 0 where
  pub code : OfferUssdCode
  pub in_table : Contains code codes
  pub active : is_active_code offer code ≡ true
  pub least : All (λ x. is_active_code offer x ≡ true → code.priority ≤ x.priority) codes
  pub same_id : info.ussd_code_id ≡ code.id
  pub same_priority : info.priority ≡ code.priority
  pub proper : info.is_fallback ≡ false
  pub others : length info.fallback_codes + 1 ≡ length (select (is_active_code offer) codes)

-- The offer has no active code, and its own template is used.
pub record IsFallback (offer : ℕ) (codes : List OfferUssdCode) (info : UssdCodeExecutionInfo)
    : Type 0 where
  pub no_active : All (λ x. is_active_code offer x ≡ true → ⊥) codes
  pub marked : info.is_fallback ≡ true

abbrev pub IsPick : ℕ → List OfferUssdCode → UssdCodeExecutionInfo → Type 0
IsPick offer codes info = IsPrimary offer codes info ⊎ IsFallback offer codes info

module _ (offer : ℕ) (codes : List OfferUssdCode) where
  abbrev pub ranked : List OfferUssdCode
  ranked = sort_by by_success (select (is_active_code offer) codes)

  All-of_select :
      (P : OfferUssdCode → Type 0) (xs : List OfferUssdCode)
      → All P (select (is_active_code offer) xs)
      → All (λ x. is_active_code offer x ≡ true → P x) xs
  All-of_select P [] h = tt
  All-of_select P (x ∷ xs) h = elim (Bool-cases (is_active_code offer x)) [
    | inl hit ↦
        let k : P x × All P (select (is_active_code offer) xs) = rw hit at h in
        (λ _. k.0, All-of_select P xs k.1)
    | inr miss ↦
        let k : All P (select (is_active_code offer) xs) = rw miss at h in
        (λ e. ground arith, All-of_select P xs k)
  ]

  pub none_active : ranked ≡ [] → All (λ x. is_active_code offer x ≡ true → ⊥) codes
  none_active e =
      All-of_select (λ _. ⊥) codes
        (no_rows (select (is_active_code offer) codes) (
          subst (λ l. length l ≡ length (select (is_active_code offer) codes)) e
            (length-sort_by by_success (select (is_active_code offer) codes))))
    where
      no_rows : (l : List OfferUssdCode) → length {A = OfferUssdCode} [] ≡ length l → All (λ _. ⊥) l
      no_rows [] k = tt
      no_rows (x ∷ xs) k = absurd (omega arith)

  pub picked :
      (c : OfferUssdCode) (cs : List OfferUssdCode) (info : UssdCodeExecutionInfo)
      → ranked ≡ c ∷ cs
      → info.ussd_code_id ≡ c.id
      → info.priority ≡ c.priority
      → info.is_fallback ≡ false
      → length info.fallback_codes ≡ length cs
      → IsPrimary offer codes info
  picked c cs info e same_id same_priority proper size =
      let P : OfferUssdCode → Type 0 = λ x. (is_active_code offer x ≡ true) × Contains x codes in
      let all : All P ranked =
        All-sort_by P by_success (select (is_active_code offer) codes)
          (All-select (λ x. Contains x codes) (is_active_code offer) codes (All-Contains codes)) in
      let here : All P (c ∷ cs) = subst (All P) e all in
      let first : first_row ranked ≡ some c = ap first_row e in
      record {
        code = c;
        in_table = here.0.1;
        active = here.0.0;
        least =
            All-of_select (λ x. c.priority ≤ x.priority) codes
              (least_first (select (is_active_code offer) codes) c first);
        same_id = same_id;
        same_priority = same_priority;
        proper = proper;
        others = omega (
          arith,
          size,
          ap length e,
          length-sort_by by_success (select (is_active_code offer) codes),
        );
      }

-- ===== src/Offer/Creation.antt =====
-- `CreateOffer` of internal/service/offer/offers.go: what it stores.
use bingwa.Prelude.{
  ℕ, zero, suc, ◌+◌, ◌<◌, ◌≤◌, length, ◌≡◌, refl, sym, subst, ◌⊎◌, inl, inr, Bool, true, false,
  none, some, [], ◌∷◌, ◌++◌, Text, any_row, arith, Bool-cases, if◌then◌else◌,
}
use bingwa.Float64.{Float64}
use bingwa.Domain.Offer.{AgentOffer, OfferUssdCode, OfferStatus, CreateOfferRequest}
use bingwa.Store.{Env, Database, World, M, wrapping, tx_try_insert}
use bingwa.Store.Triples.{
  Ends, Triple, Triple-bind, Triple-wrapping, Triple-weaken, Triple-assume, Triple-query,
  Triple-return,
}
use bingwa.Store.Reads.{Triple-refuse}
use bingwa.Store.Bodies.{Inside, Inside-bind, Inside-wrapping, Inside-return}
use bingwa.Store.Staged.{Staged, Inside-staged_insert, Triple-staged}
use bingwa.Offer.Repository.{inserted_code, created_code, with_code, has_code}
use bingwa.Offer.Lookup.{IsOffer, find_offer-Triple}
use bingwa.Offer.Table
use bingwa.Offer.Table.{
  inserted_offer, created_offer, with_offer, initial_code, has_offer_code, has_live_code,
}
use bingwa.Offer.Terms.{
  is_combination, units_refusal, template_refusal, offer_code_at, begins_with, ends_with,
}
use bingwa.Offer.Management
use bingwa.Offer.Management.{new_offer}

module _ {F : Type 0} ⦃fl : Float64 F⦄ (agent : ℕ) (req : CreateOfferRequest F)
    (old : Database F) where
  -- One offer and one code are the only new rows: the offer is active and the agent's, its code one of
  -- five candidates and not used before, and the code has the template and the first priority.
  pub record IsCreated (d : Database F) : Type 0 where
    pub offer : AgentOffer F
    pub code : OfferUssdCode
    pub offers : d.offers ≡ old.offers ++ offer ∷ []
    pub codes : d.ussd_codes ≡ old.ussd_codes ++ code ∷ []
    pub owner : offer.agent_identity_id ≡ agent
    pub starts_active : offer.status ≡ OfferStatus.active
    pub attempt : ℕ
    pub among_five : attempt < 5
    pub named : offer.offer_code ≡ offer_code_at agent req attempt
    pub unused : any_row (has_offer_code offer.offer_code) old.offers ≡ false
    pub linked : code.offer_id ≡ offer.id
    pub first : (code.priority ≡ 1) × (code.is_active ≡ true)
    pub template : code.ussd_code ≡ req.ussd_code_template

module _ {F : Type 0} (req : CreateOfferRequest F) where
  -- What the validation lets pass.
  abbrev pub IsValid : Type 0
  IsValid =
      (is_combination req.offer_type req.units ≡ true)
      × (begins_with b'*' req.ussd_code_template ≡ true)
      × (ends_with b'#' req.ussd_code_template ≡ true)
      × (3 ≤ length req.ussd_code_template)

module _ {F : Type 0} where
  offer_row :
      (o a : AgentOffer F) (t : ℕ) (x p : Database F)
      → inserted_offer o t x ≡ some (p, a)
      → (any_row (has_offer_code o.offer_code) x.offers ≡ false)
        × (p ≡ with_offer (created_offer o x.next_id t) x)
        × (a ≡ created_offer o x.next_id t)
  offer_row o a t x p e = elim (Bool-cases (any_row (has_offer_code o.offer_code) x.offers)) [
    | inl taken ↦ ground arith
    | inr free ↦ (free, ground arith, ground arith)
  ]

  code_row :
      (c a : OfferUssdCode) (t : ℕ) (x p : Database F)
      → inserted_code c t x ≡ some (p, a)
      → p ≡ with_code (created_code c x.next_id t) x
  code_row c a t x p e =
      elim (Bool-cases (any_row (has_code c.offer_id c.ussd_code) x.ussd_codes)) [
        | inl taken ↦ ground arith
        | inr free ↦ ground arith
      ]

module _ {F : Type 0} ⦃fl : Float64 F⦄ ⦃env : Env⦄ (agent : ℕ) (req : CreateOfferRequest F)
    (old : Database F) where
  abbrev Same : Database F → Type 0
  Same d = d ≡ old

  abbrev IsCandidate : ℕ → Text → Type 0
  IsCandidate bound code = (i : ℕ) × (i < bound) × (code ≡ offer_code_at agent req i)

  code-Triple :
      (left i : ℕ)
      → Triple Same
          (Management.offer_code_from left i agent req)
          (λ code d. IsCandidate (i + left) code × Same d)
          Same
  unfolding Management.offer_code_from Table.exists_by_offer_code
  code-Triple zero i = record { apply = λ w h. h }
  code-Triple (suc left) i =
      Triple-bind
        (Triple-wrapping "failed to check offer code" (
          Triple-weaken (λ d h. h) (λ b d h. h.1) (λ d h. h)
            (Triple-query λ _ d. any_row (has_live_code (offer_code_at agent req i)) d.offers)))
        (chosen (Triple-weaken (λ d h. h) further (λ d h. h) (code-Triple left (i + 1)))
          (Triple-return (offer_code_at agent req i) λ d h. ((i, omega arith, refl), h)))
    where
      further :
          (code : Text) (d : Database F)
          → IsCandidate (i + 1 + left) code × Same d
          → IsCandidate (i + suc left) code × Same d
      further code d ((j, below, e), h) = ((j, omega (arith, below), e), h)

      chosen :
          {m k : M F Text} {Q : Text → Database F → Type 0}
          → Triple Same m Q Same
          → Triple Same k Q Same
          → (b : Bool) → Triple Same (if b then m else k) Q Same
      chosen x y true = x
      chosen x y false = y

  -- The offer is staged with the answer as its row.
  record IsOffered (code : Text) (a : AgentOffer F) (d : Database F) : Type 0 where
    offers : d.offers ≡ old.offers ++ a ∷ []
    codes : d.ussd_codes ≡ old.ussd_codes
    fits : (a.agent_identity_id ≡ agent) × (a.status ≡ OfferStatus.active)
    named : a.offer_code ≡ code
    template : a.ussd_code_template ≡ req.ussd_code_template
    unused : any_row (has_offer_code a.offer_code) old.offers ≡ false

  offer-Inside :
      (code : Text)
      → Inside
          (Staged Same Same)
          (wrapping "failed to create offer"
            (tx_try_insert (inserted_offer (new_offer agent code req))))
          (λ a. Staged Same (IsOffered code a))
          Same
  unfolding new_offer
  offer-Inside code = Inside-wrapping "failed to create offer" (
      Inside-staged_insert {X = Same} {Y = IsOffered code}
        (inserted_offer (new_offer agent code req))
        λ t x p a e same.
          let (free, is_db, is_row) = offer_row (new_offer agent code req) a t x p e in
          rw (is_db, is_row)
            (record {
              offers = rw same refl;
              codes = rw same refl;
              fits = (refl, refl);
              named = refl;
              template = refl;
              unused = subst (λ y. any_row (has_offer_code code) y.offers ≡ false) same free;
            }))

  -- The answer is the offer that is created.
  abbrev pub Made : AgentOffer F → Database F → Type 0
  Made a d = (c : IsCreated agent req old d) × (c.offer ≡ a)

  create-Inside :
      (code : Text)
      → IsCandidate 5 code
      → Inside
          (Staged Same Same)
          (Table.insert_offer (new_offer agent code req))
          (λ a. Staged Same (Made a))
          Same
  unfolding Table.insert_offer
  create-Inside code (i, below, named) = Inside-bind (offer-Inside code) λ a.
      Inside-bind
        (Inside-wrapping "failed to create USSD code" (
          Inside-wrapping "failed to create USSD code" (
            Inside-staged_insert {X = IsOffered code a} {Y = λ _. Made a}
              (inserted_code (initial_code a))
              λ t x p b e h.
                let is_db : p ≡ with_code (created_code (initial_code a) x.next_id t) x =
                  code_row (initial_code a) b t x p e in
                (
                  record {
                    offer = a;
                    code = created_code (initial_code a) x.next_id t;
                    offers = rw is_db h.offers;
                    codes = rw is_db (rw h.codes refl);
                    owner = h.fits.0;
                    starts_active = h.fits.1;
                    attempt = i;
                    among_five = below;
                    named = rw h.named named;
                    unused = h.unused;
                    linked = refl;
                    first = (refl, refl);
                    template = h.template;
                  },
                  refl,
                ))))
        λ _. Inside-return a λ d u h. h

  create-Triple :
      Triple Same
        (Management.create_offer agent req)
        (λ o d. IsValid req × ((c : IsCreated agent req old d) × IsOffer c.offer.id o d))
        (λ d. (d ≡ old) ⊎ IsCreated agent req old d)
  unfolding Management.create_offer Management.generate_offer_code Table.create units_refusal
      template_refusal
  create-Triple =
      Triple-bind (kept (Triple-refuse Same (units_refusal req.offer_type req.units))) λ _.
        Triple-assume λ fits.
          Triple-bind (kept (Triple-refuse Same (template_refusal req.ussd_code_template))) λ _.
            Triple-assume λ formed.
              Triple-bind (kept (Triple-wrapping "failed to generate offer code" (code-Triple 5 0)))
                λ code. Triple-assume λ candidate.
                  Triple-bind
                    (kept (
                      Triple-wrapping "failed to create offer"
                        (Triple-staged (create-Inside code candidate))))
                    λ a.
                      Triple-weaken (λ d h. h) (λ o d h. (valid fits formed, found a o d h))
                        (λ d h. inr h.0) (find_offer-Triple (Made a) a.id)
    where
      valid :
          units_refusal req.offer_type req.units ≡ none
          → template_refusal req.ussd_code_template ≡ none
          → IsValid req
      valid fits formed = (
        ground (arith, fits),
        ground (arith, formed),
        ground (arith, formed),
        ground (arith, formed),
      )

      kept :
          {A : Type 0} {Q : A → Database F → Type 0} {m : M F A}
          → Triple Same m Q Same
          → Triple Same m Q (λ d. (d ≡ old) ⊎ IsCreated agent req old d)
      kept t = Triple-weaken (λ d h. h) (λ _ d h. h) (λ d h. inl h) t

      found :
          (a o : AgentOffer F) (d : Database F)
          → IsOffer a.id o d × Made a d
          → (c : IsCreated agent req old d) × IsOffer c.offer.id o d
      found a o d (shown, (c, same)) = (c, subst (λ x. IsOffer x.id o d) (sym same) shown)

-- CreateOffer returns an offer only for units that fit its type and a template that starts with *,
-- ends with # and has three characters or more. It has then added one offer, active and the agent's, with one of the five candidate
-- codes, which no offer had before, and one active code of the first priority with the template; what
-- it returns is the row with the new offer's id. When it returns an error, either nothing has changed,
-- or the two rows are added and only the last read failed.
pub create_offer-Ends :
    {F : Type 0} ⦃fl : Float64 F⦄ ⦃env : Env⦄ (agent : ℕ) (req : CreateOfferRequest F) (w : World F)
    → Ends
        (λ o d. IsValid req × ((c : IsCreated agent req w.db d) × IsOffer c.offer.id o d))
        (λ d. (d ≡ w.db) ⊎ IsCreated agent req w.db d)
        (Management.create_offer agent req w)
create_offer-Ends agent req w = (create-Triple agent req w.db).apply w refl

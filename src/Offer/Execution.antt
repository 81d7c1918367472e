-- ===== src/Offer/Execution.antt =====
-- What `GetUSSDCodeForExecution` of ussd_code_gen.go answers.
use bingwa.Prelude.{
  ℕ, suc, ◌≡◌, refl, sym, ap, ◌∙◌, subst, inl, inr, true, false, not, some, List, [], ◌∷◌, Text,
  ◌==◌, length, find_row, arith,
}
use bingwa.Float64.{Float64}
use bingwa.Domain.Offer.{AgentOffer, OfferUssdCode}
use bingwa.Store.{Env, IsComplete, Database, World, unauthorized, wrapping, before_break}
use bingwa.Store.Triples.{
  Triple-return, Triple-assume, Ends, Triple, Triple-bind, Triple-wrapping, Triple-weaken,
  Triple-query_rows, Triple-refuse_if,
}
use bingwa.Offer.Repository
use bingwa.Offer.Repository.{first_row, by_success, is_active_code, offer_has_id}
use bingwa.Offer.Lookup.{IsOffer, find_offer-Triple}
use bingwa.Offer.Templates.{
  fill, fill_each, generate_ussd_code, get_offer, own_template, fallback_info, primary_info,
  execution_info, get_ussd_code_for_execution,
}
use bingwa.Offer.Picking.{IsPick, ranked, none_active, picked}

module _ {F : Type 0} ⦃fl : Float64 F⦄ ⦃env : Env⦄ where
  fill-Triple :
      (P E : Database F → Type 0) (o : AgentOffer F) (number code : Text)
      → Triple P (fill o number code) (λ _. P) E
  unfolding fill
  fill-Triple P E o number code = record { apply = λ w h. h }

  fill_each-Triple :
      (P E : Database F → Type 0) (o : AgentOffer F) (number : Text) (cs : List OfferUssdCode)
      → Triple P (fill_each o number cs) (λ r d. (length r ≡ length cs) × P d) E
  unfolding fill_each
  fill_each-Triple P E o number [] = Triple-return [] λ d h. (refl, h)
  fill_each-Triple P E o number (c ∷ cs) =
      Triple-bind (fill-Triple P E o number c.ussd_code) λ code.
        Triple-bind (fill_each-Triple P E o number cs)
          λ rest. Triple-return (code ∷ rest) λ d h. (ap suc h.0, h.1)

  module _ (offer : ℕ) (codes : List OfferUssdCode) where
    info-Triple :
        (P : Database F → Type 0) (o : AgentOffer F) (number : Text) (l : List OfferUssdCode)
        → (IsComplete env → ranked offer codes ≡ l)
        → Triple P
            (execution_info o number l)
            (λ info d. (IsComplete env → IsPick offer codes info) × P d)
            P
    unfolding execution_info generate_ussd_code
    info-Triple P o number [] e =
        Triple-bind
          (fill-Triple P P o number (own_template o.ussd_code_template o.primary_ussd_code))
          λ code. Triple-return (fallback_info o code) λ d h.
            ((λ c. inr (record { no_active = none_active offer codes (e c); marked = refl })), h)
    info-Triple P o number (c ∷ cs) e = Triple-bind (fill-Triple P P o number c.ussd_code) λ code.
        Triple-bind (fill_each-Triple P P o number cs) λ rest.
          Triple-return (primary_info c code rest) λ d h. (
            (λ all.
                inl
                  (picked offer codes c cs (primary_info c code rest) (e all) refl refl refl h.0)),
            h.1,
          )

  -- The offer that a stored one shows is the agent's.
  abbrev pub IsOwned : ℕ → ℕ → Database F → Type 0
  IsOwned agent offer d =
      (o : AgentOffer F) × (find_row (offer_has_id offer) d.offers ≡ some o)
      × ((o.agent_identity_id == agent) ≡ true)

  module _ (old : Database F) (agent offer : ℕ) where
    abbrev Same : Database F → Type 0
    Same d = d ≡ old

    get_offer-Triple :
        Triple Same (get_offer agent offer) (λ _ d. IsOwned agent offer old × Same d) Same
    unfolding get_offer
    get_offer-Triple = Triple-bind (find_offer-Triple Same offer) λ o.
        Triple-bind
          (Triple-weaken {Q' = λ _ d. IsOwned agent offer old × Same d} (λ d h. h)
            (λ _ d h. owned o d h.0 h.1.0 h.1.1) (λ d h. h.1)
            (Triple-refuse_if (not (o.agent_identity_id == agent)) unauthorized))
          λ _. Triple-return o λ d h. h
      where
        owned :
            (o : AgentOffer F) (d : Database F)
            → not (o.agent_identity_id == agent) ≡ false
            → IsOffer offer o d
            → d ≡ old
            → IsOwned agent offer old × (d ≡ old)
        owned o d mine (row, primary, found, same) e = (
          (
            row,
            subst (λ x. find_row (offer_has_id offer) x.offers ≡ some row) e found,
            ground (arith, mine, same),
          ),
          e,
        )

    codes-Triple :
        Triple Same
          (wrapping "failed to get USSD codes" (Repository.get_active_codes_by_priority offer))
          (λ l d. (IsComplete env → ranked offer old.ussd_codes ≡ l) × Same d)
          Same
    unfolding Repository.get_active_codes_by_priority
    codes-Triple = Triple-wrapping "failed to get USSD codes" (
        Triple-wrapping "failed to get active codes" (
          Triple-weaken (λ d h. h)
            (λ l d h. (
              (λ all.
                  subst (λ x. ranked offer x.ussd_codes ≡ l) h.1
                    (sym (
                      h.0.1
                      ∙ ap (λ b. before_break b (ranked offer d.ussd_codes))
                          (all.unbroken h.0.0)))),
              h.1,
            ))
            (λ d h. h) (Triple-query_rows λ _ d. ranked offer d.ussd_codes)))

    execution-Triple :
        (number : Text)
        → Triple Same
            (get_ussd_code_for_execution agent offer number)
            (λ info d.
              (IsOwned agent offer old × (IsComplete env → IsPick offer old.ussd_codes info))
              × Same d)
            Same
    unfolding get_ussd_code_for_execution
    execution-Triple number = Triple-bind get_offer-Triple λ o. Triple-assume λ owned.
        Triple-bind codes-Triple λ l. Triple-assume λ e.
          Triple-weaken (λ d h. h) (λ info d h. ((owned, h.0), h.1)) (λ d h. h)
            (info-Triple offer old.ussd_codes Same o number l e)

  -- GetUSSDCodeForExecution changes nothing and, whether or not the list of codes breaks off, answers
  -- only for an offer of the agent.
  pub execution-Reads :
      (agent offer : ℕ) (number : Text) (w : World F)
      → Ends
          (λ _ d. IsOwned agent offer w.db × (d ≡ w.db))
          (λ d. d ≡ w.db)
          (get_ussd_code_for_execution agent offer number w)
  execution-Reads agent offer number w =
      (Triple-weaken (λ d h. h) (λ _ d h. (h.0.0, h.1)) (λ d h. h)
          (execution-Triple w.db agent offer number)).apply
        w refl

-- ===== src/Offer/Lookup.antt =====
-- `FindByID` in agent_offers_repo.go: what an offer that is returned is.
use bingwa.Prelude.{ℕ, ◌≡◌, refl, sym, Option, none, some, find_row, select, sort_by}
use bingwa.Domain.Offer.{AgentOffer, OfferUssdCode}
use bingwa.Store.{Env, Database, pure}
use bingwa.Store.Triples.{Triple, Triple-bind, Triple-wrapping, Triple-weaken, Triple-query}
use bingwa.Store.Reads.{Triple-attempt, Triple-find_any}
use bingwa.Offer.Repository
use bingwa.Offer.Repository.{by_success, is_active_code, offer_has_id, loaded}

module _ {F : Type 0} where
  -- The offer is a row of the table, with some primary code.
  abbrev pub IsOffer : ℕ → AgentOffer F → Database F → Type 0
  IsOffer k o d =
      (row : AgentOffer F) × (primary : Option OfferUssdCode) × (find_row (offer_has_id k) d.offers
        ≡ some row)
      × (o ≡ record row { primary_ussd_code = primary })

module _ {F : Type 0} ⦃env : Env⦄ (P : Database F → Type 0) (k : ℕ) where
  abbrev Row : Option (AgentOffer F) → Database F → Type 0
  Row r d = (find_row (offer_has_id k) d.offers ≡ r) × P d

  found-Triple :
      (r : Option (AgentOffer F)) → Triple (Row r) (Repository.found_offer r) (λ o. Row (some o)) P
  found-Triple none = record { apply = λ w h. h.1 }
  found-Triple (some o) = record { apply = λ w h. h }

  primary-Triple :
      (o : AgentOffer F)
      → Triple
          (Row (some o))
          (Repository.get_primary_ussd_code o.id)
          (λ _. Row (some o))
          (Row (some o))
  unfolding Repository.get_primary_ussd_code
  primary-Triple o =
      Triple-find_any (Row (some o)) "failed to get primary USSD code" (λ _ d.
        Repository.first_row (sort_by by_success (select (is_active_code o.id) d.ussd_codes)))

  IsOffer-Triple :
      (o : AgentOffer F) (p : Option OfferUssdCode)
      → Triple
          (Row (some o))
          (pure (record o { primary_ussd_code = p }))
          (λ x d. IsOffer k x d × P d)
          P
  IsOffer-Triple o p = record { apply = λ w h. ((o, p, h.0, refl), h.1) }

  pub find_offer-Triple : Triple P (Repository.find_offer k) (λ o d. IsOffer k o d × P d) P
  unfolding Repository.find_offer
  find_offer-Triple =
      Triple-bind
        (Triple-wrapping "failed to find offer" (
          Triple-wrapping "failed to scan offer row" (
            Triple-weaken {Q' = Row} (λ d h. h) (λ r d h. (sym h.0.1, h.1)) (λ d h. h)
              (Triple-query λ _ d. find_row (offer_has_id k) d.offers))))
        λ r. Triple-bind (found-Triple r) λ o.
          Triple-bind
            (Triple-weaken (λ d h. h) (λ _ d h. h) (λ d h. h.1) (Triple-attempt (primary-Triple o)))
            λ p. IsOffer-Triple o (loaded p)

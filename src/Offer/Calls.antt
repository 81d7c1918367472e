-- ===== src/Offer/Calls.antt =====
-- The calls on USSD codes of offers.go that write, the agent that makes them, and other offers.
use bingwa.Prelude.{ℕ, ◌≡◌, refl, subst, Bool, false, not, ◌==◌, some, List, find_row, arith}
use bingwa.Domain.Offer.{
  AgentOffer, OfferUssdCode, AddUssdCodeRequest, UpdateUssdCodeRequest, CodePriority,
  RecordUssdResultRequest,
}
use bingwa.Store.{Env, World, Database, M, unauthorized, ◌>>◌}
use bingwa.Store.Triples.{Ends-always, Triple, Triple-bind, Triple-refuse_if, Triple-weaken}
use bingwa.Offer.Repository
use bingwa.Offer.Repository.{by_success, is_active_code}
use bingwa.Offer.Lookup.{find_offer-Triple}
use bingwa.Offer.Codes
use bingwa.Offer.Codes.{own_offer}
use bingwa.Offer.Isolation.{others, UniqueIds}
use bingwa.Offer.Ownership.{Kept}
use bingwa.Offer.Safety.{Safe, safe, add-Triple, update-Triple, toggle-Triple, record-Triple}
use bingwa.Offer.Reordering.{reorder-Triple}
use bingwa.Offer.Moves.{primary-Triple, delete-Triple}

-- The calls of the handlers that write to the table of codes.
pub data UssdCall : Type 0 where
  adds : AddUssdCodeRequest → UssdCall
  updates : ℕ → UpdateUssdCodeRequest → UssdCall
  makes_primary deletes : ℕ → UssdCall
  reorders : List CodePriority → UssdCall
  toggles : ℕ → Bool → UssdCall
  records : RecordUssdResultRequest → UssdCall

module _ {F : Type 0} ⦃env : Env⦄ (agent offer : ℕ) where
  -- One call of the agent on the offer, its result dropped.
  pub step : UssdCall → World F → World F
  step (adds req) w = (Codes.add_ussd_code agent offer req w).1
  step (updates k req) w = (Codes.update_ussd_code agent offer k req w).1
  step (makes_primary k) w = (Codes.set_ussd_code_as_primary agent offer k w).1
  step (deletes k) w = (Codes.delete_ussd_code agent offer k w).1
  step (reorders entries) w = (Codes.reorder_ussd_codes agent offer entries w).1
  step (toggles k is_active) w = (Codes.toggle_ussd_code_status agent offer k is_active w).1
  step (records req) w = (Codes.record_ussd_result agent offer req w).1

  module _ (old : List OfferUssdCode) where
    safely :
        {A : Type 0} (m : M F A) (w : World F)
        → Triple (Kept offer old) m (λ _. Safe offer old) (Safe offer old)
        → Kept offer old w.db
        → Safe offer old (m w).1.db
    safely m w t h = Ends-always (Safe offer old) (m w) (t.apply w h)

    call-others : (c : UssdCall) (w : World F) → Kept offer old w.db → Safe offer old (step c w).db
    unfolding step
    call-others (adds req) w h = safely _ w (add-Triple offer old agent req) h
    call-others (updates k req) w h =
        safely _ w (safe offer old (update-Triple offer old agent k req)) h
    call-others (makes_primary k) w h =
        safely _ w (safe offer old (primary-Triple offer old agent k)) h
    call-others (deletes k) w h = safely _ w (safe offer old (delete-Triple offer old agent k)) h
    call-others (reorders entries) w h =
        safely _ w (safe offer old (reorder-Triple offer old agent entries)) h
    call-others (toggles k is_active) w h =
        safely _ w (safe offer old (toggle-Triple offer old agent k is_active)) h
    call-others (records req) w h =
        safely _ w (safe offer old (record-Triple offer old agent req)) h

  -- Where no id of a code stands twice, no call on the codes of an offer, whatever statement fails
  -- on the way, changes, adds or removes a code of another offer.
  pub step-others :
      (c : UssdCall) (w : World F)
      → UniqueIds w.db.ussd_codes
      → others offer (step c w).db.ussd_codes ≡ others offer w.db.ussd_codes
  step-others c w unique = call-others (others offer w.db.ussd_codes) c w (refl, unique)

  -- The agent does not own the offer, or there is none.
  abbrev pub IsStranger : List (AgentOffer F) → Type 0
  IsStranger offers =
      (o : AgentOffer F)
      → find_row (Repository.offer_has_id offer) offers ≡ some o
      → (o.agent_identity_id == agent) ≡ false

  module _ (old : Database F) (stranger : IsStranger old.offers) where
    abbrev Same : Database F → Type 0
    Same d = d ≡ old

    own_offer-Triple : Triple Same (own_offer {F = F} agent offer) (λ _ _. ⊥) Same
    unfolding own_offer
    own_offer-Triple = Triple-bind (find_offer-Triple Same offer) λ o.
        Triple-weaken (λ d h. h)
          (λ _ d h.
            let (row, primary, found, same) = h.1.0 in
            let mine : (row.agent_identity_id == agent) ≡ false = stranger row (
              subst (λ l. find_row (Repository.offer_has_id offer) l.offers ≡ some row) h.1.1
                found) in
            ground (arith, h.0, same, mine))
          (λ d h. h.1) (Triple-refuse_if (not (o.agent_identity_id == agent)) unauthorized)

    refused-Triple :
        {A : Type 0} (m : M F A) → Triple Same (own_offer agent offer >> m) (λ _ _. ⊥) Same
    refused-Triple m =
        Triple-bind {f = λ _. m} own_offer-Triple λ a. record { apply = λ w h. elim h [ ] }

    refused :
        {A : Type 0} (m : M F A) (w : World F)
        → Same w.db
        → Same ((own_offer agent offer >> m) w).1.db
    refused m w h =
        Ends-always Same ((own_offer agent offer >> m) w)
          ((Triple-weaken (λ d h. h) (λ _ d h. elim h [ ]) (λ d h. h) (refused-Triple m)).apply w h)

    call-Same : (c : UssdCall) (w : World F) → Same w.db → Same (step c w).db
    unfolding step Codes.add_ussd_code Codes.update_ussd_code Codes.set_ussd_code_as_primary
        Codes.delete_ussd_code Codes.reorder_ussd_codes Codes.toggle_ussd_code_status
        Codes.record_ussd_result
    call-Same (adds req) w h = refused (Codes.add_own_code offer req) w h
    call-Same (updates k req) w h = refused (Codes.update_own_code offer k req) w h
    call-Same (makes_primary k) w h = refused (Codes.make_own_code_primary offer k) w h
    call-Same (deletes k) w h = refused (Codes.delete_own_code offer k) w h
    call-Same (reorders entries) w h = refused (Codes.reorder_own_codes offer entries) w h
    call-Same (toggles k is_active) w h = refused (Codes.toggle_own_code offer k is_active) w h
    call-Same (records req) w h = refused (Codes.record_own_result offer req) w h

  -- A call on the codes of an offer that the agent does not own, or that does not exist, changes
  -- nothing in the database.
  pub step-stranger : (c : UssdCall) (w : World F) → IsStranger w.db.offers → (step c w).db ≡ w.db
  step-stranger c w stranger = call-Same w.db stranger c w refl

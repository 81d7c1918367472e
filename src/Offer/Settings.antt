-- ===== src/Offer/Settings.antt =====
-- `ActivateOffer`, `DeactivateOffer`, `PauseOffer`, `DeleteOffer` and `UpdateOffer` of
-- internal/service/offer/offers.go.
use bingwa.Prelude.{
  String, ℕ, ◌≡◌, refl, subst, ◌⊎◌, inl, inr, Bool, true, false, not, Option, none, some, Text,
  ◌==◌, any_row, update_where, update_where-none, arith,
}
use bingwa.Domain.Offer.{AgentOffer, UpdateOfferRequest, active, inactive, paused}
use bingwa.Store.{Env, Database, World, M, unauthorized, wrapping, ◌>>=◌}
use bingwa.Store.Triples.{
  Ends, Triple, Triple-bind, Triple-wrapping, Triple-weaken, Triple-refuse_if, Triple-assume,
  Triple-return,
}
use bingwa.Store.Constraints.{Triple-try_write}
use bingwa.Offer.Repository.{offer_has_id}
use bingwa.Offer.Lookup.{IsOffer, find_offer-Triple}
use bingwa.Offer.Table
use bingwa.Offer.Table.{with_offer_status, deleted_offer, update_row, updated_offer}
use bingwa.Offer.Templates.{get_offer}
use bingwa.Offer.Terms.{is_combination, units_refusal}
use bingwa.Store.Reads.{Triple-refuse}
use bingwa.Offer.Management
use bingwa.Offer.Management.{merged_offer}

pub data OfferMove : Type 0 where
  activates deactivates pauses deletes : OfferMove

module _ {F : Type 0} where
  -- The row that a move writes.
  abbrev pub moved_by : ⦃env : Env⦄ → OfferMove → ℕ → AgentOffer F → AgentOffer F
  moved_by activates t = with_offer_status active t
  moved_by deactivates t = with_offer_status inactive t
  moved_by pauses t = with_offer_status paused t
  moved_by deletes t = deleted_offer t

  -- The offer with the id is the agent's and not deleted.
  abbrev pub IsOwn : ℕ → ℕ → AgentOffer F → Database F → Type 0
  IsOwn agent k o d = IsOffer k o d × ((o.agent_identity_id == agent) ≡ true)

  -- The offer was the agent's, and exactly the row with the id is written.
  abbrev pub IsWritten :
      ℕ → ℕ → (ℕ → AgentOffer F → AgentOffer F) → Database F → Database F → Type 0
  IsWritten agent k f old d =
      ((o : AgentOffer F) × IsOwn agent k o old)
      × ((t : ℕ) × (d ≡ record old { offers = update_where (offer_has_id k) (f t) old.offers }))

module _ {F : Type 0} ⦃env : Env⦄ (agent k : ℕ) where
  -- The call of a move.
  abbrev pub managed : OfferMove → M F (Unit {0})
  managed activates = Management.activate_offer agent k
  managed deactivates = Management.deactivate_offer agent k
  managed pauses = Management.pause_offer agent k
  managed deletes = Management.delete_offer agent k

  module _ (old : Database F) where
    abbrev Same : Database F → Type 0
    Same d = d ≡ old

    get_offer-Triple : Triple Same (get_offer agent k) (λ o d. IsOwn agent k o old × Same d) Same
    unfolding get_offer
    get_offer-Triple = Triple-bind (find_offer-Triple Same k) λ o.
        Triple-bind
          (Triple-weaken {Q' = λ _ d. IsOwn agent k o old × Same d} (λ d h. h)
            (λ _ d h. ((subst (IsOffer k o) h.1.1 h.1.0, ground (arith, h.0)), h.1.1)) (λ d h. h.1)
            (Triple-refuse_if (not (o.agent_identity_id == agent)) unauthorized))
          λ _. Triple-return o λ d h. h

    write-Triple :
        (label : String) (f : ℕ → AgentOffer F → AgentOffer F)
        → ((o : AgentOffer F) × IsOwn agent k o old)
        → Triple Same (Table.write_offer label k f) (λ _. IsWritten agent k f old) Same
    unfolding Table.write_offer
    write-Triple label f own =
        Triple-try_write label (λ t d. some (update_row k (f t) d)) (λ d h. h)
          (λ t d d' e same. (own, (t, after t d d' true e same)))
          (λ t d d' e same. missed t d d' e same)
      where
        after :
            (t : ℕ) (d d' : Database F) (hit : Bool)
            → some (update_row k (f t) d) ≡ some (d', hit)
            → d ≡ old
            → d' ≡ record old { offers = update_where (offer_has_id k) (f t) old.offers }
        after t d d' hit e same =
            subst (λ x. d' ≡ record x { offers = update_where (offer_has_id k) (f t) x.offers })
              same (ground arith)

        missed :
            (t : ℕ) (d d' : Database F)
            → some (update_row k (f t) d) ≡ some (d', false)
            → d ≡ old
            → d' ≡ old
        missed t d d' e same =
            let none_hit : any_row (offer_has_id k) d.offers ≡ false = ground arith in
            let plain : any_row (offer_has_id k) old.offers ≡ false =
              subst (λ x. any_row (offer_has_id k) x.offers ≡ false) same none_hit in
            rw (after t d d' false e same)
              (rw (update_where-none (offer_has_id k) (f t) old.offers plain) refl)

    move-Triple :
        (label message : String) (f : ℕ → AgentOffer F → AgentOffer F)
        → Triple Same
            (get_offer agent k >>= λ _. wrapping label (Table.write_offer message k f))
            (λ _. IsWritten agent k f old)
            Same
    move-Triple label message f =
        Triple-bind get_offer-Triple
          λ o. Triple-assume λ own. Triple-wrapping label (write-Triple message f (o, own))

  -- Activating, deactivating, pausing and deleting an offer succeed only where it is the agent's and
  -- not deleted; then exactly the row with the id has the new status or the time of its deletion. An
  -- error leaves everything as it was.
  pub managed-Ends :
      (m : OfferMove) (w : World F)
      → Ends (λ _. IsWritten agent k (moved_by m) w.db) (λ d. d ≡ w.db) (managed m w)
  unfolding Management.activate_offer Management.deactivate_offer Management.pause_offer
      Management.delete_offer Table.update_status Table.soft_delete
  managed-Ends activates w =
      (move-Triple w.db "failed to activate offer" "failed to update status"
          (with_offer_status active)).apply
        w refl
  managed-Ends deactivates w =
      (move-Triple w.db "failed to deactivate offer" "failed to update status"
          (with_offer_status inactive)).apply
        w refl
  managed-Ends pauses w =
      (move-Triple w.db "failed to pause offer" "failed to update status"
          (with_offer_status paused)).apply
        w refl
  managed-Ends deletes w =
      (move-Triple w.db "failed to delete offer" "failed to delete offer" deleted_offer).apply w
        refl

module _ {F : Type 0} ⦃env : Env⦄ (agent k : ℕ) (req : UpdateOfferRequest F) where
  -- The offer was the agent's, the fields of the request leave its units fitting its type, and exactly
  -- the row with the id has them.
  abbrev pub IsUpdated : Database F → Database F → Type 0
  IsUpdated old d =
      (o : AgentOffer F) × IsOwn agent k o old
      × (is_combination (merged_offer req o).offer_type (merged_offer req o).units ≡ true)
      × IsWritten agent k (updated_offer (merged_offer req o)) old d

  module _ (old : Database F) where
    template-Triple :
        (o : Option Text)
        → Triple
            (Same agent k old)
            (Management.check_template o)
            (λ _. Same agent k old)
            (Same agent k old)
    template-Triple none = record { apply = λ w h. h }
    template-Triple (some template) =
        Triple-weaken (λ d h. h) (λ _ d h. h.1) (λ d h. h) (Triple-refuse (Same agent k old) _)

    update-Triple :
        Triple
          (Same agent k old)
          (Management.update_offer agent k req)
          (λ o d. IsOffer k o d × IsUpdated old d)
          (λ d. (d ≡ old) ⊎ IsUpdated old d)
    unfolding Management.update_offer Table.update units_refusal
    update-Triple = Triple-bind (kept (get_offer-Triple agent k old)) λ o. Triple-assume λ own.
        Triple-bind (kept (template-Triple req.ussd_code_template)) λ _.
          Triple-bind
            (kept (
              Triple-refuse (Same agent k old)
                (units_refusal (merged_offer req o).offer_type (merged_offer req o).units)))
            λ _. Triple-assume λ fits.
              Triple-bind
                (kept (
                  Triple-wrapping "failed to update offer" (
                    Triple-weaken {Q' = λ _. IsUpdated old} (λ d h. h)
                      (λ _ d h. (o, own, ground (arith, fits), h)) (λ d h. h)
                      (write-Triple agent k old "failed to update offer"
                        (updated_offer (merged_offer req o)) (o, own)))))
                λ _.
                  Triple-weaken (λ d h. h) (λ _ d h. h) (λ d h. inr h)
                    (find_offer-Triple (IsUpdated old) k)
      where
        kept :
            {A : Type 0} {Q : A → Database F → Type 0} {m : M F A}
            → Triple (Same agent k old) m Q (Same agent k old)
            → Triple (Same agent k old) m Q (λ d. (d ≡ old) ⊎ IsUpdated old d)
        kept t = Triple-weaken (λ d h. h) (λ _ d h. h) (λ d h. inl h) t

  -- UpdateOffer returns an offer only where the one with the id is the agent's and its units fit its
  -- type after the update; then exactly its row has the fields of the request, and that row is
  -- returned. An error means that nothing is written or that only the last read failed.
  pub update_offer-Ends :
      (w : World F)
      → Ends
          (λ o d. IsOffer k o d × IsUpdated w.db d)
          (λ d. (d ≡ w.db) ⊎ IsUpdated w.db d)
          (Management.update_offer agent k req w)
  update_offer-Ends w = (update-Triple w.db).apply w refl

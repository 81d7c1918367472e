-- ===== src/Schedule/Execution.antt =====
-- `ExecuteScheduledOffer` of schedule_service.go: what it leaves in the tables.
use bingwa.Prelude.{ℕ, ◌≡◌, refl, subst, true, not, some, ◌==◌, find_row, arith}
use bingwa.Float64.{Float64}
use bingwa.Domain.Offer.{AgentOffer}
use bingwa.Domain.Transaction.{OfferRedemption}
use bingwa.Domain.Schedule.{
  ScheduledOffer, ScheduledOfferHistory, ExecuteScheduledOfferInput, is_active_schedule,
}
use bingwa.Store.{Env, Database, World, msg}
use bingwa.Store.Triples.{
  Ends, Triple, Triple-bind, Triple-wrapping, Triple-weaken, Triple-now, Triple-refuse_if,
  Triple-assume, Triple-find_one, Triple-return,
}
use bingwa.Store.Reads.{Triple-attempt}
use bingwa.Store.Bodies.{Inside}
use bingwa.Store.Staged.{Staged, Triple-staged}
use bingwa.Store.Schema.{Schema}
use bingwa.Offer.Lookup.{find_offer-Triple}
use bingwa.Transaction.Entities.{or_template}
use bingwa.Transaction.Service.{generate_redemption_reference}
use bingwa.Transaction.Steps.{
  reference-Triple, now_if-Triple, dereferenced-Triple, execution-Triple,
}
use bingwa.Schedule.Repository
use bingwa.Schedule.Repository.{has_id}
use bingwa.Schedule.Entities.{new_redemption, new_history}
use bingwa.Schedule.Service
use bingwa.Schedule.Storing.{IsRecorded, IsFollowed, IsRedemptionFor, IsHistoryFor, store-Inside}

module _ {F : Type 0} where
  -- The schedule with the id is the agent's.
  abbrev pub IsOwn : ℕ → ℕ → ScheduledOffer → Database F → Type 0
  IsOwn agent k s d =
      (find_row (has_id k) d.schedules ≡ some s) × ((s.agent_identity_id == agent) ≡ true)

  -- The schedule was the agent's and active; it is recorded and followed up.
  pub record IsExecuted ⦃env : Env⦄ (agent k : ℕ) (input : ExecuteScheduledOfferInput)
      (old d : Database F) : Type 0 where
    pub schedule : ScheduledOffer
    pub own : IsOwn agent k schedule old
    pub was_active : is_active_schedule schedule.status ≡ true
    pub recorded : IsRecorded k input schedule old d
    pub followed : IsFollowed k input schedule old d

module _ {F : Type 0} ⦃env : Env⦄ (agent k : ℕ) (old : Database F) where
  abbrev pub Same : Database F → Type 0
  Same d = d ≡ old

  pub find_own-Triple :
      Triple Same (Service.find_own agent k) (λ s d. IsOwn agent k s old × Same d) Same
  unfolding Service.find_own Repository.find_by_id
  find_own-Triple =
      Triple-bind
        (Triple-find_one "failed to find scheduled offer" λ _ d. find_row (has_id k) d.schedules)
        λ s.
          Triple-bind
            (Triple-weaken {Q' = λ _ d. IsOwn agent k s old × Same d} (λ d h. h)
              (λ _ d h. (
                (
                  subst (λ x. find_row (has_id k) x.schedules ≡ some s) h.1.1 h.1.0.1,
                  ground (arith, h.0),
                ),
                h.1.1,
              ))
              (λ d h. h.1)
              (Triple-refuse_if (not (s.agent_identity_id == agent))
                (msg "unauthorized: scheduled offer does not belong to agent")))
            λ _. Triple-return s λ d h. h

module _ {F : Type 0} ⦃fl : Float64 F⦄ ⦃env : Env⦄ ⦃schema : Schema⦄ (agent k : ℕ)
    (input : ExecuteScheduledOfferInput) (old : Database F) where
  -- What the transaction of an execution ends with.
  abbrev pub Stores : ScheduledOffer → (Database F → Type 0) → Type 0
  Stores s Y =
      (r : OfferRedemption F) (h : ScheduledOfferHistory)
      → IsRedemptionFor k input s old r
      → IsHistoryFor k input s old h
      → Inside (Staged (Same agent k old) (Same agent k old))
          (Service.store_execution k input s r h) (λ _. Staged (Same agent k old) Y)
          (Same agent k old)

  -- The parts of an execution around its transaction, for what the transaction ends with.
  build-Triple :
      (s : ScheduledOffer) (offer : AgentOffer F) (Y : Database F → Type 0)
      → Stores s Y
      → Triple
          (Same agent k old)
          (Service.build_execution agent k input s offer)
          (λ _. Y)
          (Same agent k old)
  unfolding Service.build_execution new_redemption new_history generate_redemption_reference
  build-Triple s offer Y store = Triple-bind (reference-Triple (Same agent k old) _) λ reference.
      Triple-bind
        (Triple-attempt
          (execution-Triple (Same agent k old) offer.agent_identity_id offer.id s.customer_phone))
        λ r. Triple-bind (dereferenced-Triple (Same agent k old) r) λ info.
          Triple-bind Triple-now λ from. Triple-bind Triple-now λ t.
            Triple-bind (now_if-Triple (Same agent k old) (not input.is_failed)) λ ended.
              Triple-bind Triple-now λ t'. Triple-staged (
                store
                  (new_redemption agent input s offer reference
                    (or_template info.ussd_code offer.ussd_code_template) info
                    (from, env.add_date from 0 0 offer.validity_days, t, ended))
                  (new_history k input s t')
                  (record { status_is = refl; offer = refl; unrequested = refl })
                  (record { status_is = refl; schedule = refl; number = refl }))

  pub execute-Triple :
      (Y : ScheduledOffer → Database F → Type 0)
      → ((s : ScheduledOffer) → Stores s (Y s))
      → Triple
          (Same agent k old)
          (Service.execute_scheduled_offer agent k input)
          (λ _ d.
            (s : ScheduledOffer) × ((IsOwn agent k s old × (is_active_schedule s.status ≡ true))
              × Y s d))
          (Same agent k old)
  unfolding Service.execute_scheduled_offer
  execute-Triple Y store = Triple-bind (find_own-Triple agent k old) λ s. Triple-assume λ own.
      Triple-bind
        (Triple-refuse_if (not (is_active_schedule s.status)) (msg "scheduled offer is not active"))
        λ _. Triple-assume λ active.
          Triple-bind
            (Triple-weaken (λ d h. h) (λ o d h. h.1) (λ d h. h)
              (Triple-wrapping "offer not found" (find_offer-Triple (Same agent k old) s.offer_id)))
            λ offer.
              Triple-weaken (λ d h. h) (λ _ d h. (s, ((own, ground (arith, active)), h))) (λ d h. h)
                (build-Triple s offer (Y s) (store s))

-- ExecuteScheduledOffer, whatever the schema admits, returns only for an active schedule of the
-- agent. It has then stored one redemption without a request and one entry of the history, which is
-- linked to it and has the next number of the schedule, both with the outcome of the input; the
-- schedule has its next date and count if it renews by itself, goes on and succeeded, is completed if
-- it does not go on, and else is as it was. It goes on only below its limit of renewals and while its
-- end date is not past on the clock, and does not go on only if one of these fails. When it returns an
-- error, nothing has changed.
pub execute_scheduled_offer-Ends :
    {F : Type 0} ⦃fl : Float64 F⦄ ⦃env : Env⦄ ⦃schema : Schema⦄ (agent k : ℕ)
    (input : ExecuteScheduledOfferInput) (w : World F)
    → Ends
        (λ _. IsExecuted agent k input w.db)
        (λ d. d ≡ w.db)
        (Service.execute_scheduled_offer agent k input w)
execute_scheduled_offer-Ends agent k input w =
    (Triple-weaken (λ d h. h)
        (λ _ d h.
          let (s, (found, (recorded, followed))) = h in
          record {
            schedule = s;
            own = found.0;
            was_active = found.1;
            recorded = recorded;
            followed = followed;
          })
        (λ d h. h)
        (execute-Triple agent k input w.db
          (λ s d. IsRecorded k input s w.db d × IsFollowed k input s w.db d)
          (λ s. store-Inside k input s w.db))).apply
      w refl

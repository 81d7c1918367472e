-- ===== src/Schedule/Creation.antt =====
-- `CreateScheduledOffer` of schedule_service.go: what it stores.
use bingwa.Prelude.{
  ℕ, ◌≡◌, refl, subst, false, not, Option, some, [], ◌∷◌, ◌++◌, ◌==◌, ltb, any_row, find_row, arith,
  Bool-cases, inl, inr,
}
use bingwa.Domain.Offer.{AgentOffer}
use bingwa.Domain.Schedule.{ScheduledOffer, CreateScheduledOfferRequest, active}
use bingwa.Store.{Env, Database, World, msg, now, transact, wrapping, ◌>>=◌}
use bingwa.Store.Triples.{
  Ends, Triple, Triple-bind, Triple-wrapping, Triple-weaken, Triple-refuse_if, Triple-assume,
}
use bingwa.Store.Bodies.{Inside, Inside-wrapping}
use bingwa.Store.Staged.{Staged, Inside-staged_insert, Triple-staged}
use bingwa.Offer.Repository.{offer_has_id}
use bingwa.Offer.Lookup.{IsOffer, find_offer-Triple}
use bingwa.Transaction.Repository.{reference_eq}
use bingwa.Transaction.Service.{is_offered}
use bingwa.Transaction.Steps.{IgnoresCustomers, customer_of-Triple, reference-Triple}
use bingwa.Transaction.Creation.{IsAvailable}
use bingwa.Schedule.Repository
use bingwa.Schedule.Repository.{inserted_schedule, created_schedule, with_schedule}
use bingwa.Schedule.Entities.{first_renewal, new_schedule}
use bingwa.Schedule.Service

module _ ⦃env : Env⦄ (req : CreateScheduledOfferRequest) where
  -- The requested time was not past when the clock was read.
  abbrev pub IsAhead : Type 0
  IsAhead = (n : ℕ) × (ltb req.scheduled_time (env.clock n) ≡ false)

module _ {F : Type 0} ⦃env : Env⦄ (agent : ℕ) (req : CreateScheduledOfferRequest)
    (old : Database F) where
  -- All tables but those of the schedules and of the customers are as they were.
  abbrev pub IsElsewhereSame : Database F → Type 0
  IsElsewhereSame d =
      (d.plans ≡ old.plans)
      × (d.subscriptions ≡ old.subscriptions)
      × (d.campaigns ≡ old.campaigns)
      × (d.offers ≡ old.offers)
      × (d.ussd_codes ≡ old.ussd_codes)
      × (d.requests ≡ old.requests)
      × (d.redemptions ≡ old.redemptions)
      × (d.histories ≡ old.histories)

  -- The new schedule is the only new one: active, not renewed yet, not in the past on the clock, and
  -- with its first renewal.
  pub record IsScheduled (row : ScheduledOffer) (d : Database F) : Type 0 where
    pub rows : d.schedules ≡ old.schedules ++ row ∷ []
    pub owner : row.agent_identity_id ≡ agent
    pub offer : row.offer_id ≡ req.offer_id
    pub starts_active : row.status ≡ active
    pub unrenewed : row.renewal_count ≡ 0
    pub time : row.scheduled_time ≡ req.scheduled_time
    pub first :
        row.next_renewal_date ≡ first_renewal req.auto_renew req.scheduled_time req.renewal_period
    pub elsewhere : IsElsewhereSame d

  -- No schedule is written.
  abbrev pub Same : Database F → Type 0
  Same d = (d.schedules ≡ old.schedules) × IsElsewhereSame d

  Same-Ignores : IgnoresCustomers Same
  Same-Ignores = record {
    ignores = λ d d' p q o s t pl su ca co h. rw (p, q, o, s, t, pl, su, ca, co) h;
  }

  schedule_row :
      (s a : ScheduledOffer) (t : ℕ) (x p : Database F)
      → inserted_schedule s t x ≡ some (p, a)
      → (p ≡ with_schedule (created_schedule s x.next_id t) x)
        × (a ≡ created_schedule s x.next_id t)
  schedule_row s a t x p e =
      elim (Bool-cases
        (any_row (λ r. reference_eq r.schedule_reference s.schedule_reference) x.schedules)) [
          | inl taken ↦ ground arith
          | inr free ↦ (ground arith, ground arith)
        ]

  -- What the entity to be stored must have.
  record IsScheduleFor (s : ScheduledOffer) : Type 0 where
    owner : s.agent_identity_id ≡ agent
    offer : s.offer_id ≡ req.offer_id
    starts_active : s.status ≡ active
    time : s.scheduled_time ≡ req.scheduled_time
    first : s.next_renewal_date ≡ first_renewal req.auto_renew req.scheduled_time req.renewal_period

  store-Inside :
      (s : ScheduledOffer)
      → IsScheduleFor s
      → Inside
          (Staged Same Same)
          (Repository.create_with_tx s)
          (λ row. Staged Same (IsScheduled row))
          Same
  unfolding Repository.create_with_tx
  store-Inside s fits = Inside-wrapping "failed to create scheduled offer" (
      Inside-staged_insert {X = Same} {Y = IsScheduled} (inserted_schedule s) λ t x p a e same.
        let (is_db, is_row) = schedule_row s a t x p e in
        rw (is_db, is_row)
          (record {
            rows = rw same.0 refl;
            owner = fits.owner;
            offer = fits.offer;
            starts_active = fits.starts_active;
            unrenewed = refl;
            time = fits.time;
            first = fits.first;
            elsewhere = same.1;
          }))

  rest-Triple :
      (customer : Option ℕ)
      → Triple Same
          (do
            reference ← Service.generate_schedule_reference
            transact (
                wrapping "failed to create scheduled offer" (
                  Repository.create_with_tx (
                    new_schedule agent req reference
                      (first_renewal req.auto_renew req.scheduled_time req.renewal_period)
                      customer))))
          IsScheduled
          Same
  unfolding Service.generate_schedule_reference new_schedule
  rest-Triple customer = Triple-bind (reference-Triple Same _) λ reference. Triple-staged (
      Inside-wrapping "failed to create scheduled offer" (
        store-Inside _
          (record { owner = refl; offer = refl; starts_active = refl; time = refl; first = refl })))

  clock-Triple :
      {P E : Database F → Type 0} → Triple P now (λ t d. ((n : ℕ) × (t ≡ env.clock n)) × P d) E
  clock-Triple = record { apply = λ w h. ((w.steps, refl), h) }

  create-Triple :
      Triple
        (λ d. Same d × (d.offers ≡ old.offers))
        (Service.create_scheduled_offer agent req)
        (λ row d. (IsAvailable agent req.offer_id old × IsAhead req) × IsScheduled row d)
        Same
  unfolding Service.create_scheduled_offer
  create-Triple =
      Triple-bind
        (Triple-weaken (λ d h. h) (λ o d h. h) (λ d h. h.0)
          (Triple-wrapping "offer not found"
            (find_offer-Triple (λ d. Same d × (d.offers ≡ old.offers)) req.offer_id)))
        λ o.
          Triple-bind
            (Triple-weaken (λ d h. h) (λ _ d h. h) (λ d h. h.1.0)
              (Triple-refuse_if (not (o.agent_identity_id == agent))
                (msg "unauthorized: offer does not belong to agent")))
            λ _. Triple-assume λ mine.
              Triple-bind
                (Triple-weaken {Q' = λ _ d. IsAvailable agent req.offer_id old × Same d} (λ d h. h)
                  (λ _ d h. (available o d mine h.0 h.1, h.1.1.0)) (λ d h. h.1.0)
                  (Triple-refuse_if (not (is_offered o.status)) (msg "offer is not active")))
                λ _. Triple-assume λ fine. Triple-bind clock-Triple λ t. Triple-assume λ read.
                  Triple-bind
                    (Triple-refuse_if (ltb req.scheduled_time t)
                      (msg "scheduled time must be in the future"))
                    λ _. Triple-assume λ later.
                      Triple-weaken (λ d h. h) (λ _ d h. ((fine, ahead t read later), h)) (λ d h. h)
                        (Triple-bind (customer_of-Triple Same Same-Ignores agent req.customer_phone)
                          rest-Triple)
    where
      ahead :
          (t : ℕ) → ((n : ℕ) × (t ≡ env.clock n)) → ltb req.scheduled_time t ≡ false → IsAhead req
      ahead t (n, e) later = (n, subst (λ x. ltb req.scheduled_time x ≡ false) e later)

      available :
          (o : AgentOffer F) (d : Database F)
          → not (o.agent_identity_id == agent) ≡ false
          → not (is_offered o.status) ≡ false
          → IsOffer req.offer_id o d × (Same d × (d.offers ≡ old.offers))
          → IsAvailable agent req.offer_id old
      available o d mine offered h =
          let (row, primary, found, same) = h.0 in
          (
            row,
            subst (λ l. find_row (offer_has_id req.offer_id) l ≡ some row) h.1.1 found,
            ground (arith, mine, same),
            ground (arith, offered, same),
          )

-- CreateScheduledOffer returns a schedule only for an active offer of the agent and a time that was
-- not past when the clock was read. The schedule is then the only new one: the agent's, for the offer
-- and the time, active, not renewed yet, and with the date of its first renewal if it renews by itself
-- and has a period. When it returns an error, the schedules are as they were. In both cases all other
-- tables but that of the customers are as they were.
pub create_scheduled_offer-Ends :
    {F : Type 0} ⦃env : Env⦄ (agent : ℕ) (req : CreateScheduledOfferRequest) (w : World F)
    → Ends
        (λ row d.
          (IsAvailable agent req.offer_id w.db × IsAhead req) × IsScheduled agent req w.db row d)
        (Same agent req w.db)
        (Service.create_scheduled_offer agent req w)
create_scheduled_offer-Ends agent req w =
    (create-Triple agent req w.db).apply w
      ((refl, (refl, refl, refl, refl, refl, refl, refl, refl)), refl)

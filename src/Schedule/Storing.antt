-- ===== src/Schedule/Storing.antt =====
-- The transaction of `ExecuteScheduledOffer` of schedule_service.go: what it writes.
use bingwa.Prelude.{
  String, ℕ, ◌+◌, ◌≡◌, refl, ap, ◌∙◌, Bool, true, false, ◌&&◌, not, Option, none, some, List, [],
  ◌∷◌, ◌++◌, update_where, arith,
}
use bingwa.Domain.Transaction.{OfferRedemption}
use bingwa.Domain.Schedule.{
  ScheduledOffer, ScheduledOfferHistory, ExecuteScheduledOfferInput, completed,
}
use bingwa.Store.{Env, Database, tx_exec, affected, at_time, wrapping}
use bingwa.Store.Bodies.{Inside, Inside-bind, Inside-wrapping, Inside-return}
use bingwa.Store.Statements.{Inside-now}
use bingwa.Store.Staged.{Staged, Inside-assume, Inside-staged_insert, Inside-staged_update}
use bingwa.Store.Schema.{Schema}
use bingwa.Transaction.Repository as Transactions
use bingwa.Transaction.Repository.{created_redemption}
use bingwa.Transaction.Storing.{redemption_row}
use bingwa.Schedule.Repository
use bingwa.Schedule.Repository.{
  has_id, renewed, with_status, update_schedule, inserted_history, created_history, admitted,
}
use bingwa.Schedule.Entities.{execution_status}
use bingwa.Schedule.Service
use bingwa.Schedule.Service.{next_after}
use bingwa.Schedule.Renewal.{Continues, continue-Inside}

module _ {F : Type 0} (k : ℕ) (input : ExecuteScheduledOfferInput) (s : ScheduledOffer) where
  -- One redemption and one entry of the history are new, both with the outcome of the input; the entry
  -- is linked to the redemption and has the next number of the schedule.
  pub record IsRecorded (old d : Database F) : Type 0 where
    pub redemption : OfferRedemption F
    pub history : ScheduledOfferHistory
    pub redemptions : d.redemptions ≡ old.redemptions ++ redemption ∷ []
    pub histories : d.histories ≡ old.histories ++ history ∷ []
    pub linked : history.offer_redemption_id ≡ some redemption.id
    pub unrequested : redemption.offer_request_id ≡ none
    pub of_schedule : (history.scheduled_offer_id ≡ k) × (redemption.offer_id ≡ s.offer_id)
    pub numbered : history.renewal_number ≡ s.renewal_count + 1
    pub statuses :
        (redemption.status ≡ execution_status input) × (history.status ≡ execution_status input)

  -- After a success a schedule that renews by itself and goes on gets its next date and its count; a
  -- schedule that does not go on is completed; any other is as it was.
  pub data IsFollowed ⦃env : Env⦄ (old d : Database F) : Type 0 where
    renews :
        (t last : ℕ)
        → Continues true s (s.renewal_count + 1)
        → s.auto_renew && not input.is_failed ≡ true
        → d.schedules
          ≡ update_where
              (has_id k)
              (renewed (next_after last s.renewal_period) last (s.renewal_count + 1) t)
              old.schedules
        → IsFollowed old d
    stays :
        Continues true s (s.renewal_count + 1)
        → s.auto_renew && not input.is_failed ≡ false
        → d.schedules ≡ old.schedules
        → IsFollowed old d
    completes :
        (t : ℕ)
        → Continues false s (s.renewal_count + 1)
        → d.schedules ≡ update_where (has_id k) (with_status completed t) old.schedules
        → IsFollowed old d

module _ {F : Type 0} ⦃env : Env⦄ ⦃schema : Schema⦄ (k : ℕ) (input : ExecuteScheduledOfferInput)
    (s : ScheduledOffer) (old : Database F) where
  abbrev Same : Database F → Type 0
  Same d = d ≡ old

  -- What the redemption to be stored must have.
  pub record IsRedemptionFor (r : OfferRedemption F) : Type 0 where
    pub status_is : r.status ≡ execution_status input
    pub offer : r.offer_id ≡ s.offer_id
    pub unrequested : r.offer_request_id ≡ none

  pub record IsHistoryFor (h : ScheduledOfferHistory) : Type 0 where
    pub status_is : h.status ≡ execution_status input
    pub schedule : h.scheduled_offer_id ≡ k
    pub number : h.renewal_number ≡ s.renewal_count + 1

  record IsRedeemed (a : OfferRedemption F) (d : Database F) : Type 0 where
    redemption : OfferRedemption F
    fits : IsRedemptionFor redemption
    redemptions : d.redemptions ≡ old.redemptions ++ redemption ∷ []
    histories : d.histories ≡ old.histories
    schedules : d.schedules ≡ old.schedules
    answer : a.id ≡ redemption.id

  redemption-Inside :
      (r : OfferRedemption F)
      → IsRedemptionFor r
      → Inside
          (Staged Same Same)
          (Transactions.create_redemption_with_tx r)
          (λ a. Staged Same (IsRedeemed a))
          Same
  unfolding Transactions.create_redemption_with_tx
  redemption-Inside r fits = Inside-wrapping "failed to create redemption" (
      Inside-staged_insert {X = Same} {Y = IsRedeemed} (Transactions.inserted_redemption r)
        λ t x p a e same.
          let (is_db, is_row) = redemption_row r a t x p e in
          record {
            redemption = created_redemption r x.next_id t;
            fits = record {
              status_is = fits.status_is;
              offer = fits.offer;
              unrequested = fits.unrequested;
            };
            redemptions = rw is_db (rw same refl);
            histories = rw is_db (rw same refl);
            schedules = rw is_db (rw same refl);
            answer = rw is_row refl;
          })

  abbrev Entered : Database F → Type 0
  Entered d = IsRecorded k input s old d × (d.schedules ≡ old.schedules)

  history-Inside :
      (h : ScheduledOfferHistory) (a : OfferRedemption F)
      → IsHistoryFor h
      → Inside
          (Staged Same (IsRedeemed a))
          (Repository.create_history_with_tx (record h { offer_redemption_id = some a.id }))
          (λ _. Staged Same Entered)
          Same
  unfolding Repository.create_history_with_tx
  history-Inside h a fits =
      Inside-wrapping "failed to create history" (
        Inside-staged_insert (inserted_history (record h { offer_redemption_id = some a.id })) made)
    where
      made :
          (t : ℕ) (x p : Database F) (b : ScheduledOfferHistory)
          → inserted_history (record h { offer_redemption_id = some a.id }) t x ≡ some (p, b)
          → IsRedeemed a x
          → Entered p
      made t x p b e red =
          let linked : ScheduledOfferHistory = record h { offer_redemption_id = some a.id } in
          let is_db : p ≡ Repository.with_history (created_history linked x.next_id t) x =
            ground arith in
          (
            record {
              redemption = red.redemption;
              history = created_history linked x.next_id t;
              redemptions = rw is_db red.redemptions;
              histories = rw is_db (rw red.histories refl);
              linked = ap some red.answer;
              unrequested = red.fits.unrequested;
              of_schedule = (fits.schedule, red.fits.offer);
              numbered = fits.number;
              statuses = (red.fits.status_is, fits.status_is);
            },
            rw is_db red.schedules,
          )

  abbrev Finished : Database F → Type 0
  Finished d = IsRecorded k input s old d × IsFollowed k input s old d

  -- The records do not speak of the schedules.
  same_records :
      (x : Database F) (l : List ScheduledOffer)
      → IsRecorded k input s old x
      → IsRecorded k input s old (record x { schedules = l })
  same_records x l r = record {
    redemption = r.redemption;
    history = r.history;
    redemptions = r.redemptions;
    histories = r.histories;
    linked = r.linked;
    unrequested = r.unrequested;
    of_schedule = r.of_schedule;
    numbered = r.numbered;
    statuses = r.statuses;
  }

  -- A whole update of the schedule turns what is entered into what is finished.
  update-Inside :
      (label : String) (f : ℕ → ScheduledOffer → ScheduledOffer)
      (g : ℕ → Database F → Option (Database F × Bool))
      → ((t : ℕ) (x p : Database F) → g t x ≡ some (p, true) → p ≡ (update_schedule k (f t) x).0)
      → ((t : ℕ) (d : Database F)
          → d.schedules ≡ update_where (has_id k) (f t) old.schedules
          → IsFollowed k input s old d)
      → Inside
          (Staged Same Entered)
          (at_time λ t. affected (wrapping label (tx_exec (g t))))
          (λ _. Staged Same Finished)
          Same
  update-Inside label f g written followed =
      Inside-staged_update {X = Entered} {Y = Finished} label g λ t x p e h.
        let after : p ≡ record x { schedules = update_where (has_id k) (f t) x.schedules } =
          written t x p e in
        (
          rw after (same_records x _ h.0),
          followed t p (ap schedules_of after ∙ ap (update_where (has_id k) (f t)) h.1),
        )
    where
      schedules_of : Database F → List ScheduledOffer
      schedules_of d = d.schedules

  renew-Inside :
      (goes_on renews_itself : Bool) (last : ℕ)
      → Continues goes_on s (s.renewal_count + 1)
      → s.auto_renew && not input.is_failed ≡ renews_itself
      → Inside
          (Staged Same Entered)
          (Service.renew_or_complete goes_on renews_itself k s last)
          (λ _. Staged Same Finished)
          Same
  unfolding Service.renew_or_complete Repository.update_renewal_info_with_tx
      Repository.update_status_with_tx
  renew-Inside true true last c r = Inside-wrapping "failed to update renewal info" (
      update-Inside "failed to update renewal info"
        (renewed (next_after last s.renewal_period) last (s.renewal_count + 1))
        (λ t d. some (
          update_schedule k
            (renewed (next_after last s.renewal_period) last (s.renewal_count + 1) t) d))
        (λ t x p e. ground arith) (λ t d rows. renews t last c r rows))
  renew-Inside true false last c r = Inside-return tt λ d u h. (h.0, (h.1.0, stays c r h.1.1))
  renew-Inside false r last c e = Inside-wrapping "failed to update status" (
      update-Inside "failed to update status" (with_status completed)
        (λ t. admitted completed (update_schedule k (with_status completed t)))
        (λ t x p h. ground arith) (λ t d rows. completes t c rows))

  pub store-Inside :
      (r : OfferRedemption F) (h : ScheduledOfferHistory)
      → IsRedemptionFor r
      → IsHistoryFor h
      → Inside
          (Staged Same Same)
          (Service.store_execution k input s r h)
          (λ _. Staged Same Finished)
          Same
  unfolding Service.store_execution Service.record_execution
  store-Inside r h for_redemption for_history =
      Inside-bind
        (Inside-wrapping "failed to create redemption" (redemption-Inside r for_redemption))
        λ red.
          Inside-bind
            (Inside-wrapping "failed to create history" (history-Inside h red for_history))
            λ his. Inside-bind Inside-now λ last.
              Inside-bind (continue-Inside s (s.renewal_count + 1)) λ goes_on. Inside-assume λ c.
                Inside-bind (renew-Inside goes_on (s.auto_renew && not input.is_failed) last c refl)
                  λ _. Inside-return (red, his) λ d u h. h

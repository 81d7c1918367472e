-- ===== src/Schedule/Service.antt =====
-- internal/service/schedule/schedule_service.go. Logging is left out.
use bingwa.Prelude.{
  ℕ, ◌+◌, Bool, true, false, ◌&&◌, not, Option, none, some, List, [], ◌∷◌, Text, ◌==◌, ltb, select,
  if◌then◌else◌,
}
use bingwa.Float64.{Float64}
use bingwa.Domain.Subscription.{Reference}
use bingwa.Domain.Offer.{AgentOffer}
use bingwa.Domain.Transaction.{OfferRedemption}
use bingwa.Domain.Schedule.{
  RenewalPeriod, ScheduledOffer, ScheduledOfferHistory, CreateScheduledOfferRequest,
  UpdateScheduledOfferRequest, ExecuteScheduledOfferInput, is_active_schedule, completed,
}
use bingwa.Store.{
  Env, M, unauthorized, msg, pure, wrapping, attempt, refuse_if, now, transact, ◌>>=◌, ◌>>◌,
}
use bingwa.Store.Schema.{Schema}
use bingwa.Offer.Repository as Offers
use bingwa.Offer.Templates.{get_ussd_code_for_execution}
use bingwa.Transaction.Repository as Transactions
use bingwa.Transaction.Entities.{or_template}
use bingwa.Transaction.Service.{
  is_offered, dereferenced, generate_reference, generate_redemption_reference, now_if, customer_of,
}
use bingwa.Schedule.Repository
use bingwa.Schedule.Entities.{
  calculate_next_renewal, first_renewal, new_schedule, limit_reached, is_past, new_redemption,
  new_history, merged,
}

module _ {F : Type 0} ⦃env : Env⦄ where
  unfoldable pub generate_schedule_reference : M F Reference
  unfolding generate_reference
  generate_schedule_reference = generate_reference (b'S' ∷ b'C' ∷ b'H' ∷ [])

  unfoldable pub create_scheduled_offer : ℕ → CreateScheduledOfferRequest → M F ScheduledOffer
  unfolding customer_of generate_schedule_reference first_renewal new_schedule
  create_scheduled_offer agent req = do
    offer ← wrapping "offer not found" (Offers.find_offer req.offer_id)
    refuse_if (not (offer.agent_identity_id == agent))
        (msg "unauthorized: offer does not belong to agent")
    refuse_if (not (is_offered offer.status)) (msg "offer is not active")
    t ← now
    refuse_if (ltb req.scheduled_time t) (msg "scheduled time must be in the future")
    customer ← customer_of agent req.customer_phone
    reference ← generate_schedule_reference
    transact (
        wrapping "failed to create scheduled offer" (
          Repository.create_with_tx (
            new_schedule agent req reference
              (first_renewal req.auto_renew req.scheduled_time req.renewal_period) customer)))

  -- `shouldContinueRenewal`, which looks at the clock only where there is an end date
  unfoldable pub within_end : Option ℕ → M F Bool
  unfolding is_past
  within_end none = pure true
  within_end (some until) = do t ← now; pure (not (is_past (some until) t))

  unfoldable pub should_continue_renewal : ScheduledOffer → ℕ → M F Bool
  unfolding within_end limit_reached
  should_continue_renewal s count =
      if limit_reached s.renewal_limit count then pure false else within_end s.renew_until

  -- "Verify ownership", of the executions
  unfoldable pub find_own : ℕ → ℕ → M F ScheduledOffer
  find_own agent k = do
    s ← Repository.find_by_id k
    refuse_if (not (s.agent_identity_id == agent))
        (msg "unauthorized: scheduled offer does not belong to agent")
    pure s

module _ ⦃env : Env⦄ where
  -- The next date is the zero time, here 0, where there is no period.
  abbrev pub next_after : ℕ → Option RenewalPeriod → ℕ
  next_after last none = 0
  next_after last (some period) = calculate_next_renewal last period

module _ {F : Type 0} ⦃env : Env⦄ ⦃schema : Schema⦄ where
  -- "Update scheduled offer renewal info": the tests are whether the schedule goes on, and whether it
  -- renews by itself after a success.
  unfoldable pub renew_or_complete : Bool → Bool → ℕ → ScheduledOffer → ℕ → M F (Unit {0})
  unfolding calculate_next_renewal
  renew_or_complete true true k s last = wrapping "failed to update renewal info" (
      Repository.update_renewal_info_with_tx k (next_after last s.renewal_period) last
        (s.renewal_count + 1))
  renew_or_complete true false k s last = pure tt
  renew_or_complete false renews k s last =
      wrapping "failed to update status" (Repository.update_status_with_tx k completed)

  -- The statements of the transaction of `ExecuteScheduledOffer`, from the history on.
  unfoldable pub record_execution :
      ℕ
      → ExecuteScheduledOfferInput
      → ScheduledOffer
      → ScheduledOfferHistory
      → OfferRedemption F
      → M F (OfferRedemption F × ScheduledOfferHistory)
  unfolding should_continue_renewal renew_or_complete
  record_execution k input s history red = do
    his ←
        wrapping "failed to create history"
          (Repository.create_history_with_tx (record history { offer_redemption_id = some red.id }))
    last ← now
    continues ← should_continue_renewal s (s.renewal_count + 1)
    renew_or_complete continues (s.auto_renew && not input.is_failed) k s last
    pure (red, his)

  unfoldable pub store_execution :
      ℕ
      → ExecuteScheduledOfferInput
      → ScheduledOffer
      → OfferRedemption F
      → ScheduledOfferHistory
      → M F (OfferRedemption F × ScheduledOfferHistory)
  unfolding record_execution
  store_execution k input s redemption history = do
    red ← wrapping "failed to create redemption" (Transactions.create_redemption_with_tx redemption)
    record_execution k input s history red

module _ {F : Type 0} ⦃fl : Float64 F⦄ ⦃env : Env⦄ ⦃schema : Schema⦄ where
  -- `ExecuteScheduledOffer` from the reference on
  unfoldable pub build_execution :
      ℕ
      → ℕ
      → ExecuteScheduledOfferInput
      → ScheduledOffer
      → AgentOffer F
      → M F (OfferRedemption F × ScheduledOfferHistory)
  unfolding generate_redemption_reference now_if new_redemption new_history store_execution
  build_execution agent k input s offer = do
    reference ← generate_redemption_reference
    r ← attempt (get_ussd_code_for_execution offer.agent_identity_id offer.id s.customer_phone)
    info ← dereferenced r
    from ← now
    t ← now
    ended ← now_if (not input.is_failed)
    t' ← now
    transact (
        store_execution k input s
          (new_redemption agent input s offer reference
            (or_template info.ussd_code offer.ussd_code_template) info
            (from, env.add_date from 0 0 offer.validity_days, t, ended))
          (new_history k input s t'))

  unfoldable pub execute_scheduled_offer :
      ℕ → ℕ → ExecuteScheduledOfferInput → M F (OfferRedemption F × ScheduledOfferHistory)
  unfolding find_own build_execution
  execute_scheduled_offer agent k input = do
    s ← find_own agent k
    refuse_if (not (is_active_schedule s.status)) (msg "scheduled offer is not active")
    offer ← wrapping "offer not found" (Offers.find_offer s.offer_id)
    build_execution agent k input s offer

module _ {F : Type 0} ⦃env : Env⦄ where
  unfoldable pub get_scheduled_offer : ℕ → ℕ → M F ScheduledOffer
  get_scheduled_offer agent k = do
    s ← Repository.find_by_id k
    refuse_if (not (s.agent_identity_id == agent)) unauthorized
    pure s

  -- The loop that filters by agent
  unfoldable pub get_due_schedules : ℕ → M F (List ScheduledOffer)
  get_due_schedules agent = do
    all ← wrapping "failed to get due schedules" Repository.get_due_schedules
    pure (select (λ s. s.agent_identity_id == agent) all)

  unfoldable pub update_scheduled_offer : ℕ → ℕ → UpdateScheduledOfferRequest → M F ScheduledOffer
  unfolding get_scheduled_offer merged
  update_scheduled_offer agent k req = do
    s ← get_scheduled_offer agent k
    wrapping "failed to update scheduled offer" (Repository.update k (merged req s))
    Repository.find_by_id k

module _ {F : Type 0} ⦃env : Env⦄ ⦃schema : Schema⦄ where
  unfoldable pub pause_scheduled_offer : ℕ → ℕ → M F (Unit {0})
  unfolding get_scheduled_offer
  pause_scheduled_offer agent k = do
    _ ← get_scheduled_offer agent k
    wrapping "failed to pause schedule" (Repository.pause_schedule k)

  unfoldable pub resume_scheduled_offer : ℕ → ℕ → M F (Unit {0})
  unfolding get_scheduled_offer
  resume_scheduled_offer agent k = do
    _ ← get_scheduled_offer agent k
    wrapping "failed to resume schedule" (Repository.resume_schedule k)

  unfoldable pub cancel_scheduled_offer : ℕ → ℕ → Text → M F (Unit {0})
  unfolding get_scheduled_offer
  cancel_scheduled_offer agent k reason = do
    _ ← get_scheduled_offer agent k
    wrapping "failed to cancel schedule" (Repository.cancel_schedule k reason)

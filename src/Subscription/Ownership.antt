-- ===== src/Subscription/Ownership.antt =====
-- `UpdateSubscription` and `CancelSubscription`: who may call them, and what they write.
use bingwa.Prelude.{
  ℕ, ◌≡◌, refl, ◌∙◌, ap, Bool, true, false, ◌==◌, List, [], ◌∷◌, map, ◌⊎◌, inl, inr, All, find_row,
  update_where, update_where-none, map-update_where, Bool-cases, String, Text, arith,
}
use bingwa.Domain.Subscription.{
  AgentSubscription, SubscriptionPlan, UpdateSubscriptionRequest, CancelSubscriptionRequest,
  is_active, is_cancelled,
}
use bingwa.Store.{
  Env, World, Database, msg, unauthorized, wrapping, at_time, affected, exec_subscription,
}
use bingwa.Store.Triples.{
  Ends, Triple, Triple-bind, Triple-wrapping, Triple-refuse_if, Triple-weaken, Triple-assume,
}
use bingwa.Store.Reads.{Triple-find_any}
use bingwa.Store.Locks.{Triple-update_subscription}
use bingwa.Subscription.Repository as Subscriptions
use bingwa.Subscription.Entities.{is_foreign, merged}
use bingwa.Subscription.Lookups.{Fixed, IsStored, find_by_id-Triple}
use bingwa.Subscription.Service.{update_subscription, cancel_subscription}

module _ {F : Type 0} where
  -- The columns that `Update` writes.
  abbrev pub edited : AgentSubscription F → ℕ → AgentSubscription F → AgentSubscription F
  edited s t row = record row { auto_renew = s.auto_renew; metadata = s.metadata; updated_at = t }

  -- The caller is an admin or owns the subscription.
  abbrev pub MayWrite : Bool → ℕ → AgentSubscription F → Type 0
  MayWrite is_admin agent s = is_foreign is_admin agent s ≡ false

  -- Which rows are an agent's current subscriptions at a time.
  abbrev pub currents : ℕ → ℕ → List (AgentSubscription F) → List Bool
  currents agent t = map (Subscriptions.is_current agent t)

  -- No row with the id `k` is active.
  abbrev pub Inactive : ℕ → List (AgentSubscription F) → Type 0
  Inactive k = All λ row. ((row.id == k) ≡ true) → is_active row.status ≡ false

  update_where-Inactive :
      (k : ℕ) (f : AgentSubscription F → AgentSubscription F) (xs : List (AgentSubscription F))
      → ((s : AgentSubscription F) → is_active (f s).status ≡ false)
      → Inactive k (update_where (Subscriptions.has_id k) f xs)
  update_where-Inactive k f [] set = tt
  update_where-Inactive k f (s ∷ xs) set = elim (Bool-cases (s.id == k)) [
    | inl hit ↦ rw hit ((λ _. set s), update_where-Inactive k f xs set)
    | inr miss ↦ rw miss ((λ h. ground arith), update_where-Inactive k f xs set)
  ]

module _ {F : Type 0} ⦃env : Env⦄ (agent k : ℕ) (is_admin : Bool) where
  module _ (plans : List (SubscriptionPlan F)) (old : List (AgentSubscription F)) where
    -- What a permitted call writes to the rows with the id `k`.
    abbrev pub Written : (ℕ → AgentSubscription F → AgentSubscription F) → Database F → Type 0
    Written f d = (t : ℕ) × (d.subscriptions ≡ update_where (Subscriptions.has_id k) (f t) old)

    write-Triple :
        (message : String) (f : ℕ → AgentSubscription F → AgentSubscription F)
        → Triple
            (Fixed old plans)
            (at_time λ t.
              affected (
                wrapping message (exec_subscription k (Subscriptions.update_subscription k (f t)))))
            (λ _. Written f)
            (Fixed old plans)
    write-Triple message f =
        Triple-update_subscription message k (λ t. Subscriptions.update_subscription k (f t))
          (λ t d h hit. (t, ap (update_where (Subscriptions.has_id k) (f t)) h.0))
          (λ t d h miss.
            (update_where-none (Subscriptions.has_id k) (f t) d.subscriptions miss ∙ h.0, h.1))

    pub cancel-Triple :
        (req : CancelSubscriptionRequest)
        → Triple
            (Fixed old plans)
            (cancel_subscription agent k req is_admin)
            (λ _ d.
              (s : AgentSubscription F) × IsStored k old s
              × MayWrite is_admin agent s
              × (is_cancelled s.status ≡ false)
              × Written (Subscriptions.cancelled_by req.cancel_immediately req.reason) d)
            (Fixed old plans)
    unfolding cancel_subscription Subscriptions.cancel_subscription
    cancel-Triple req = Triple-bind (find_by_id-Triple k) λ s. Triple-assume λ found.
        Triple-bind (Triple-refuse_if (is_foreign is_admin agent s) unauthorized) λ _.
          Triple-assume λ may.
            Triple-bind
              (Triple-refuse_if (is_cancelled s.status) (msg "subscription is already cancelled"))
              λ _. Triple-assume λ live.
                Triple-weaken (λ d h. h) (λ _ d h. (s, found, may, live, h)) (λ d h. h)
                  (Triple-wrapping "failed to cancel subscription" (
                    write-Triple "failed to cancel subscription"
                      (Subscriptions.cancelled_by req.cancel_immediately req.reason)))

    -- A permitted edit: of what was read, the request's changes are written.
    abbrev pub Edited : UpdateSubscriptionRequest F → Database F → Type 0
    Edited req d =
        (s : AgentSubscription F) × IsStored k old s
        × MayWrite is_admin agent s
        × Written (edited (merged req s)) d

    -- Nothing is written, or the edit is, where only the last read failed.
    abbrev EditFailed : UpdateSubscriptionRequest F → Database F → Type 0
    EditFailed req d = (d.subscriptions ≡ old) ⊎ Edited req d

    update-Triple :
        (req : UpdateSubscriptionRequest F)
        → Triple
            (Fixed old plans)
            (update_subscription agent k req is_admin)
            (λ _. Edited req)
            (EditFailed req)
    unfolding update_subscription Subscriptions.update Subscriptions.find_by_id
    update-Triple req =
        Triple-bind (Triple-weaken (λ d h. h) (λ s d h. h) (λ d h. inl h.0) (find_by_id-Triple k))
          λ s. Triple-assume λ found.
            Triple-bind
              (Triple-weaken (λ d h. h) (λ s d h. h) (λ d h. inl h.0)
                (Triple-refuse_if (is_foreign is_admin agent s) unauthorized))
              λ _. Triple-assume λ may.
                Triple-bind {Q = λ _. Edited req}
                  (Triple-weaken (λ d h. h) (λ _ d h. (s, found, may, h)) (λ d h. inl h.0)
                    (Triple-wrapping "failed to update subscription"
                      (write-Triple "failed to update subscription" (edited (merged req s)))))
                  λ _.
                    Triple-weaken (λ d h. h) (λ a d h. h) (λ d h. inr h)
                      (Triple-find_any (Edited req) "failed to find subscription"
                        (λ _ d. find_row (Subscriptions.has_id k) d.subscriptions))

    -- An immediate cancellation leaves no active row with the id; one at the period's end leaves the
    -- current subscriptions of every agent as they are.
    abbrev pub IsCancelled : Bool → Database F → Type 0
    IsCancelled true d = Inactive k d.subscriptions
    IsCancelled false d = (a t : ℕ) → currents a t d.subscriptions ≡ currents a t old

    cancelled_by-IsCancelled :
        (immediately : Bool) (reason : Text) (d : Database F)
        → Written (Subscriptions.cancelled_by immediately reason) d
        → IsCancelled immediately d
    cancelled_by-IsCancelled true reason d (t, e) = rw e (update_where-Inactive k _ old (λ s. refl))
    cancelled_by-IsCancelled false reason d (t, e) = λ a now. rw e (
        map-update_where (Subscriptions.is_current a now) (Subscriptions.has_id k) _ old
          (λ s. refl))

  -- If `CancelSubscription` succeeds, the caller is an admin or owns the subscription, which was not
  -- cancelled; an immediate cancellation leaves no active row with its id, one at the period's end
  -- leaves every agent's current subscriptions as they were. If it returns an error, no
  -- subscription is changed.
  pub cancel_subscription-Ends :
      (req : CancelSubscriptionRequest) (w : World F)
      → let old = w.db.subscriptions in
        Ends
          (λ _ d.
            (s : AgentSubscription F) × IsStored k old s
            × MayWrite is_admin agent s
            × (is_cancelled s.status ≡ false)
            × IsCancelled w.db.plans old req.cancel_immediately d)
          (λ d. d.subscriptions ≡ old)
          (cancel_subscription agent k req is_admin w)
  cancel_subscription-Ends req w =
      let old = w.db.subscriptions in
      (Triple-weaken (λ d h. h)
          (λ _ d (s, found, may, live, written). (
            s,
            found,
            may,
            live,
            cancelled_by-IsCancelled w.db.plans old req.cancel_immediately req.reason d written,
          ))
          (λ d h. h.0) (cancel-Triple w.db.plans old req)).apply
        w (refl, refl)

  -- `UpdateSubscription` by an admin or the owner writes nothing but the renewal flag and the
  -- metadata of the request, to the rows with the id; any other caller gets an error, and an error
  -- means that nothing is written, or that only the last read failed.
  pub update_subscription-Ends :
      (req : UpdateSubscriptionRequest F) (w : World F)
      → let old = w.db.subscriptions in
        let done = Edited w.db.plans old req in
        Ends
          (λ _. done)
          (λ d. (d.subscriptions ≡ old) ⊎ done d)
          (update_subscription agent k req is_admin w)
  update_subscription-Ends req w =
      (update-Triple w.db.plans w.db.subscriptions req).apply w (refl, refl)

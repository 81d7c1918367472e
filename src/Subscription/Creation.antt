-- ===== src/Subscription/Creation.antt =====
-- `CreateSubscription`: what a new subscription is, and what it leaves in the tables.
use bingwa.Prelude.{
  ℕ, ◌+◌, ◌≡◌, refl, sym, ◌∙◌, ap, subst, Bool, true, false, Option, none, some, List, [], ◌∷◌,
  ◌++◌, String, if◌then◌else◌,
}
use bingwa.Domain.Campaign.{PromotionalCampaign}
use bingwa.Domain.Subscription.{AgentSubscription}
use bingwa.Store.{
  Result, ok, err, Env, World, Database, M, driver, wrapping, attempt, affected, pure, fails,
  next_step, rollback, ◌>>=◌, ◌>>◌,
}
use bingwa.Store.Triples.{Ends}
use bingwa.Store.Transactions.{EndsInside, transact-Ends}
use bingwa.Campaign.Repository
use bingwa.Subscription.Repository as Subscriptions
use bingwa.Subscription.Service.{count_use, create_and_count, store_subscription}

module _ {F : Type 0} ⦃env : Env⦄ where
  written_or_not :
      (b : Bool) (d : Database F) (cs : List (PromotionalCampaign F))
      → (if b then d else record d { campaigns = cs })
        ≡ record d { campaigns = if b then d.campaigns else cs }
  written_or_not true d cs = refl
  written_or_not false d cs = refl

  only_logged :
      (message : String) (r : Result Bool) (w : World F)
      → let m : M F Bool = λ _. (r, w) in
        (attempt (affected (wrapping message m)) >>= λ _. pure tt) w ≡ (ok tt, w)
  only_logged message (ok true) w = refl
  only_logged message (ok false) w = refl
  only_logged message (err e) w = refl

  -- The count of a campaign's uses is kept in the campaigns alone, and its error is dropped.
  pub count_use-campaigns :
      (c : Option ℕ) (w : World F)
      → (cs : List (PromotionalCampaign F)) × (n : ℕ) × (count_use c w
          ≡ (ok tt, record w { db = record w.db { campaigns = cs }; steps = n }))
  unfolding count_use Repository.increment_uses
  count_use-campaigns none w = (w.db.campaigns, w.steps, refl)
  count_use-campaigns (some c) w = (
    _,
    _,
    only_logged _ _ _
        ∙ ap (λ d. (ok tt, record w { db = d; steps = w.steps + 1 }))
            (written_or_not (fails w) w.db _),
  )

  -- Nothing of a subscription is stored before the commit.
  abbrev pub NewRow :
      AgentSubscription F → List (AgentSubscription F) → AgentSubscription F → Database F → Type 0
  NewRow s old row d =
      (t : ℕ) × (k : ℕ) × (row ≡ Subscriptions.created s k t) × (d.subscriptions ≡ old ++ row ∷ [])

  counted_ends :
      (s : AgentSubscription F) (c : Option ℕ) (w : World F) (t k : ℕ)
      → let row = (Subscriptions.inserted s t w.db).1 in
        let w' = record w { uncommitted = λ d. (Subscriptions.inserted s t d).0; steps = k } in
        EndsInside
          (NewRow s w.db.subscriptions)
          (λ d. d.subscriptions ≡ w.db.subscriptions)
          ((count_use c >> pure row) w')
  counted_ends s c w t k =
      let w' = record w { uncommitted = λ d. (Subscriptions.inserted s t d).0; steps = k } in
      let row = (Subscriptions.inserted s t w.db).1 in
      let (cs, n, counted) = count_use-campaigns c w' in
      subst
        (λ o.
          EndsInside (NewRow s w.db.subscriptions) (λ d. d.subscriptions ≡ w.db.subscriptions)
            (((λ _. o) >> pure row) w'))
        (sym counted) (refl, λ _. (t, w.db.next_id, refl, refl))

  inserted_ends :
      (s : AgentSubscription F) (c : Option ℕ) (w : World F) (b : Bool)
      → let t = env.clock w.steps in
        let insertion : M F (AgentSubscription F) = λ _. (
          if b then err (driver w.steps) else ok (Subscriptions.inserted s t w.db).1,
          record w {
            uncommitted = if b then (λ d. d) else (λ d. (Subscriptions.inserted s t d).0);
            steps = w.steps + 1;
          },
        ) in
        EndsInside
          (NewRow s w.db.subscriptions)
          (λ d. d.subscriptions ≡ w.db.subscriptions)
          ((do
            row ←
                wrapping "failed to create subscription"
                  (wrapping "failed to create subscription" insertion)
            count_use c
            pure row)
            w)
  inserted_ends s c w true = refl
  inserted_ends s c w false = counted_ends s c w _ _

  abbrev pub Untouched : List (AgentSubscription F) → Database F → Type 0
  Untouched old d = d.subscriptions ≡ old

  -- The transaction of `CreateSubscription` adds the row that it returns, or stores nothing of it.
  pub store_subscription-Ends :
      (s : AgentSubscription F) (c : Option ℕ) (w : World F)
      → let old = w.db.subscriptions in
        Ends (NewRow s old) (Untouched old) (store_subscription s c w)
  unfolding store_subscription Subscriptions.create_with_tx
  store_subscription-Ends s c w =
      let w' = next_step (rollback w) in
      let old = w.db.subscriptions in
      transact-Ends (NewRow s old) (Untouched old) (create_and_count s c) w refl
        (inserted_ends s c w' (fails w'))

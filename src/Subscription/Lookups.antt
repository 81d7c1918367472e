-- ===== src/Subscription/Lookups.antt =====
-- The lookups with which the operations of subscription_service.go begin, on fixed tables.
use bingwa.Prelude.{
  ℕ, ◌≡◌, ◌≤◌, ◌<◌, refl, subst, Bool, true, false, Option, none, some, List, [], ◌∷◌, inl, inr,
  All, All-weaken, Contains, Bool-cases, if◌then◌else◌, ltb, find_row, arith,
}
use bingwa.Domain.Subscription.{SubscriptionPlan, AgentSubscription, is_active}
use bingwa.Store.{Env, World, Database, query}
use bingwa.Store.Triples.{Ends, Ends-found, Triple, Triple-find_one, Triple-weaken}
use bingwa.Subscription.Repository as Subscriptions

module _ {F : Type 0} where
  -- The tables of plans and subscriptions are these.
  abbrev pub Fixed : List (AgentSubscription F) → List (SubscriptionPlan F) → Database F → Type 0
  Fixed old plans d = (d.subscriptions ≡ old) × (d.plans ≡ plans)

  -- `s` is in the table, the agent's, active and not over at the time `t`, and of all such rows it
  -- ends the latest.
  pub record IsLatest (agent t : ℕ) (old : List (AgentSubscription F)) (s : AgentSubscription F)
      : Type 0 where
    pub in_table : Contains s old
    pub owner : s.agent_identity_id ≡ agent
    pub active : is_active s.status ≡ true
    pub unexpired : t < s.current_period_end
    pub ends_last :
        All
          (λ x.
            x.agent_identity_id ≡ agent
            → is_active x.status ≡ true
            → t < x.current_period_end
            → x.current_period_end ≤ s.current_period_end)
          old

  abbrev pub IsOffered : ℕ → List (SubscriptionPlan F) → SubscriptionPlan F → Type 0
  IsOffered k plans plan = find_row (Subscriptions.plan_has_id k) plans ≡ some plan

  abbrev pub IsStored : ℕ → List (AgentSubscription F) → AgentSubscription F → Type 0
  IsStored k old s = find_row (Subscriptions.has_id k) old ≡ some s

module _ {F : Type 0} (p : AgentSubscription F → Bool) where
  -- What `latest` has found among the rows.
  Best : List (AgentSubscription F) → Option (AgentSubscription F) → Type 0
  Best xs none = All (λ x. p x ≡ false) xs
  Best xs (some s) =
      Contains s xs
      × (p s ≡ true)
      × All (λ x. p x ≡ true → x.current_period_end ≤ s.current_period_end) xs

  step-Best :
      (x : AgentSubscription F) (xs : List (AgentSubscription F)) (o : Option (AgentSubscription F))
      → Best xs o
      → Best (x ∷ xs) (if p x then some (Subscriptions.later_of x o) else o)
  unfolding Best
  step-Best x xs o h = elim (Bool-cases (p x)) [
    | inl hit ↦ rw hit (with_row o hit h)
    | inr miss ↦ rw miss (without o miss h)
  ]
    where
      without : (o : Option (AgentSubscription F)) → p x ≡ false → Best xs o → Best (x ∷ xs) o
      without none miss h = (miss, h)
      without (some s) miss h = (inr h.0, h.1, ((λ e. ground (arith, miss, e)), h.2))

      one_of :
          (b : Bool) (r : AgentSubscription F)
          → p x ≡ true
          → ltb x.current_period_end r.current_period_end ≡ b
          → Best xs (some r)
          → Best (x ∷ xs) (some (if b then r else x))
      one_of true r hit later h = (inr h.0, h.1, ((λ e. ground (arith, later)), h.2))
      one_of false r hit first h = (
        inl refl,
        hit,
        (
          (λ e. omega arith),
          All-weaken (λ y. p y ≡ true → y.current_period_end ≤ r.current_period_end)
              (λ y. p y ≡ true → y.current_period_end ≤ x.current_period_end) xs
              (λ y below e. ground (arith, first, below e)) h.2,
        ),
      )

      with_row :
          (o : Option (AgentSubscription F))
          → p x ≡ true
          → Best xs o
          → Best (x ∷ xs) (some (Subscriptions.later_of x o))
      with_row none hit h = (
        inl refl,
        hit,
        (
          (λ e. omega arith),
          All-weaken (λ y. p y ≡ false)
              (λ y. p y ≡ true → y.current_period_end ≤ x.current_period_end) xs
              (λ y miss e. ground (arith, miss, e)) h,
        ),
      )
      with_row (some r) hit h = one_of (ltb x.current_period_end r.current_period_end) r hit refl h

  latest-Best : (xs : List (AgentSubscription F)) → Best xs (Subscriptions.latest p xs)
  unfolding Best
  latest-Best [] = tt
  latest-Best (x ∷ xs) = step-Best x xs (Subscriptions.latest p xs) (latest-Best xs)

-- The lookup's `SELECT` gives the row that ends the latest.
latest-IsLatest :
    {F : Type 0} (agent t : ℕ) (old : List (AgentSubscription F)) (s : AgentSubscription F)
    → Subscriptions.latest (Subscriptions.is_current agent t) old ≡ some s
    → IsLatest agent t old s
unfolding Best
latest-IsLatest agent t old s e =
    let h =
      subst (Best (Subscriptions.is_current agent t) old) e
        (latest-Best (Subscriptions.is_current agent t) old) in
    record {
      in_table = h.0;
      owner = ground (arith, h.1);
      active = ground (arith, h.1);
      unexpired = ground (arith, h.1);
      ends_last =
          All-weaken
            (λ x.
              Subscriptions.is_current agent t x ≡ true
              → x.current_period_end ≤ s.current_period_end)
            (λ x.
              x.agent_identity_id ≡ agent
              → is_active x.status ≡ true
              → t < x.current_period_end
              → x.current_period_end ≤ s.current_period_end)
            old (λ x below mine live ahead. below (ground (arith, mine, live, ahead))) h.2;
    }

module _ {F : Type 0} ⦃env : Env⦄ {old : List (AgentSubscription F)}
    {plans : List (SubscriptionPlan F)} where
  -- The lookup of the agent's subscription, at the time on the clock when it begins.
  pub find_active-Ends :
      (agent : ℕ) (w : World F)
      → Fixed old plans w.db
      → Ends
          (λ s d. IsLatest agent (env.clock w.steps) old s × Fixed old plans d)
          (Fixed old plans)
          (Subscriptions.find_active_by_agent agent w)
  unfolding Subscriptions.find_active_by_agent
  find_active-Ends agent w h =
      let read =
        query (λ t d. Subscriptions.latest (Subscriptions.is_current agent t) d.subscriptions) in
      Ends-found (λ s d. IsLatest agent (env.clock w.steps) old s × Fixed old plans d)
        (Fixed old plans) "failed to find active subscription" (read w).0 (read w).1
        (λ s e. (found s (ground (arith, e)), h)) h
    where
      found :
          (s : AgentSubscription F)
          → Subscriptions.latest
              (Subscriptions.is_current agent (env.clock w.steps))
              w.db.subscriptions
            ≡ some s
          → IsLatest agent (env.clock w.steps) old s
      found s e =
          subst (λ l. IsLatest agent (env.clock w.steps) l s) h.0
            (latest-IsLatest agent (env.clock w.steps) w.db.subscriptions s e)

  pub find_plan-Triple :
      (k : ℕ)
      → Triple
          (Fixed old plans)
          (Subscriptions.find_plan_by_id k)
          (λ plan d. IsOffered k plans plan × Fixed old plans d)
          (Fixed old plans)
  unfolding Subscriptions.find_plan_by_id
  find_plan-Triple k =
      Triple-weaken (λ d h. h) (λ plan d h. (subst (λ ps. IsOffered k ps plan) h.1.1 h.0.1, h.1))
        (λ d h. h)
        (Triple-find_one "failed to find subscription plan"
          (λ _ d. find_row (Subscriptions.plan_has_id k) d.plans))

  pub find_by_id-Triple :
      (k : ℕ)
      → Triple
          (Fixed old plans)
          (Subscriptions.find_by_id k)
          (λ s d. IsStored k old s × Fixed old plans d)
          (Fixed old plans)
  unfolding Subscriptions.find_by_id
  find_by_id-Triple k =
      Triple-weaken (λ d h. h) (λ s d h. (subst (λ l. IsStored k l s) h.1.0 h.0.1, h.1)) (λ d h. h)
        (Triple-find_one "failed to find subscription"
          (λ _ d. find_row (Subscriptions.has_id k) d.subscriptions))

-- ===== src/Subscription/Repository.antt =====
-- internal/repository/postgres/agent_subscription_repo.go, and the lookup of a plan in
-- subscription_plans.go: one function for each statement.
use bingwa.Prelude.{
  null_string, ℕ, ◌+◌, Bool, true, false, ◌&&◌, Option, none, some, List, [], ◌∷◌, ◌++◌, Text, ◌==◌,
  ltb, find_row, any_row, update_where, if◌then◌else◌,
}
use bingwa.Domain.Subscription.{
  SubscriptionPlan, AgentSubscription, SubscriptionStatus, is_active, cancelled,
}
use bingwa.Store.{
  Database, Env, M, query, at_time, exec_subscription, tx_exec_subscription, tx_insert, affected,
  find_one, wrapping,
}

module _ {F : Type 0} where
  abbrev pub has_id : ℕ → AgentSubscription F → Bool
  has_id k s = s.id == k

  abbrev pub plan_has_id : ℕ → SubscriptionPlan F → Bool
  plan_has_id k p = p.id == k

  -- `WHERE agent_identity_id = $1 AND status = 'active' AND current_period_end > NOW()`
  abbrev pub is_current : ℕ → ℕ → AgentSubscription F → Bool
  is_current agent t s =
      s.agent_identity_id == agent && is_active s.status && ltb t s.current_period_end

  abbrev pub later_of : AgentSubscription F → Option (AgentSubscription F) → AgentSubscription F
  later_of s none = s
  later_of s (some r) = if ltb s.current_period_end r.current_period_end then r else s

  -- `ORDER BY current_period_end DESC LIMIT 1`
  abbrev pub latest :
      (AgentSubscription F → Bool) → List (AgentSubscription F) → Option (AgentSubscription F)
  latest p [] = none
  latest p (s ∷ rest) = let best = latest p rest in if p s then some (later_of s best) else best

  -- UPDATE agent_subscriptions SET f WHERE id = k
  abbrev pub update_subscription :
      ℕ → (AgentSubscription F → AgentSubscription F) → Database F → Database F × Bool
  update_subscription k f d = (
    record d { subscriptions = update_where (has_id k) f d.subscriptions },
    any_row (has_id k) d.subscriptions,
  )

  -- What `CreateWithTx` inserts: the columns of the statement, and the defaults of the rest.
  abbrev pub created : AgentSubscription F → ℕ → ℕ → AgentSubscription F
  created s k t = record s {
    id = k;
    renewal_count = 0;
    requests_used = 0;
    cancelled_at = none;
    cancellation_reason = none;
    created_at = t;
    updated_at = t;
  }

  abbrev pub with_subscription : AgentSubscription F → Database F → Database F
  with_subscription s d = record d {
    subscriptions = d.subscriptions ++ s ∷ [];
    next_id = d.next_id + 1;
  }

  abbrev pub inserted : AgentSubscription F → ℕ → Database F → Database F × AgentSubscription F
  inserted s t d = let row = created s d.next_id t in (with_subscription row d, row)

  -- The columns that `UpdateRenewalInfoWithTx` writes.
  abbrev pub renewed : ℕ → ℕ → ℕ → ℕ → ℕ → AgentSubscription F → AgentSubscription F
  renewed start end next count t s = record s {
    current_period_start = start;
    current_period_end = end;
    next_billing_date = some next;
    renewal_count = count;
    updated_at = t;
  }

  -- The two statements of `CancelSubscription`.
  abbrev pub cancelled_by : Bool → Text → ℕ → AgentSubscription F → AgentSubscription F
  cancelled_by true reason t s = record s {
    status = cancelled;
    cancelled_at = some t;
    cancellation_reason = null_string reason;
    current_period_end = t;
    updated_at = t;
  }
  cancelled_by false reason t s = record s {
    cancelled_at = some t;
    cancellation_reason = null_string reason;
    auto_renew = false;
    updated_at = t;
  }

module _ {F : Type 0} ⦃env : Env⦄ where
  unfoldable pub find_plan_by_id : ℕ → M F (SubscriptionPlan F)
  find_plan_by_id k =
      find_one "failed to find subscription plan" (query λ _ d. find_row (plan_has_id k) d.plans)

  unfoldable pub find_by_id : ℕ → M F (AgentSubscription F)
  find_by_id k =
      find_one "failed to find subscription" (query λ _ d. find_row (has_id k) d.subscriptions)

  unfoldable pub find_active_by_agent : ℕ → M F (AgentSubscription F)
  find_active_by_agent agent =
      find_one "failed to find active subscription"
        (query λ t d. latest (is_current agent t) d.subscriptions)

  unfoldable pub create_with_tx : AgentSubscription F → M F (AgentSubscription F)
  create_with_tx s = wrapping "failed to create subscription" (tx_insert (inserted s))

  unfoldable pub update : ℕ → AgentSubscription F → M F (Unit {0})
  update k s = at_time λ t. affected (
      wrapping "failed to update subscription" (
        exec_subscription k (
          update_subscription k λ row. record row {
            auto_renew = s.auto_renew;
            metadata = s.metadata;
            updated_at = t;
          })))

  unfoldable pub update_status_with_tx : ℕ → SubscriptionStatus → M F (Unit {0})
  update_status_with_tx k status = at_time λ t. affected (
      wrapping "failed to update status" (
        tx_exec_subscription k
          (update_subscription k λ row. record row { status = status; updated_at = t })))

  unfoldable pub update_renewal_info_with_tx : ℕ → ℕ → ℕ → ℕ → ℕ → M F (Unit {0})
  update_renewal_info_with_tx k start end next count = at_time λ t. affected (
      wrapping "failed to update renewal info"
        (tx_exec_subscription k (update_subscription k (renewed start end next count t))))

  unfoldable pub increment_request_usage : ℕ → M F (Unit {0})
  increment_request_usage k = at_time λ t. affected (
      wrapping "failed to increment request usage" (
        exec_subscription k (
          update_subscription k
            λ row. record row { requests_used = row.requests_used + 1; updated_at = t })))

  unfoldable pub reset_request_usage : ℕ → M F (Unit {0})
  reset_request_usage k = at_time λ t. affected (
      wrapping "failed to reset request usage" (
        exec_subscription k
          (update_subscription k λ row. record row { requests_used = 0; updated_at = t })))

  unfoldable pub cancel_subscription : ℕ → Text → Bool → M F (Unit {0})
  cancel_subscription k reason immediately = at_time λ t. affected (
      wrapping "failed to cancel subscription"
        (exec_subscription k (update_subscription k (cancelled_by immediately reason t))))

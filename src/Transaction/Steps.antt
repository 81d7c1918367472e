-- ===== src/Transaction/Steps.antt =====
-- What the calls of other services in transaction_service.go leave alone.
use bingwa.Prelude.{ltb, ℕ, ◌≡◌, refl, Bool, true, false, Text, find_row}
use bingwa.Float64.{Float64}
use bingwa.Domain.Subscription.{AgentSubscription, is_active}
use bingwa.Store.{Result, ok, err, Env, Database, World}
use bingwa.Store.Triples.{Triple, Triple-bind, Triple-wrapping, Triple-pure, Triple-now, Ends}
use bingwa.Store.Reads.{Triple-attempt, Triple-find_any, Triple-unchanged}
use bingwa.Subscription.Repository as Subscriptions
use bingwa.Subscription.Service.{
  check_plan, check_period, check_found, check_subscription_access, plan_allows,
}
use bingwa.Subscription.Quotes.{random-Reads}
use bingwa.Customer.Keeping.{Keeps}
use bingwa.Customer.Validity.{inserted_row}
use bingwa.Customer.Editing.{get_or_create-Triple}
use bingwa.Domain.Offer.{UssdCodeExecutionInfo}
use bingwa.Offer.Templates.{get_ussd_code_for_execution}
use bingwa.Offer.Execution.{IsOwned, execution-Reads}
use bingwa.Transaction.Service

-- A predicate on the tables that does not speak of the customers.
pub record IgnoresCustomers {F : Type 0} (P : Database F → Type 0) : Type 0 where
  pub ignores :
      (d d' : Database F)
      → d'.requests ≡ d.requests
      → d'.redemptions ≡ d.redemptions
      → d'.offers ≡ d.offers
      → d'.schedules ≡ d.schedules
      → d'.histories ≡ d.histories
      → d'.plans ≡ d.plans
      → d'.subscriptions ≡ d.subscriptions
      → d'.campaigns ≡ d.campaigns
      → d'.ussd_codes ≡ d.ussd_codes
      → P d
      → P d'

module _ {F : Type 0} ⦃env : Env⦄ (P : Database F → Type 0) where
  ignoring-Keeps : (agent : ℕ) → IgnoresCustomers P → Keeps agent P
  ignoring-Keeps agent i = record {
    insert = λ c t d d' row mine fine e h.
        let (is_row, is_db, free) = inserted_row c t d d' row e in
        rw is_db (i.ignores d _ refl refl refl refl refl refl refl refl refl h);
    write = λ k c f d e mine edit h. i.ignores d _ refl refl refl refl refl refl refl refl refl h;
  }

  pub customer_of-Triple :
      IgnoresCustomers P
      → (agent : ℕ) (phone : Text) → Triple P (Service.customer_of agent phone) (λ _. P) P
  unfolding Service.customer_of
  customer_of-Triple i agent phone =
      Triple-bind (Triple-attempt (get_or_create-Triple agent P (ignoring-Keeps agent i) phone))
        λ r. Triple-pure (Service.or_none r)

  pub reference-Triple : (prefix : Text) → Triple P (Service.generate_reference prefix) (λ _. P) P
  unfolding Service.generate_reference
  reference-Triple prefix = Triple-bind Triple-now λ t.
      Triple-bind (random-Reads 6 P)
        λ random. Triple-pure (record { prefix = prefix; made_at = env.second t; random = random })

  pub now_if-Triple : (b : Bool) → Triple P (Service.now_if b) (λ _. P) P
  unfolding Service.now_if
  now_if-Triple false = record { apply = λ w h. h }
  now_if-Triple true = record { apply = λ w h. h }

  pub dereferenced-Triple :
      (r : Result UssdCodeExecutionInfo) → Triple P (Service.dereferenced r) (λ _. P) P
  dereferenced-Triple (ok info) = record { apply = λ w h. h }
  dereferenced-Triple (err e) = record { apply = λ w h. h }

  plan-Triple : (b : Bool) (s : AgentSubscription F) → Triple P (check_plan b s) (λ _. P) P
  unfolding check_plan Subscriptions.find_plan_by_id
  plan-Triple true s = Triple-pure false
  plan-Triple false s =
      Triple-bind
        (Triple-attempt (
          Triple-find_any P "failed to find subscription plan"
            (λ _ d. find_row (Subscriptions.plan_has_id s.subscription_plan_id) d.plans)))
        λ plan. Triple-pure (plan_allows s plan)

  period-Triple : (b : Bool) (s : AgentSubscription F) → Triple P (check_period b s) (λ _. P) P
  unfolding check_period
  period-Triple false s = Triple-pure false
  period-Triple true s = Triple-bind Triple-now λ t. plan-Triple (ltb s.current_period_end t) s

  subscription_found-Triple :
      (r : Result (AgentSubscription F)) → Triple P (check_found r) (λ _. P) P
  unfolding check_found
  subscription_found-Triple (err e) = Triple-pure false
  subscription_found-Triple (ok s) = period-Triple (is_active s.status) s

  access-Triple : (agent : ℕ) → Triple P (check_subscription_access agent) (λ _. P) P
  unfolding check_subscription_access Subscriptions.find_active_by_agent
  access-Triple agent =
      Triple-bind
        (Triple-attempt (
          Triple-find_any P "failed to find active subscription"
            (λ t d. Subscriptions.latest (Subscriptions.is_current agent t) d.subscriptions)))
        subscription_found-Triple

module _ {F : Type 0} ⦃fl : Float64 F⦄ ⦃env : Env⦄ (P : Database F → Type 0) where
  pub check_subscription-Triple :
      (b : Bool) (agent : ℕ) → Triple P (Service.check_subscription b agent) (λ _. P) P
  unfolding Service.check_subscription
  check_subscription-Triple false agent = Triple-pure true
  check_subscription-Triple true agent =
      Triple-wrapping "failed to check subscription" (access-Triple P agent)

  pub execution-Triple :
      (agent offer : ℕ) (number : Text)
      → Triple P (get_ussd_code_for_execution agent offer number) (λ _. P) P
  execution-Triple agent offer number = Triple-unchanged λ w.
      same w.db (get_ussd_code_for_execution agent offer number w)
        (execution-Reads agent offer number w)
    where
      same :
          (old : Database F) (o : Result UssdCodeExecutionInfo × World F)
          → Ends (λ _ d. IsOwned agent offer old × (d ≡ old)) (λ d. d ≡ old) o
          → Ends (λ _ d. d ≡ old) (λ d. d ≡ old) o
      same old (ok info, w) h = h.1
      same old (err e, w) h = h

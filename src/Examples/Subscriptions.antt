-- ===== src/Examples/Subscriptions.antt =====
-- The theorems on subscriptions, at the agent 7 with one subscription and the agent 8 with none.
use bingwa.Prelude.{
  ℕ, ◌≡◌, ◌<◌, ◌⊎◌, refl, true, false, none, some, List, [], ◌∷◌, ltb, not, ◌&&◌, to_upper, arith,
}
use bingwa.Float64.{fixed, fixed-IsIeee, Fixed}
use bingwa.Domain.Subscription.{
  AgentSubscription, CreateSubscriptionRequest, RenewSubscriptionRequest, UpdateSubscriptionRequest,
  CancelSubscriptionRequest, is_active, is_cancelled,
}
use bingwa.Store.{Database}
use bingwa.Store.Triples.{Ends}
use bingwa.Campaign.Discount.{validate_discount_type_and_value}
use bingwa.Subscription.Pricing.{quote_discount}
use bingwa.Subscription.Usage.{can_make_requests, limit_blocks}
use bingwa.Subscription.Service.{
  create_subscription, renew_subscription, update_subscription, cancel_subscription,
  increment_request_usage, check_subscription_access,
}
use bingwa.Subscription.Access.{can_make_requests_iff}
use bingwa.Subscription.Contract.{IsAgreed, create_subscription-Ends}
use bingwa.Subscription.Lookups.{Fixed as FixedTables, IsLatest, IsStored}
use bingwa.Subscription.Quotes.{quote_discount-Within, Within}
use bingwa.Subscription.Outcome.{
  usages, EndsAt, renew_subscription-usages, renew_subscription-blocked, renew_subscription-extends,
}
use bingwa.Subscription.Requests.{
  IsCounted, Grants, increment_request_usage-Ends, check_subscription_access-Ends,
}
use bingwa.Subscription.Ownership.{
  MayWrite, IsCancelled, Edited, cancel_subscription-Ends, update_subscription-Ends,
}
use bingwa.Subscription.Reachable.{SubscriptionCall, RowsValid, run, run-RowsValid}
use bingwa.Subscription.Exclusion.{IsRefused, create_subscription-IsRefused}
use bingwa.Examples.{
  test_env, no_timeout_env, test_env-IsCalendar, test_env-IsClock, no_timeout_env-IsClock,
  test_plan, test_subscription, test_world, save10,
}

abbrev purchase : CreateSubscriptionRequest Fixed
purchase = record {
  subscription_plan_id = 2;
  promotional_code = save10;
  auto_renew = true;
  amount_paid = 10_500_000;
  currency = [];
  payment_reference = [];
  payment_method = [];
  metadata = none;
}

abbrev renewal : RenewSubscriptionRequest Fixed
renewal = record { amount_paid = 9_500_000; promotional_code = save10 }

create_subscription-Ends_example :
    Ends
      (λ row d.
        IsAgreed 8 purchase test_world.db.plans row
        × (d.subscriptions ≡ test_subscription ∷ row ∷ []))
      (λ d. d.subscriptions ≡ test_subscription ∷ [])
      (create_subscription 8 purchase test_world)
create_subscription-Ends_example = create_subscription-Ends 8 purchase test_world

renew_subscription-usages_example :
    let kept = λ (d : Database Fixed). usages d.subscriptions ≡ (5, 40) ∷ [] in
    Ends (λ _. kept) kept (renew_subscription 7 renewal test_world)
renew_subscription-usages_example = renew_subscription-usages 7 renewal test_world test_env-IsClock

renew_subscription-blocked_example :
    Ends
      (λ _ _. ⊥)
      (λ d. d.subscriptions ≡ test_world.db.subscriptions)
      (renew_subscription ⦃env = no_timeout_env⦄ 7 renewal test_world)
renew_subscription-blocked_example =
    renew_subscription-blocked ⦃env = no_timeout_env⦄ 7 renewal test_world no_timeout_env-IsClock
      (λ n. refl)

renew_subscription-extends_example :
    Ends
      (λ _ d.
        (s : AgentSubscription Fixed) × (end : ℕ) × IsLatest 7 1000 test_world.db.subscriptions s
        × (s.current_period_end < end)
        × EndsAt s.id end d.subscriptions)
      (λ _. Unit {0})
      (renew_subscription 7 renewal test_world)
renew_subscription-extends_example =
    renew_subscription-extends 7 renewal test_world test_env-IsClock test_env-IsCalendar

quote_discount-Within_example :
    Ends (λ q _. Within 10_000_000 q.0) (λ _. ⊥) (quote_discount save10 2 10_000_000 test_world)
unfolding validate_discount_type_and_value to_upper
quote_discount-Within_example =
    quote_discount-Within 10_000_000 fixed-IsIeee refl save10 2 test_world
      ((record { dates = ground arith; discount = refl; upper = refl }, tt), (refl, tt))

can_make_requests_iff_example : can_make_requests test_subscription test_plan 500 ≡ (
    is_active test_subscription.status
    && ltb 500 2000
    && not (limit_blocks test_subscription test_plan))
can_make_requests_iff_example = can_make_requests_iff test_subscription test_plan 500

increment_request_usage-Ends_example :
    Ends
      (λ _. IsCounted 7 1000 test_world.db.plans test_world.db.subscriptions)
      (λ d. d.subscriptions ≡ test_world.db.subscriptions)
      (increment_request_usage 7 test_world)
increment_request_usage-Ends_example = increment_request_usage-Ends 7 test_world

check_subscription_access-Ends_example :
    Ends
      (λ b d.
        Grants 7 1000 1001 test_world.db.plans test_world.db.subscriptions b
        × FixedTables test_world.db.subscriptions test_world.db.plans d)
      (λ _. ⊥)
      (check_subscription_access 7 test_world)
check_subscription_access-Ends_example = check_subscription_access-Ends 7 test_world

abbrev cancellation : CancelSubscriptionRequest
cancellation = record { reason = []; cancel_immediately = true }

cancel_subscription-Ends_example :
    let old = test_world.db.subscriptions in
    Ends
      (λ _ d.
        (s : AgentSubscription Fixed) × IsStored 5 old s
        × MayWrite false 7 s
        × (is_cancelled s.status ≡ false)
        × IsCancelled 7 5 false test_world.db.plans old true d)
      (λ d. d.subscriptions ≡ old)
      (cancel_subscription 7 5 cancellation false test_world)
cancel_subscription-Ends_example = cancel_subscription-Ends 7 5 false cancellation test_world

abbrev no_renewal : UpdateSubscriptionRequest Fixed
no_renewal = record { auto_renew = some false; metadata = none }

update_subscription-Ends_example :
    let old = test_world.db.subscriptions in
    let done = Edited 7 5 false test_world.db.plans old no_renewal in
    Ends
      (λ _. done)
      (λ d. (d.subscriptions ≡ old) ⊎ done d)
      (update_subscription 7 5 no_renewal false test_world)
update_subscription-Ends_example = update_subscription-Ends 7 5 false no_renewal test_world

abbrev calls : List (SubscriptionCall Fixed)
calls = SubscriptionCall.counts 7 ∷ SubscriptionCall.cancels 7 5 cancellation false ∷ []

run-RowsValid_example : RowsValid (run calls test_world).db
run-RowsValid_example =
    run-RowsValid calls test_world test_env-IsClock
      (record { dated = λ e. ground arith; limited = refl }, tt)

create_subscription-IsRefused_example :
    IsRefused test_world (create_subscription 7 purchase test_world)
create_subscription-IsRefused_example =
    create_subscription-IsRefused 7 purchase test_world test_subscription refl refl

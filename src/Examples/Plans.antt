-- ===== src/Examples/Plans.antt =====
-- The theorem on plans, at the plan of the agent 7's subscription.
use bingwa.Prelude.{◌≡◌, true}
use bingwa.Store.Triples.{Ends}
use bingwa.Subscription.Entities.{is_ok}
use bingwa.Plan.Service.{delete_plan}
use bingwa.Plan.Deletion.{IsDeleted, delete_plan-Ends}
use bingwa.Examples.{test_env, test_world}

delete_plan-Ends_example :
    (is_ok (delete_plan 2 test_world).0 ≡ true)
    × Ends (λ _. IsDeleted 2 test_world.db) (λ d. d ≡ test_world.db) (delete_plan 2 test_world)
delete_plan-Ends_example = delete_plan-Ends 2 test_world

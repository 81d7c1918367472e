-- ===== src/Plan.antt =====
-- Subscription plans: internal/service/subscription_plans/subscription_plans.go over
-- internal/repository/postgres/subscription_plans.go.
pub mod Repository
pub mod Service
pub mod Deletion

-- ===== src/Subscription.antt =====
-- Subscriptions of agents: internal/service/subscription/subscription_service.go over
-- internal/repository/postgres/agent_subscription_repo.go.
pub mod Repository
pub mod Pricing
pub mod Usage
pub mod Entities
pub mod Service
pub mod Access
pub mod Creation
pub mod Quotes
pub mod Lookups
pub mod Contract
pub mod Exclusion
pub mod Renewal
pub mod Extension
pub mod Outcome
pub mod Requests
pub mod Ownership
pub mod Status
pub mod Reachable

-- ===== src/Schedule.antt =====
-- Scheduled offers and their executions: internal/service/schedule/schedule_service.go over
-- internal/repository/postgres/{scheduled_offer_repo,scheduled_offer_history_repo}.go.
pub mod Repository
pub mod Entities
pub mod Service
pub mod Renewal
pub mod Storing
pub mod Execution
pub mod Moves
pub mod Blocked
pub mod Creation
pub mod Due

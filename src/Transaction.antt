-- ===== src/Transaction.antt =====
-- Requests for offers and their redemptions: internal/service/transaction/transaction_service.go over
-- internal/repository/postgres/{offer_request_repo,offer_redemption_repo}.go.
pub mod Repository
pub mod Entities
pub mod Service
pub mod Steps
pub mod Storing
pub mod Creation
pub mod Moves
pub mod Retries

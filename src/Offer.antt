-- ===== src/Offer.antt =====
-- Offers and their USSD codes: internal/service/offer/offers.go over
-- internal/repository/postgres/{agent_offers_repo,offer_ussd_code_repo}.go, and ussd_code_gen.go.
pub mod Repository
pub mod Entities
pub mod Codes
pub mod Isolation
pub mod Ownership
pub mod Lookup
pub mod Checks
pub mod Safety
pub mod Moves
pub mod Reordering
pub mod Calls
pub mod Deletion
pub mod Templates
pub mod Picking
pub mod Execution
pub mod Terms
pub mod Table
pub mod Management
pub mod Creation
pub mod Settings

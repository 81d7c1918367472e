-- ===== src/Campaign.antt =====
-- Promotional campaigns: internal/service/campaign/campaign.go over
-- internal/repository/postgres/promotional_campaign_repo.go.
pub mod Repository
pub mod Discount
pub mod Service
pub mod Bounds
pub mod Validation
pub mod Codes
pub mod Invariant
pub mod Operations

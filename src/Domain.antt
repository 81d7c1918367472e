-- ===== src/Domain.antt =====
-- The entities of internal/domain: rows of the tables, and the requests that the handlers decode.
pub mod Subscription
pub mod Campaign
pub mod Offer
pub mod Customer
pub mod Transaction
pub mod Schedule

-- ===== src/Customer.antt =====
-- The customers of an agent: internal/service/customer/customer.go over
-- internal/repository/postgres/agent_customer_repo.go.
pub mod Repository
pub mod Phone
pub mod Service
pub mod Keeping
pub mod Calls
pub mod Editing
pub mod Validity
pub mod Isolation
pub mod Registration
pub mod Import
pub mod Tags

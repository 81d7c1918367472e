-- ===== src/Domain/Customer.antt =====
-- internal/domain/customer: the customers of an agent.
use bingwa.Prelude.{ℕ, Bool, Option, List, Text}

-- `generateCustomerReference`: "CUST-", the agent, the day of its making and four random characters.
pub record CustomerReference : Type 0 where
  pub agent : ℕ
  pub day : ℕ
  pub random : Text

-- The metadata of a request, as JSON, or the map with an agent's id and the source "scheduled_offer".
pub data CustomerMetadata : Type 0 where
  json : Text → CustomerMetadata
  made_for : ℕ → CustomerMetadata

-- entity.go
pub record AgentCustomer : Type 0 where
  pub id : ℕ
  pub agent_identity_id : ℕ
  pub customer_reference : CustomerReference
  pub full_name : Option Text
  pub phone_number : Text
  pub alt_phone_number : Option Text
  pub email : Option Text
  pub is_active : Bool
  pub is_verified : Bool
  pub verified_at : Option ℕ
  pub notes : Option Text
  pub tags : List Text
  pub metadata : Option CustomerMetadata
  pub created_at : ℕ
  pub updated_at : ℕ
  pub deleted_at : Option ℕ

-- dto.go
pub record CreateCustomerRequest : Type 0 where
  pub full_name : Text
  pub phone_number : Text
  pub alt_phone_number : Text
  pub email : Text
  pub notes : Text
  pub tags : List Text
  pub metadata : Option CustomerMetadata

pub record UpdateCustomerRequest : Type 0 where
  pub full_name : Option Text
  pub phone_number : Option Text
  pub alt_phone_number : Option Text
  pub email : Option Text
  pub notes : Option Text
  pub tags : Option (List Text)
  pub metadata : Option CustomerMetadata

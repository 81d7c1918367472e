-- ===== src/Domain/Subscription.antt =====
-- internal/domain/subscription: plans, subscriptions, and the requests of the service. A
-- `sql.NullX` and a pointer are an `Option`, a time is in nanoseconds, a text is its bytes.
use bingwa.Prelude.{ℕ, Bool, Option, List, Text}

-- entity.go; `other_period` is any other text, which the column's type admits in Go.
pub data RenewalPeriod : Type 0 where
  daily weekly monthly quarterly yearly other_period : RenewalPeriod

-- entity.go and agent_sub_entity.go: one type with two lists of constants.
pub data SubscriptionStatus : Type 0 where
  active inactive expired cancelled suspended pending trialing paused : SubscriptionStatus

abbrev pub is_active : SubscriptionStatus → Bool
is_active active = Bool.true
is_active _ = Bool.false

abbrev pub is_cancelled : SubscriptionStatus → Bool
is_cancelled cancelled = Bool.true
is_cancelled _ = Bool.false

-- A value of `map[string]interface{}`: those that the service writes, and any other.
pub data MetaKey : Type 0 where
  payment_reference payment_method setup_fee : MetaKey
  other_key : Text → MetaKey

pub data MetaValue (F : Type 0) : Type 0 where
  text_value : Text → MetaValue F
  number_value : F → MetaValue F
  json_value : Text → MetaValue F

abbrev pub Metadata : Type 0 → Type 0
Metadata F = List (MetaKey × MetaValue F)

pub record SubscriptionPlan (F : Type 0) : Type 0 where
  pub id : ℕ
  pub plan_code : Text
  pub name : Text
  pub description : Option Text
  pub price : F
  pub currency : Text
  pub setup_fee : F
  pub billing_usage : ℕ
  pub billing_cycle : RenewalPeriod
  pub overage_charge : Option F
  pub max_offers : Option ℕ
  pub max_customers : Option ℕ
  pub features : Option Text
  pub status : SubscriptionStatus
  pub is_public : Bool
  pub metadata : Option Text
  pub created_at : ℕ
  pub updated_at : ℕ

-- `NewReference`: "SUB-", the time of its making and six random characters.
pub record Reference : Type 0 where
  pub prefix : Text
  pub made_at : ℕ
  pub random : Text

pub record AgentSubscription (F : Type 0) : Type 0 where
  pub id : ℕ
  pub subscription_reference : Reference
  pub agent_identity_id : ℕ
  pub subscription_plan_id : ℕ
  pub promotional_campaign_id : Option ℕ
  pub start_date : ℕ
  pub end_date : Option ℕ
  pub current_period_start : ℕ
  pub current_period_end : ℕ
  pub auto_renew : Bool
  pub renewal_count : ℕ
  pub next_billing_date : Option ℕ
  pub requests_used : ℕ
  pub requests_limit : Option ℕ
  pub plan_price : F
  pub discount_applied : F
  pub amount_paid : F
  pub currency : Text
  pub status : SubscriptionStatus
  pub cancelled_at : Option ℕ
  pub cancellation_reason : Option Text
  pub metadata : Option (Metadata F)
  pub created_at : ℕ
  pub updated_at : ℕ

-- agent_sub_dto.go
pub record CreateSubscriptionRequest (F : Type 0) : Type 0 where
  pub subscription_plan_id : ℕ
  pub promotional_code : Text
  pub auto_renew : Bool
  pub amount_paid : F
  pub currency : Text
  pub payment_reference : Text
  pub payment_method : Text
  pub metadata : Option (Metadata F)

pub record RenewSubscriptionRequest (F : Type 0) : Type 0 where
  pub amount_paid : F
  pub promotional_code : Text

pub record UpdateSubscriptionRequest (F : Type 0) : Type 0 where
  pub auto_renew : Option Bool
  pub metadata : Option (Metadata F)

pub record CancelSubscriptionRequest : Type 0 where
  pub reason : Text
  pub cancel_immediately : Bool

-- The counts of `SubscriptionUsageInfo`; -1, for no limit, is `none`.
pub record SubscriptionUsageInfo (F : Type 0) : Type 0 where
  pub subscription_id : ℕ
  pub requests_used : ℕ
  pub requests_limit : Option ℕ
  pub requests_remaining : Option ℕ
  pub overage : Option (ℕ × F × F)
  pub usage_percentage : F
  pub days_remaining : ℕ
  pub is_expiring : Bool
  pub can_make_requests : Bool

-- dto.go
pub record CreatePlanRequest (F : Type 0) : Type 0 where
  pub plan_code : Text
  pub name : Text
  pub description : Text
  pub price : F
  pub currency : Text
  pub setup_fee : F
  pub billing_usage : ℕ
  pub billing_cycle : RenewalPeriod
  pub overage_charge : Option F
  pub max_offers : Option ℕ
  pub max_customers : Option ℕ
  pub features : Option Text
  pub is_public : Bool
  pub metadata : Option Text

pub record UpdatePlanRequest (F : Type 0) : Type 0 where
  pub name : Option Text
  pub description : Option Text
  pub price : Option F
  pub setup_fee : Option F
  pub billing_usage : Option ℕ
  pub billing_cycle : Option RenewalPeriod
  pub overage_charge : Option F
  pub max_offers : Option ℕ
  pub max_customers : Option ℕ
  pub features : Option Text
  pub is_public : Option Bool
  pub metadata : Option Text

-- ===== src/Subscriptions/Types.antt =====
-- subscriptions/domain/subscription.types.ts and the parameter types of
-- subscriptions/domain/subscriptions.repository.ts, with the columns that prisma/schema.prisma
-- adds to the rows. A `Date` of the database is a number of milliseconds since the epoch.
use easy_clip_be.Common.{ℕ, String, Bool, Option, true, false}

pub data SubscriptionPlan : Type 0 where
  free pro : SubscriptionPlan

pub data SubscriptionStatus : Type 0 where
  active canceled expired : SubscriptionStatus

pub data PaymentProvider : Type 0 where
  toss_payments : PaymentProvider

pub data SubscriptionPaymentStatus : Type 0 where
  pending done failed canceled : SubscriptionPaymentStatus

pub data SubscriptionAction : Type 0 where
  cancel resume : SubscriptionAction

pub record Subscription : Type 0 where
  pub id : String
  pub workspace_id : String
  pub plan : SubscriptionPlan
  pub status : SubscriptionStatus
  pub auto_renew : Bool
  pub started_at : ℕ
  pub current_period_end : Option ℕ
  pub next_billing_at : Option ℕ
  pub provider : Option PaymentProvider
  pub external_billing_key : Option String
  pub external_customer_key : Option String

-- The payment's type and the renewal columns of its row.
pub record SubscriptionPayment : Type 0 where
  pub id : String
  pub subscription_id : String
  pub provider : PaymentProvider
  pub status : SubscriptionPaymentStatus
  pub external_payment_key : Option String
  pub external_order_id : String
  pub external_event_id : Option String
  pub amount : ℕ
  pub currency : String
  pub approved_at : Option ℕ
  pub failed_at : Option ℕ
  pub failure_code : Option String
  pub failure_message : Option String
  pub raw_data : Option String
  pub renewal_due_at : Option ℕ
  pub renewal_period_end : Option ℕ
  pub reconciliation_next_at : Option ℕ
  pub reconciliation_attempts : ℕ
  pub reconciliation_error : Option String
  pub manual_review_at : Option ℕ

-- The attempt's type and the two columns of its row that the type leaves out.
pub record InitialPaymentAttempt : Type 0 where
  pub id : String
  pub subscription_id : String
  pub idempotency_key : String
  pub external_order_id : String
  pub status : SubscriptionPaymentStatus
  pub amount : ℕ
  pub currency : String
  pub price_version : String
  pub customer_key : String
  pub billing_key : Option String
  pub created_at : ℕ
  pub cancel_requested : Bool
  pub reconciliation_next_at : ℕ

-- The columns of the two tables that only prisma/schema.prisma describes.
pub record Workspace : Type 0 where
  pub id : String
  pub name : String
  pub owner_user_id : String
  pub free_accessible_folder_id : Option String
  pub free_access_initialized : Bool
  pub free_access_period_end : Option ℕ

pub record AuthAccount : Type 0 where
  pub id : String
  pub user_id : String
  pub email : String

-- In an update `none` is a field that is left out.
pub record UpdateSubscriptionParams : Type 0 where
  pub plan : Option SubscriptionPlan
  pub status : Option SubscriptionStatus
  pub auto_renew : Option Bool
  pub current_period_end : Option (Option ℕ)
  pub next_billing_at : Option (Option ℕ)
  pub provider : Option (Option PaymentProvider)
  pub external_billing_key : Option (Option String)
  pub external_customer_key : Option (Option String)

pub record RecordSubscriptionPaymentParams : Type 0 where
  pub subscription_id : String
  pub provider : PaymentProvider
  pub status : SubscriptionPaymentStatus
  pub external_payment_key : Option String
  pub external_order_id : String
  pub external_event_id : Option String
  pub amount : ℕ
  pub currency : String
  pub approved_at : Option ℕ
  pub failed_at : Option ℕ
  pub failure_code : Option String
  pub failure_message : Option String
  pub raw_data : Option String

pub record ActivateSubscriptionPaymentParams : Type 0 where
  pub payment : RecordSubscriptionPaymentParams
  pub open payment use *
  pub external_billing_key : String
  pub external_customer_key : String
  pub started_at : ℕ
  pub current_period_end : ℕ
  pub next_billing_at : ℕ

pub record ClaimAutoRenewalPaymentParams : Type 0 where
  pub subscription_id : String
  pub provider : PaymentProvider
  pub external_order_id : String
  pub amount : ℕ
  pub currency : String
  pub renewal_due_at : ℕ
  pub renewal_period_end : Option ℕ
  pub reconciliation_next_at : ℕ
  pub expected_billing_key : String
  pub expected_customer_key : String
  pub now : ℕ

pub record CancelAutoRenewalResult : Type 0 where
  pub subscription : Subscription
  pub pending_renewal_payment : Bool

pub record CompleteAutoRenewalPaymentParams : Type 0 where
  pub external_order_id : String
  pub external_payment_key : String
  pub amount : ℕ
  pub currency : String
  pub approved_at : ℕ
  pub current_period_end : ℕ
  pub raw_data : String

pub record DeferAutoRenewalReconciliationParams : Type 0 where
  pub payment_id : String
  pub attempt : ℕ
  pub next_attempt_at : Option ℕ
  pub error : String
  pub manual_review_at : Option ℕ

pub record ClaimInitialPaymentParams : Type 0 where
  pub subscription_id : String
  pub idempotency_key : String
  pub external_order_id : String
  pub amount : ℕ
  pub currency : String
  pub price_version : String
  pub customer_key : String

-- `===` on the enumerations.
abbrev pub is_free : SubscriptionPlan → Bool
is_free SubscriptionPlan.free = true
is_free SubscriptionPlan.pro = false

abbrev pub is_pro : SubscriptionPlan → Bool
is_pro SubscriptionPlan.free = false
is_pro SubscriptionPlan.pro = true

abbrev pub is_active : SubscriptionStatus → Bool
is_active SubscriptionStatus.active = true
is_active _ = false

abbrev pub is_canceled : SubscriptionStatus → Bool
is_canceled SubscriptionStatus.canceled = true
is_canceled _ = false

abbrev pub is_pending : SubscriptionPaymentStatus → Bool
is_pending pending = true
is_pending _ = false

abbrev pub is_toss : Option PaymentProvider → Bool
is_toss Option.none = false
is_toss (Option.some toss_payments) = true

-- ===== src/Subscriptions/Repository/Rows.antt =====
-- The rows that the repository writes: `toPaymentCreateData`, `toPaymentUpdateData`,
-- `toSubscriptionUpdateData`, and the data of its create calls.
use easy_clip_be.Common.{ℕ, String, Bool, Option, none, some, ◌==◌, ◌===◌, ◌&&◌, false, true, leb}
use easy_clip_be.Subscriptions.Types.{
  Subscription, SubscriptionPayment, RecordSubscriptionPaymentParams, UpdateSubscriptionParams,
  InitialPaymentAttempt, ClaimInitialPaymentParams, pending, active, free, is_pending,
}

-- What the database fills in on a create: `cuid()` and `now()`.
pub record Defaults : Type 0 where
  pub id : String
  pub now : ℕ

-- A column that has been given replaces the old one.
abbrev pub or_keep : {A : Type 0} → Option A → A → A
or_keep none old = old
or_keep (some a) old = a

abbrev pub or_else : {A : Type 0} → Option A → Option A → Option A
or_else none old = old
or_else (some a) old = some a

abbrev pub to_payment_create_data : Defaults → RecordSubscriptionPaymentParams → SubscriptionPayment
to_payment_create_data d p = record {
  id = d.id;
  subscription_id = p.subscription_id;
  provider = p.provider;
  status = p.status;
  external_payment_key = p.external_payment_key;
  external_order_id = p.external_order_id;
  external_event_id = p.external_event_id;
  amount = p.amount;
  currency = p.currency;
  approved_at = p.approved_at;
  failed_at = p.failed_at;
  failure_code = p.failure_code;
  failure_message = p.failure_message;
  raw_data = p.raw_data;
  renewal_due_at = none;
  renewal_period_end = none;
  reconciliation_next_at = none;
  reconciliation_attempts = 0;
  reconciliation_error = none;
  manual_review_at = none;
}

abbrev pub to_payment_update_data :
    RecordSubscriptionPaymentParams → SubscriptionPayment → SubscriptionPayment
to_payment_update_data p r = record r {
  provider = p.provider;
  status = p.status;
  external_payment_key = p.external_payment_key;
  external_event_id = p.external_event_id;
  amount = p.amount;
  currency = p.currency;
  approved_at = p.approved_at;
  failed_at = p.failed_at;
  failure_code = p.failure_code;
  failure_message = p.failure_message;
  raw_data = or_else p.raw_data r.raw_data;
}

abbrev pub to_subscription_update_data : UpdateSubscriptionParams → Subscription → Subscription
to_subscription_update_data p s = record s {
  plan = or_keep p.plan s.plan;
  status = or_keep p.status s.status;
  auto_renew = or_keep p.auto_renew s.auto_renew;
  current_period_end = or_keep p.current_period_end s.current_period_end;
  next_billing_at = or_keep p.next_billing_at s.next_billing_at;
  provider = or_keep p.provider s.provider;
  external_billing_key = or_keep p.external_billing_key s.external_billing_key;
  external_customer_key = or_keep p.external_customer_key s.external_customer_key;
}

-- A free subscription, as `getOrCreatePersonalSubscription` creates it.
abbrev pub free_subscription : Defaults → String → Subscription
free_subscription d workspace_id = record {
  id = d.id;
  workspace_id = workspace_id;
  plan = free;
  status = active;
  auto_renew = false;
  started_at = d.now;
  current_period_end = none;
  next_billing_at = none;
  provider = none;
  external_billing_key = none;
  external_customer_key = none;
}

-- A new attempt: the parameters, and the defaults of prisma/schema.prisma.
abbrev pub new_attempt : Defaults → ClaimInitialPaymentParams → InitialPaymentAttempt
new_attempt d p = record {
  id = d.id;
  subscription_id = p.subscription_id;
  idempotency_key = p.idempotency_key;
  external_order_id = p.external_order_id;
  status = pending;
  amount = p.amount;
  currency = p.currency;
  price_version = p.price_version;
  customer_key = p.customer_key;
  billing_key = none;
  created_at = d.now;
  cancel_requested = false;
  reconciliation_next_at = d.now;
}

-- Filters and tests on nullable columns: null passes no comparison.
abbrev pub at_most : Option ℕ → ℕ → Bool
at_most none n = false
at_most (some m) n = leb m n

abbrev pub is_some : {A : Type 0} → Option A → Bool
is_some none = false
is_some (some _) = true

abbrev pub same_time : Option ℕ → Option ℕ → Bool
same_time none none = true
same_time (some m) (some n) = m == n
same_time _ _ = false

abbrev pub is_key : Option String → String → Bool
is_key none k = false
is_key (some j) k = j === k

-- The `where` clauses that several operations share.
abbrev pub has_id : String → Subscription → Bool
has_id id s = s.id === id

abbrev pub attempt_has_id : String → InitialPaymentAttempt → Bool
attempt_has_id id a = a.id === id

abbrev pub open_attempt : String → InitialPaymentAttempt → Bool
open_attempt id a = a.id === id && is_pending a.status

abbrev pub pending_payment_of : String → SubscriptionPayment → Bool
pending_payment_of id p = p.subscription_id === id && is_pending p.status

abbrev pub pending_attempt_of : String → InitialPaymentAttempt → Bool
pending_attempt_of id a = a.subscription_id === id && is_pending a.status

abbrev pub has_order : String → SubscriptionPayment → Bool
has_order id p = p.external_order_id === id

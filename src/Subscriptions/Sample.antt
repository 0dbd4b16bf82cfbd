-- ===== src/Subscriptions/Sample.antt =====
-- An in-memory client that behaves as documented, an environment, and rows for the tests.
use easy_clip_be.Common.{
  ℕ, ◌≡◌, refl, String, Bool, true, false, Option, none, some, List, [], ◌∷◌, arith, count, find,
  filter, sort, drop_through, not, take, update_where, ◌==◌, ◌===◌, if◌then◌else◌, inl, inr,
}
use easy_clip_be.Prisma.{Delegate, IsDocumented, Finds}
use easy_clip_be.Subscriptions.Types.{
  Subscription, SubscriptionPayment, InitialPaymentAttempt, ClaimAutoRenewalPaymentParams,
  CompleteAutoRenewalPaymentParams, pro, active, toss_payments, pending, SubscriptionPaymentStatus,
}
use easy_clip_be.Subscriptions.Store.{Prisma, IsDocumentedPrisma, Db}
use easy_clip_be.Subscriptions.Repository.Rows.{Defaults}
use easy_clip_be.Subscriptions.App.{Env, World, LookupBillingPaymentResult, works, JsDate}

abbrev pub in_memory : (R : Type 0) → Delegate R
in_memory R = record {
  find_first = find;
  find_many = λ w before n t. take n (sort before (filter w t));
  find_after = λ w before cursor n t. take n (drop_through cursor (sort before (filter w t)));
  find_all = filter;
  count_rows = count;
  delete_many = λ w t. (filter (λ r. not (w r)) t, count w t);
  update_many = λ w f t. (update_where w f t, count w t);
  create = λ c r t. if count (c r) t == 0 then some (r ∷ t) else none;
}

find-Finds : {R : Type 0} (w : R → Bool) (t : List R) → Finds w t (find w t)
find-Finds w [] = refl
find-Finds w (x ∷ xs) = go (w x) refl (find w xs) (find-Finds w xs)
  where
    go :
        (b : Bool)
        → w x ≡ b
        → (o : Option _) → Finds w xs o
        → Finds w (x ∷ xs) (if b then some x else o)
    go true e o h = (e, inl refl)
    go false e none h = ground (arith, e, h)
    go false e (some r) h = (h.0, inr h.1)

pub in_memory-IsDocumented : (R : Type 0) → IsDocumented (in_memory R)
in_memory-IsDocumented R = record {
  finds = find-Finds;
  sorts = λ w before n t. refl;
  pages = λ w before cursor n t. refl;
  finds_all = λ w p t. refl;
  counts = λ w t. refl;
  deletes = λ w t. refl;
  updates = λ w f t. refl;
  creates = λ c r t. refl;
}

abbrev pub memory : Prisma
memory = record {
  subscription = in_memory Subscription;
  subscription_payment = in_memory SubscriptionPayment;
  initial_subscription_payment = in_memory InitialPaymentAttempt;
  workspace = in_memory _;
  auth_account = in_memory _;
  collate = λ a b. false;
}

pub memory-IsDocumentedPrisma : IsDocumentedPrisma memory
memory-IsDocumentedPrisma = record {
  subscription = in_memory-IsDocumented Subscription;
  subscription_payment = in_memory-IsDocumented SubscriptionPayment;
  initial_subscription_payment = in_memory-IsDocumented InitialPaymentAttempt;
  workspace = in_memory-IsDocumented _;
  auth_account = in_memory-IsDocumented _;
}

-- A subscription that is renewed at 1000.
abbrev pub renewing_row : Subscription
renewing_row = record {
  id = "s1";
  workspace_id = "w1";
  plan = pro;
  status = active;
  auto_renew = true;
  started_at = 10;
  current_period_end = some 1000;
  next_billing_at = some 1000;
  provider = some toss_payments;
  external_billing_key = some "bk";
  external_customer_key = some "ck";
}

-- An order of its renewal.
abbrev pub order_row : SubscriptionPaymentStatus → SubscriptionPayment
order_row status = record {
  id = "p1";
  subscription_id = "s1";
  provider = toss_payments;
  status = status;
  external_payment_key = none;
  external_order_id = "o1";
  external_event_id = none;
  amount = 5900;
  currency = "KRW";
  approved_at = none;
  failed_at = none;
  failure_code = none;
  failure_message = none;
  raw_data = none;
  renewal_due_at = some 1000;
  renewal_period_end = some 1000;
  reconciliation_next_at = some 1500;
  reconciliation_attempts = 0;
  reconciliation_error = none;
  manual_review_at = none;
}

abbrev pub tables : List SubscriptionPayment → Db
tables payments = record {
  subscriptions = renewing_row ∷ [];
  payments = payments;
  initial_payments = [];
  workspaces = [];
  auth_accounts = [];
}

abbrev pub new_row : Defaults
new_row = record { id = "p1"; now = 1100 }

abbrev pub claim_params : ClaimAutoRenewalPaymentParams
claim_params = record {
  subscription_id = "s1";
  provider = toss_payments;
  external_order_id = "o1";
  amount = 5900;
  currency = "KRW";
  renewal_due_at = 1000;
  renewal_period_end = some 1000;
  reconciliation_next_at = 1500;
  expected_billing_key = "bk";
  expected_customer_key = "ck";
  now = 1100;
}

abbrev pub complete_params : CompleteAutoRenewalPaymentParams
complete_params = record {
  external_order_id = "o1";
  external_payment_key = "pk";
  amount = 5900;
  currency = "KRW";
  approved_at = 1101;
  current_period_end = 5000;
  raw_data = "{}";
}

abbrev pub attempt_row : InitialPaymentAttempt
attempt_row = record {
  id = "a1";
  subscription_id = "s1";
  idempotency_key = "k1";
  external_order_id = "o9";
  status = pending;
  amount = 5900;
  currency = "KRW";
  price_version = "v1";
  customer_key = "ck";
  billing_key = some "bk";
  created_at = 1000;
  cancel_requested = false;
  reconciliation_next_at = 1000;
}

-- The provider confirms whatever it is asked to charge.
abbrev pub paid : String → ℕ → String → LookupBillingPaymentResult
paid order_id amount currency = record {
  payment_key = some "pk";
  order_id = order_id;
  status = "DONE";
  total_amount = amount;
  currency = currency;
  approved_at = some (JsDate.at 1101);
  failure_code = none;
  failure_message = none;
  raw_data = "{}";
}

abbrev pub calm : Env
calm = record {
  database = λ t. works;
  clock = λ t. 1100;
  defaults = λ t. record { id = "n1"; now = 1100 };
  random_uuid = λ t. "u-1";
  issue_billing_key = λ t p. some "bk";
  charge_billing = λ t p. some (paid p.order_id p.amount p.currency);
  find_payment_by_order_id = λ t o. none;
  mailer = λ t. works;
  config = λ k. if k === "PRO_MONTHLY_AMOUNT" then some "5900" else none;
  sha256 = λ s. "digest";
  to_iso_string = λ t. "1970-01-01T00:00:01.000Z";
  offset = 0;
}

abbrev pub start : World
start = record {
  db = tables [];
  tick = 0;
  charges = [];
  mails = [];
  renewals = record { succeeded = 0; failed = 0; skipped = 0 };
  reconciliation = record {
    processed = 0;
    succeeded = 0;
    deferred = 0;
    manual_review = 0;
    failed = 0;
    skipped = 0;
  };
}

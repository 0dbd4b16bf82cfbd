-- ===== src/Subscriptions/Repository/Renewal.antt =====
-- The renewal payments: an order is claimed before the charge, completed at most once, and
-- reconciled under a lease while its result is unknown.
use easy_clip_be.Common.{
  ℕ, ◌+◌, String, Bool, true, false, ◌&&◌, not, Option, none, some, ◌==◌, ◌===◌, ltb, if◌then◌else◌,
}
use easy_clip_be.Subscriptions.Types.{
  Subscription, SubscriptionPayment, RecordSubscriptionPaymentParams,
  ActivateSubscriptionPaymentParams, ClaimAutoRenewalPaymentParams,
  CompleteAutoRenewalPaymentParams, DeferAutoRenewalReconciliationParams, is_pro, is_active,
  is_pending, is_toss, pro, active, canceled, pending, done,
}
use easy_clip_be.Subscriptions.Store.{
  Prisma, Tx, ok, err, unique_violation, record_not_found, pure, ◌>>=◌, ◌>>◌, subscription,
  subscription_payment, initial_subscription_payment, find_first, find_or_throw, update_many,
  update, create, upsert,
}
use easy_clip_be.Subscriptions.Repository.Rows.{
  Defaults, to_payment_create_data, to_payment_update_data, at_most, is_some, same_time, is_key,
  has_id, has_order, pending_payment_of, pending_attempt_of,
}

-- The guard of `claimAutoRenewalPayment`, on the row that was found.
abbrev pub can_claim : ClaimAutoRenewalPaymentParams → Subscription → Bool
can_claim params s =
    is_pro s.plan
    && is_active s.status
    && s.auto_renew
    && is_toss s.provider
    && is_key s.external_billing_key params.expected_billing_key
    && is_key s.external_customer_key params.expected_customer_key
    && at_most s.next_billing_at params.now
    && same_time s.next_billing_at (some params.renewal_due_at)
    && same_time s.current_period_end params.renewal_period_end

abbrev pub renewal_order :
    Defaults → ClaimAutoRenewalPaymentParams → Subscription → SubscriptionPayment
renewal_order d params s = record {
  id = d.id;
  subscription_id = s.id;
  provider = params.provider;
  status = pending;
  external_payment_key = none;
  external_order_id = params.external_order_id;
  external_event_id = none;
  amount = params.amount;
  currency = params.currency;
  approved_at = none;
  failed_at = none;
  failure_code = none;
  failure_message = none;
  raw_data = none;
  renewal_due_at = s.next_billing_at;
  renewal_period_end = s.current_period_end;
  reconciliation_next_at = some params.reconciliation_next_at;
  reconciliation_attempts = 0;
  reconciliation_error = none;
  manual_review_at = none;
}

-- `catch`: a clash of unique keys is the answer `false`.
abbrev pub false_on_clash : Tx Bool → Tx Bool
false_on_clash m db = elim (m db) [
  | ok r ↦ ok r
  | err unique_violation ↦ ok (false, db)
  | err record_not_found ↦ err record_not_found
]

-- `current && current > next ? current : next`
abbrev pub later_end : Option ℕ → ℕ → ℕ
later_end none next = next
later_end (some t) next = if ltb next t then t else next

abbrev pub completed_row :
    CompleteAutoRenewalPaymentParams → SubscriptionPayment → SubscriptionPayment
completed_row params p = record p {
  status = done;
  external_payment_key = some params.external_payment_key;
  approved_at = some params.approved_at;
  raw_data = some params.raw_data;
  reconciliation_next_at = none;
  reconciliation_error = none;
  manual_review_at = none;
  failed_at = none;
  failure_code = none;
  failure_message = none;
}

abbrev pub renewed_row : ℕ → Bool → Subscription → Subscription
renewed_row period_end auto_renew s = record s {
  plan = pro;
  status = if auto_renew then active else canceled;
  current_period_end = some period_end;
  next_billing_at = if auto_renew then some period_end else none;
}

abbrev pub activated_row : ActivateSubscriptionPaymentParams → Subscription → Subscription
activated_row params s = record s {
  plan = pro;
  status = active;
  auto_renew = true;
  started_at = params.started_at;
  current_period_end = some params.current_period_end;
  next_billing_at = some params.next_billing_at;
  provider = some params.provider;
  external_billing_key = some params.external_billing_key;
  external_customer_key = some params.external_customer_key;
}

abbrev pub open_order : RecordSubscriptionPaymentParams → SubscriptionPayment → Bool
open_order params p =
    p.external_order_id === params.external_order_id
    && p.subscription_id === params.subscription_id
    && is_pending p.status

abbrev pub failed_row : RecordSubscriptionPaymentParams → SubscriptionPayment → SubscriptionPayment
failed_row params p = record (to_payment_update_data params p) { reconciliation_next_at = none }

abbrev pub payment_has_id : String → SubscriptionPayment → Bool
payment_has_id id p = p.id === id

abbrev pub leasable : String → ℕ → SubscriptionPayment → Bool
leasable payment_id now p =
    p.id === payment_id
    && is_pending p.status
    && at_most p.reconciliation_next_at now
    && not (is_some p.manual_review_at)

abbrev pub leased_row : ℕ → SubscriptionPayment → SubscriptionPayment
leased_row lease_until p = record p {
  reconciliation_next_at = some lease_until;
  reconciliation_attempts = p.reconciliation_attempts + 1;
}

abbrev pub attempted : DeferAutoRenewalReconciliationParams → SubscriptionPayment → Bool
attempted params p =
    p.id === params.payment_id && is_pending p.status && p.reconciliation_attempts == params.attempt

abbrev pub deferred_row :
    DeferAutoRenewalReconciliationParams → SubscriptionPayment → SubscriptionPayment
deferred_row params p = record p {
  reconciliation_next_at = params.next_attempt_at;
  reconciliation_error = some params.error;
  manual_review_at = params.manual_review_at;
}

abbrev pub payable_order : String → CompleteAutoRenewalPaymentParams → SubscriptionPayment → Bool
payable_order payment_id params p =
    p.id === payment_id
    && is_pending p.status
    && is_toss (some p.provider)
    && is_some p.renewal_due_at
    && p.amount == params.amount
    && p.currency === params.currency

module _ ⦃prisma : Prisma⦄ where
  unfoldable pub activate_by_payment :
      Defaults → ActivateSubscriptionPaymentParams → Tx Subscription
  activate_by_payment d params = do
    upsert subscription_payment (has_order params.external_order_id)
        (to_payment_update_data params.payment) (to_payment_create_data d params.payment)
    update subscription (has_id params.subscription_id) (activated_row params)

  unfoldable pub record_payment_failure : Defaults → RecordSubscriptionPaymentParams → Tx ℕ
  record_payment_failure d params = do
    upsert subscription_payment (has_order params.external_order_id) (λ p. p)
        (to_payment_create_data d params)
    update_many subscription_payment (open_order params) (failed_row params)

  -- The transaction, before its `catch`.
  unfoldable pub claim_order : Defaults → ClaimAutoRenewalPaymentParams → Tx Bool
  claim_order d params = do
    current ← find_first subscription (has_id params.subscription_id)
    elim current [
      | none ↦ pure false
      | some s ↦ if not (can_claim params s) then pure false else do
        unresolved ← find_first subscription_payment (pending_payment_of params.subscription_id)
        elim unresolved [
          | some _ ↦ pure false
          | none ↦ do
            initial ←
                find_first initial_subscription_payment (pending_attempt_of params.subscription_id)
            elim initial [
              | some _ ↦ pure false
              | none ↦ do create subscription_payment (renewal_order d params s); pure true
            ]
        ]
    ]

  unfoldable pub claim_auto_renewal_payment : Defaults → ClaimAutoRenewalPaymentParams → Tx Bool
  unfolding claim_order
  claim_auto_renewal_payment d params = false_on_clash (claim_order d params)

  unfoldable pub claim_auto_renewal_reconciliation :
      String → ℕ → ℕ → Tx (Option SubscriptionPayment)
  claim_auto_renewal_reconciliation payment_id now lease_until = do
    claimed ← update_many subscription_payment (leasable payment_id now) (leased_row lease_until)
    if not (claimed == 1)
        then pure none
        else do p ← find_or_throw subscription_payment (payment_has_id payment_id); pure (some p)

  unfoldable pub defer_auto_renewal_reconciliation : DeferAutoRenewalReconciliationParams → Tx ℕ
  defer_auto_renewal_reconciliation params =
      update_many subscription_payment (attempted params) (deferred_row params)

  unfoldable pub complete_auto_renewal_payment :
      CompleteAutoRenewalPaymentParams → Tx (Option Subscription)
  complete_auto_renewal_payment params = do
    payment ← find_or_throw subscription_payment (has_order params.external_order_id)
    completed ←
        update_many subscription_payment (payable_order payment.id params) (completed_row params)
    if completed == 0 then pure none else do
      current ← find_or_throw subscription (has_id payment.subscription_id)
      updated ← update subscription (has_id current.id) (
          renewed_row (later_end current.current_period_end params.current_period_end)
            current.auto_renew)
      pure (some updated)

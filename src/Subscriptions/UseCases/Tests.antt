-- ===== src/Subscriptions/UseCases/Tests.antt =====
-- The theorems on the use cases of src/subscriptions at concrete requests and runs.
use easy_clip_be.Common.{
  arith, ◌+◌, ◌*◌, ◌≤◌, ◌≡◌, ◌⊎◌, ◌↔◌, refl, true, false, none, some, [], ◌∷◌, length,
}
use easy_clip_be.Subscriptions.Types.{Subscription, Workspace, free, pending}
use easy_clip_be.Subscriptions.Calendar.{ms_per_day}
use easy_clip_be.Subscriptions.Period.{resolve_next_period, resolve_next_period_bounds}
use easy_clip_be.Subscriptions.App.{World, done, is_done}
use easy_clip_be.Subscriptions.UseCases.Helpers.{
  parse_amount, create_auto_renewal_subscription_order_id, initial_payment_output,
  resolve_pro_monthly_price,
}
use easy_clip_be.Subscriptions.UseCases.Reconcile.{apply, reconcile}
use easy_clip_be.Subscriptions.UseCases.Confirm.{
  ConfirmBillingAuthInput, pay_attempt, start_payment, confirm_billing_auth,
}
use easy_clip_be.Subscriptions.UseCases.Renew.{
  AccessPolicy, BatchOutput, process_due_auto_renewals, charge_all, reconcile_each,
  reconcile_payments, charge_due, claim_and_charge, charge_if, charge_claimed, end_renewal,
  complete_renewal, assert_auto_renewals_batch_allowed,
}
use easy_clip_be.Subscriptions.UseCases.Batch.{process_subscription_payments}
use easy_clip_be.Subscriptions.Repository.Initial.{
  find_initial_payment, claim_initial_payment, save_initial_billing_key, complete_initial_payment,
}
use easy_clip_be.Subscriptions.Repository.Lifecycle.{
  get_or_create_personal_subscription, find_billing_mail_recipient_by_subscription_id,
}
use easy_clip_be.Subscriptions.Repository.Renewal.{
  claim_auto_renewal_payment, claim_order, complete_auto_renewal_payment,
}
use easy_clip_be.Subscriptions.Repository.Due.{
  due_loop, find_due_auto_renewal_subscriptions, find_auto_renewal_payments_to_reconcile,
}
use easy_clip_be.Subscriptions.Repository.Unresolved.{unresolved}
use easy_clip_be.Subscriptions.UseCases.SingleCharge.{confirm_billing_auth-unresolved}
use easy_clip_be.Subscriptions.UseCases.BatchCharge.{process_subscription_payments-unresolved}
use easy_clip_be.Subscriptions.UseCases.Charging.{
  confirm_charges_once, ChargesFor, pay_attempt-ChargesFor, reconcile_returns, IsMatch,
  apply_mismatch,
}
use easy_clip_be.Subscriptions.UseCases.Counting.{
  IsAllowed, access_iff_IsAllowed, refused_run_stops, charge_all-CountsRenewals,
  reconcile_each-CountsPayments, process_due_auto_renewals-IsBalanced, IsBalanced,
}
use easy_clip_be.Subscriptions.UseCases.Items.{CountsRenewals, CountsPayments}
use easy_clip_be.Subscriptions.UseCases.Pricing.{IsPriced, price-IsPriced}
use easy_clip_be.Subscriptions.Sample.{
  memory, memory-IsDocumentedPrisma, renewing_row, order_row, tables, attempt_row, paid, calm,
  start,
}

-- The end of the running period is later than the payment.
resolve_next_period_bounds_example :
    let p = resolve_next_period 32400000 (some 2000) 1000 in
    (1000 ≤ p.started_at)
    × ((p.started_at ≡ 1000) ⊎ (some 2000 ≡ some p.started_at))
    × (2000 ≤ p.started_at)
    × (p.started_at + 28 * ms_per_day ≤ p.current_period_end)
    × (p.current_period_end ≤ p.started_at + 31 * ms_per_day)
    × (p.next_billing_at ≡ p.current_period_end)
resolve_next_period_bounds_example = resolve_next_period_bounds 32400000 (some 2000) 1000

abbrev confirmation : ConfirmBillingAuthInput
confirmation = record {
  auth_key = "auth";
  customer_key = "ck";
  idempotency_key = "k1";
  price_version = "digest";
}

abbrev free_row : Subscription
free_row = record renewing_row {
  plan = free;
  auto_renew = false;
  current_period_end = none;
  next_billing_at = none;
  external_billing_key = none;
}

abbrev personal_row : Workspace
personal_row = record {
  id = "w1";
  name = "Personal Workspace";
  owner_user_id = "u1";
  free_accessible_folder_id = none;
  free_access_initialized = false;
  free_access_period_end = none;
}

-- A user of the free plan whose customer key is on record.
abbrev newcomer : World
newcomer = record start {
  db = record (tables []) { subscriptions = free_row ∷ []; workspaces = personal_row ∷ [] };
}

confirm_charges_once_example :
    length
      (confirm_billing_auth ⦃prisma = memory⦄ ⦃env = calm⦄ "u1" confirmation newcomer).1.charges
    ≤ length newcomer.charges + 1
confirm_charges_once_example =
    confirm_charges_once ⦃prisma = memory⦄ ⦃env = calm⦄ "u1" confirmation newcomer

-- The card is charged.
one_charge :
    length
      (confirm_billing_auth ⦃prisma = memory⦄ ⦃env = calm⦄ "u1" confirmation newcomer).1.charges
    ≡ 1
unfolding confirm_billing_auth start_payment pay_attempt apply get_or_create_personal_subscription
    find_initial_payment claim_initial_payment save_initial_billing_key resolve_pro_monthly_price
    parse_amount complete_initial_payment find_billing_mail_recipient_by_subscription_id
one_charge = refl

-- The attempt is on record, and its card is known.
abbrev attempted : World
attempted = record start { db = record (tables []) { initial_payments = attempt_row ∷ [] } }

pay_attempt-ChargesFor_example :
    ChargesFor ⦃prisma = memory⦄ ⦃env = calm⦄ attempt_row []
      (pay_attempt ⦃prisma = memory⦄ ⦃env = calm⦄ confirmation attempt_row attempted).1.charges
pay_attempt-ChargesFor_example =
    pay_attempt-ChargesFor ⦃prisma = memory⦄ ⦃env = calm⦄ confirmation attempt_row attempted

reconcile_returns_example :
    is_done (reconcile ⦃prisma = memory⦄ ⦃env = calm⦄ attempt_row attempted).0 ≡ true
reconcile_returns_example = reconcile_returns ⦃prisma = memory⦄ ⦃env = calm⦄ attempt_row attempted

wrong_amount : ¬ IsMatch attempt_row (paid "o9" 9900 "KRW")
wrong_amount h = absurd (omega (arith, h.amount))

apply_mismatch_example :
    apply ⦃prisma = memory⦄ ⦃env = calm⦄ attempt_row (paid "o9" 9900 "KRW") attempted
    ≡ (done (initial_payment_output attempt_row), attempted)
apply_mismatch_example =
    apply_mismatch ⦃prisma = memory⦄ ⦃env = calm⦄ attempt_row (paid "o9" 9900 "KRW") attempted
      wrong_amount

charge_all-CountsRenewals_example :
    CountsRenewals ⦃prisma = memory⦄ ⦃env = calm⦄ 1 start
      (charge_all ⦃prisma = memory⦄ ⦃env = calm⦄ 1100 (renewing_row ∷ []) start)
charge_all-CountsRenewals_example =
    charge_all-CountsRenewals ⦃prisma = memory⦄ ⦃env = calm⦄ 1100 (renewing_row ∷ []) start

reconcile_each-CountsPayments_example :
    CountsPayments ⦃prisma = memory⦄ ⦃env = calm⦄ 1 start
      (reconcile_each ⦃prisma = memory⦄ ⦃env = calm⦄ 1600 (order_row pending ∷ []) start)
reconcile_each-CountsPayments_example =
    reconcile_each-CountsPayments ⦃prisma = memory⦄ ⦃env = calm⦄ 1600 (order_row pending ∷ []) start

abbrev wrong_secret : AccessPolicy
wrong_secret = record {
  enabled = true;
  expected_secret = some "secret";
  provided_secret = some "guess";
}

wrong_secret-not-IsAllowed : ¬ IsAllowed wrong_secret
wrong_secret-not-IsAllowed h = cc h.same

refused_run_stops_example :
    ((process_subscription_payments ⦃prisma = memory⦄ ⦃env = calm⦄ 1100 10 wrong_secret start).1
      ≡ start)
    × (is_done
          (process_subscription_payments ⦃prisma = memory⦄ ⦃env = calm⦄ 1100 10 wrong_secret
            start).0
        ≡ false)
refused_run_stops_example =
    refused_run_stops ⦃prisma = memory⦄ ⦃env = calm⦄ 1100 10 wrong_secret start
      wrong_secret-not-IsAllowed

access_iff_IsAllowed_example :
    (assert_auto_renewals_batch_allowed wrong_secret start ≡ (done tt, start))
    ↔ IsAllowed wrong_secret
access_iff_IsAllowed_example = access_iff_IsAllowed wrong_secret start

price-IsPriced_example : IsPriced ⦃env = calm⦄ start (resolve_pro_monthly_price ⦃env = calm⦄ start)
price-IsPriced_example = price-IsPriced ⦃env = calm⦄ start

nothing_pending : unresolved "s1" start.db ≤ 1
unfolding unresolved
nothing_pending = omega arith

none_pending : unresolved "s1" newcomer.db ≤ 1
unfolding unresolved
none_pending = omega arith

confirm_billing_auth-unresolved_example :
    unresolved "s1"
      (confirm_billing_auth ⦃prisma = memory⦄ ⦃env = calm⦄ "u1" confirmation newcomer).1.db
    ≤ 1
confirm_billing_auth-unresolved_example =
    confirm_billing_auth-unresolved ⦃prisma = memory⦄ ⦃env = calm⦄ memory-IsDocumentedPrisma "s1"
      "u1" confirmation newcomer none_pending

abbrev right_secret : AccessPolicy
right_secret = record {
  enabled = true;
  expected_secret = some "secret";
  provided_secret = some "secret";
}

process_subscription_payments-unresolved_example :
    unresolved "s1"
      (process_subscription_payments ⦃prisma = memory⦄ ⦃env = calm⦄ 1100 10 right_secret start).1.db
    ≤ 1
process_subscription_payments-unresolved_example =
    process_subscription_payments-unresolved ⦃prisma = memory⦄ ⦃env = calm⦄
      memory-IsDocumentedPrisma "s1" 1100 10 right_secret start nothing_pending

abbrev one_renewed : BatchOutput
one_renewed = record {
  processed = 1;
  succeeded = 1;
  failed = 0;
  skipped = 0;
  reconciliation = start.reconciliation;
}

renewal_run :
    (process_due_auto_renewals ⦃prisma = memory⦄ ⦃env = calm⦄ 1100 10 right_secret start).0
    ≡ done one_renewed
unfolding process_due_auto_renewals assert_auto_renewals_batch_allowed reconcile_payments
    reconcile_each find_auto_renewal_payments_to_reconcile find_due_auto_renewal_subscriptions
    due_loop charge_all charge_due claim_and_charge charge_if charge_claimed end_renewal
    complete_renewal resolve_pro_monthly_price parse_amount claim_auto_renewal_payment claim_order
    complete_auto_renewal_payment find_billing_mail_recipient_by_subscription_id
    create_auto_renewal_subscription_order_id
renewal_run = refl

process_due_auto_renewals-IsBalanced_example : IsBalanced ⦃prisma = memory⦄ ⦃env = calm⦄ one_renewed
process_due_auto_renewals-IsBalanced_example =
    process_due_auto_renewals-IsBalanced ⦃prisma = memory⦄ ⦃env = calm⦄ 1100 10 right_secret
      one_renewed start renewal_run

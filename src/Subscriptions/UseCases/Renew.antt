-- ===== src/Subscriptions/UseCases/Renew.antt =====
-- subscriptions/application/usecases/process-due-auto-renewals.usecase.ts: the batch that charges
-- renewals and asks again for the charges whose results are unknown.
use easy_clip_be.Common.{
  ℕ, ◌+◌, String, Bool, true, false, ◌&&◌, ◌||◌, not, Option, none, some, List, [], ◌∷◌, ◌==◌,
  ◌===◌, ltb, leb, is_missing, is_empty, trim, codes, codes_eq, length, if◌then◌else◌,
}
use easy_clip_be.Subscriptions.Types.{
  Subscription, SubscriptionPayment, toss_payments, ClaimAutoRenewalPaymentParams,
  CompleteAutoRenewalPaymentParams,
}
use easy_clip_be.Subscriptions.Store.{Prisma}
use easy_clip_be.Subscriptions.Repository.Rows.{is_some}
use easy_clip_be.Subscriptions.Repository.Lifecycle.{find_billing_mail_recipient_by_subscription_id}
use easy_clip_be.Subscriptions.Repository.Renewal.{
  claim_auto_renewal_payment, claim_auto_renewal_reconciliation, defer_auto_renewal_reconciliation,
  complete_auto_renewal_payment,
}
use easy_clip_be.Subscriptions.Repository.Due.{
  find_auto_renewal_payments_to_reconcile, find_due_auto_renewal_subscriptions,
}
use easy_clip_be.Subscriptions.Period.{resolve_next_period}
use easy_clip_be.Subscriptions.App.{
  Env, App, RenewalCounts, ReconciliationCounts, done, LookupBillingPaymentResult, payment_success,
  auto_renewal, forbidden, unauthorized, pure, raise, ◌>>=◌, ◌>>◌, catching, fresh, query,
  charge_billing, find_payment_by_order_id, send_mail,
}
use easy_clip_be.Subscriptions.UseCases.Helpers.{
  ProMonthlyPrice, valid_time, resolve_pro_monthly_price, create_auto_renewal_subscription_order_id,
  text_or,
}

abbrev pub reconciliation_delay_ms : ℕ
reconciliation_delay_ms = 300000

abbrev pub max_reconciliation_attempts : ℕ
max_reconciliation_attempts = 12

pub record AccessPolicy : Type 0 where
  pub enabled : Bool
  pub expected_secret : Option String
  pub provided_secret : Option String

-- `secret?.trim()`, where null and the empty text are alike.
abbrev pub trimmed : Option String → List ℕ
trimmed none = []
trimmed (some s) = trim (codes s)

-- `assertAutoRenewalsBatchAllowed`
unfoldable pub assert_auto_renewals_batch_allowed : AccessPolicy → App (Unit {0})
assert_auto_renewals_batch_allowed p =
    let expected = trimmed p.expected_secret in
    let provided = trimmed p.provided_secret in
    if not p.enabled
    then raise forbidden
    else if length expected == 0
    then raise forbidden
    else if length provided == 0 || not (codes_eq provided expected)
    then raise unauthorized
    else pure tt

-- The payment key and the time of approval, where both are there.
abbrev pub keyed : Option String → Option ℕ → Option (String × ℕ)
keyed none t = none
keyed (some k) none = none
keyed (some k) (some t) = if is_empty k then none else some (k, t)

-- The payment key and the time of approval, if the response confirms the payment of this order.
abbrev pub verified_at : LookupBillingPaymentResult → String → ℕ → String → Option (String × ℕ)
verified_at r order_id amount currency =
    if r.status === "DONE"
      && r.order_id === order_id
      && r.total_amount == amount
      && r.currency === currency
    then keyed r.payment_key (valid_time r.approved_at)
    else none

abbrev pub renewal_completion :
    ℕ
    → String
    → ℕ
    → String
    → Option ℕ
    → LookupBillingPaymentResult
    → String × ℕ
    → CompleteAutoRenewalPaymentParams
renewal_completion offset order_id amount currency period_end r (key, paid_at) = record {
  external_order_id = order_id;
  external_payment_key = key;
  amount = amount;
  currency = currency;
  approved_at = paid_at;
  current_period_end = (resolve_next_period offset period_end paid_at).current_period_end;
  raw_data = r.raw_data;
}

-- `['CANCELED', 'PARTIAL_CANCELED', 'ABORTED', 'EXPIRED'].includes(status)`
abbrev pub is_dead : String → Bool
is_dead s = s === "CANCELED" || s === "PARTIAL_CANCELED" || s === "ABORTED" || s === "EXPIRED"

abbrev pub time_or : Option ℕ → ℕ → ℕ
time_or none t = t
time_or (some t') t = t'

abbrev pub no_renewals : RenewalCounts
no_renewals = record { succeeded = 0; failed = 0; skipped = 0 }

abbrev pub no_reconciliation : ReconciliationCounts
no_reconciliation = record {
  processed = 0;
  succeeded = 0;
  deferred = 0;
  manual_review = 0;
  failed = 0;
  skipped = 0;
}

-- The assignments of the loop over the due subscriptions: `succeeded += 1` and its like.
abbrev pub set_renewals : (RenewalCounts → RenewalCounts) → App (Unit {0})
set_renewals f w = (done tt, record w { renewals = f w.renewals })

abbrev pub renewal_succeeded : App (Unit {0})
renewal_succeeded = set_renewals (λ c. record c { succeeded = c.succeeded + 1 })

abbrev pub renewal_failed : App (Unit {0})
renewal_failed = set_renewals (λ c. record c { failed = c.failed + 1 })

abbrev pub renewal_skipped : App (Unit {0})
renewal_skipped = set_renewals (λ c. record c { skipped = c.skipped + 1 })

-- Those of the loop over the payments: `result.processed += 1` and its like.
abbrev pub set_reconciliation : (ReconciliationCounts → ReconciliationCounts) → App (Unit {0})
set_reconciliation f w = (done tt, record w { reconciliation = f w.reconciliation })

abbrev pub payment_processed : App (Unit {0})
payment_processed = set_reconciliation (λ c. record c { processed = c.processed + 1 })

abbrev pub payment_succeeded : App (Unit {0})
payment_succeeded = set_reconciliation (λ c. record c { succeeded = c.succeeded + 1 })

abbrev pub payment_deferred : App (Unit {0})
payment_deferred = set_reconciliation (λ c. record c { deferred = c.deferred + 1 })

abbrev pub payment_reviewed : App (Unit {0})
payment_reviewed = set_reconciliation (λ c. record c { manual_review = c.manual_review + 1 })

abbrev pub payment_failed : App (Unit {0})
payment_failed = set_reconciliation (λ c. record c { failed = c.failed + 1 })

abbrev pub payment_skipped : App (Unit {0})
payment_skipped = set_reconciliation (λ c. record c { skipped = c.skipped + 1 })

-- What a second question about a charge gave: it is settled, or still open for a reason, and
-- whether a person has to look at it.
pub data Verdict : Type 0 where
  settled : Verdict
  still_open : String → Bool → Verdict

pub record BatchOutput : Type 0 where
  pub processed : ℕ
  pub succeeded : ℕ
  pub failed : ℕ
  pub skipped : ℕ
  pub reconciliation : ReconciliationCounts

module _ ⦃prisma : Prisma⦄ ⦃env : Env⦄ where
  abbrev send_payment_success_mail : Subscription → ℕ → String → ℕ → App (Unit {0})
  send_payment_success_mail updated amount currency approved_at =
      catching
        (do
          recipient ← query (find_billing_mail_recipient_by_subscription_id updated.id)
          elim recipient [
            | none ↦ pure tt
            | some email ↦ send_mail (
                payment_success email amount currency approved_at updated.current_period_end
                  updated.next_billing_at auto_renewal)
          ])
        (pure tt)

  -- The end of a renewal: the success is counted after its mail.
  unfoldable pub complete_renewal : CompleteAutoRenewalPaymentParams → App (Unit {0})
  complete_renewal params = do
    updated ← query (complete_auto_renewal_payment params)
    elim updated [
      | none ↦ renewal_skipped
      | some s ↦ do
        send_payment_success_mail s params.amount params.currency params.approved_at
        renewal_succeeded
    ]

  -- The end of a payment that was asked about: the success is counted before its mail.
  unfoldable pub complete_payment : CompleteAutoRenewalPaymentParams → App (Unit {0})
  complete_payment params = do
    updated ← query (complete_auto_renewal_payment params)
    elim updated [
      | none ↦ payment_skipped
      | some s ↦ do
        payment_succeeded
        send_payment_success_mail s params.amount params.currency params.approved_at
    ]

  -- The answer to a charge: one that does not confirm it leaves the order pending.
  unfoldable pub end_renewal :
      Subscription → ProMonthlyPrice → String → LookupBillingPaymentResult → App (Unit {0})
  end_renewal s price order_id r = elim (verified_at r order_id price.amount price.currency) [
    | none ↦ renewal_failed
    | some v ↦ complete_renewal (
        renewal_completion env.offset order_id price.amount price.currency s.current_period_end r v)
  ]

  -- The charge of an order that is on record, and the order's end.
  unfoldable pub charge_claimed : Subscription → ProMonthlyPrice → String → App (Unit {0})
  charge_claimed s price order_id = do
    r ← charge_billing (record {
      idempotency_key = none;
      billing_key = text_or s.external_billing_key "";
      customer_key = text_or s.external_customer_key "";
      order_id = order_id;
      order_name = text_or (env.config "TOSS_PAYMENTS_PRO_ORDER_NAME") "Easy Clip PRO 월간 구독";
      amount = price.amount;
      currency = price.currency;
      timeout_ms = some 10000;
    })
    end_renewal s price order_id r

  unfoldable pub charge_if : Bool → Subscription → ProMonthlyPrice → String → App (Unit {0})
  charge_if claimed s price order_id =
      if claimed then charge_claimed s price order_id else renewal_skipped

  -- `nextBillingAt!` is there, since the queue returns only rows that have it.
  abbrev pub renewal_order_id : ℕ → Subscription → String
  renewal_order_id now s =
      create_auto_renewal_subscription_order_id s.id (time_or s.next_billing_at now)

  abbrev pub renewal_claim : ℕ → Subscription → ProMonthlyPrice → ClaimAutoRenewalPaymentParams
  renewal_claim now s price = record {
    subscription_id = s.id;
    provider = toss_payments;
    external_order_id = renewal_order_id now s;
    amount = price.amount;
    currency = price.currency;
    renewal_due_at = time_or s.next_billing_at now;
    renewal_period_end = s.current_period_end;
    reconciliation_next_at = now + reconciliation_delay_ms;
    expected_billing_key = text_or s.external_billing_key "";
    expected_customer_key = text_or s.external_customer_key "";
    now = now;
  }

  -- The order is put on record, and charged if it was not on record before.
  unfoldable pub claim_and_charge : ℕ → Subscription → ProMonthlyPrice → App (Unit {0})
  claim_and_charge now s price = do
    d ← fresh
    claimed ← query (claim_auto_renewal_payment d (renewal_claim now s price))
    charge_if claimed s price (renewal_order_id now s)

  -- One due subscription; an error counts as a failure and does not stop the batch.
  unfoldable pub charge_due : ℕ → Subscription → App (Unit {0})
  unfolding resolve_pro_monthly_price
  charge_due now s =
      catching
        (if is_missing s.external_billing_key || is_missing s.external_customer_key
          then renewal_failed
          else do price ← resolve_pro_monthly_price; claim_and_charge now s price)
        renewal_failed

  -- The provider is asked about an order whose charge has an unknown result.
  unfoldable pub ask_again : SubscriptionPayment → App Verdict
  ask_again p = do
    response ← find_payment_by_order_id p.external_order_id
    elim response [
      | none ↦ pure (still_open "PAYMENT_NOT_FOUND" false)
      | some r ↦ elim (verified_at r p.external_order_id p.amount p.currency) [
        | some v ↦ do
          complete_payment (
              renewal_completion env.offset p.external_order_id p.amount p.currency
                p.renewal_period_end r v)
          pure settled
        | none ↦ pure (
            still_open (if r.status === "DONE" then "PAYMENT_MISMATCH" else "PAYMENT_NOT_DONE")
              (r.status === "DONE" || is_dead r.status))
      ]
    ]

  -- A charge that has been asked about too often, or has no due date, is not asked about again.
  unfoldable pub judge : SubscriptionPayment → App Verdict
  judge p =
      if not (is_some p.renewal_due_at)
      then pure (still_open "LEGACY_PERIOD_SNAPSHOT_MISSING" true)
      else if ltb max_reconciliation_attempts p.reconciliation_attempts
      then pure (still_open "RECONCILIATION_EXHAUSTED" true)
      else catching (ask_again p) (pure (still_open "RECONCILIATION_ERROR" false))

  unfoldable pub put_off : ℕ → SubscriptionPayment → String → Bool → App (Unit {0})
  put_off now p reason needs_review =
      let review = needs_review || leb max_reconciliation_attempts p.reconciliation_attempts in
      do
        query (
            defer_auto_renewal_reconciliation (record {
              payment_id = p.id;
              attempt = p.reconciliation_attempts;
              next_attempt_at = if review then none else some (now + reconciliation_delay_ms);
              error = reason;
              manual_review_at = if review then some now else none;
            }))
        if review then payment_reviewed else payment_deferred

  -- What is left to do for a verdict.
  unfoldable pub act_on : ℕ → SubscriptionPayment → Verdict → App (Unit {0})
  unfolding put_off
  act_on now p settled = pure tt
  act_on now p (still_open reason needs_review) = put_off now p reason needs_review

  unfoldable pub reconcile_payment : ℕ → SubscriptionPayment → App (Unit {0})
  reconcile_payment now candidate = do
    payment_processed
    catching
        (do
          claimed ←
              query
                (claim_auto_renewal_reconciliation candidate.id now (now + reconciliation_delay_ms))
          elim claimed [ none ↦ payment_skipped | some p ↦ do v ← judge p; act_on now p v ])
        payment_failed

  unfoldable pub reconcile_each : ℕ → List SubscriptionPayment → App (Unit {0})
  reconcile_each now [] = pure tt
  reconcile_each now (p ∷ ps) = do reconcile_payment now p; reconcile_each now ps

  -- `const result = { processed: 0, ... }`, the candidates, the loop, `return result`
  unfoldable pub reconcile_payments : ℕ → ℕ → App ReconciliationCounts
  reconcile_payments now limit = do
    set_reconciliation (λ _. no_reconciliation)
    candidates ← query (find_auto_renewal_payments_to_reconcile now limit)
    reconcile_each now candidates
    λ w. (done w.reconciliation, w)

  unfoldable pub charge_all : ℕ → List Subscription → App (Unit {0})
  charge_all now [] = pure tt
  charge_all now (s ∷ ss) = do charge_due now s; charge_all now ss

  -- `execute`, at the time that the caller gives.
  unfoldable pub process_due_auto_renewals : ℕ → ℕ → AccessPolicy → App BatchOutput
  process_due_auto_renewals now limit policy = do
    assert_auto_renewals_batch_allowed policy
    reconciliation ← reconcile_payments now limit
    subscriptions ←
        query
          (find_due_auto_renewal_subscriptions create_auto_renewal_subscription_order_id now limit)
    set_renewals (λ _. no_renewals)
    charge_all now subscriptions
    λ w. (
      done (record {
        processed = length subscriptions;
        succeeded = w.renewals.succeeded;
        failed = w.renewals.failed;
        skipped = w.renewals.skipped;
        reconciliation = reconciliation;
      }),
      w,
    )

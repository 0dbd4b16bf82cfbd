-- ===== src/Subscriptions/UseCases/Reconcile.antt =====
-- subscriptions/application/usecases/reconcile-initial-payments.usecase.ts and
-- get-initial-payment.usecase.ts: what the provider says of a first payment is applied to it.
use easy_clip_be.Common.{
  ℕ, suc, ◌+◌, String, Bool, true, ◌&&◌, ◌||◌, not, Option, none, some, List, [], ◌∷◌, ◌==◌, ◌===◌,
  leb, is_missing, trim, codes, length, if◌then◌else◌,
}
use easy_clip_be.Subscriptions.Types.{
  Subscription, InitialPaymentAttempt, ActivateSubscriptionPaymentParams,
  RecordSubscriptionPaymentParams, toss_payments, done, failed, canceled, is_pending,
}
use easy_clip_be.Subscriptions.Store.{Prisma}
use easy_clip_be.Subscriptions.Repository.Rows.{or_keep}
use easy_clip_be.Subscriptions.Repository.Initial.{
  find_initial_payment, defer_initial_reconciliation, complete_initial_payment,
  fail_initial_payment,
}
use easy_clip_be.Subscriptions.Repository.Lifecycle.{
  get_or_create_personal_subscription, find_billing_mail_recipient_by_subscription_id,
}
use easy_clip_be.Subscriptions.Period.{resolve_next_period}
use easy_clip_be.Subscriptions.App.{
  Env, App, LookupBillingPaymentResult, payment_success, initial, not_found, pure, raise, ◌>>=◌,
  ◌>>◌, catching, now, fresh, query, find_payment_by_order_id, send_mail,
}
use easy_clip_be.Subscriptions.UseCases.Helpers.{
  InitialPaymentOutput, initial_payment_output, to_my_subscription_response, valid_time,
}

-- `!paymentKey?.trim()`
abbrev pub is_blank : Option String → Bool
is_blank none = true
is_blank (some k) = length (trim (codes k)) == 0

-- The response is about this attempt's order, amount and currency.
abbrev pub matches_attempt : InitialPaymentAttempt → LookupBillingPaymentResult → Bool
matches_attempt a p =
    p.order_id === a.external_order_id
    && p.total_amount == a.amount
    && p.currency === a.currency
    && not (is_blank p.payment_key)

-- Approved no earlier than a minute before the attempt and no later than a minute from now.
abbrev in_window : InitialPaymentAttempt → ℕ → Option ℕ → Option ℕ
in_window a t none = none
in_window a t (some approved) =
    if leb a.created_at (approved + 60000) && leb approved (t + 60000) then some approved else none

-- The time of approval, if the response confirms the payment of an attempt with a billing key.
abbrev pub confirmed_at : InitialPaymentAttempt → LookupBillingPaymentResult → ℕ → Option ℕ
confirmed_at a p t =
    if p.status === "DONE" && not (is_missing a.billing_key)
    then in_window a t (valid_time p.approved_at)
    else none

-- `['ABORTED', 'EXPIRED', 'CANCELED'].includes(status)`
abbrev pub is_refused : String → Bool
is_refused s = s === "ABORTED" || s === "EXPIRED" || s === "CANCELED"

abbrev pub completion :
    ℕ → InitialPaymentAttempt → LookupBillingPaymentResult → ℕ → ActivateSubscriptionPaymentParams
completion offset a p approved_at =
    let period = resolve_next_period offset none approved_at in
    record {
      payment = record {
        subscription_id = a.subscription_id;
        provider = toss_payments;
        status = done;
        external_payment_key = p.payment_key;
        external_order_id = a.external_order_id;
        external_event_id = none;
        amount = a.amount;
        currency = a.currency;
        approved_at = some approved_at;
        failed_at = none;
        failure_code = none;
        failure_message = none;
        raw_data = some p.raw_data;
      };
      external_billing_key = or_keep a.billing_key "";
      external_customer_key = a.customer_key;
      started_at = period.started_at;
      current_period_end = period.current_period_end;
      next_billing_at = period.next_billing_at;
    }

abbrev pub refusal :
    InitialPaymentAttempt → LookupBillingPaymentResult → ℕ → RecordSubscriptionPaymentParams
refusal a p failed_at = record {
  subscription_id = a.subscription_id;
  provider = toss_payments;
  status = if p.status === "CANCELED" then canceled else failed;
  external_payment_key = p.payment_key;
  external_order_id = a.external_order_id;
  external_event_id = none;
  amount = a.amount;
  currency = a.currency;
  approved_at = none;
  failed_at = some failed_at;
  failure_code = p.failure_code;
  failure_message = p.failure_message;
  raw_data = some p.raw_data;
}

module _ ⦃prisma : Prisma⦄ ⦃env : Env⦄ where
  -- The outcome as it stands in the table now.
  abbrev pub current_output : InitialPaymentAttempt → App InitialPaymentOutput
  current_output a = do
    current ← query (find_initial_payment a.subscription_id a.idempotency_key)
    pure (initial_payment_output (or_keep current a))

  abbrev pub send_receipt :
      InitialPaymentAttempt → ℕ → ActivateSubscriptionPaymentParams → Subscription → App (Unit {0})
  send_receipt a approved_at payment updated =
      catching
        (do
          recipient ← query (find_billing_mail_recipient_by_subscription_id a.subscription_id)
          elim recipient [
            | none ↦ pure tt
            | some email ↦ send_mail (
                payment_success email a.amount a.currency approved_at
                  (some payment.current_period_end) updated.next_billing_at initial)
          ])
        (pure tt)

  unfoldable pub apply :
      InitialPaymentAttempt → LookupBillingPaymentResult → App InitialPaymentOutput
  apply a p = if not (matches_attempt a p) then pure (initial_payment_output a) else do
    t ← now
    elim (confirmed_at a p t) [
      | some approved_at ↦ do
        let payment = completion env.offset a p approved_at
        d ← fresh
        updated ← query (complete_initial_payment d a payment)
        elim updated [
          | some s ↦ do
            send_receipt a approved_at payment s
            pure (record (initial_payment_output a) {
              status = done;
              subscription = some (to_my_subscription_response s);
            })
          | none ↦ current_output a
        ]
      | none ↦ if not (is_refused p.status) then pure (initial_payment_output a) else do
        failed_at ← now
        d ← fresh
        query (fail_initial_payment d a (refusal a p failed_at))
        current_output a
    ]

  unfoldable pub reconcile : InitialPaymentAttempt → App InitialPaymentOutput
  reconcile a =
      if not (is_pending a.status)
      then pure (initial_payment_output a)
      else catching
          (do
            t ← now
            query (defer_initial_reconciliation a.id (t + 300000))
            payment ← find_payment_by_order_id a.external_order_id
            elim payment [ some p ↦ apply a p | none ↦ pure (initial_payment_output a) ])
          (pure (initial_payment_output a))

  -- `ReconcileInitialPaymentsUseCase.execute`
  unfoldable pub reconcile_attempt_of : String → String → App InitialPaymentOutput
  reconcile_attempt_of user_id idempotency_key = do
    dw ← fresh
    ds ← fresh
    s ← query (get_or_create_personal_subscription dw ds user_id)
    attempt ← query (find_initial_payment s.id idempotency_key)
    elim attempt [ none ↦ raise not_found | some a ↦ reconcile a ]

  -- `GetInitialPaymentUseCase.execute`
  unfoldable pub get_initial_payment : String → String → App InitialPaymentOutput
  get_initial_payment user_id idempotency_key = do
    dw ← fresh
    ds ← fresh
    s ← query (get_or_create_personal_subscription dw ds user_id)
    attempt ← query (find_initial_payment s.id idempotency_key)
    elim attempt [ none ↦ raise not_found | some a ↦ pure (initial_payment_output a) ]

  -- The loop of `executeBatch`: how many attempts are still pending.
  unfoldable pub reconcile_all : List InitialPaymentAttempt → ℕ → App ℕ
  reconcile_all [] pending_count = pure pending_count
  reconcile_all (a ∷ as') pending_count = do
    result ← reconcile a
    reconcile_all as' (if is_pending result.status then suc pending_count else pending_count)

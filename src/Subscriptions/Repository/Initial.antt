-- ===== src/Subscriptions/Repository/Initial.antt =====
-- The first payment of a subscription: an attempt is claimed, completed or failed.
use easy_clip_be.Common.{
  ℕ, String, Bool, true, false, ◌&&◌, ◌||◌, not, Option, none, some, ◌==◌, ◌===◌, ltb,
  if◌then◌else◌,
}
use easy_clip_be.Subscriptions.Types.{
  Subscription, InitialPaymentAttempt, ClaimInitialPaymentParams, ActivateSubscriptionPaymentParams,
  RecordSubscriptionPaymentParams, is_pro, is_pending, done, pro, SubscriptionPaymentStatus, active,
  canceled,
}
use easy_clip_be.Subscriptions.Store.{
  Prisma, Tx, pure, ◌>>=◌, ◌>>◌, subscription, subscription_payment, initial_subscription_payment,
  find_first, find_or_throw, update_many, update, create,
}
use easy_clip_be.Subscriptions.Repository.Rows.{
  Defaults, to_payment_create_data, new_attempt, is_key, has_id, attempt_has_id, open_attempt,
  pending_payment_of, pending_attempt_of,
}

-- `currentPeriodEnd && currentPeriodEnd > now`
abbrev pub ends_after : Option ℕ → ℕ → Bool
ends_after none now = false
ends_after (some t) now = ltb now t

abbrev pub has_key : String → String → InitialPaymentAttempt → Bool
has_key subscription_id idempotency_key a =
    a.subscription_id === subscription_id && a.idempotency_key === idempotency_key

abbrev pub retry_at : ℕ → InitialPaymentAttempt → InitialPaymentAttempt
retry_at next_at a = record a { reconciliation_next_at = next_at }

abbrev pub with_billing_key : String → InitialPaymentAttempt → InitialPaymentAttempt
with_billing_key key a = record a { billing_key = some key }

abbrev pub with_status : SubscriptionPaymentStatus → InitialPaymentAttempt → InitialPaymentAttempt
with_status status a = record a { status = status }

-- The attempt while it is pending, if the payment is of its amount and currency.
abbrev pub paid_by :
    InitialPaymentAttempt → ActivateSubscriptionPaymentParams → InitialPaymentAttempt → Bool
paid_by attempt payment a =
    a.id === attempt.id
    && is_pending a.status
    && a.amount == payment.amount
    && a.currency === payment.currency

abbrev pub started_row : Bool → ActivateSubscriptionPaymentParams → Subscription → Subscription
started_row cancel_requested payment s = record s {
  plan = pro;
  status = if cancel_requested then canceled else active;
  auto_renew = not cancel_requested;
  started_at = payment.started_at;
  current_period_end = some payment.current_period_end;
  next_billing_at = if cancel_requested then none else some payment.next_billing_at;
  provider = some payment.provider;
  external_billing_key = some payment.external_billing_key;
  external_customer_key = some payment.external_customer_key;
}

-- The guard of `claimInitialPayment`: another customer key, or a paid period that runs.
abbrev pub refuses_claim : ClaimInitialPaymentParams → ℕ → Subscription → Bool
refuses_claim params now s =
    not (is_key s.external_customer_key params.customer_key)
    || (is_pro s.plan && ends_after s.current_period_end now)

module _ ⦃prisma : Prisma⦄ where
  unfoldable pub find_initial_payment : String → String → Tx (Option InitialPaymentAttempt)
  find_initial_payment subscription_id idempotency_key =
      find_first initial_subscription_payment (has_key subscription_id idempotency_key)

  unfoldable pub defer_initial_reconciliation : String → ℕ → Tx ℕ
  defer_initial_reconciliation attempt_id next_at =
      update_many initial_subscription_payment (open_attempt attempt_id) (retry_at next_at)

  -- The attempt and whether this call has made it; `none` where it is refused.
  unfoldable pub claim_initial_payment :
      Defaults → ℕ → ClaimInitialPaymentParams → Tx (Option (InitialPaymentAttempt × Bool))
  unfolding find_initial_payment
  claim_initial_payment d now params = do
    existing ← find_initial_payment params.subscription_id params.idempotency_key
    elim existing [
      | some a ↦ pure (some (a, false))
      | none ↦ do
        current ← find_or_throw subscription (has_id params.subscription_id)
        if refuses_claim params now current then pure none else do
          pending ←
              find_first initial_subscription_payment (pending_attempt_of params.subscription_id)
          renewal ← find_first subscription_payment (pending_payment_of params.subscription_id)
          elim pending [
            | some _ ↦ pure none
            | none ↦ elim renewal [
              | some _ ↦ pure none
              | none ↦ do
                attempt ← create initial_subscription_payment (new_attempt d params)
                pure (some (attempt, true))
            ]
          ]
    ]

  unfoldable pub save_initial_billing_key : String → String → Tx InitialPaymentAttempt
  save_initial_billing_key attempt_id billing_key =
      update initial_subscription_payment (attempt_has_id attempt_id) (with_billing_key billing_key)

  unfoldable pub complete_initial_payment :
      Defaults
      → InitialPaymentAttempt
      → ActivateSubscriptionPaymentParams
      → Tx (Option Subscription)
  complete_initial_payment d attempt payment = do
    current ← find_or_throw initial_subscription_payment (attempt_has_id attempt.id)
    updated ← update_many initial_subscription_payment (paid_by attempt payment) (with_status done)
    if updated == 0 then pure none else do
      create subscription_payment (to_payment_create_data d payment.payment)
      activated ←
          update subscription (has_id attempt.subscription_id)
            (started_row current.cancel_requested payment)
      pure (some activated)

  unfoldable pub fail_initial_payment :
      Defaults → InitialPaymentAttempt → RecordSubscriptionPaymentParams → Tx (Unit {0})
  fail_initial_payment d attempt payment = do
    updated ←
        update_many initial_subscription_payment (open_attempt attempt.id)
          (with_status payment.status)
    if updated == 0
        then pure tt
        else do create subscription_payment (to_payment_create_data d payment); pure tt

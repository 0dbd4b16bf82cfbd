-- ===== src/Subscriptions/UseCases/Confirm.antt =====
-- subscriptions/application/usecases/confirm-billing-auth.usecase.ts: a subscription is resumed or
-- paid for the first time. The order of an attempt is charged by the call that claimed it, once.
use easy_clip_be.Common.{
  ℕ, String, Bool, true, false, ◌&&◌, not, none, some, ◌===◌, is_empty, if◌then◌else◌,
}
use easy_clip_be.Subscriptions.Types.{
  Subscription, InitialPaymentAttempt, done, is_pro, is_canceled,
}
use easy_clip_be.Subscriptions.Store.{Prisma}
use easy_clip_be.Subscriptions.Repository.Rows.{is_some, is_key}
use easy_clip_be.Subscriptions.Repository.Initial.{
  find_initial_payment, claim_initial_payment, save_initial_billing_key, ends_after,
  with_billing_key,
}
use easy_clip_be.Subscriptions.Repository.Lifecycle.{
  get_or_create_personal_subscription, resume_auto_renewal,
}
use easy_clip_be.Subscriptions.App.{
  Env, App, bad_request, conflict, pure, raise, ◌>>=◌, ◌>>◌, catching, now, fresh, uuid, query,
  issue_billing_key, charge_billing,
}
use easy_clip_be.Subscriptions.UseCases.Helpers.{
  InitialPaymentOutput, initial_payment_output, to_my_subscription_response,
  resolve_pro_monthly_price, ProMonthlyPrice, create_subscription_order_id, text_or, ◌<>◌,
}
use easy_clip_be.Subscriptions.UseCases.Reconcile.{apply, reconcile}
use easy_clip_be.Subscriptions.UseCases.Manage.{send_subscription_resumed_mail}

pub record ConfirmBillingAuthInput : Type 0 where
  pub auth_key : String
  pub customer_key : String
  pub idempotency_key : String
  pub price_version : String

abbrev pub can_resume_without_immediate_payment : Subscription → ℕ → Bool
can_resume_without_immediate_payment s t =
    is_pro s.plan
    && is_canceled s.status
    && ends_after s.current_period_end t
    && is_some s.external_billing_key
    && is_some s.external_customer_key

module _ ⦃prisma : Prisma⦄ ⦃env : Env⦄ where
  -- The call that claimed the attempt: a key is issued, saved and charged. An error leaves the
  -- attempt pending.
  unfoldable pub pay_attempt :
      ConfirmBillingAuthInput → InitialPaymentAttempt → App InitialPaymentOutput
  pay_attempt input attempt =
      catching
        (do
          key ← issue_billing_key (record {
            idempotency_key = some (attempt.id <> ":issue");
            auth_key = input.auth_key;
            customer_key = input.customer_key;
          })
          if is_empty key then pure (initial_payment_output attempt) else do
            query (save_initial_billing_key attempt.id key)
            payment ← charge_billing (record {
              idempotency_key = some (attempt.id <> ":charge");
              billing_key = key;
              customer_key = attempt.customer_key;
              order_id = attempt.external_order_id;
              order_name =
                  text_or (env.config "TOSS_PAYMENTS_PRO_ORDER_NAME") "Easy Clip PRO 월간 구독";
              amount = attempt.amount;
              currency = attempt.currency;
              timeout_ms = some 10000;
            })
            apply (with_billing_key key attempt) payment)
        (pure (initial_payment_output attempt))

  unfoldable pub resume_now : String → Subscription → App InitialPaymentOutput
  resume_now user_id s = do
    t ← now
    resumed ← query (resume_auto_renewal s.id t)
    elim resumed [
      | none ↦ raise conflict
      | some updated ↦ do
        send_subscription_resumed_mail user_id updated
        pure (record {
          attempt_id = none;
          status = done;
          amount = none;
          currency = none;
          price_version = none;
          subscription = some (to_my_subscription_response updated);
        })
    ]

  unfoldable pub start_payment :
      ConfirmBillingAuthInput → Subscription → ProMonthlyPrice → App InitialPaymentOutput
  unfolding create_subscription_order_id
  start_payment input s price = do
    id ← uuid
    d ← fresh
    t ← now
    claim ← query (
        claim_initial_payment d t (record {
          subscription_id = s.id;
          idempotency_key = input.idempotency_key;
          external_order_id = create_subscription_order_id s.id id;
          amount = price.amount;
          currency = price.currency;
          price_version = price.price_version;
          customer_key = input.customer_key;
        }))
    elim claim [
      | none ↦ raise conflict
      | some (attempt, claimed) ↦
          if not claimed then reconcile attempt else pay_attempt input attempt
    ]

  unfoldable pub confirm_billing_auth : String → ConfirmBillingAuthInput → App InitialPaymentOutput
  unfolding resolve_pro_monthly_price
  confirm_billing_auth user_id input = do
    dw ← fresh
    ds ← fresh
    s ← query (get_or_create_personal_subscription dw ds user_id)
    if not (is_key s.external_customer_key input.customer_key) then raise bad_request else do
      existing ← query (find_initial_payment s.id input.idempotency_key)
      elim existing [
        | some a ↦ reconcile a
        | none ↦ do
          t ← now
          elim (can_resume_without_immediate_payment s t) [
            | true ↦ resume_now user_id s
            | false ↦ do
              price ← resolve_pro_monthly_price
              if not (input.price_version === price.price_version)
                  then raise conflict
                  else start_payment input s price
          ]
      ]

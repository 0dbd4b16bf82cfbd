-- ===== src/Subscriptions/UseCases/Manage.antt =====
-- get-my-subscription, update-my-subscription, create-billing-auth-request and
-- get-subscription-price of subscriptions/application/usecases.
use easy_clip_be.Common.{
  String, Bool, ◌&&◌, ◌||◌, not, Option, none, some, is_missing, if◌then◌else◌,
}
use easy_clip_be.Subscriptions.Types.{
  Subscription, SubscriptionAction, cancel, resume, UpdateSubscriptionParams, toss_payments, is_pro,
  is_canceled,
}
use easy_clip_be.Subscriptions.Store.{Prisma}
use easy_clip_be.Subscriptions.Repository.Lifecycle.{
  get_or_create_personal_subscription, update_subscription, cancel_auto_renewal,
  resume_auto_renewal, find_billing_mail_recipient_by_user_id,
}
use easy_clip_be.Subscriptions.App.{
  Env, App, subscription_resumed, conflict, internal, pure, raise, ◌>>=◌, ◌>>◌, catching, now,
  fresh, uuid, query, send_mail,
}
use easy_clip_be.Subscriptions.UseCases.Helpers.{
  MySubscriptionOutput, to_my_subscription_response, normalize_expired_subscription,
  ProMonthlyPrice, resolve_pro_monthly_price, create_external_customer_key, text_or,
}

-- The answer to a cancellation says whether a renewal payment is under way.
pub record UpdateOutput : Type 0 where
  pub subscription : MySubscriptionOutput
  pub pending_renewal_payment : Option Bool

pub record BillingAuthRequestOutput : Type 0 where
  pub price : ProMonthlyPrice
  pub client_key : String
  pub customer_key : String
  pub success_url : String
  pub fail_url : String

-- The customer key of a request, with every other column left out.
abbrev pub with_customer_key : String → UpdateSubscriptionParams
with_customer_key key = record {
  plan = none;
  status = none;
  auto_renew = none;
  current_period_end = none;
  next_billing_at = none;
  provider = some (some toss_payments);
  external_billing_key = none;
  external_customer_key = some (some key);
}

-- The guard of `resume`, before the repository checks again.
abbrev pub is_resumable : Subscription → Bool
is_resumable s =
    is_pro s.plan
    && is_canceled s.status
    && not (is_missing s.external_billing_key)
    && not (is_missing s.external_customer_key)

module _ ⦃prisma : Prisma⦄ ⦃env : Env⦄ where
  -- A mail that cannot be sent fails nothing.
  abbrev pub send_subscription_resumed_mail : String → Subscription → App (Unit {0})
  send_subscription_resumed_mail user_id s = elim s.current_period_end [
    | none ↦ pure tt
    | some period_end ↦ elim s.next_billing_at [
      | none ↦ pure tt
      | some next ↦
          catching
            (do
              recipient ← query (find_billing_mail_recipient_by_user_id user_id)
              elim recipient [
                | none ↦ pure tt
                | some email ↦ send_mail (subscription_resumed email period_end next)
              ])
            (pure tt)
    ]
  ]

  unfoldable pub get_my_subscription : String → App MySubscriptionOutput
  unfolding normalize_expired_subscription
  get_my_subscription user_id = do
    dw ← fresh
    ds ← fresh
    current ← query (get_or_create_personal_subscription dw ds user_id)
    s ← normalize_expired_subscription current
    pure (to_my_subscription_response s)

  unfoldable pub cancel_subscription : Subscription → App UpdateOutput
  cancel_subscription s = do
    canceled ← query (cancel_auto_renewal s.id)
    elim canceled [
      | none ↦ raise conflict
      | some c ↦ pure (record {
        subscription = to_my_subscription_response c.subscription;
        pending_renewal_payment = some c.pending_renewal_payment;
      })
    ]

  unfoldable pub resume_subscription : String → Subscription → App UpdateOutput
  resume_subscription user_id s = if not (is_resumable s) then raise conflict else do
    t ← now
    resumed ← query (resume_auto_renewal s.id t)
    elim resumed [
      | none ↦ raise conflict
      | some updated ↦ do
        send_subscription_resumed_mail user_id updated
        pure (record {
          subscription = to_my_subscription_response updated;
          pending_renewal_payment = none;
        })
    ]

  unfoldable pub update_my_subscription : String → SubscriptionAction → App UpdateOutput
  unfolding normalize_expired_subscription
  update_my_subscription user_id action = do
    dw ← fresh
    ds ← fresh
    current ← query (get_or_create_personal_subscription dw ds user_id)
    s ← normalize_expired_subscription current
    elim action [ cancel ↦ cancel_subscription s | resume ↦ resume_subscription user_id s ]

  -- The customer key is made once, and kept from then on.
  unfoldable pub customer_key_of : String → Subscription → App String
  unfolding create_external_customer_key
  customer_key_of user_id s = do
    id ← uuid
    let key = text_or s.external_customer_key (create_external_customer_key user_id id)
    if not (is_missing s.external_customer_key)
        then pure key
        else do query (update_subscription s.id (with_customer_key key)); pure key

  unfoldable pub create_billing_auth_request : String → App BillingAuthRequestOutput
  unfolding resolve_pro_monthly_price customer_key_of
  create_billing_auth_request user_id = do
    price ← resolve_pro_monthly_price
    let client_key = env.config "TOSS_PAYMENTS_CLIENT_KEY"
    let success_url = env.config "TOSS_PAYMENTS_BILLING_SUCCESS_URL"
    let fail_url = env.config "TOSS_PAYMENTS_BILLING_FAIL_URL"
    if is_missing client_key || is_missing success_url || is_missing fail_url
        then raise internal
        else do
          dw ← fresh
          ds ← fresh
          s ← query (get_or_create_personal_subscription dw ds user_id)
          key ← customer_key_of user_id s
          pure (record {
            price = price;
            client_key = text_or client_key "";
            customer_key = key;
            success_url = text_or success_url "";
            fail_url = text_or fail_url "";
          })

-- ===== src/Subscriptions/UseCases/Helpers.antt =====
-- subscriptions/application/helpers: responses, order ids, the price, expiration.
use Prim.Native.Char.{code}
use Prim.Native.String.{◌++◌ as text_append, slice}
use easy_clip_be.Common.{
  ℕ, ◌+◌, ◌-◌, ◌*◌, String, Bool, true, false, ◌&&◌, not, Option, none, some, List, [], ◌∷◌, ◌===◌,
  codes, ◌==◌, leb, if◌then◌else◌,
}
use easy_clip_be.Subscriptions.Types.{
  Subscription, SubscriptionPlan, SubscriptionStatus, SubscriptionPaymentStatus, PaymentProvider,
  InitialPaymentAttempt, is_pro,
}
use easy_clip_be.Subscriptions.Store.{Prisma}
use easy_clip_be.Subscriptions.App.{
  Env, App, JsDate, invalid, at, internal, pure, raise, ◌>>=◌, query, now,
}
use easy_clip_be.Subscriptions.Repository.Rows.{at_most}
use easy_clip_be.Subscriptions.Repository.Lifecycle.{expire_subscription_if_unchanged}

pub record MySubscriptionOutput : Type 0 where
  pub plan : SubscriptionPlan
  pub status : SubscriptionStatus
  pub auto_renew : Bool
  pub current_period_end : Option ℕ
  pub next_billing_at : Option ℕ
  pub provider : Option PaymentProvider

abbrev pub to_my_subscription_response : Subscription → MySubscriptionOutput
to_my_subscription_response s = record {
  plan = s.plan;
  status = s.status;
  auto_renew = s.auto_renew;
  current_period_end = s.current_period_end;
  next_billing_at = s.next_billing_at;
  provider = s.provider;
}

pub record InitialPaymentOutput : Type 0 where
  pub attempt_id : Option String
  pub status : SubscriptionPaymentStatus
  pub amount : Option ℕ
  pub currency : Option String
  pub price_version : Option String
  pub subscription : Option MySubscriptionOutput

abbrev pub initial_payment_output : InitialPaymentAttempt → InitialPaymentOutput
initial_payment_output a = record {
  attempt_id = some a.id;
  status = a.status;
  amount = some a.amount;
  currency = some a.currency;
  price_version = some a.price_version;
  subscription = none;
}

-- `approvedAt instanceof Date && Number.isFinite(approvedAt.getTime())`
abbrev pub valid_time : Option JsDate → Option ℕ
valid_time none = none
valid_time (some invalid) = none
valid_time (some (at t)) = some t

abbrev pub is_digit : ℕ → Bool
is_digit c = leb b'0' c && leb c b'9'

-- `/^[1-9]\d*$/`
abbrev pub all_digits : List ℕ → Bool
all_digits [] = true
all_digits (c ∷ cs) = is_digit c && all_digits cs

abbrev pub is_amount_text : List ℕ → Bool
is_amount_text [] = false
is_amount_text (c ∷ cs) = leb b'1' c && leb c b'9' && all_digits cs

-- `Number(raw)` on digits.
abbrev pub number_from : ℕ → List ℕ → ℕ
number_from acc [] = acc
number_from acc (c ∷ cs) = number_from (acc * 10 + (c - b'0')) cs

pub record ProMonthlyPrice : Type 0 where
  pub amount : ℕ
  pub currency : String
  pub price_version : String

-- The amount that a configured text stands for, if it is a positive `Int` of the database.
unfoldable pub parse_amount : String → Option ℕ
parse_amount raw =
    let amount = number_from 0 (codes raw) in
    if is_amount_text (codes raw) && leb amount 2147483647 then some amount else none

abbrev pub text_or : Option String → String → String
text_or none d = d
text_or (some s) d = s

abbrev parse_configured : Option String → Option ℕ
parse_configured none = none
parse_configured (some raw) = parse_amount raw

-- Only the digits of a text, and its first `n` characters.
digits_only : String → String
digits_only String.[] = String.[]
digits_only (String.◌∷◌ c s) =
    let rest = digits_only s in if is_digit (code c) then String.◌∷◌ c rest else rest

without_dashes : String → String
without_dashes String.[] = String.[]
without_dashes (String.◌∷◌ c s) =
    let rest = without_dashes s in if code c == b'-' then rest else String.◌∷◌ c rest

infixr 65 ◌<>◌
abbrev pub ◌<>◌ : String → String → String
◌<>◌ = text_append

module _ ⦃env : Env⦄ where
  -- The version is the digest of `PRO:${amount}:${currency}:MONTH:1`; an amount is printed as it is
  -- configured, since the text has no leading zero.
  unfoldable pub resolve_pro_monthly_price : App ProMonthlyPrice
  resolve_pro_monthly_price =
      let raw = env.config "PRO_MONTHLY_AMOUNT" in
      let currency = text_or (env.config "TOSS_PAYMENTS_CURRENCY") "KRW" in
      elim (parse_configured raw) [
        | none ↦ raise internal
        | some amount ↦
            if not (currency === "KRW")
            then raise internal
            else pure (record {
              amount = amount;
              currency = currency;
              price_version =
                  env.sha256 ("PRO:" <> text_or raw "" <> ":" <> currency <> ":MONTH:1");
            })
      ]

  unfoldable pub create_auto_renewal_subscription_order_id : String → ℕ → String
  unfolding digits_only
  create_auto_renewal_subscription_order_id subscription_id next_billing_at =
      "sub_"
      <> subscription_id
      <> "_"
      <> slice (digits_only (env.to_iso_string next_billing_at)) 0 14

-- `plan === PRO && !autoRenew && currentPeriodEnd <= now`
abbrev pub is_subscription_expired : Subscription → ℕ → Bool
is_subscription_expired s t = is_pro s.plan && not s.auto_renew && at_most s.current_period_end t

abbrev period_end_or_zero : Option ℕ → ℕ
period_end_or_zero none = 0
period_end_or_zero (some e) = e

module _ ⦃prisma : Prisma⦄ ⦃env : Env⦄ where
  -- The dates are compared at the time of the call; `currentPeriodEnd!` is there where they are.
  unfoldable pub normalize_expired_subscription : Subscription → App Subscription
  normalize_expired_subscription s = do
    t ← now
    if not (is_subscription_expired s t)
        then pure s
        else query (expire_subscription_if_unchanged s.id (period_end_or_zero s.current_period_end))

module _ ⦃env : Env⦄ where
  -- `sub_${sha256(subscriptionId).slice(0, 12)}_${uuid without dashes}`
  unfoldable pub create_subscription_order_id : String → String → String
  unfolding without_dashes
  create_subscription_order_id subscription_id id =
      "sub_" <> slice (env.sha256 subscription_id) 0 12 <> "_" <> without_dashes id

  unfoldable pub create_external_customer_key : String → String → String
  create_external_customer_key user_id id = "easyclip_" <> user_id <> "_" <> id

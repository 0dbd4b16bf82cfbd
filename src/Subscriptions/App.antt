-- ===== src/Subscriptions/App.antt =====
-- A request or a batch run: transactions one after the other, calls of the payment gateway and the
-- mailer, the clock, and exceptions. What has been committed stays when a later step throws.
use easy_clip_be.Common.{ℕ, ◌+◌, String, Bool, true, false, Option, none, some, List, ◌∷◌}
use easy_clip_be.Subscriptions.Store.{Db, Tx, ok, err}
use easy_clip_be.Subscriptions.Repository.Rows.{Defaults}

-- A `Date` of a response, which may be invalid.
pub data JsDate : Type 0 where
  invalid : JsDate
  at : ℕ → JsDate

-- subscriptions/application/ports/billing-payment.gateway.ts
pub record IssueBillingKeyParams : Type 0 where
  pub idempotency_key : Option String
  pub auth_key : String
  pub customer_key : String

pub record ChargeBillingParams : Type 0 where
  pub idempotency_key : Option String
  pub billing_key : String
  pub customer_key : String
  pub order_id : String
  pub order_name : String
  pub amount : ℕ
  pub currency : String
  pub timeout_ms : Option ℕ

-- A response is not validated, so its key may be absent.
pub record LookupBillingPaymentResult : Type 0 where
  pub payment_key : Option String
  pub order_id : String
  pub status : String
  pub total_amount : ℕ
  pub currency : String
  pub approved_at : Option JsDate
  pub failure_code : Option String
  pub failure_message : Option String
  pub raw_data : String

-- subscriptions/application/ports/subscription-payment-mail.port.ts
pub data PaymentKind : Type 0 where
  initial auto_renewal : PaymentKind

pub data Mail : Type 0 where
  payment_success :
      (recipient_email : String) (amount : ℕ) (currency : String) (approved_at : ℕ)
      (current_period_end next_billing_at : Option ℕ) (kind : PaymentKind)
      → Mail
  subscription_resumed : (recipient_email : String) (current_period_end next_billing_at : ℕ) → Mail

-- How a transaction or a mail ends: it may also take effect and lose its answer.
pub data Fate : Type 0 where
  works fails works_unheard : Fate

-- What the environment answers at each step: `none` is an exception.
pub record Env : Type 0 where
  pub database : ℕ → Fate
  pub clock : ℕ → ℕ
  pub defaults : ℕ → Defaults
  pub random_uuid : ℕ → String
  pub issue_billing_key : ℕ → IssueBillingKeyParams → Option String
  pub charge_billing : ℕ → ChargeBillingParams → Option LookupBillingPaymentResult
  pub find_payment_by_order_id : ℕ → String → Option (Option LookupBillingPaymentResult)
  pub mailer : ℕ → Fate
  -- `ConfigService.get`
  pub config : String → Option String
  -- The hexadecimal digest of a text.
  pub sha256 : String → String
  -- `Date.toISOString`
  pub to_iso_string : ℕ → String
  -- The server's offset from UTC.
  pub offset : ℕ

pub data ErrorCode : Type 0 where
  bad_request unauthorized forbidden not_found conflict internal : ErrorCode

-- `SubscriptionsError`, and any other error.
pub data Exn : Type 0 where
  subscriptions_error : ErrorCode → Exn
  other_error : Exn

pub data Result (A : Type 0) : Type 0 where
  done : A → Result A
  raised : Exn → Result A

-- The variables that the scheduled run counts in, each loop its own. They are assigned where the
-- code assigns them, so an exception that is caught later leaves them as they are.
pub record RenewalCounts : Type 0 where
  pub succeeded : ℕ
  pub failed : ℕ
  pub skipped : ℕ

pub record ReconciliationCounts : Type 0 where
  pub processed : ℕ
  pub succeeded : ℕ
  pub deferred : ℕ
  pub manual_review : ℕ
  pub failed : ℕ
  pub skipped : ℕ

-- The tables, the number of steps taken, what was sent out (charges and mails, latest first), and
-- the variables of the run.
pub record World : Type 0 where
  pub db : Db
  pub tick : ℕ
  pub charges : List ChargeBillingParams
  pub mails : List Mail
  pub renewals : RenewalCounts
  pub reconciliation : ReconciliationCounts

abbrev pub App : Type 0 → Type 0
App A = World → Result A × World

abbrev pub pure : {A : Type 0} → A → App A
pure a w = (done a, w)

abbrev pub raise : {A : Type 0} → ErrorCode → App A
raise c w = (raised (subscriptions_error c), w)

infixl 5 ◌>>=◌ ◌>>◌
abbrev pub ◌>>=◌ : {A B : Type 0} → App A → (A → App B) → App B
◌>>=◌ m f w = let (r, w') = m w in elim r [ done a ↦ f a w' | raised e ↦ (raised e, w') ]

abbrev pub ◌>>◌ : {A B : Type 0} → App A → App B → App B
m >> k = m >>= λ _. k

-- `try { m } catch { h }`
abbrev pub catching : {A : Type 0} → App A → App A → App A
catching m h w = let (r, w') = m w in elim r [ done a ↦ (done a, w') | raised _ ↦ h w' ]

module _ ⦃env : Env⦄ where
  abbrev pub now : App ℕ
  now w = (done (env.clock w.tick), record w { tick = w.tick + 1 })

  abbrev pub fresh : App Defaults
  fresh w = (done (env.defaults w.tick), record w { tick = w.tick + 1 })

  abbrev pub uuid : App String
  uuid w = (done (env.random_uuid w.tick), record w { tick = w.tick + 1 })

  abbrev pub query : {A : Type 0} → Tx A → App A
  query m w =
      let w' = record w { tick = w.tick + 1 } in
      elim (env.database w.tick) [
        | fails ↦ (raised other_error, w')
        | works ↦ elim (m w.db) [
          | ok r ↦ (done r.0, record w' { db = r.1 })
          | err _ ↦ (raised other_error, w')
        ]
        | works_unheard ↦ elim (m w.db) [
          | ok r ↦ (raised other_error, record w' { db = r.1 })
          | err _ ↦ (raised other_error, w')
        ]
      ]

  abbrev answer : {A : Type 0} → Option A → Result A
  answer none = raised other_error
  answer (some a) = done a

  abbrev pub issue_billing_key : IssueBillingKeyParams → App String
  issue_billing_key p w = (answer (env.issue_billing_key w.tick p), record w { tick = w.tick + 1 })

  -- The charge is on record also where its answer is lost.
  abbrev pub charge_billing : ChargeBillingParams → App LookupBillingPaymentResult
  charge_billing p w = (
    answer (env.charge_billing w.tick p),
    record w { tick = w.tick + 1; charges = p ∷ w.charges },
  )

  abbrev pub find_payment_by_order_id : String → App (Option LookupBillingPaymentResult)
  find_payment_by_order_id order_id w =
      (answer (env.find_payment_by_order_id w.tick order_id), record w { tick = w.tick + 1 })

  abbrev pub send_mail : Mail → App (Unit {0})
  send_mail m w = elim (env.mailer w.tick) [
    | fails ↦ (raised other_error, record w { tick = w.tick + 1 })
    | works ↦ (done tt, record w { tick = w.tick + 1; mails = m ∷ w.mails })
    | works_unheard ↦ (raised other_error, record w { tick = w.tick + 1; mails = m ∷ w.mails })
  ]

abbrev pub is_done : {A : Type 0} → Result A → Bool
is_done (done a) = true
is_done (raised e) = false

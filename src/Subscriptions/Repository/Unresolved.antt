-- ===== src/Subscriptions/Repository/Unresolved.antt =====
-- How many charges of a subscription have an unknown result: its pending payments, of both kinds.
use easy_clip_be.Common.{
  ℕ, ◌+◌, ◌≤◌, String, Bool, true, false, ◌≡◌, List, ◌∷◌, arith, count, count-update_where-le,
  eq_iff, inl, inr, Option-cases,
}
use easy_clip_be.Subscriptions.Types.{
  SubscriptionPayment, InitialPaymentAttempt, is_pending, done, ClaimAutoRenewalPaymentParams,
  UpdateSubscriptionParams, ClaimInitialPaymentParams, ActivateSubscriptionPaymentParams,
  RecordSubscriptionPaymentParams, CompleteAutoRenewalPaymentParams,
  DeferAutoRenewalReconciliationParams,
}
use easy_clip_be.Subscriptions.Store.{
  Prisma, IsDocumentedPrisma, Db, commit, payment_clashes, initial_payment_clashes,
}
use easy_clip_be.Subscriptions.Repository.Rows.{
  Defaults, pending_payment_of, pending_attempt_of, has_id, attempt_has_id, open_attempt, has_order,
  new_attempt, to_payment_create_data, to_payment_update_data,
}
use easy_clip_be.Subscriptions.Repository.Initial.{
  defer_initial_reconciliation, claim_initial_payment, save_initial_billing_key,
  complete_initial_payment, fail_initial_payment, retry_at, with_billing_key, with_status, paid_by,
}
use easy_clip_be.Subscriptions.Repository.Lifecycle.{
  get_or_create_personal_subscription, update_subscription, cancel_auto_renewal,
  resume_auto_renewal, expire_subscription_if_unchanged, request_cancel,
}
use easy_clip_be.Subscriptions.Repository.Renewal.{
  activate_by_payment, record_payment_failure, claim_auto_renewal_payment,
  claim_auto_renewal_reconciliation, defer_auto_renewal_reconciliation,
  complete_auto_renewal_payment, renewal_order, open_order, failed_row, leasable, leased_row,
  attempted, deferred_row, payable_order, completed_row,
}

unfoldable pub unresolved : String → Db → ℕ
unresolved s db =
    count (pending_payment_of s) db.payments + count (pending_attempt_of s) db.initial_payments

module _ ⦃prisma : Prisma⦄ (docs : IsDocumentedPrisma prisma) (s : String) where
  open docs use {subscription, subscription_payment, initial_subscription_payment}

  -- Updates that make no row pending.
  payments-le :
      (w : SubscriptionPayment → Bool) (f : SubscriptionPayment → SubscriptionPayment)
      (t : List SubscriptionPayment)
      → ((p : SubscriptionPayment)
          → w p ≡ true
          → pending_payment_of s (f p) ≡ true
          → pending_payment_of s p ≡ true)
      → count (pending_payment_of s) (prisma.subscription_payment.update_many w f t).0
        ≤ count (pending_payment_of s) t
  payments-le w f t h = ground (
    arith,
    subscription_payment.updates w f t,
    count-update_where-le (pending_payment_of s) w f t h,
  )

  attempts-le :
      (w : InitialPaymentAttempt → Bool) (f : InitialPaymentAttempt → InitialPaymentAttempt)
      (t : List InitialPaymentAttempt)
      → ((a : InitialPaymentAttempt)
          → w a ≡ true
          → pending_attempt_of s (f a) ≡ true
          → pending_attempt_of s a ≡ true)
      → count (pending_attempt_of s) (prisma.initial_subscription_payment.update_many w f t).0
        ≤ count (pending_attempt_of s) t
  attempts-le w f t h = ground (
    arith,
    initial_subscription_payment.updates w f t,
    count-update_where-le (pending_attempt_of s) w f t h,
  )

  pub claim_auto_renewal_payment-le :
      (d : Defaults) (params : ClaimAutoRenewalPaymentParams) (db : Db)
      → unresolved s db ≤ 1
      → unresolved s (commit (claim_auto_renewal_payment d params) db) ≤ 1
  unfolding claim_auto_renewal_payment unresolved
  claim_auto_renewal_payment-le d params db h =
      elim (Option-cases (prisma.subscription.find_first (has_id id) db.subscriptions)) [
        | inl e ↦ ground arith
        | inr (x, e) ↦ ground (
          arith,
          subscription.finds (has_id id) db.subscriptions,
          subscription_payment.finds (pending_payment_of id) db.payments,
          initial_subscription_payment.finds (pending_attempt_of id) db.initial_payments,
          subscription_payment.creates payment_clashes (renewal_order d params x) db.payments,
          eq_iff id s,
          eq_iff x.id s,
          eq_iff x.id id,
        )
      ]
    where
      open params use {subscription_id as id}

  pub claim_initial_payment-le :
      (d : Defaults) (now : ℕ) (params : ClaimInitialPaymentParams) (db : Db)
      → unresolved s db ≤ 1
      → unresolved s (commit (claim_initial_payment d now params) db) ≤ 1
  unfolding claim_initial_payment unresolved
  claim_initial_payment-le d now params db h = ground (
    arith,
    subscription_payment.finds (pending_payment_of id) db.payments,
    initial_subscription_payment.finds (pending_attempt_of id) db.initial_payments,
    initial_subscription_payment.creates initial_payment_clashes (new_attempt d params)
        db.initial_payments,
    eq_iff id s,
  )
    where
      open params use {subscription_id as id}

  pub complete_initial_payment-le :
      (d : Defaults) (attempt : InitialPaymentAttempt) (payment : ActivateSubscriptionPaymentParams)
      (db : Db)
      → is_pending payment.status ≡ false
      → unresolved s (commit (complete_initial_payment d attempt payment) db) ≤ unresolved s db
  unfolding complete_initial_payment unresolved
  complete_initial_payment-le d attempt payment db e = ground (
    arith,
    attempts-le (paid_by attempt payment) (with_status done) db.initial_payments
        (λ a _. ground arith),
    subscription_payment.creates payment_clashes (to_payment_create_data d payment.payment)
        db.payments,
  )

  pub fail_initial_payment-le :
      (d : Defaults) (attempt : InitialPaymentAttempt) (payment : RecordSubscriptionPaymentParams)
      (db : Db)
      → is_pending payment.status ≡ false
      → unresolved s (commit (fail_initial_payment d attempt payment) db) ≤ unresolved s db
  unfolding fail_initial_payment unresolved
  fail_initial_payment-le d attempt payment db e = ground (
    arith,
    attempts-le (open_attempt attempt.id) (with_status payment.status) db.initial_payments
        (λ a _. ground arith),
    subscription_payment.creates payment_clashes (to_payment_create_data d payment) db.payments,
  )

  pub complete_auto_renewal_payment-le :
      (params : CompleteAutoRenewalPaymentParams) (db : Db)
      → unresolved s (commit (complete_auto_renewal_payment params) db) ≤ unresolved s db
  unfolding complete_auto_renewal_payment unresolved
  complete_auto_renewal_payment-le params db =
      elim (Option-cases
        (prisma.subscription_payment.find_first (has_order params.external_order_id) db.payments)) [
          | inl e ↦ ground arith
          | inr (p, e) ↦ ground (
            arith,
            payments-le (payable_order p.id params) (completed_row params) db.payments
                (λ p' _. ground arith),
          )
        ]

  pub activate_by_payment-le :
      (d : Defaults) (params : ActivateSubscriptionPaymentParams) (db : Db)
      → is_pending params.status ≡ false
      → unresolved s (commit (activate_by_payment d params) db) ≤ unresolved s db
  unfolding activate_by_payment unresolved
  activate_by_payment-le d params db e = ground (
    arith,
    payments-le (has_order params.external_order_id) (to_payment_update_data params.payment)
        db.payments (λ p _. ground arith),
    subscription_payment.creates payment_clashes (to_payment_create_data d params.payment)
        db.payments,
  )

  -- The row that the failure leaves, created or found, is not made pending.
  pub record_payment_failure-le :
      (d : Defaults) (params : RecordSubscriptionPaymentParams) (db : Db)
      → is_pending params.status ≡ false
      → unresolved s (commit (record_payment_failure d params) db) ≤ unresolved s db
  unfolding record_payment_failure unresolved
  record_payment_failure-le d params db e = ground (
    arith,
    payments-le (has_order params.external_order_id) (λ p. p) db.payments (λ p _ h. h),
    subscription_payment.creates payment_clashes row db.payments,
    settled db.payments,
    settled
        (prisma.subscription_payment.update_many (has_order params.external_order_id) (λ p. p)
          db.payments).0,
    settled (row ∷ db.payments),
  )
    where
      row : SubscriptionPayment
      row = to_payment_create_data d params

      settled :
          (t : List SubscriptionPayment)
          → count
              (pending_payment_of s)
              (prisma.subscription_payment.update_many (open_order params) (failed_row params) t).0
            ≤ count (pending_payment_of s) t
      settled t = payments-le (open_order params) (failed_row params) t (λ p _. ground arith)

  pub lease-le :
      (id : String) (now lease_until : ℕ) (db : Db)
      → unresolved s (commit (claim_auto_renewal_reconciliation id now lease_until) db)
        ≤ unresolved s db
  unfolding claim_auto_renewal_reconciliation unresolved
  lease-le id now lease_until db =
      ground
        (arith, payments-le (leasable id now) (leased_row lease_until) db.payments (λ p _ h. h))

  pub defer-le :
      (params : DeferAutoRenewalReconciliationParams) (db : Db)
      → unresolved s (commit (defer_auto_renewal_reconciliation params) db) ≤ unresolved s db
  unfolding defer_auto_renewal_reconciliation unresolved
  defer-le params db =
      ground (arith, payments-le (attempted params) (deferred_row params) db.payments (λ p _ h. h))

  pub defer_initial-le :
      (id : String) (next_at : ℕ) (db : Db)
      → unresolved s (commit (defer_initial_reconciliation id next_at) db) ≤ unresolved s db
  unfolding defer_initial_reconciliation unresolved
  defer_initial-le id next_at db =
      ground
        (arith, attempts-le (open_attempt id) (retry_at next_at) db.initial_payments (λ a _ h. h))

  pub save_initial_billing_key-le :
      (id key : String) (db : Db)
      → unresolved s (commit (save_initial_billing_key id key) db) ≤ unresolved s db
  unfolding save_initial_billing_key unresolved
  save_initial_billing_key-le id key db = ground (
    arith,
    attempts-le (attempt_has_id id) (with_billing_key key) db.initial_payments (λ a _ h. h),
  )

  pub cancel_auto_renewal-le :
      (id : String) (db : Db) → unresolved s (commit (cancel_auto_renewal id) db) ≤ unresolved s db
  unfolding cancel_auto_renewal unresolved
  cancel_auto_renewal-le id db =
      ground
        (arith, attempts-le (pending_attempt_of id) request_cancel db.initial_payments (λ a _ h. h))

  -- These four write to other tables only.
  pub resume_auto_renewal-eq :
      (id : String) (now : ℕ) (db : Db)
      → unresolved s (commit (resume_auto_renewal id now) db) ≡ unresolved s db
  unfolding resume_auto_renewal unresolved
  resume_auto_renewal-eq id now db = ground arith

  pub expire-eq :
      (id : String) (period_end : ℕ) (db : Db)
      → unresolved s (commit (expire_subscription_if_unchanged id period_end) db) ≡ unresolved s db
  unfolding expire_subscription_if_unchanged unresolved
  expire-eq id period_end db = ground arith

  pub update_subscription-eq :
      (id : String) (params : UpdateSubscriptionParams) (db : Db)
      → unresolved s (commit (update_subscription id params) db) ≡ unresolved s db
  unfolding update_subscription unresolved
  update_subscription-eq id params db = ground arith

  pub get_or_create-eq :
      (dw ds : Defaults) (user_id : String) (db : Db)
      → unresolved s (commit (get_or_create_personal_subscription dw ds user_id) db)
        ≡ unresolved s db
  unfolding get_or_create_personal_subscription unresolved
  get_or_create-eq dw ds user_id db = ground arith

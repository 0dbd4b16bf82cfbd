-- ===== src/Subscriptions/Repository/Settling.antt =====
-- A renewal payment is settled once: completed at most once, asked about under a lease of one
-- batch, and not overwritten by a late failure.
use easy_clip_be.Common.{
  ℕ, ◌+◌, ◌<◌, ◌≤◌, String, ◌≡◌, refl, Bool, false, List, [], ◌∷◌, none, some, arith, count, find,
  inl, inr, Option-cases, ap, ◌∙◌, sym, count-update_where-eq, find-update_where, map_option,
  if◌then◌else◌, update_where, count-update_where_self, update_where-none,
}
use easy_clip_be.Prisma.{find_first-find}
use easy_clip_be.Subscriptions.Types.{
  Subscription, SubscriptionPayment, CompleteAutoRenewalPaymentParams,
  RecordSubscriptionPaymentParams, is_pending,
}
use easy_clip_be.Subscriptions.Store.{Prisma, IsDocumentedPrisma, Db, ok, commit}
use easy_clip_be.Subscriptions.Repository.Rows.{Defaults, has_order}
use easy_clip_be.Subscriptions.Repository.Renewal.{
  complete_auto_renewal_payment, claim_auto_renewal_reconciliation, record_payment_failure,
  payable_order, completed_row, leasable, leased_row, open_order, failed_row, payment_has_id,
}

-- The rows that are leased, and those that may still be, are at most those of the id.
leased_rows :
    (id : String) (now lease_until later : ℕ) (t : List SubscriptionPayment)
    → later < lease_until
    → count (leasable id later) (update_where (leasable id now) (leased_row lease_until) t)
        + count (leasable id now) t
      ≤ count (payment_has_id id) t
leased_rows id now lease_until later [] l = omega arith
leased_rows id now lease_until later (x ∷ xs) l =
    ground (arith, leased_rows id now lease_until later xs l)

module _ ⦃prisma : Prisma⦄ (docs : IsDocumentedPrisma prisma) where
  open docs use {subscription_payment}

  -- With no row to pay, nothing is written.
  nothing_payable :
      (params : CompleteAutoRenewalPaymentParams) (p : SubscriptionPayment) (db : Db)
      → prisma.subscription_payment.find_first (has_order params.external_order_id) db.payments
        ≡ some p
      → count (payable_order p.id params) db.payments ≡ 0
      → complete_auto_renewal_payment params db ≡ ok (none, db)
  unfolding complete_auto_renewal_payment
  nothing_payable params p db e h = ground (
    arith,
    subscription_payment.updates (payable_order p.id params) (completed_row params) db.payments,
    update_where-none (payable_order p.id params) (completed_row params) db.payments h,
  )

  completed_payments :
      (params : CompleteAutoRenewalPaymentParams) (s : Subscription) (p : SubscriptionPayment)
      (db db' : Db)
      → prisma.subscription_payment.find_first (has_order params.external_order_id) db.payments
        ≡ some p
      → complete_auto_renewal_payment params db ≡ ok (some s, db')
      → db'.payments ≡ update_where (payable_order p.id params) (completed_row params) db.payments
  unfolding complete_auto_renewal_payment
  completed_payments params s p db db' e h = ground (
    arith,
    subscription_payment.updates (payable_order p.id params) (completed_row params) db.payments,
  )

  completed_order :
      (params : CompleteAutoRenewalPaymentParams) (s : Subscription) (db db' : Db)
      → complete_auto_renewal_payment params db ≡ ok (some s, db')
      → (p : SubscriptionPayment) × (prisma.subscription_payment.find_first
            (has_order params.external_order_id)
            db.payments
          ≡ some p)
  unfolding complete_auto_renewal_payment
  completed_order params s db db' h =
      elim (Option-cases
        (prisma.subscription_payment.find_first (has_order params.external_order_id) db.payments)) [
          | inl e ↦ absurd (ground arith)
          | inr (p, e) ↦ (p, e)
        ]

  -- The order is found again after it has been completed.
  found_again :
      (params : CompleteAutoRenewalPaymentParams) (p : SubscriptionPayment)
      (t : List SubscriptionPayment)
      → count (has_order params.external_order_id) t ≤ 1
      → prisma.subscription_payment.find_first (has_order params.external_order_id) t ≡ some p
      → prisma.subscription_payment.find_first
          (has_order params.external_order_id)
          (update_where (payable_order p.id params) (completed_row params) t)
        ≡ some (if payable_order p.id params p then completed_row params p else p)
  found_again params p t u e =
      find_first-find subscription_payment order t' (omega (arith, u, counted))
      ∙ found
      ∙ ap (map_option (λ x. if w x then completed_row params x else x))
          (sym (find_first-find subscription_payment order t u) ∙ e)
    where
      order : SubscriptionPayment → Bool
      order = has_order params.external_order_id

      w : SubscriptionPayment → Bool
      w = payable_order p.id params

      t' : List SubscriptionPayment
      t' = update_where w (completed_row params) t

      counted : count order t' ≡ count order t
      counted = count-update_where-eq order w (completed_row params) t (λ x. refl)

      found :
          find order t' ≡ map_option (λ x. if w x then completed_row params x else x) (find order t)
      found = find-update_where order w (completed_row params) t (λ x. refl)

  -- The period is extended once for each payment: where order ids are unique, completing an order
  -- again, after its completion has gone through, returns none and writes nothing.
  pub complete_once :
      (params : CompleteAutoRenewalPaymentParams) (s : Subscription) (db db' : Db)
      → count (has_order params.external_order_id) db.payments ≤ 1
      → complete_auto_renewal_payment params db ≡ ok (some s, db')
      → complete_auto_renewal_payment params db' ≡ ok (none, db')
  complete_once params s db db' u h =
      let (p, e) = completed_order params s db db' h in
      let paid = completed_payments params s p db db' e h in
      let q = if payable_order p.id params p then completed_row params p else p in
      let same_id : q.id ≡ p.id = ground arith in
      nothing_payable params q db'
        (ap (prisma.subscription_payment.find_first (has_order params.external_order_id)) paid
          ∙ found_again params p db.payments u e)
        (rw (paid, same_id)
          (count-update_where_self (payable_order p.id params) (completed_row params) db.payments
            (λ x. ground arith)))

  leased_payments :
      (id : String) (now lease_until : ℕ) (p : SubscriptionPayment) (db db' : Db)
      → claim_auto_renewal_reconciliation id now lease_until db ≡ ok (some p, db')
      → (count (leasable id now) db.payments ≡ 1)
        × (db'.payments ≡ update_where (leasable id now) (leased_row lease_until) db.payments)
  unfolding claim_auto_renewal_reconciliation
  leased_payments id now lease_until p db db' h = (
    ground (
      arith,
      subscription_payment.updates (leasable id now) (leased_row lease_until) db.payments,
    ),
    ground (
      arith,
      subscription_payment.updates (leasable id now) (leased_row lease_until) db.payments,
    ),
  )

  nothing_leasable :
      (id : String) (now lease_until : ℕ) (db : Db)
      → count (leasable id now) db.payments ≡ 0
      → claim_auto_renewal_reconciliation id now lease_until db ≡ ok (none, db)
  unfolding claim_auto_renewal_reconciliation
  nothing_leasable id now lease_until db h = ground (
    arith,
    subscription_payment.updates (leasable id now) (leased_row lease_until) db.payments,
    update_where-none (leasable id now) (leased_row lease_until) db.payments h,
  )

  -- A batch that has leased a payment keeps every other one from it until the lease ends: where
  -- payment ids are unique, a second claim before that time gets none and writes nothing.
  pub lease_excludes :
      (id : String) (now lease_until later lease_until' : ℕ) (p : SubscriptionPayment) (db db' : Db)
      → later < lease_until
      → claim_auto_renewal_reconciliation id now lease_until db ≡ ok (some p, db')
      → count (payment_has_id id) db.payments ≤ 1
      → claim_auto_renewal_reconciliation id later lease_until' db' ≡ ok (none, db')
  lease_excludes id now lease_until later lease_until' p db db' l h u =
      let (one, rows) = leased_payments id now lease_until p db db' h in
      nothing_leasable id later lease_until' db' (
        ap (count (leasable id later)) rows
        ∙ omega (arith, one, leased_rows id now lease_until later db.payments l))

  -- A failure that arrives late overwrites no payment that is settled: where order ids are unique,
  -- a payment of the order that is no longer pending stands unchanged after it.
  pub failure_keeps_settled :
      (d : Defaults) (params : RecordSubscriptionPaymentParams) (p : SubscriptionPayment) (db : Db)
      → count (has_order params.external_order_id) db.payments ≤ 1
      → find (has_order params.external_order_id) db.payments ≡ some p
      → is_pending p.status ≡ false
      → find
          (has_order params.external_order_id)
          (commit (record_payment_failure d params) db).payments
        ≡ some p
  unfolding record_payment_failure
  failure_keeps_settled d params p db u e h = ground (
    arith,
    find_first-find subscription_payment order db.payments u ∙ e,
    subscription_payment.updates order (λ x. x) db.payments,
    subscription_payment.updates (open_order params) (failed_row params) same,
    find-update_where order order (λ x. x) db.payments (λ x. refl),
    find-update_where order (open_order params) (failed_row params) same (λ x. refl),
  )
    where
      order : SubscriptionPayment → Bool
      order = has_order params.external_order_id

      same : List SubscriptionPayment
      same = update_where order (λ x. x) db.payments

-- ===== src/Subscriptions/UseCases/BatchCharge.antt =====
-- A scheduled run, whatever fails in it, leaves at most one pending payment of a subscription:
-- process-subscription-payments.usecase.ts and the use cases that it runs.
use easy_clip_be.Common.{ℕ, ◌≤◌, Bool, String, List, [], ◌∷◌, arith}
use easy_clip_be.Subscriptions.Types.{
  Subscription, SubscriptionPayment, InitialPaymentAttempt, CompleteAutoRenewalPaymentParams,
}
use easy_clip_be.Subscriptions.Store.{Prisma, IsDocumentedPrisma}
use easy_clip_be.Subscriptions.Repository.Unresolved
use easy_clip_be.Subscriptions.Repository.Unresolved.{unresolved}
use easy_clip_be.Subscriptions.Repository.Lifecycle.{find_billing_mail_recipient_by_subscription_id}
use easy_clip_be.Subscriptions.Repository.Due.{
  find_auto_renewal_payments_to_reconcile, find_due_auto_renewal_subscriptions,
  find_pending_initial_payments,
}
use easy_clip_be.Subscriptions.App.{Env, World}
use easy_clip_be.Subscriptions.UseCases.Reconcile.{reconcile_all}
use easy_clip_be.Subscriptions.UseCases.Renew.{
  AccessPolicy, complete_renewal, complete_payment, charge_claimed, end_renewal, charge_if,
  claim_and_charge, charge_due, charge_all, ask_again, judge, put_off, act_on, reconcile_payment,
  reconcile_each, reconcile_payments, process_due_auto_renewals, assert_auto_renewals_batch_allowed,
}
use easy_clip_be.Subscriptions.UseCases.Helpers.{ProMonthlyPrice}
use easy_clip_be.Subscriptions.UseCases.Batch.{execute_batch, process_subscription_payments}
use easy_clip_be.Subscriptions.UseCases.SingleCharge.{reconcile-unresolved}

module _ ⦃prisma : Prisma⦄ ⦃env : Env⦄ (docs : IsDocumentedPrisma prisma) (s : String) where
  complete_renewal-unresolved :
      (params : CompleteAutoRenewalPaymentParams) (w : World)
      → unresolved s (complete_renewal params w).1.db ≤ unresolved s w.db
  unfolding complete_renewal find_billing_mail_recipient_by_subscription_id
  complete_renewal-unresolved params w =
      ground (arith, Unresolved.complete_auto_renewal_payment-le docs s params w.db)

  complete_payment-unresolved :
      (params : CompleteAutoRenewalPaymentParams) (w : World)
      → unresolved s (complete_payment params w).1.db ≤ unresolved s w.db
  unfolding complete_payment find_billing_mail_recipient_by_subscription_id
  complete_payment-unresolved params w =
      ground (arith, Unresolved.complete_auto_renewal_payment-le docs s params w.db)

  charge_claimed-unresolved :
      (r : Subscription) (price : ProMonthlyPrice) (order_id : String) (w : World)
      → unresolved s (charge_claimed r price order_id w).1.db ≤ unresolved s w.db
  unfolding charge_claimed end_renewal
  charge_claimed-unresolved r price order_id w = grind (arith, complete_renewal-unresolved)

  claim_and_charge-unresolved :
      (now : ℕ) (r : Subscription) (price : ProMonthlyPrice) (w : World)
      → unresolved s w.db ≤ 1
      → unresolved s (claim_and_charge now r price w).1.db ≤ 1
  unfolding claim_and_charge charge_if
  claim_and_charge-unresolved now r price w h =
      grind (arith, h, charge_claimed-unresolved, Unresolved.claim_auto_renewal_payment-le docs s)

  charge_due-unresolved :
      (now : ℕ) (r : Subscription) (w : World)
      → unresolved s w.db ≤ 1
      → unresolved s (charge_due now r w).1.db ≤ 1
  unfolding charge_due
  charge_due-unresolved now r w h = grind (arith, h, claim_and_charge-unresolved)

  ask_again-unresolved :
      (p : SubscriptionPayment) (w : World) → unresolved s (ask_again p w).1.db ≤ unresolved s w.db
  unfolding ask_again
  ask_again-unresolved p w = grind (arith, complete_payment-unresolved)

  judge-unresolved :
      (p : SubscriptionPayment) (w : World) → unresolved s (judge p w).1.db ≤ unresolved s w.db
  unfolding judge
  judge-unresolved p w = grind (arith, ask_again-unresolved)

  put_off-unresolved :
      (now : ℕ) (p : SubscriptionPayment) (reason : String) (b : Bool) (w : World)
      → unresolved s (put_off now p reason b w).1.db ≤ unresolved s w.db
  unfolding put_off
  put_off-unresolved now p reason b w = grind (arith, Unresolved.defer-le docs s)

  reconcile_payment-unresolved :
      (now : ℕ) (p : SubscriptionPayment) (w : World)
      → unresolved s (reconcile_payment now p w).1.db ≤ unresolved s w.db
  unfolding reconcile_payment act_on
  reconcile_payment-unresolved now p w =
      grind (arith, judge-unresolved, put_off-unresolved, Unresolved.lease-le docs s)

  reconcile_each-unresolved :
      (now : ℕ) (ps : List SubscriptionPayment) (w : World)
      → unresolved s (reconcile_each now ps w).1.db ≤ unresolved s w.db
  unfolding reconcile_each
  reconcile_each-unresolved now [] w = omega arith
  reconcile_each-unresolved now (p ∷ ps) w =
      grind (arith, reconcile_each-unresolved now ps, reconcile_payment-unresolved)

  reconcile_payments-unresolved :
      (now limit : ℕ) (w : World)
      → unresolved s (reconcile_payments now limit w).1.db ≤ unresolved s w.db
  unfolding reconcile_payments find_auto_renewal_payments_to_reconcile
  reconcile_payments-unresolved now limit w = grind (arith, reconcile_each-unresolved)

  charge_all-unresolved :
      (now : ℕ) (rs : List Subscription) (w : World)
      → unresolved s w.db ≤ 1
      → unresolved s (charge_all now rs w).1.db ≤ 1
  unfolding charge_all
  charge_all-unresolved now [] w h = h
  charge_all-unresolved now (r ∷ rs) w h =
      grind (arith, h, charge_all-unresolved now rs, charge_due-unresolved)

  reconcile_all-unresolved :
      (as' : List InitialPaymentAttempt) (n : ℕ) (w : World)
      → unresolved s (reconcile_all as' n w).1.db ≤ unresolved s w.db
  unfolding reconcile_all
  reconcile_all-unresolved [] n w = omega arith
  reconcile_all-unresolved (a ∷ as') n w =
      grind (arith, reconcile_all-unresolved as', reconcile-unresolved docs s)

  process_due-unresolved :
      (t limit : ℕ) (p : AccessPolicy) (w : World)
      → unresolved s w.db ≤ 1
      → unresolved s (process_due_auto_renewals t limit p w).1.db ≤ 1
  unfolding process_due_auto_renewals assert_auto_renewals_batch_allowed
      find_due_auto_renewal_subscriptions
  process_due-unresolved t limit p w h =
      grind (arith, h, charge_all-unresolved, reconcile_payments-unresolved)

  -- A scheduled run leaves at most one pending payment of a subscription that had at most one,
  -- whatever fails on the way.
  pub process_subscription_payments-unresolved :
      (t limit : ℕ) (p : AccessPolicy) (w : World)
      → unresolved s w.db ≤ 1
      → unresolved s (process_subscription_payments t limit p w).1.db ≤ 1
  unfolding process_subscription_payments execute_batch find_pending_initial_payments
  process_subscription_payments-unresolved t limit p w h =
      grind (arith, h, process_due-unresolved, reconcile_all-unresolved)

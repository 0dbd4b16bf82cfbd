-- ===== src/Subscriptions/UseCases/SingleCharge.antt =====
-- Asking the provider about a first payment, whatever fails in it, leaves at most one pending
-- payment of a subscription: apply and reconcile of reconcile-initial-payments.usecase.ts.
use easy_clip_be.Common.{ℕ, ◌+◌, ◌≤◌, String, ◌≡◌, refl, false, arith, Option-cases, inl, inr}
use easy_clip_be.Subscriptions.Types.{Subscription, InitialPaymentAttempt, is_pending}
use easy_clip_be.Subscriptions.Store.{Prisma, IsDocumentedPrisma}
use easy_clip_be.Subscriptions.Repository.Unresolved
use easy_clip_be.Subscriptions.Repository.Unresolved.{unresolved}
use easy_clip_be.Subscriptions.Repository.Initial.{find_initial_payment}
use easy_clip_be.Subscriptions.Repository.Lifecycle.{
  find_billing_mail_recipient_by_subscription_id, find_billing_mail_recipient_by_user_id,
}
use easy_clip_be.Subscriptions.App.{Env, World, LookupBillingPaymentResult}
use easy_clip_be.Subscriptions.UseCases.Reconcile.{
  apply, reconcile, completion, refusal, confirmed_at,
}
use easy_clip_be.Subscriptions.UseCases.Helpers.{ProMonthlyPrice}
use easy_clip_be.Subscriptions.UseCases.Confirm.{
  ConfirmBillingAuthInput, pay_attempt, start_payment, resume_now, confirm_billing_auth,
}

module _ ⦃prisma : Prisma⦄ ⦃env : Env⦄ (docs : IsDocumentedPrisma prisma) (s : String) where
  refusal-is_pending :
      (a : InitialPaymentAttempt) (p : LookupBillingPaymentResult) (t : ℕ)
      → is_pending (refusal a p t).status ≡ false
  refusal-is_pending a p t = ground arith

  -- What the provider says of an attempt leaves no more pending payments of a subscription than
  -- there were, whatever fails on the way.
  pub apply-unresolved :
      (a : InitialPaymentAttempt) (p : LookupBillingPaymentResult) (w : World)
      → unresolved s (apply a p w).1.db ≤ unresolved s w.db
  unfolding apply find_initial_payment find_billing_mail_recipient_by_subscription_id
  apply-unresolved a p w = elim (Option-cases (confirmed_at a p (env.clock w.tick))) [
    | inl e ↦ ground (
      arith,
      e,
      Unresolved.fail_initial_payment-le docs s (env.defaults (w.tick + 1 + 1)) a
          (refusal a p (env.clock (w.tick + 1))) w.db
          (refusal-is_pending a p (env.clock (w.tick + 1))),
    )
    | inr (t, e) ↦ ground (
      arith,
      e,
      Unresolved.complete_initial_payment-le docs s (env.defaults (w.tick + 1)) a
          (completion env.offset a p t) w.db refl,
    )
  ]

  pub reconcile-unresolved :
      (a : InitialPaymentAttempt) (w : World)
      → unresolved s (reconcile a w).1.db ≤ unresolved s w.db
  unfolding reconcile
  reconcile-unresolved a w = grind (
    arith,
    apply-unresolved,
    Unresolved.defer_initial-le docs s a.id (env.clock w.tick + 300000) w.db,
  )

  pay_attempt-unresolved :
      (input : ConfirmBillingAuthInput) (a : InitialPaymentAttempt) (w : World)
      → unresolved s (pay_attempt input a w).1.db ≤ unresolved s w.db
  unfolding pay_attempt
  pay_attempt-unresolved input a w =
      grind (arith, apply-unresolved, Unresolved.save_initial_billing_key-le docs s)

  resume_now-unresolved :
      (user_id : String) (r : Subscription) (w : World)
      → unresolved s (resume_now user_id r w).1.db ≤ unresolved s w.db
  unfolding resume_now find_billing_mail_recipient_by_user_id
  resume_now-unresolved user_id r w =
      ground (arith, Unresolved.resume_auto_renewal-eq docs s r.id (env.clock w.tick) w.db)

  start_payment-unresolved :
      (input : ConfirmBillingAuthInput) (r : Subscription) (price : ProMonthlyPrice) (w : World)
      → unresolved s w.db ≤ 1
      → unresolved s (start_payment input r price w).1.db ≤ 1
  unfolding start_payment
  start_payment-unresolved input r price w h = grind (
    arith,
    h,
    pay_attempt-unresolved,
    reconcile-unresolved,
    Unresolved.claim_initial_payment-le docs s,
  )

  -- A confirmation leaves at most one pending payment of a subscription that had at most one,
  -- whatever fails on the way.
  pub confirm_billing_auth-unresolved :
      (user_id : String) (input : ConfirmBillingAuthInput) (w : World)
      → unresolved s w.db ≤ 1
      → unresolved s (confirm_billing_auth user_id input w).1.db ≤ 1
  unfolding confirm_billing_auth find_initial_payment
  confirm_billing_auth-unresolved user_id input w h = grind (
    arith,
    h,
    start_payment-unresolved,
    reconcile-unresolved,
    resume_now-unresolved,
    Unresolved.get_or_create-eq docs s (env.defaults w.tick) (env.defaults (w.tick + 1)) user_id
        w.db,
  )

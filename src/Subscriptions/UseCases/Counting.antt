-- ===== src/Subscriptions/UseCases/Counting.antt =====
-- What the batch counts, and that an item that fails stops no other.
use easy_clip_be.Common.{
  ℕ, ◌+◌, ◌<◌, ◌≡◌, refl, true, false, List, [], ◌∷◌, arith, inl, inr, length, ap, ◌∙◌, Bool-cases,
  codes_eq, ◌↔◌,
}
use easy_clip_be.Subscriptions.Types.{Subscription, SubscriptionPayment}
use easy_clip_be.Subscriptions.Store.{Prisma}
use easy_clip_be.Subscriptions.App.{Env, World, ReconciliationCounts, done, is_done}
use easy_clip_be.Subscriptions.UseCases.Renew.{
  charge_due, charge_all, reconcile_payment, reconcile_each, reconcile_payments, BatchOutput,
  AccessPolicy, trimmed, assert_auto_renewals_batch_allowed, process_due_auto_renewals,
}
use easy_clip_be.Subscriptions.UseCases.Batch.{process_subscription_payments}
use easy_clip_be.Subscriptions.UseCases.Items.{
  payments_counted, CountsRenewals, CountsPayments, charge_due-CountsRenewals,
  reconcile_payment-CountsPayments,
}

module _ ⦃prisma : Prisma⦄ ⦃env : Env⦄ where
  -- The loop over the due subscriptions always answers: it ends in no exception, whatever fails on
  -- the way, and it counts each of them once, as a success, a failure or one that is skipped.
  pub charge_all-CountsRenewals :
      (now : ℕ) (ss : List Subscription) (w : World)
      → CountsRenewals (length ss) w (charge_all now ss w)
  unfolding charge_all
  charge_all-CountsRenewals now [] w = (refl, omega arith)
  charge_all-CountsRenewals now (s ∷ ss) w = ground (
    arith,
    charge_due-CountsRenewals now s w,
    charge_all-CountsRenewals now ss (charge_due now s w).1,
  )

  -- The loop over the payments that are asked about again always answers: it ends in no exception,
  -- whatever fails on the way, and it counts each of them as processed and once more, as a success,
  -- as deferred, for review, as a failure or as skipped.
  pub reconcile_each-CountsPayments :
      (now : ℕ) (ps : List SubscriptionPayment) (w : World)
      → CountsPayments (length ps) w (reconcile_each now ps w)
  unfolding reconcile_each
  reconcile_each-CountsPayments now [] w = (refl, omega arith, omega arith)
  reconcile_each-CountsPayments now (p ∷ ps) w = ground (
    arith,
    reconcile_payment-CountsPayments now p w,
    reconcile_each-CountsPayments now ps (reconcile_payment now p w).1,
  )

  -- Every processed item is counted in one way.
  abbrev pub IsBalanced : BatchOutput → Type 0
  IsBalanced o =
      (o.processed ≡ o.succeeded + o.failed + o.skipped)
      × (o.reconciliation.processed ≡ payments_counted o.reconciliation)

  reconcile_payments-balances :
      (now limit : ℕ) (c : ReconciliationCounts) (w : World)
      → (reconcile_payments now limit w).0 ≡ done c
      → c.processed ≡ payments_counted c
  unfolding reconcile_payments
  reconcile_payments-balances now limit c w h = grind (arith, h, reconcile_each-CountsPayments now)

  -- A scheduled run that answers reports, for each of its two loops, as many processed items as it
  -- reports in all ways of ending, whatever the variables held before.
  pub process_due_auto_renewals-IsBalanced :
      (now limit : ℕ) (p : AccessPolicy) (o : BatchOutput) (w : World)
      → (process_due_auto_renewals now limit p w).0 ≡ done o
      → IsBalanced o
  unfolding process_due_auto_renewals
  process_due_auto_renewals-IsBalanced now limit p o w h =
      grind (arith, h, reconcile_payments-balances now limit, charge_all-CountsRenewals now)

-- Who may start the batch: it is enabled, a secret is configured, and the caller gives the same,
-- white space at the ends aside.
pub record IsAllowed (p : AccessPolicy) : Type 0 where
  pub enabled : p.enabled ≡ true
  pub configured : 0 < length (trimmed p.expected_secret)
  pub same : trimmed p.provided_secret ≡ trimmed p.expected_secret

codes_eq_sound : (a b : List ℕ) → codes_eq a b ≡ true → a ≡ b
codes_eq_sound [] [] h = refl
codes_eq_sound [] (y ∷ ys) h = cc
codes_eq_sound (x ∷ xs) [] h = cc
codes_eq_sound (x ∷ xs) (y ∷ ys) h = ground (arith, codes_eq_sound xs ys)

codes_eq_refl : (a : List ℕ) → codes_eq a a ≡ true
codes_eq_refl [] = refl
codes_eq_refl (x ∷ xs) = ground (arith, codes_eq_refl xs)

allowed_passes :
    (p : AccessPolicy) (w : World)
    → IsAllowed p
    → assert_auto_renewals_batch_allowed p w ≡ (done tt, w)
unfolding assert_auto_renewals_batch_allowed
allowed_passes p w h = ground (
  arith,
  ap length h.same,
  ap (λ t. codes_eq t (trimmed p.expected_secret)) h.same
      ∙ codes_eq_refl (trimmed p.expected_secret),
)

only-IsAllowed_pass :
    (p : AccessPolicy) (w : World)
    → is_done (assert_auto_renewals_batch_allowed p w).0 ≡ true
    → IsAllowed p
unfolding assert_auto_renewals_batch_allowed
only-IsAllowed_pass p w h = record {
  enabled = ground arith;
  configured = ground arith;
  same = codes_eq_sound (trimmed p.provided_secret) (trimmed p.expected_secret) (ground arith);
}

refusal-world : (p : AccessPolicy) (w : World) → (assert_auto_renewals_batch_allowed p w).1 ≡ w
unfolding assert_auto_renewals_batch_allowed
refusal-world p w = ground arith

-- The check lets a run through, with nothing changed, exactly when it is allowed.
pub access_iff_IsAllowed :
    (p : AccessPolicy) (w : World)
    → (assert_auto_renewals_batch_allowed p w ≡ (done tt, w)) ↔ IsAllowed p
access_iff_IsAllowed p w =
    (λ e. only-IsAllowed_pass p w (ap (λ r. is_done r.0) e), allowed_passes p w)

module _ ⦃prisma : Prisma⦄ ⦃env : Env⦄ where
  -- A scheduled run that is not allowed fails and changes nothing: the tables, the charges and the
  -- mails stay as they were, and neither the database, the provider nor the clock is asked.
  pub refused_run_stops :
      (t limit : ℕ) (p : AccessPolicy) (w : World)
      → ¬ IsAllowed p
      → ((process_subscription_payments t limit p w).1 ≡ w)
        × (is_done (process_subscription_payments t limit p w).0 ≡ false)
  unfolding process_subscription_payments process_due_auto_renewals
  refused_run_stops t limit p w h =
      elim (Bool-cases (is_done (assert_auto_renewals_batch_allowed p w).0)) [
        | inl e ↦ absurd (h (only-IsAllowed_pass p w e))
        | inr e ↦ ground (arith, refusal-world p w)
      ]

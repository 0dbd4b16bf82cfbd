-- ===== src/Subscriptions/UseCases/Charging.antt =====
-- When the use cases charge, and what a response may change.
use easy_clip_be.Common.{
  ◌+◌, ◌≤◌, String, ◌≡◌, true, List, ◌∷◌, arith, ◌⊎◌, length, inl, inr, Bool-cases, eq_iff, ◌<◌,
}
use easy_clip_be.Subscriptions.Types.{Subscription, InitialPaymentAttempt}
use easy_clip_be.Subscriptions.Store.{Prisma}
use easy_clip_be.Subscriptions.App.{
  Env, World, done, LookupBillingPaymentResult, ChargeBillingParams, is_done,
}
use easy_clip_be.Subscriptions.UseCases.Helpers.{ProMonthlyPrice, initial_payment_output}
use easy_clip_be.Subscriptions.UseCases.Renew.{trimmed}
use easy_clip_be.Subscriptions.UseCases.Reconcile.{apply, reconcile, matches_attempt}
use easy_clip_be.Subscriptions.UseCases.Confirm.{
  ConfirmBillingAuthInput, pay_attempt, start_payment, resume_now, confirm_billing_auth,
}

-- What a response to an attempt has to say: its order, its amount, its currency, and a key of
-- the payment that is not white space alone.
pub record IsMatch (a : InitialPaymentAttempt) (p : LookupBillingPaymentResult) : Type 0 where
  pub order : p.order_id ≡ a.external_order_id
  pub amount : p.total_amount ≡ a.amount
  pub currency : p.currency ≡ a.currency
  pub keyed : 0 < length (trimmed p.payment_key)

module _ ⦃prisma : Prisma⦄ ⦃env : Env⦄ where
  -- A reconciliation of a first payment always answers: it ends in no exception, whatever the
  -- database, the provider and the mailer do.
  pub reconcile_returns : (a : InitialPaymentAttempt) (w : World) → is_done (reconcile a w).0 ≡ true
  unfolding reconcile
  reconcile_returns a w = ground arith

  matching-IsMatch :
      (a : InitialPaymentAttempt) (p : LookupBillingPaymentResult)
      → matches_attempt a p ≡ true
      → IsMatch a p
  matching-IsMatch a p h = record {
    order = (eq_iff p.order_id a.external_order_id).0 (ground (arith, h));
    amount = ground (arith, h);
    currency = (eq_iff p.currency a.currency).0 (ground (arith, h));
    keyed = ground (arith, h);
  }

  -- A response that is not for the attempt's order, amount and currency, or has no
  -- payment key but white space,
  -- changes nothing and gives the attempt's own state.
  pub apply_mismatch :
      (a : InitialPaymentAttempt) (p : LookupBillingPaymentResult) (w : World)
      → ¬ IsMatch a p
      → apply a p w ≡ (done (initial_payment_output a), w)
  unfolding apply
  apply_mismatch a p w h = elim (Bool-cases (matches_attempt a p)) [
    | inl e ↦ absurd (h (matching-IsMatch a p e))
    | inr e ↦ ground (arith, e)
  ]

  apply-charges :
      (a : InitialPaymentAttempt) (p : LookupBillingPaymentResult) (w : World)
      → (apply a p w).1.charges ≡ w.charges
  unfolding apply
  apply-charges a p w = ground arith

  reconcile-charges :
      (a : InitialPaymentAttempt) (w : World) → (reconcile a w).1.charges ≡ w.charges
  unfolding reconcile apply
  reconcile-charges a w = ground arith

  -- The charges after are those before, and at most one more, of the attempt's own order, amount,
  -- currency and customer.
  abbrev pub ChargesFor :
      InitialPaymentAttempt → List ChargeBillingParams → List ChargeBillingParams → Type 0
  ChargesFor a old new =
      (new ≡ old)
      ⊎ ((c : ChargeBillingParams) × (new ≡ c ∷ old)
          × (c.order_id ≡ a.external_order_id)
          × (c.amount ≡ a.amount)
          × (c.currency ≡ a.currency)
          × (c.customer_key ≡ a.customer_key))

  -- Paying an attempt asks for at most one charge, and that one has the attempt's own order, amount,
  -- currency and customer.
  pub pay_attempt-ChargesFor :
      (input : ConfirmBillingAuthInput) (a : InitialPaymentAttempt) (w : World)
      → ChargesFor a w.charges (pay_attempt input a w).1.charges
  unfolding pay_attempt
  pay_attempt-ChargesFor input a w = grind (arith, apply-charges)

  resume_now-charges :
      (user_id : String) (s : Subscription) (w : World)
      → (resume_now user_id s w).1.charges ≡ w.charges
  unfolding resume_now
  resume_now-charges user_id s w = ground arith

  pay_attempt-le :
      (input : ConfirmBillingAuthInput) (a : InitialPaymentAttempt) (w : World)
      → length (pay_attempt input a w).1.charges ≤ length w.charges + 1
  unfolding pay_attempt
  pay_attempt-le input a w = grind (arith, apply-charges)

  reconcile-le :
      (a : InitialPaymentAttempt) (w : World)
      → length (reconcile a w).1.charges ≤ length w.charges + 1
  reconcile-le a w = rw (reconcile-charges a w) (omega arith)

  resume_now-le :
      (user_id : String) (s : Subscription) (w : World)
      → length (resume_now user_id s w).1.charges ≤ length w.charges + 1
  resume_now-le user_id s w = rw (resume_now-charges user_id s w) (omega arith)

  start_payment-le :
      (input : ConfirmBillingAuthInput) (s : Subscription) (price : ProMonthlyPrice) (w : World)
      → length (start_payment input s price w).1.charges ≤ length w.charges + 1
  unfolding start_payment
  start_payment-le input s price w = grind (arith, pay_attempt-le, reconcile-le)

  -- One confirmation asks for at most one charge, whatever fails on the way.
  pub confirm_charges_once :
      (user_id : String) (input : ConfirmBillingAuthInput) (w : World)
      → length (confirm_billing_auth user_id input w).1.charges ≤ length w.charges + 1
  unfolding confirm_billing_auth
  confirm_charges_once user_id input w =
      grind (arith, start_payment-le, reconcile-le, resume_now-le)

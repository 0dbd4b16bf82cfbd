-- ===== src/Subscriptions/UseCases/Items.antt =====
-- How process-due-auto-renewals.usecase.ts counts one item of its loops, wherever it fails.
use easy_clip_be.Common.{ℕ, ◌+◌, ◌≡◌, refl, true, false, arith, String, Bool, Option, none, some}
use easy_clip_be.Subscriptions.Types.{
  Subscription, SubscriptionPayment, CompleteAutoRenewalPaymentParams,
}
use easy_clip_be.Subscriptions.Store.{Prisma, Tx}
use easy_clip_be.Subscriptions.Repository.Renewal.{claim_auto_renewal_payment}
use easy_clip_be.Subscriptions.App.{
  Env, App, World, RenewalCounts, ReconciliationCounts, Result, done, raised, is_done, ◌>>=◌,
  charge_billing, query, LookupBillingPaymentResult,
}
use easy_clip_be.Subscriptions.UseCases.Renew.{
  charge_if, renewal_order_id, renewal_claim, charge_claimed, end_renewal, claim_and_charge,
  renewal_failed, renewal_completion, verified_at, Verdict, settled, still_open, complete_renewal,
  complete_payment, ask_again, judge, put_off, act_on, charge_due, reconcile_payment,
}
use easy_clip_be.Subscriptions.UseCases.Helpers.{ProMonthlyPrice}

abbrev pub renewals_counted : RenewalCounts → ℕ
renewals_counted c = c.succeeded + c.failed + c.skipped

abbrev pub payments_counted : ReconciliationCounts → ℕ
payments_counted c = c.succeeded + c.failed + c.skipped + c.deferred + c.manual_review

abbrev one_if_done : {A : Type 0} → Result A → ℕ
one_if_done (done _) = 1
one_if_done (raised _) = 0

-- A verdict that the payment is settled has counted it.
abbrev one_if_settled : Result Verdict → ℕ
one_if_settled (done settled) = 1
one_if_settled (done (still_open reason b)) = 0
one_if_settled (raised _) = 0

module _ ⦃prisma : Prisma⦄ ⦃env : Env⦄ where
  -- The loop answers, and `n` more subscriptions are counted.
  abbrev pub CountsRenewals : ℕ → World → Result (Unit {0}) × World → Type 0
  CountsRenewals n w (r, w') =
      (is_done r ≡ true) × (renewals_counted w'.renewals ≡ renewals_counted w.renewals + n)

  -- The loop answers, `n` more payments are processed, and `n` more are counted.
  abbrev pub CountsPayments : ℕ → World → Result (Unit {0}) × World → Type 0
  CountsPayments n w (r, w') =
      (is_done r ≡ true)
      × (payments_counted w'.reconciliation ≡ payments_counted w.reconciliation + n)
      × (w'.reconciliation.processed ≡ w.reconciliation.processed + n)

  -- A renewal is counted by what ends it, and not by what throws.
  abbrev Gains : {A : Type 0} → World → Result A × World → Type 0
  Gains w (r, w') = renewals_counted w'.renewals ≡ renewals_counted w.renewals + one_if_done r

  bind-Gains :
      {A : Type 0} (m : App A) (f : A → App (Unit {0})) (w : World)
      → (m w).1.renewals ≡ w.renewals
      → ((a : A) (w' : World) → Gains w' (f a w'))
      → Gains w ((m >>= f) w)
  bind-Gains {A} m f w e k = go (m w).0 (m w).1 e
    where
      go :
          (r : Result A) (w' : World)
          → w'.renewals ≡ w.renewals
          → Gains w (elim r as (λ _. Result (Unit {0}) × World) [
            | done a ↦ f a w'
            | raised x ↦ (raised x, w')
          ])
      go (done a) w' e = ground (arith, k a w', e)
      go (raised x) w' e = ground (arith, e)

  complete_renewal-Gains :
      (params : CompleteAutoRenewalPaymentParams) (w : World) → Gains w (complete_renewal params w)
  unfolding complete_renewal
  complete_renewal-Gains params w = ground arith

  end_renewal-Gains :
      (s : Subscription) (price : ProMonthlyPrice) (order_id : String)
      (r : LookupBillingPaymentResult) (w : World)
      → Gains w (end_renewal s price order_id r w)
  unfolding end_renewal
  end_renewal-Gains s price order_id r w = go (verified_at r order_id price.amount price.currency)
    where
      go :
          (o : Option (String × ℕ))
          → Gains w (
              (elim o as (λ _. App (Unit {0})) [
                | none ↦ renewal_failed
                | some v ↦ complete_renewal (
                    renewal_completion env.offset order_id price.amount price.currency
                      s.current_period_end r v)
              ])
                w)
      go none = omega arith
      go (some v) = complete_renewal-Gains _ w

  charge_claimed-Gains :
      (s : Subscription) (price : ProMonthlyPrice) (order_id : String) (w : World)
      → Gains w (charge_claimed s price order_id w)
  unfolding charge_claimed
  charge_claimed-Gains s price order_id w =
      bind-Gains (charge_billing _) (end_renewal s price order_id) w refl
        (end_renewal-Gains s price order_id)

  charge_if-Gains :
      (claimed : Bool) (s : Subscription) (price : ProMonthlyPrice) (order_id : String) (w : World)
      → Gains w (charge_if claimed s price order_id w)
  unfolding charge_if
  charge_if-Gains true s price order_id w = charge_claimed-Gains s price order_id w
  charge_if-Gains false s price order_id w = omega arith

  query-renewals : {A : Type 0} (m : Tx A) (w : World) → (query m w).1.renewals ≡ w.renewals
  query-renewals m w = ground arith

  claim_and_charge-Gains :
      (now : ℕ) (s : Subscription) (price : ProMonthlyPrice) (w : World)
      → Gains w (claim_and_charge now s price w)
  unfolding claim_and_charge
  claim_and_charge-Gains now s price w =
      bind-Gains (query claim) (λ claimed. charge_if claimed s price (renewal_order_id now s)) next
        (query-renewals claim next)
        (λ claimed. charge_if-Gains claimed s price (renewal_order_id now s))
    where
      next : World
      next = record w { tick = w.tick + 1 }

      claim : Tx Bool
      claim = claim_auto_renewal_payment (env.defaults w.tick) (renewal_claim now s price)

  pub charge_due-CountsRenewals :
      (now : ℕ) (s : Subscription) (w : World) → CountsRenewals 1 w (charge_due now s w)
  unfolding charge_due
  charge_due-CountsRenewals now s w = grind (arith, claim_and_charge-Gains now s)

  -- A payment adds to both sides of the balance of a loop, one to each.
  complete_payment-counts :
      (params : CompleteAutoRenewalPaymentParams) (w : World)
      → (payments_counted (complete_payment params w).1.reconciliation
          ≡ payments_counted w.reconciliation + one_if_done (complete_payment params w).0)
        × ((complete_payment params w).1.reconciliation.processed ≡ w.reconciliation.processed)
  unfolding complete_payment
  complete_payment-counts params w = ground arith

  ask_again-counts :
      (p : SubscriptionPayment) (w : World)
      → (payments_counted (ask_again p w).1.reconciliation
          ≡ payments_counted w.reconciliation + one_if_settled (ask_again p w).0)
        × ((ask_again p w).1.reconciliation.processed ≡ w.reconciliation.processed)
  unfolding ask_again
  ask_again-counts p w = grind (arith, complete_payment-counts)

  judge-counts :
      (p : SubscriptionPayment) (w : World)
      → (payments_counted (judge p w).1.reconciliation
          ≡ payments_counted w.reconciliation + one_if_settled (judge p w).0)
        × ((judge p w).1.reconciliation.processed ≡ w.reconciliation.processed)
        × (is_done (judge p w).0 ≡ true)
  unfolding judge
  judge-counts p w = grind (arith, ask_again-counts)

  act_on-counts :
      (now : ℕ) (p : SubscriptionPayment) (v : Verdict) (w : World)
      → (payments_counted (act_on now p v w).1.reconciliation + one_if_settled (done v)
          ≡ payments_counted w.reconciliation + one_if_done (act_on now p v w).0)
        × ((act_on now p v w).1.reconciliation.processed ≡ w.reconciliation.processed)
  unfolding act_on put_off
  act_on-counts now p settled w = (omega arith, refl)
  act_on-counts now p (still_open reason b) w = ground arith

  pub reconcile_payment-CountsPayments :
      (now : ℕ) (p : SubscriptionPayment) (w : World)
      → CountsPayments 1 w (reconcile_payment now p w)
  unfolding reconcile_payment
  reconcile_payment-CountsPayments now p w = grind (arith, judge-counts, act_on-counts)

-- ===== src/Subscriptions/Tests.antt =====
-- The theorems of src/subscriptions at concrete tables, requests and schedules.
use easy_clip_be.Common.{
  ℕ, ◌≤◌, ◌<◌, String, ◌≡◌, refl, true, false, none, some, List, [], ◌∷◌, arith, find,
}
use easy_clip_be.Subscriptions.Types.{
  Subscription, SubscriptionPayment, RecordSubscriptionPaymentParams, ClaimInitialPaymentParams,
  SubscriptionPaymentStatus, pending, failed, done, toss_payments, CancelAutoRenewalResult,
}
use easy_clip_be.Subscriptions.Store.{Db, ok, commit}
use easy_clip_be.Subscriptions.Repository.Rows.{has_order}
use easy_clip_be.Subscriptions.Repository.Lifecycle.{
  cancel_auto_renewal, resume_auto_renewal, canceled_row,
}
use easy_clip_be.Subscriptions.Repository.Initial.{claim_initial_payment}
use easy_clip_be.Subscriptions.Repository.Renewal.{
  claim_auto_renewal_payment, complete_auto_renewal_payment, completed_row, renewed_row,
  claim_auto_renewal_reconciliation, leased_row, record_payment_failure,
}
use easy_clip_be.Subscriptions.Repository.Unresolved.{unresolved}
use easy_clip_be.Subscriptions.Repository.Schedule.{
  Write, claims_renewal, completes, cancels, write, run,
}
use easy_clip_be.Subscriptions.Repository.SingleCharge.{run_single_charge}
use easy_clip_be.Subscriptions.Repository.Phase.{follows, Event, renewing, ending}
use easy_clip_be.Subscriptions.Repository.Phase.Writes.{subscription_of}
use easy_clip_be.Subscriptions.Repository.Lifelong.{run-follows, HasUniqueIds}
use easy_clip_be.Subscriptions.Repository.Refusals.{
  unresolved_refuses_renewal, unresolved_refuses_initial, claim_needs_renewal,
  canceled_refuses_renewal,
}
use easy_clip_be.Subscriptions.Repository.Resuming.{
  HasPhase, cancel_ends, resume_renews, resume-cancel,
}
use easy_clip_be.Subscriptions.Repository.Settling.{
  complete_once, lease_excludes, failure_keeps_settled,
}
use easy_clip_be.Subscriptions.Sample.{
  memory, memory-IsDocumentedPrisma, renewing_row, order_row, tables, new_row, claim_params,
  complete_params,
}

-- Two claims and a completion, in this order.
abbrev schedule : List Write
schedule =
    claims_renewal new_row claim_params
    ∷ claims_renewal new_row (record claim_params { external_order_id = "o2" })
    ∷ completes complete_params
    ∷ []

none_pending : unresolved "s1" (tables []) ≤ 1
unfolding unresolved
none_pending = omega arith

run_single_charge_example : unresolved "s1" (run ⦃prisma = memory⦄ schedule (tables [])) ≤ 1
run_single_charge_example =
    run_single_charge ⦃prisma = memory⦄ memory-IsDocumentedPrisma "s1" schedule (tables [])
      (tt, (tt, (tt, tt))) none_pending

tables-HasUniqueIds : (payments : List SubscriptionPayment) → HasUniqueIds (tables payments)
tables-HasUniqueIds payments j = ground arith

run-follows_example :
    follows Event.cancels (subscription_of "s1" (run ⦃prisma = memory⦄ schedule (tables []))) (
      subscription_of "s1"
        (write ⦃prisma = memory⦄ (cancels "s1") (run ⦃prisma = memory⦄ schedule (tables []))))
    ≡ true
run-follows_example =
    run-follows ⦃prisma = memory⦄ memory-IsDocumentedPrisma schedule (cancels "s1") (tables []) "s1"
      (tt, (tt, (tt, tt))) tt (tables-HasUniqueIds [])

abbrev one_order : SubscriptionPaymentStatus → Db
one_order status = tables (order_row status ∷ [])

-- The subscription and the tables after the order of `complete_params` has gone through.
abbrev extended_row : Subscription
extended_row = renewed_row 5000 true renewing_row

abbrev settled : Db
settled = record (one_order pending) {
  subscriptions = extended_row ∷ [];
  payments = completed_row complete_params (order_row pending) ∷ [];
}

completes_order :
    complete_auto_renewal_payment ⦃prisma = memory⦄ complete_params (one_order pending)
    ≡ ok (some extended_row, settled)
unfolding complete_auto_renewal_payment
completes_order = refl

complete_once_example :
    complete_auto_renewal_payment ⦃prisma = memory⦄ complete_params settled ≡ ok (none, settled)
complete_once_example =
    complete_once ⦃prisma = memory⦄ memory-IsDocumentedPrisma complete_params extended_row
      (one_order pending) settled (omega arith) completes_order

one_unresolved : 0 < unresolved "s1" (one_order pending)
unfolding unresolved
one_unresolved = omega arith

unresolved_refuses_renewal_example :
    claim_auto_renewal_payment ⦃prisma = memory⦄ new_row claim_params (one_order pending)
    ≡ ok (false, one_order pending)
unresolved_refuses_renewal_example =
    unresolved_refuses_renewal ⦃prisma = memory⦄ memory-IsDocumentedPrisma new_row claim_params
      (one_order pending) one_unresolved

abbrev initial_params : ClaimInitialPaymentParams
initial_params = record {
  subscription_id = "s1";
  idempotency_key = "k1";
  external_order_id = "o9";
  amount = 5900;
  currency = "KRW";
  price_version = "v1";
  customer_key = "ck";
}

unresolved_refuses_initial_example :
    commit (claim_initial_payment ⦃prisma = memory⦄ new_row 1100 initial_params) (one_order pending)
    ≡ one_order pending
unresolved_refuses_initial_example =
    unresolved_refuses_initial ⦃prisma = memory⦄ memory-IsDocumentedPrisma new_row 1100
      initial_params (one_order pending) one_unresolved

abbrev canceled_tables : Db
canceled_tables = record (tables []) { subscriptions = canceled_row renewing_row ∷ [] }

abbrev cancel_result : CancelAutoRenewalResult
cancel_result = record { subscription = canceled_row renewing_row; pending_renewal_payment = false }

cancels_subscription :
    cancel_auto_renewal ⦃prisma = memory⦄ "s1" (tables [])
    ≡ ok (some cancel_result, canceled_tables)
unfolding cancel_auto_renewal
cancels_subscription = refl

canceled_refuses_renewal_example :
    claim_auto_renewal_payment ⦃prisma = memory⦄ new_row claim_params canceled_tables
    ≡ ok (false, canceled_tables)
canceled_refuses_renewal_example =
    canceled_refuses_renewal ⦃prisma = memory⦄ memory-IsDocumentedPrisma new_row claim_params
      cancel_result (tables []) canceled_tables (omega arith) cancels_subscription

claim_needs_renewal_example :
    claim_auto_renewal_payment ⦃prisma = memory⦄ new_row claim_params canceled_tables
    ≡ ok (false, canceled_tables)
claim_needs_renewal_example =
    claim_needs_renewal ⦃prisma = memory⦄ memory-IsDocumentedPrisma new_row claim_params
      canceled_tables (omega arith) (λ s e. ground (arith, e))

-- The payment leased until 2000, and an attempt to lease it at 1600.
abbrev leased : Db
leased = tables (leased_row 2000 (order_row pending) ∷ [])

leases_payment :
    claim_auto_renewal_reconciliation ⦃prisma = memory⦄ "p1" 1500 2000 (one_order pending)
    ≡ ok (some (leased_row 2000 (order_row pending)), leased)
unfolding claim_auto_renewal_reconciliation
leases_payment = refl

lease_excludes_example :
    claim_auto_renewal_reconciliation ⦃prisma = memory⦄ "p1" 1600 2100 leased ≡ ok (none, leased)
lease_excludes_example =
    lease_excludes ⦃prisma = memory⦄ memory-IsDocumentedPrisma "p1" 1500 2000 1600 2100
      (leased_row 2000 (order_row pending)) (one_order pending) leased (omega arith) leases_payment
      (omega arith)

abbrev failure_params : RecordSubscriptionPaymentParams
failure_params = record {
  subscription_id = "s1";
  provider = toss_payments;
  status = failed;
  external_payment_key = none;
  external_order_id = "o1";
  external_event_id = none;
  amount = 5900;
  currency = "KRW";
  approved_at = none;
  failed_at = some 1200;
  failure_code = some "REJECT_CARD_COMPANY";
  failure_message = none;
  raw_data = none;
}

failure_keeps_settled_example :
    find
      (has_order "o1")
      (commit
        (record_payment_failure ⦃prisma = memory⦄ new_row failure_params)
        (one_order done)).payments
    ≡ some (order_row done)
failure_keeps_settled_example =
    failure_keeps_settled ⦃prisma = memory⦄ memory-IsDocumentedPrisma new_row failure_params
      (order_row done) (one_order done) (omega arith) refl refl

cancel_ends_example :
    HasPhase
      (ending 1000)
      (subscription_of "s1" (commit (cancel_auto_renewal ⦃prisma = memory⦄ "s1") (tables [])))
cancel_ends_example =
    cancel_ends ⦃prisma = memory⦄ memory-IsDocumentedPrisma "s1" renewing_row 1000 (tables [])
      (omega arith) refl refl

resume_renews_example :
    HasPhase (renewing 1000) (
      subscription_of "s1"
        (commit (resume_auto_renewal ⦃prisma = memory⦄ "s1" 900) canceled_tables))
resume_renews_example =
    resume_renews ⦃prisma = memory⦄ memory-IsDocumentedPrisma "s1" (canceled_row renewing_row) 1000
      900 canceled_tables (omega arith) refl refl refl refl (omega arith)

resume-cancel_example :
    subscription_of "s1" (
      commit
        (resume_auto_renewal ⦃prisma = memory⦄ "s1" 900)
        (commit (cancel_auto_renewal ⦃prisma = memory⦄ "s1") (tables [])))
    ≡ some renewing_row
resume-cancel_example =
    resume-cancel ⦃prisma = memory⦄ memory-IsDocumentedPrisma "s1" renewing_row 1000 900 (tables [])
      (omega arith) refl refl refl refl (omega arith)

abbrev order_of : String → ℕ → String
order_of id due_at = "o1"

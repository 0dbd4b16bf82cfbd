-- ===== src/Subscriptions/Repository/Schedule.antt =====
-- The writes of the repository as values, so that the transactions of several requests and
-- batches, in the order in which the database commits them, are a list.
use easy_clip_be.Common.{ℕ, String, List, [], ◌∷◌}
use easy_clip_be.Subscriptions.Types.{
  UpdateSubscriptionParams, InitialPaymentAttempt, ClaimInitialPaymentParams,
  ActivateSubscriptionPaymentParams, RecordSubscriptionPaymentParams, ClaimAutoRenewalPaymentParams,
  CompleteAutoRenewalPaymentParams, DeferAutoRenewalReconciliationParams,
}
use easy_clip_be.Subscriptions.Store.{Prisma, Db, commit}
use easy_clip_be.Subscriptions.Repository.Rows.{Defaults}
use easy_clip_be.Subscriptions.Repository.Initial.{
  defer_initial_reconciliation, claim_initial_payment, save_initial_billing_key,
  complete_initial_payment, fail_initial_payment,
}
use easy_clip_be.Subscriptions.Repository.Lifecycle.{
  get_or_create_personal_subscription, update_subscription, cancel_auto_renewal,
  resume_auto_renewal, expire_subscription_if_unchanged,
}
use easy_clip_be.Subscriptions.Repository.Renewal.{
  activate_by_payment, record_payment_failure, claim_auto_renewal_payment,
  claim_auto_renewal_reconciliation, defer_auto_renewal_reconciliation,
  complete_auto_renewal_payment,
}

pub data Write : Type 0 where
  gets_personal : Defaults → Defaults → String → Write
  updates : String → UpdateSubscriptionParams → Write
  cancels : String → Write
  resumes expires : String → ℕ → Write
  defers_initial : String → ℕ → Write
  claims_initial : Defaults → ℕ → ClaimInitialPaymentParams → Write
  saves_billing_key : String → String → Write
  completes_initial : Defaults → InitialPaymentAttempt → ActivateSubscriptionPaymentParams → Write
  fails_initial : Defaults → InitialPaymentAttempt → RecordSubscriptionPaymentParams → Write
  activates : Defaults → ActivateSubscriptionPaymentParams → Write
  records_failure : Defaults → RecordSubscriptionPaymentParams → Write
  claims_renewal : Defaults → ClaimAutoRenewalPaymentParams → Write
  leases : String → ℕ → ℕ → Write
  defers : DeferAutoRenewalReconciliationParams → Write
  completes : CompleteAutoRenewalPaymentParams → Write

module _ ⦃prisma : Prisma⦄ where
  unfoldable pub write : Write → Db → Db
  write (gets_personal dw ds user_id) = commit (get_or_create_personal_subscription dw ds user_id)
  write (updates id params) = commit (update_subscription id params)
  write (cancels id) = commit (cancel_auto_renewal id)
  write (resumes id now) = commit (resume_auto_renewal id now)
  write (expires id period_end) = commit (expire_subscription_if_unchanged id period_end)
  write (defers_initial id next_at) = commit (defer_initial_reconciliation id next_at)
  write (claims_initial d now params) = commit (claim_initial_payment d now params)
  write (saves_billing_key id key) = commit (save_initial_billing_key id key)
  write (completes_initial d attempt payment) = commit (complete_initial_payment d attempt payment)
  write (fails_initial d attempt payment) = commit (fail_initial_payment d attempt payment)
  write (activates d params) = commit (activate_by_payment d params)
  write (records_failure d params) = commit (record_payment_failure d params)
  write (claims_renewal d params) = commit (claim_auto_renewal_payment d params)
  write (leases id now lease_until) = commit (claim_auto_renewal_reconciliation id now lease_until)
  write (defers params) = commit (defer_auto_renewal_reconciliation params)
  write (completes params) = commit (complete_auto_renewal_payment params)

  -- A schedule, its first write first.
  unfoldable pub run : List Write → Db → Db
  run [] db = db
  run (w ∷ ws) db = run ws (write w db)

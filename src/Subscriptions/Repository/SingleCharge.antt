-- ===== src/Subscriptions/Repository/SingleCharge.antt =====
-- No interleaving of the repository's transactions leaves a subscription with two charges whose
-- results are unknown.
use easy_clip_be.Common.{◌≤◌, String, ◌≡◌, false, List, [], ◌∷◌, arith, All}
use easy_clip_be.Subscriptions.Types.{is_pending}
use easy_clip_be.Subscriptions.Store.{Prisma, IsDocumentedPrisma, Db}
use easy_clip_be.Subscriptions.Repository.Schedule.{
  Write, gets_personal, updates, cancels, resumes, expires, defers_initial, claims_initial,
  saves_billing_key, completes_initial, fails_initial, activates, records_failure, claims_renewal,
  leases, defers, completes, write, run,
}
use easy_clip_be.Subscriptions.Repository.Unresolved
use easy_clip_be.Subscriptions.Repository.Unresolved.{unresolved}

-- The use cases record a payment only with its final status.
abbrev pub IsFinal : Write → Type 0
IsFinal (completes_initial d attempt payment) = is_pending payment.status ≡ false
IsFinal (fails_initial d attempt payment) = is_pending payment.status ≡ false
IsFinal (activates d params) = is_pending params.status ≡ false
IsFinal (records_failure d params) = is_pending params.status ≡ false
IsFinal _ = Unit

module _ ⦃prisma : Prisma⦄ (docs : IsDocumentedPrisma prisma) (s : String) where
  write_single :
      (w : Write) (db : Db) → IsFinal w → unresolved s db ≤ 1 → unresolved s (write w db) ≤ 1
  unfolding write
  write_single (gets_personal dw ds u) db f h =
      omega (arith, Unresolved.get_or_create-eq docs s dw ds u db)
  write_single (updates id params) db f h =
      omega (arith, Unresolved.update_subscription-eq docs s id params db)
  write_single (cancels id) db f h = omega (arith, Unresolved.cancel_auto_renewal-le docs s id db)
  write_single (resumes id now) db f h =
      omega (arith, Unresolved.resume_auto_renewal-eq docs s id now db)
  write_single (expires id period_end) db f h =
      omega (arith, Unresolved.expire-eq docs s id period_end db)
  write_single (defers_initial id next_at) db f h =
      omega (arith, Unresolved.defer_initial-le docs s id next_at db)
  write_single (claims_initial d now params) db f h =
      Unresolved.claim_initial_payment-le docs s d now params db h
  write_single (saves_billing_key id key) db f h =
      omega (arith, Unresolved.save_initial_billing_key-le docs s id key db)
  write_single (completes_initial d attempt payment) db f h =
      omega (arith, Unresolved.complete_initial_payment-le docs s d attempt payment db f)
  write_single (fails_initial d attempt payment) db f h =
      omega (arith, Unresolved.fail_initial_payment-le docs s d attempt payment db f)
  write_single (activates d params) db f h =
      omega (arith, Unresolved.activate_by_payment-le docs s d params db f)
  write_single (records_failure d params) db f h =
      omega (arith, Unresolved.record_payment_failure-le docs s d params db f)
  write_single (claims_renewal d params) db f h =
      Unresolved.claim_auto_renewal_payment-le docs s d params db h
  write_single (leases id now lease_until) db f h =
      omega (arith, Unresolved.lease-le docs s id now lease_until db)
  write_single (defers params) db f h = omega (arith, Unresolved.defer-le docs s params db)
  write_single (completes params) db f h =
      omega (arith, Unresolved.complete_auto_renewal_payment-le docs s params db)

  -- In whatever order the transactions of requests and batches are committed, a subscription that
  -- has at most one pending payment, first and renewal payments taken together, still has at most
  -- one after them, provided that completions and failures are recorded with a final status.
  pub run_single_charge :
      (ws : List Write) (db : Db)
      → All IsFinal ws
      → unresolved s db ≤ 1
      → unresolved s (run ws db) ≤ 1
  unfolding run
  run_single_charge [] db f h = h
  run_single_charge (w ∷ ws) db f h =
      run_single_charge ws (write w db) f.1 (write_single w db f.0 h)

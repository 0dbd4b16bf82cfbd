-- ===== src/Subscriptions/Repository/Lifelong.antt =====
-- Along every schedule of the repository's writes, a subscription follows its phases.
use easy_clip_be.Common.{◌≤◌, String, ◌≡◌, true, List, [], ◌∷◌, arith, count, All}
use easy_clip_be.Subscriptions.Store.{Prisma, IsDocumentedPrisma, Db}
use easy_clip_be.Subscriptions.Repository.Rows.{has_id}
use easy_clip_be.Subscriptions.Repository.Initial.{
  defer_initial_reconciliation, claim_initial_payment, save_initial_billing_key,
  fail_initial_payment,
}
use easy_clip_be.Subscriptions.Repository.Renewal.{
  record_payment_failure, claim_auto_renewal_payment, claim_auto_renewal_reconciliation,
  defer_auto_renewal_reconciliation,
}
use easy_clip_be.Subscriptions.Repository.Schedule.{
  Write, gets_personal, updates, cancels, resumes, expires, defers_initial, claims_initial,
  saves_billing_key, completes_initial, fails_initial, activates, records_failure, claims_renewal,
  leases, defers, completes, write, run,
}
use easy_clip_be.Subscriptions.Repository.UniqueIds.{write-rows}
use easy_clip_be.Subscriptions.Repository.Phase.{Event, follows}
use easy_clip_be.Subscriptions.Repository.Phase.Rows.{KeepsPhase, follows_refl}
use easy_clip_be.Subscriptions.Repository.Phase.Writes.{
  subscription_of, cancel_follows, resume_follows, expire_follows, update_follows, activate_follows,
  complete_initial_follows, complete_renewal_follows, get_or_create_follows,
}

-- As the use cases call the repository: the two dates of a payment agree, and an update leaves the
-- columns of the phase out.
abbrev pub IsBilling : Write → Type 0
IsBilling (updates id params) = KeepsPhase params
IsBilling (completes_initial d attempt payment) =
    payment.next_billing_at ≡ payment.current_period_end
IsBilling (activates d params) = params.next_billing_at ≡ params.current_period_end
IsBilling _ = Unit

abbrev pub event : Write → Event
event (cancels id) = Event.cancels
event (resumes id now) = Event.resumes
event (expires id period_end) = Event.expires
event (completes_initial d attempt payment) = Event.pays
event (activates d params) = Event.pays
event (completes params) = Event.renews
event _ = Event.other

-- The primary key of the table.
abbrev pub HasUniqueIds : Db → Type 0
HasUniqueIds db = (j : String) → count (has_id j) db.subscriptions ≤ 1

module _ ⦃prisma : Prisma⦄ (docs : IsDocumentedPrisma prisma) where
  write-follows :
      (w : Write) (db : Db) (id : String)
      → IsBilling w
      → HasUniqueIds db
      → follows (event w) (subscription_of id db) (subscription_of id (write w db)) ≡ true
  unfolding write
  write-follows (gets_personal dw ds user_id) db id b u =
      get_or_create_follows docs db u id dw ds user_id
  write-follows (updates j params) db id b u = update_follows docs db u id j params b
  write-follows (cancels j) db id b u = cancel_follows docs db u id j
  write-follows (resumes j now) db id b u = resume_follows docs db u id j now
  write-follows (expires j period_end) db id b u = expire_follows docs db u id j period_end
  write-follows (completes_initial d attempt payment) db id b u =
      complete_initial_follows docs db u id d attempt payment b
  write-follows (activates d params) db id b u = activate_follows docs db u id d params b
  write-follows (completes params) db id b u = complete_renewal_follows docs db u id params
  write-follows (defers_initial j next_at) db id b u =
      unfold defer_initial_reconciliation in follows_refl Event.other (subscription_of id db)
  write-follows (claims_initial d now params) db id b u =
      unfold claim_initial_payment in
      ground (arith, follows_refl Event.other (subscription_of id db))
  write-follows (saves_billing_key j key) db id b u =
      unfold save_initial_billing_key in
      ground (arith, follows_refl Event.other (subscription_of id db))
  write-follows (fails_initial d attempt payment) db id b u =
      unfold fail_initial_payment in
      ground (arith, follows_refl Event.other (subscription_of id db))
  write-follows (records_failure d params) db id b u =
      unfold record_payment_failure in
      ground (arith, follows_refl Event.other (subscription_of id db))
  write-follows (claims_renewal d params) db id b u =
      unfold claim_auto_renewal_payment in
      ground (arith, follows_refl Event.other (subscription_of id db))
  write-follows (leases j now lease_until) db id b u =
      unfold claim_auto_renewal_reconciliation in
      ground (arith, follows_refl Event.other (subscription_of id db))
  write-follows (defers params) db id b u =
      unfold defer_auto_renewal_reconciliation in follows_refl Event.other (subscription_of id db)

  -- After any schedule of writes with which the use cases call the repository, on a table whose
  -- ids are unique, the next such write moves each subscription as its event allows: a row is
  -- neither lost nor taken out of its phases, and it changes its phase only by a move of the event.
  pub run-follows :
      (ws : List Write) (w : Write) (db : Db) (id : String)
      → All IsBilling ws
      → IsBilling w
      → HasUniqueIds db
      → follows
          (event w)
          (subscription_of id (run ws db))
          (subscription_of id (write w (run ws db)))
        ≡ true
  unfolding run
  run-follows [] w db id bs b u = write-follows w db id b u
  run-follows (v ∷ ws) w db id bs b u =
      run-follows ws w (write v db) id bs.1 b λ j. write-rows docs j db v (u j)

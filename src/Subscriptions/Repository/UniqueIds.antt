-- ===== src/Subscriptions/Repository/UniqueIds.antt =====
-- The primary key of the subscriptions stays one under every write.
use easy_clip_be.Common.{
  ℕ, ◌≤◌, String, ◌≡◌, refl, Bool, true, false, List, [], ◌∷◌, arith, count, eq_iff,
  count-update_where-eq, ap, ◌===◌, inl, inr, Option-cases,
}
use easy_clip_be.Subscriptions.Types.{Subscription, Workspace, CompleteAutoRenewalPaymentParams}
use easy_clip_be.Subscriptions.Store.{
  Prisma, IsDocumentedPrisma, Db, ok, err, commit, subscription_clashes, workspace_clashes,
}
use easy_clip_be.Subscriptions.Repository.Rows.{
  Defaults, has_id, has_order, free_subscription, to_subscription_update_data,
}
use easy_clip_be.Subscriptions.Repository.Initial.{
  defer_initial_reconciliation, claim_initial_payment, save_initial_billing_key,
  complete_initial_payment, fail_initial_payment, started_row,
}
use easy_clip_be.Subscriptions.Repository.Lifecycle.{
  get_or_create_personal_subscription, update_subscription, cancel_auto_renewal,
  resume_auto_renewal, expire_subscription_if_unchanged, find_or_create_in, owned_by,
  personal_workspace, canceled_row, resumed_row, expired_row, ended_at, in_workspace,
}
use easy_clip_be.Subscriptions.Repository.Renewal.{
  activate_by_payment, record_payment_failure, claim_auto_renewal_payment,
  claim_auto_renewal_reconciliation, defer_auto_renewal_reconciliation,
  complete_auto_renewal_payment, activated_row, renewed_row, later_end,
}
use easy_clip_be.Subscriptions.Repository.Schedule.{
  Write, gets_personal, updates, cancels, resumes, expires, defers_initial, claims_initial,
  saves_billing_key, completes_initial, fails_initial, activates, records_failure, claims_renewal,
  leases, defers, completes, write,
}

no_clash :
    (id : String) (row : Subscription) (t : List Subscription)
    → count (subscription_clashes row) t ≡ 0
    → (row.id === id) ≡ true
    → count (has_id id) t ≡ 0
no_clash id row [] h e = refl
no_clash id row (x ∷ xs) h e =
    ground (arith, eq_iff row.id id, eq_iff x.id id, eq_iff row.id x.id, no_clash id row xs)

module _ ⦃prisma : Prisma⦄ (docs : IsDocumentedPrisma prisma) (j : String) (db : Db) where
  abbrev pub rows : Db → ℕ
  rows db' = count (has_id j) db'.subscriptions

  pub update-rows :
      (w : Subscription → Bool) (f : Subscription → Subscription)
      → ((x : Subscription) → (f x).id ≡ x.id)
      → count (has_id j) (prisma.subscription.update_many w f db.subscriptions).0 ≡ rows db
  update-rows w f keeps =
      rw (docs.subscription.updates w f db.subscriptions)
        (count-update_where-eq (has_id j) w f db.subscriptions (λ x. ap (λ i. i === j) (keeps x)))

  in_workspace-rows :
      (ds : Defaults) (workspace_id : String) (ws : List Workspace)
      → rows db ≤ 1
      → rows (elim (find_or_create_in ds workspace_id (record db { workspaces = ws })) [
        | ok r ↦ r.1
        | err _ ↦ db
      ])
        ≤ 1
  unfolding find_or_create_in
  in_workspace-rows ds workspace_id ws u = ground (
    arith,
    update-rows (in_workspace workspace_id) (λ s. s) (λ x. refl),
    docs.subscription.creates subscription_clashes row db.subscriptions,
    no_clash j row db.subscriptions,
  )
    where
      row : Subscription
      row = free_subscription ds workspace_id

  get_or_create-rows :
      (dw ds : Defaults) (user_id : String)
      → rows db ≤ 1
      → rows (commit (get_or_create_personal_subscription dw ds user_id) db) ≤ 1
  unfolding get_or_create_personal_subscription
  get_or_create-rows dw ds user_id u =
      elim (Option-cases (prisma.workspace.find_first (owned_by user_id) db.workspaces)) [
        | inl e ↦
            elim (Option-cases (prisma.workspace.create workspace_clashes made db.workspaces)) [
              | inl f ↦ rw (e, f) u
              | inr (ws, f) ↦ rw (e, f) (in_workspace-rows ds dw.id ws u)
            ]
        | inr (w, e) ↦
            rw (e, e)
              (in_workspace-rows ds w.id
                (prisma.workspace.update_many (owned_by user_id) (λ w. w) db.workspaces).0 u)
      ]
    where
      made : Workspace
      made = personal_workspace dw user_id

  resume-rows : (id : String) (now : ℕ) → rows (commit (resume_auto_renewal id now) db) ≡ rows db
  unfolding resume_auto_renewal
  resume-rows id now =
      elim (Option-cases (prisma.subscription.find_first (has_id id) db.subscriptions)) [
        | inl e ↦ ground arith
        | inr (s, e) ↦
            ground (arith, update-rows (has_id id) (resumed_row s.current_period_end) (λ x. refl))
      ]

  complete-rows :
      (params : CompleteAutoRenewalPaymentParams)
      → rows (commit (complete_auto_renewal_payment params) db) ≡ rows db
  unfolding complete_auto_renewal_payment
  complete-rows params =
      elim (Option-cases
        (prisma.subscription_payment.find_first (has_order params.external_order_id) db.payments)) [
          | inl e ↦ ground arith
          | inr (o, f) ↦
              elim (Option-cases
                (prisma.subscription.find_first (has_id o.subscription_id) db.subscriptions)) [
                  | inl e ↦ ground arith
                  | inr (s, e) ↦ ground (
                    arith,
                    update-rows (has_id s.id)
                        (renewed_row (later_end s.current_period_end params.current_period_end)
                          s.auto_renew)
                        (λ x. refl),
                  )
                ]
        ]

  -- No write gives a second row to a subscription id that has at most one.
  pub write-rows :
      (w : Write)
      → count (has_id j) db.subscriptions ≤ 1
      → count (has_id j) (write w db).subscriptions ≤ 1
  unfolding write
  write-rows (gets_personal dw ds user_id) u = get_or_create-rows dw ds user_id u
  write-rows (updates id params) u =
      unfold update_subscription in
      ground (arith, update-rows (has_id id) (to_subscription_update_data params) (λ x. refl))
  write-rows (cancels id) u =
      unfold cancel_auto_renewal in ground (arith, update-rows (has_id id) canceled_row (λ x. refl))
  write-rows (resumes id now) u = omega (arith, resume-rows id now)
  write-rows (expires id period_end) u =
      unfold expire_subscription_if_unchanged in
      ground (arith, update-rows (ended_at id period_end) expired_row (λ x. refl))
  write-rows (completes_initial d attempt payment) u =
      unfold complete_initial_payment in
      ground (
        arith,
        update-rows (has_id attempt.subscription_id) (started_row true payment) (λ x. refl),
        update-rows (has_id attempt.subscription_id) (started_row false payment) (λ x. refl),
      )
  write-rows (activates d params) u =
      unfold activate_by_payment in
      ground (arith, update-rows (has_id params.subscription_id) (activated_row params) (λ x. refl))
  write-rows (completes params) u = omega (arith, complete-rows params)
  write-rows (defers_initial id next_at) u = unfold defer_initial_reconciliation in u
  write-rows (claims_initial d now params) u = unfold claim_initial_payment in ground arith
  write-rows (saves_billing_key id key) u = unfold save_initial_billing_key in ground arith
  write-rows (fails_initial d attempt payment) u = unfold fail_initial_payment in ground arith
  write-rows (records_failure d params) u = unfold record_payment_failure in ground arith
  write-rows (claims_renewal d params) u = unfold claim_auto_renewal_payment in ground arith
  write-rows (leases id now lease_until) u =
      unfold claim_auto_renewal_reconciliation in ground arith
  write-rows (defers params) u = unfold defer_auto_renewal_reconciliation in u

-- ===== src/Subscriptions/Repository/Resuming.antt =====
-- Cancellation and its undoing.
use easy_clip_be.Common.{
  ℕ, ◌≤◌, ◌<◌, String, ◌≡◌, refl, true, false, Option, none, some, subst, sym, arith, count, find,
  ap, ◌∙◌, find_passes, is_missing, find-update_where, map_option, if◌then◌else◌, List, ◌===◌,
}
use easy_clip_be.Prisma.{find_first-find}
use easy_clip_be.Subscriptions.Types.{Subscription}
use easy_clip_be.Subscriptions.Store.{Prisma, IsDocumentedPrisma, Db, commit}
use easy_clip_be.Subscriptions.Repository.Rows.{has_id}
use easy_clip_be.Subscriptions.Repository.Lifecycle.{
  cancel_auto_renewal, resume_auto_renewal, canceled_row, resumed_row, can_resume, can_cancel,
}
use easy_clip_be.Subscriptions.Repository.Phase.{Phase, phase, renewing, ending}
use easy_clip_be.Subscriptions.Repository.Phase.Writes.{subscription_of}
use easy_clip_be.Subscriptions.Repository.UniqueIds.{update-rows}

-- There is a row, and it is in the phase.
abbrev pub HasPhase : Phase → Option Subscription → Type 0
HasPhase p none = ⊥
HasPhase p (some s) = phase s ≡ some p

module _ ⦃prisma : Prisma⦄ (docs : IsDocumentedPrisma prisma) (id : String) where
  -- The row of a subscription after an update of its row.
  row_after :
      (f : Subscription → Subscription) (t : List Subscription) (s : Subscription)
      → ((x : Subscription) → (f x).id ≡ x.id)
      → find (has_id id) t ≡ some s
      → find (has_id id) (prisma.subscription.update_many (has_id id) f t).0 ≡ some (f s)
  row_after f t s keeps e =
      ap (λ r. find (has_id id) r.0) (docs.subscription.updates (has_id id) f t)
      ∙ find-update_where (has_id id) (has_id id) f t (λ x. ap (λ i. i === id) (keeps x))
      ∙ ap (map_option (λ x. if has_id id x then f x else x)) e
      ∙ ground (arith, find_passes (has_id id) t s e)

  -- Where ids are unique, canceling a subscription that can be canceled replaces its row by the
  -- canceled one.
  cancel_row :
      (s : Subscription) (db : Db)
      → count (has_id id) db.subscriptions ≤ 1
      → subscription_of id db ≡ some s
      → can_cancel s ≡ true
      → subscription_of id (commit (cancel_auto_renewal id) db) ≡ some (canceled_row s)
  unfolding cancel_auto_renewal
  cancel_row s db u e c = ground (
    arith,
    find_first-find docs.subscription (has_id id) db.subscriptions u ∙ e,
    row_after canceled_row db.subscriptions s (λ x. refl) e,
  )

  -- Where ids are unique, resuming a subscription that can be resumed replaces its row by the
  -- resumed one, which is billed again at the end of its period.
  resume_row :
      (s : Subscription) (now : ℕ) (db : Db)
      → count (has_id id) db.subscriptions ≤ 1
      → subscription_of id db ≡ some s
      → can_resume s now ≡ true
      → subscription_of id (commit (resume_auto_renewal id now) db)
        ≡ some (resumed_row s.current_period_end s)
  unfolding resume_auto_renewal
  resume_row s now db u e c = ground (
    arith,
    find_first-find docs.subscription (has_id id) db.subscriptions u ∙ e,
    row_after (resumed_row s.current_period_end) db.subscriptions s (λ x. refl) e,
  )

  -- Where ids are unique, canceling a subscription that renews at the end of its period leaves one
  -- that ends there.
  pub cancel_ends :
      (s : Subscription) (period_end : ℕ) (db : Db)
      → count (has_id id) db.subscriptions ≤ 1
      → subscription_of id db ≡ some s
      → phase s ≡ some (renewing period_end)
      → HasPhase (ending period_end) (subscription_of id (commit (cancel_auto_renewal id) db))
  cancel_ends s period_end db u e p =
      subst (HasPhase (ending period_end)) (sym (cancel_row s db u e (ground arith))) (ground arith)

  -- Where ids are unique, resuming a canceled subscription that has both keys, before its period
  -- has ended, leaves one that renews at that end.
  pub resume_renews :
      (s : Subscription) (period_end now : ℕ) (db : Db)
      → count (has_id id) db.subscriptions ≤ 1
      → subscription_of id db ≡ some s
      → phase s ≡ some (ending period_end)
      → is_missing s.external_billing_key ≡ false
      → is_missing s.external_customer_key ≡ false
      → now < period_end
      → HasPhase (renewing period_end) (subscription_of id (commit (resume_auto_renewal id now) db))
  resume_renews s period_end now db u e p b c l =
      subst (HasPhase (renewing period_end)) (sym (resume_row s now db u e (ground arith)))
        (ground arith)

  cancel_rows :
      (db : Db)
      → count (has_id id) (commit (cancel_auto_renewal id) db).subscriptions
        ≡ count (has_id id) db.subscriptions
  unfolding cancel_auto_renewal
  cancel_rows db = ground (arith, update-rows docs id db (has_id id) canceled_row (λ x. refl))

  -- A cancellation can be undone until the period ends: where ids are unique, canceling a
  -- subscription that renews and has both keys, and resuming it before its period has ended, gives
  -- back the row that it had before.
  pub resume-cancel :
      (s : Subscription) (period_end now : ℕ) (db : Db)
      → count (has_id id) db.subscriptions ≤ 1
      → subscription_of id db ≡ some s
      → phase s ≡ some (renewing period_end)
      → is_missing s.external_billing_key ≡ false
      → is_missing s.external_customer_key ≡ false
      → now < period_end
      → subscription_of id
          (commit (resume_auto_renewal id now) (commit (cancel_auto_renewal id) db))
        ≡ some s
  resume-cancel s period_end now db u e p b c l =
      resume_row (canceled_row s) now (commit (cancel_auto_renewal id) db)
        (omega (arith, cancel_rows db)) (cancel_row s db u e (ground arith)) (ground arith)
      ∙ ap some restored
    where
      restored : resumed_row s.current_period_end (canceled_row s) ≡ s
      restored = ground arith

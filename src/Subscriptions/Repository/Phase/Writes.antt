-- ===== src/Subscriptions/Repository/Phase/Writes.antt =====
-- The writes of a schedule follow the moves of the phases.
use easy_clip_be.Common.{
  ℕ, ◌≤◌, String, ◌≡◌, refl, Bool, true, false, List, [], ◌∷◌, Option, none, some, arith, count,
  find, inl, inr, Option-cases, Bool-cases, ◌===◌, ap, ◌∙◌, subst, eq_iff,
}
use easy_clip_be.Subscriptions.Types.{
  Subscription, Workspace, SubscriptionPayment, UpdateSubscriptionParams,
  ActivateSubscriptionPaymentParams, CompleteAutoRenewalPaymentParams, InitialPaymentAttempt,
}
use easy_clip_be.Subscriptions.Store.{
  Prisma, IsDocumentedPrisma, Db, ok, err, commit, subscription_clashes, workspace_clashes,
}
use easy_clip_be.Subscriptions.Repository.Rows.{
  Defaults, has_id, has_order, to_subscription_update_data, free_subscription,
}
use easy_clip_be.Subscriptions.Repository.Initial.{complete_initial_payment, started_row}
use easy_clip_be.Subscriptions.Repository.Lifecycle.{
  get_or_create_personal_subscription, update_subscription, cancel_auto_renewal,
  resume_auto_renewal, expire_subscription_if_unchanged, can_cancel, can_resume, canceled_row,
  resumed_row, expired_row, ended_at, in_workspace, find_or_create_in, owned_by, personal_workspace,
}
use easy_clip_be.Subscriptions.Repository.Renewal.{
  activate_by_payment, activated_row, complete_auto_renewal_payment, renewed_row, later_end,
}
use easy_clip_be.Subscriptions.Repository.Phase.{
  other, pays, renews, cancels, resumes, expires, phase, follows_phase, follows,
}
use easy_clip_be.Subscriptions.Repository.Phase.Rows.{
  follows_refl, canceled_row-moves, resumed_row-moves, expired_row-moves, started_row-moves,
  activated_row-moves, renewed_row-moves, updated_row-moves, KeepsPhase, follow_update, same_row,
}

-- The row of a subscription.
abbrev pub subscription_of : String → Db → Option Subscription
subscription_of id db = find (has_id id) db.subscriptions

-- A row that clashes with no other has a new id.
new_id :
    (id : String) (row : Subscription) (t : List Subscription)
    → count (subscription_clashes row) t ≡ 0
    → (row.id === id) ≡ true
    → find (has_id id) t ≡ none
new_id id row [] h e = refl
new_id id row (x ∷ xs) h e =
    ground (arith, eq_iff row.id id, eq_iff x.id id, eq_iff row.id x.id, new_id id row xs)

module _ ⦃prisma : Prisma⦄ (docs : IsDocumentedPrisma prisma) (db : Db)
    (unique : (j : String) → count (has_id j) db.subscriptions ≤ 1) (id : String) where
  pub cancel_follows :
      (j : String)
      → follows cancels
          (subscription_of id db)
          (subscription_of id (commit (cancel_auto_renewal j) db))
        ≡ true
  unfolding cancel_auto_renewal
  cancel_follows j =
      elim (Option-cases (prisma.subscription.find_first (has_id j) db.subscriptions)) [
        | inl e ↦ ground (arith, follows_refl cancels (subscription_of id db))
        | inr (s, e) ↦ elim (Bool-cases (can_cancel s)) [
          | inl g ↦ ground (
            arith,
            follow_update docs db.subscriptions cancels id (has_id j) canceled_row (λ x. refl)
                λ x w p.
                  canceled_row-moves x
                    (ap can_cancel (same_row docs db.subscriptions id j x s (unique j) e p w) ∙ g),
          )
          | inr g ↦ ground (arith, follows_refl cancels (subscription_of id db))
        ]
      ]

  pub resume_follows :
      (j : String) (now : ℕ)
      → follows resumes
          (subscription_of id db)
          (subscription_of id (commit (resume_auto_renewal j now) db))
        ≡ true
  unfolding resume_auto_renewal
  resume_follows j now =
      elim (Option-cases (prisma.subscription.find_first (has_id j) db.subscriptions)) [
        | inl e ↦ ground (arith, follows_refl resumes (subscription_of id db))
        | inr (s, e) ↦ elim (Bool-cases (can_resume s now)) [
          | inl g ↦ ground (
            arith,
            follow_update docs db.subscriptions resumes id (has_id j)
                (resumed_row s.current_period_end) (λ x. refl)
                λ x w p.
                  let q = same_row docs db.subscriptions id j x s (unique j) e p w in
                  subst
                    (λ y.
                      follows_phase resumes (phase x) (phase (resumed_row y.current_period_end x))
                      ≡ true)
                    q (resumed_row-moves x now (ap (λ y. can_resume y now) q ∙ g)),
          )
          | inr g ↦ ground (arith, follows_refl resumes (subscription_of id db))
        ]
      ]

  pub expire_follows :
      (j : String) (period_end : ℕ)
      → follows expires
          (subscription_of id db)
          (subscription_of id (commit (expire_subscription_if_unchanged j period_end) db))
        ≡ true
  unfolding expire_subscription_if_unchanged
  expire_follows j period_end = ground (
    arith,
    follows_refl expires (subscription_of id db),
    follow_update docs db.subscriptions expires id (ended_at j period_end) expired_row (λ x. refl)
        λ x w p. expired_row-moves x j period_end w,
  )

  pub update_follows :
      (j : String) (params : UpdateSubscriptionParams)
      → KeepsPhase params
      → follows other
          (subscription_of id db)
          (subscription_of id (commit (update_subscription j params) db))
        ≡ true
  unfolding update_subscription
  update_follows j params h = ground (
    arith,
    follows_refl other (subscription_of id db),
    follow_update docs db.subscriptions other id (has_id j) (to_subscription_update_data params)
        (λ x. refl) λ x w p. updated_row-moves x params h,
  )

  pub activate_follows :
      (d : Defaults) (params : ActivateSubscriptionPaymentParams)
      → params.next_billing_at ≡ params.current_period_end
      → follows pays
          (subscription_of id db)
          (subscription_of id (commit (activate_by_payment d params) db))
        ≡ true
  unfolding activate_by_payment
  activate_follows d params h = ground (
    arith,
    follows_refl pays (subscription_of id db),
    follow_update docs db.subscriptions pays id (has_id params.subscription_id)
        (activated_row params) (λ x. refl) λ x w p. activated_row-moves x params h,
  )

  pub complete_initial_follows :
      (d : Defaults) (attempt : InitialPaymentAttempt) (payment : ActivateSubscriptionPaymentParams)
      → payment.next_billing_at ≡ payment.current_period_end
      → follows pays
          (subscription_of id db)
          (subscription_of id (commit (complete_initial_payment d attempt payment) db))
        ≡ true
  unfolding complete_initial_payment
  complete_initial_follows d attempt payment h =
      ground (arith, follows_refl pays (subscription_of id db), started true, started false)
    where
      started :
          (c : Bool)
          → follows pays (find (has_id id) db.subscriptions) (
              find
                (has_id id)
                (prisma.subscription.update_many
                  (has_id attempt.subscription_id)
                  (started_row c payment)
                  db.subscriptions).0)
            ≡ true
      started c =
          follow_update docs db.subscriptions pays id (has_id attempt.subscription_id)
            (started_row c payment) (λ x. refl) λ x w p. started_row-moves x c payment h

  pub complete_renewal_follows :
      (params : CompleteAutoRenewalPaymentParams)
      → follows renews
          (subscription_of id db)
          (subscription_of id (commit (complete_auto_renewal_payment params) db))
        ≡ true
  unfolding complete_auto_renewal_payment
  complete_renewal_follows params =
      elim (Option-cases
        (prisma.subscription_payment.find_first (has_order params.external_order_id) db.payments)) [
          | inl e ↦ ground (arith, follows_refl renews (subscription_of id db))
          | inr (o, f) ↦
              elim (Option-cases
                (prisma.subscription.find_first (has_id o.subscription_id) db.subscriptions)) [
                  | inl e ↦ ground (arith, follows_refl renews (subscription_of id db))
                  | inr (s, e) ↦ ground (
                    arith,
                    follows_refl renews (subscription_of id db),
                    follow_update docs db.subscriptions renews id (has_id s.id) (renew s)
                        (λ x. refl)
                        λ x w p.
                          subst (λ y. follows_phase renews (phase x) (phase (renew y x)) ≡ true)
                            (same_row docs db.subscriptions id o.subscription_id x s
                              (unique o.subscription_id) e p (found_id o x s e w))
                            (renewed_row-moves x params.current_period_end),
                  )
                ]
        ]
    where
      renew : Subscription → Subscription → Subscription
      renew s = renewed_row (later_end s.current_period_end params.current_period_end) s.auto_renew

      found_id :
          (o : SubscriptionPayment) (x s : Subscription)
          → prisma.subscription.find_first (has_id o.subscription_id) db.subscriptions ≡ some s
          → (x.id === s.id) ≡ true
          → (x.id === o.subscription_id) ≡ true
      found_id o x s e h = ground (
        arith,
        docs.subscription.finds (has_id o.subscription_id) db.subscriptions,
        eq_iff x.id s.id,
        eq_iff s.id o.subscription_id,
        eq_iff x.id o.subscription_id,
      )

  in_workspace_follows :
      (ds : Defaults) (workspace_id : String) (ws : List Workspace)
      → follows other (subscription_of id db) (
          subscription_of id
            (elim (find_or_create_in ds workspace_id (record db { workspaces = ws })) [
              | ok r ↦ r.1
              | err _ ↦ db
            ]))
        ≡ true
  unfolding find_or_create_in
  in_workspace_follows ds workspace_id ws = ground (
    arith,
    follows_refl other (subscription_of id db),
    follow_update docs db.subscriptions other id (in_workspace workspace_id) (λ s. s) (λ x. refl)
        λ x w p. follows_refl other (some x),
    docs.subscription.creates subscription_clashes row db.subscriptions,
    new_id id row db.subscriptions,
  )
    where
      row : Subscription
      row = free_subscription ds workspace_id

  pub get_or_create_follows :
      (dw ds : Defaults) (user_id : String)
      → follows other
          (subscription_of id db)
          (subscription_of id (commit (get_or_create_personal_subscription dw ds user_id) db))
        ≡ true
  unfolding get_or_create_personal_subscription
  get_or_create_follows dw ds user_id =
      elim (Option-cases (prisma.workspace.find_first (owned_by user_id) db.workspaces)) [
        | inl e ↦
            elim (Option-cases (prisma.workspace.create workspace_clashes made db.workspaces)) [
              | inl f ↦ rw (e, f) (follows_refl other (subscription_of id db))
              | inr (ws, f) ↦ rw (e, f) (in_workspace_follows ds dw.id ws)
            ]
        | inr (w, e) ↦
            rw (e, e)
              (in_workspace_follows ds w.id
                (prisma.workspace.update_many (owned_by user_id) (λ w. w) db.workspaces).0)
      ]
    where
      made : Workspace
      made = personal_workspace dw user_id

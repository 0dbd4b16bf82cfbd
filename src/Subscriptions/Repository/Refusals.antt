-- ===== src/Subscriptions/Repository/Refusals.antt =====
-- When a claim is refused, and that a refusal changes nothing.
use easy_clip_be.Common.{
  ℕ, ◌<◌, ◌≤◌, String, ◌≡◌, refl, false, List, Option, none, some, arith, count, find, inl, inr,
  Option-cases, ◌===◌, ap, ◌∙◌, sym, find_passes, find-update_where, map_option, if◌then◌else◌,
}
use easy_clip_be.Prisma.{find_first-find}
use easy_clip_be.Subscriptions.Types.{
  Subscription, ClaimAutoRenewalPaymentParams, ClaimInitialPaymentParams, CancelAutoRenewalResult,
}
use easy_clip_be.Subscriptions.Store.{Prisma, IsDocumentedPrisma, Db, ok, commit}
use easy_clip_be.Subscriptions.Repository.Rows.{
  Defaults, pending_payment_of, pending_attempt_of, has_id,
}
use easy_clip_be.Subscriptions.Repository.Initial.{claim_initial_payment}
use easy_clip_be.Subscriptions.Repository.Lifecycle.{cancel_auto_renewal, canceled_row}
use easy_clip_be.Subscriptions.Repository.Renewal.{claim_auto_renewal_payment}
use easy_clip_be.Subscriptions.Repository.Unresolved.{unresolved}
use easy_clip_be.Subscriptions.Repository.UniqueIds.{update-rows}
use easy_clip_be.Subscriptions.Repository.Phase.Writes.{subscription_of}

module _ ⦃prisma : Prisma⦄ (docs : IsDocumentedPrisma prisma) where
  open docs use {subscription, subscription_payment, initial_subscription_payment}

  -- While a payment of the subscription is pending, a first one or a renewal, a claim of a renewal
  -- is refused and writes nothing.
  pub unresolved_refuses_renewal :
      (d : Defaults) (params : ClaimAutoRenewalPaymentParams) (db : Db)
      → 0 < unresolved params.subscription_id db
      → claim_auto_renewal_payment d params db ≡ ok (false, db)
  unfolding claim_auto_renewal_payment unresolved
  unresolved_refuses_renewal d params db h = ground (
    arith,
    subscription_payment.finds (pending_payment_of params.subscription_id) db.payments,
    initial_subscription_payment.finds (pending_attempt_of params.subscription_id)
        db.initial_payments,
  )

  -- While a payment of the subscription is pending, a first one or a renewal, a claim of a first
  -- payment writes nothing.
  pub unresolved_refuses_initial :
      (d : Defaults) (now : ℕ) (params : ClaimInitialPaymentParams) (db : Db)
      → 0 < unresolved params.subscription_id db
      → commit (claim_initial_payment d now params) db ≡ db
  unfolding claim_initial_payment unresolved
  unresolved_refuses_initial d now params db h = ground (
    arith,
    subscription_payment.finds (pending_payment_of params.subscription_id) db.payments,
    initial_subscription_payment.finds (pending_attempt_of params.subscription_id)
        db.initial_payments,
  )

  -- A claim of a renewal is refused, and writes nothing, where ids are unique and the
  -- subscription's row, if there is one, does not renew.
  pub claim_needs_renewal :
      (d : Defaults) (params : ClaimAutoRenewalPaymentParams) (db : Db)
      → count (has_id params.subscription_id) db.subscriptions ≤ 1
      → ((s : Subscription)
          → subscription_of params.subscription_id db ≡ some s
          → s.auto_renew ≡ false)
      → claim_auto_renewal_payment d params db ≡ ok (false, db)
  unfolding claim_auto_renewal_payment
  claim_needs_renewal d params db u h =
      elim (Option-cases
        (prisma.subscription.find_first (has_id params.subscription_id) db.subscriptions)) [
          | inl e ↦ ground arith
          | inr (s, e) ↦ ground (
            arith,
            h s (
                sym
                  (find_first-find subscription (has_id params.subscription_id) db.subscriptions u)
                ∙ e),
          )
        ]

  -- The row of a subscription whose row is updated.
  pub updated_row :
      (id : String) (f : Subscription → Subscription) (t : List Subscription) (s : Subscription)
      → ((x : Subscription) → (f x).id ≡ x.id)
      → find (has_id id) (prisma.subscription.update_many (has_id id) f t).0 ≡ some s
      → (x : Subscription) × (find (has_id id) t ≡ some x) × (s ≡ f x)
  updated_row id f t s keeps e = go (find (has_id id) t) refl (
      sym (
        ap (λ r. find (has_id id) r.0) (subscription.updates (has_id id) f t)
        ∙ find-update_where (has_id id) (has_id id) f t (λ x. ap (λ i. i === id) (keeps x)))
      ∙ e)
    where
      go :
          (o : Option Subscription)
          → find (has_id id) t ≡ o
          → map_option (λ x. if has_id id x then f x else x) o ≡ some s
          → (x : Subscription) × (find (has_id id) t ≡ some x) × (s ≡ f x)
      go none p q = cc
      go (some x) p q = (x, p, ground (arith, find_passes (has_id id) t x p))

  canceled_row_of :
      (id : String) (c : CancelAutoRenewalResult) (db db' : Db)
      → cancel_auto_renewal id db ≡ ok (some c, db')
      → db'.subscriptions
        ≡ (prisma.subscription.update_many (has_id id) canceled_row db.subscriptions).0
  unfolding cancel_auto_renewal
  canceled_row_of id c db db' e = ground arith

  -- Once a cancellation has gone through, a claim of a renewal of that subscription is refused and
  -- writes nothing, where subscription ids are unique.
  pub canceled_refuses_renewal :
      (d : Defaults) (params : ClaimAutoRenewalPaymentParams) (c : CancelAutoRenewalResult)
      (db db' : Db)
      → count (has_id params.subscription_id) db.subscriptions ≤ 1
      → cancel_auto_renewal params.subscription_id db ≡ ok (some c, db')
      → claim_auto_renewal_payment d params db' ≡ ok (false, db')
  canceled_refuses_renewal d params c db db' u e = claim_needs_renewal d params db' unique λ s p.
      let (x, _, q) =
        updated_row params.subscription_id canceled_row db.subscriptions s (λ x. refl)
          (ap (find (has_id params.subscription_id)) (sym row) ∙ p) in
      ap (λ y. y.auto_renew) q
    where
      row :
          db'.subscriptions
          ≡ (prisma.subscription.update_many
              (has_id params.subscription_id)
              canceled_row
              db.subscriptions).0
      row = canceled_row_of params.subscription_id c db db' e

      unique : count (has_id params.subscription_id) db'.subscriptions ≤ 1
      unique = omega (
        arith,
        ap (count (has_id params.subscription_id)) row,
        update-rows docs params.subscription_id db (has_id params.subscription_id) canceled_row
            (λ x. refl),
      )

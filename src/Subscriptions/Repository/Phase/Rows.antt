-- ===== src/Subscriptions/Repository/Phase/Rows.antt =====
-- What an update of some rows does to the phase of one subscription.
use easy_clip_be.Common.{
  ℕ, ◌≤◌, String, ◌≡◌, refl, sym, ◌∙◌, ap, Bool, true, false, List, Option, none, some, arith,
  count, find, find_passes, find-update_where, map_option, eq_iff, if◌then◌else◌, ◌===◌,
}
use easy_clip_be.Prisma.{find_first-find}
use easy_clip_be.Subscriptions.Types.{
  Subscription, ActivateSubscriptionPaymentParams, UpdateSubscriptionParams,
}
use easy_clip_be.Subscriptions.Store.{Prisma, IsDocumentedPrisma}
use easy_clip_be.Subscriptions.Repository.Rows.{has_id, to_subscription_update_data}
use easy_clip_be.Subscriptions.Repository.Initial.{started_row}
use easy_clip_be.Subscriptions.Repository.Renewal.{activated_row, renewed_row, later_end}
use easy_clip_be.Subscriptions.Repository.Lifecycle.{
  can_cancel, can_resume, canceled_row, resumed_row, expired_row, ended_at,
}
use easy_clip_be.Subscriptions.Repository.Phase.{
  Event, pays, renews, other, cancels, resumes, expires, phase, follows_phase, follows,
}

pub follows_refl : (ev : Event) (o : Option Subscription) → follows ev o o ≡ true
follows_refl ev none = refl
follows_refl ev (some x) = ground arith

pub canceled_row-moves :
    (x : Subscription)
    → can_cancel x ≡ true
    → follows_phase cancels (phase x) (phase (canceled_row x)) ≡ true
canceled_row-moves x h = ground arith

pub resumed_row-moves :
    (x : Subscription) (now : ℕ)
    → can_resume x now ≡ true
    → follows_phase resumes (phase x) (phase (resumed_row x.current_period_end x)) ≡ true
resumed_row-moves x now h = ground arith

pub expired_row-moves :
    (x : Subscription) (id : String) (period_end : ℕ)
    → ended_at id period_end x ≡ true
    → follows_phase expires (phase x) (phase (expired_row x)) ≡ true
expired_row-moves x id period_end h = ground arith

-- A first payment, whose two dates agree, starts a period from any phase.
pub started_row-moves :
    (x : Subscription) (cancel_requested : Bool) (payment : ActivateSubscriptionPaymentParams)
    → payment.next_billing_at ≡ payment.current_period_end
    → follows_phase pays (phase x) (phase (started_row cancel_requested payment x)) ≡ true
started_row-moves x true payment h = ground arith
started_row-moves x false payment h = ground arith

pub activated_row-moves :
    (x : Subscription) (params : ActivateSubscriptionPaymentParams)
    → params.next_billing_at ≡ params.current_period_end
    → follows_phase pays (phase x) (phase (activated_row params x)) ≡ true
activated_row-moves x params h = ground arith

pub renewed_row-moves :
    (x : Subscription) (next : ℕ)
    → follows_phase renews
        (phase x)
        (phase (renewed_row (later_end x.current_period_end next) x.auto_renew x))
      ≡ true
renewed_row-moves x next = ground arith

-- The columns on which the phase depends are left out of an update.
pub record KeepsPhase (params : UpdateSubscriptionParams) : Type 0 where
  pub plan : params.plan ≡ none
  pub status : params.status ≡ none
  pub auto_renew : params.auto_renew ≡ none
  pub current_period_end : params.current_period_end ≡ none
  pub next_billing_at : params.next_billing_at ≡ none

pub updated_row-moves :
    (x : Subscription) (params : UpdateSubscriptionParams)
    → KeepsPhase params
    → follows_phase other (phase x) (phase (to_subscription_update_data params x)) ≡ true
updated_row-moves x params h = ground arith

module _ ⦃prisma : Prisma⦄ (docs : IsDocumentedPrisma prisma) (t : List Subscription) where
  pub follow_update :
      (ev : Event) (id : String) (w : Subscription → Bool) (f : Subscription → Subscription)
      → ((x : Subscription) → (f x).id ≡ x.id)
      → ((x : Subscription)
          → w x ≡ true
          → find (has_id id) t ≡ some x
          → follows_phase ev (phase x) (phase (f x)) ≡ true)
      → follows ev (find (has_id id) t) (find (has_id id) (prisma.subscription.update_many w f t).0)
        ≡ true
  follow_update ev id w f keeps moved =
      rw
        (
          docs.subscription.updates w f t,
          find-update_where (has_id id) w f t (λ x. ap (λ i. i === id) (keeps x)),
        )
        (go (find (has_id id) t) refl)
    where
      step :
          (x : Subscription)
          → find (has_id id) t ≡ some x
          → (b : Bool) → w x ≡ b
          → follows ev (some x) (some (if b then f x else x)) ≡ true
      step x e true p = moved x p e
      step x e false p = follows_refl ev (some x)

      go :
          (o : Option Subscription)
          → find (has_id id) t ≡ o
          → follows ev o (map_option (λ x. if w x then f x else x) o) ≡ true
      go none e = refl
      go (some x) e = step x e (w x) refl

  -- The row that a search by an id found is the row of that id.
  pub same_row :
      (id j : String) (x s : Subscription)
      → count (has_id j) t ≤ 1
      → prisma.subscription.find_first (has_id j) t ≡ some s
      → find (has_id id) t ≡ some x
      → (x.id === j) ≡ true
      → x ≡ s
  same_row id j x s u e p h = ground (
    arith,
    sym p
        ∙ ap (λ i. find (has_id i) t) same_id
        ∙ sym (find_first-find docs.subscription (has_id j) t u)
        ∙ e,
  )
    where
      same_id : id ≡ j
      same_id = sym ((eq_iff x.id id).0 (find_passes (has_id id) t x p)) ∙ (eq_iff x.id j).0 h

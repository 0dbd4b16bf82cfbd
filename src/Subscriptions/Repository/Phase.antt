-- ===== src/Subscriptions/Repository/Phase.antt =====
-- The life of a subscription as its owner sees it, and the moves that the operations may make in
-- it. It forgets keys, providers and the two dates' redundancy.
pub mod Rows
pub mod Writes
use easy_clip_be.Common.{ℕ, Bool, true, false, Option, none, some, ◌==◌, ◌||◌, leb, if◌then◌else◌}
use easy_clip_be.Subscriptions.Types.{
  Subscription, SubscriptionPlan, SubscriptionStatus, free, pro, active, canceled, expired,
}

-- Never paid; paid until a time and renewed then; paid until a time and no longer; run out.
pub data Phase : Type 0 where
  unpaid lapsed : Phase
  renewing ending : ℕ → Phase

abbrev pub phase_of :
    SubscriptionPlan → SubscriptionStatus → Bool → Option ℕ → Option ℕ → Option Phase
phase_of free active false none none = some unpaid
phase_of free expired false none (some _) = some lapsed
phase_of pro active true (some n) (some e) = if n == e then some (renewing e) else none
phase_of pro canceled false none (some e) = some (ending e)
phase_of _ _ _ _ _ = none

-- The phase of a row, if its columns agree with one another.
abbrev pub phase : Subscription → Option Phase
phase s = phase_of s.plan s.status s.auto_renew s.next_billing_at s.current_period_end

pub data Event : Type 0 where
  other pays renews cancels resumes expires : Event

abbrev pub same : Phase → Phase → Bool
same unpaid unpaid = true
same lapsed lapsed = true
same (renewing e) (renewing e') = e == e'
same (ending e) (ending e') = e == e'
same _ _ = false

-- The moves of each event.
abbrev pub moves : Event → Phase → Phase → Bool
moves pays p (renewing e) = true
moves pays p (ending e) = true
moves renews (renewing e) (renewing e') = leb e e'
moves renews (ending e) (ending e') = leb e e'
moves renews unpaid (ending e) = true
moves renews lapsed (ending e) = true
moves cancels (renewing e) (ending e') = e == e'
moves resumes (ending e) (renewing e') = e == e'
moves expires (ending e) lapsed = true
moves _ _ _ = false

-- A row in a phase stays in it or moves as the event allows.
abbrev pub follows_phase : Event → Option Phase → Option Phase → Bool
follows_phase ev none q = true
follows_phase ev (some p) none = false
follows_phase ev (some p) (some q) = same p q || moves ev p q

-- A row is not lost, and a new one starts unpaid.
abbrev pub follows : Event → Option Subscription → Option Subscription → Bool
follows ev none none = true
follows ev none (some y) = follows_phase other (some unpaid) (phase y)
follows ev (some x) none = false
follows ev (some x) (some y) = follows_phase ev (phase x) (phase y)

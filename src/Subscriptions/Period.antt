-- ===== src/Subscriptions/Period.antt =====
-- subscriptions/application/helpers/subscription-period.helper.ts: the period that a payment buys.
use easy_clip_be.Common.{
  ℕ, ◌+◌, ◌*◌, ◌≤◌, ◌≡◌, Option, none, some, ltb, ltb→lt, arith, ◌⊎◌, inl, inr, refl, Bool-cases,
  if◌then◌else◌,
}
use easy_clip_be.Subscriptions.Calendar.{add_months, ms_per_day}
use easy_clip_be.Subscriptions.Calendar.Bounds.{add_months_one}

pub record Period : Type 0 where
  pub started_at : ℕ
  pub current_period_end : ℕ
  pub next_billing_at : ℕ

-- `PRO_BILLING_MONTHS`
abbrev pro_billing_months : ℕ
pro_billing_months = 1

-- The end of the period that is still running, or the time of the payment.
abbrev pub period_start : Option ℕ → ℕ → ℕ
period_start none paid_at = paid_at
period_start (some t) paid_at = if ltb paid_at t then t else paid_at

unfoldable pub resolve_next_period : ℕ → Option ℕ → ℕ → Period
resolve_next_period offset current_period_end paid_at =
    let start = period_start current_period_end paid_at in
    let end = add_months offset pro_billing_months start in
    record { started_at = start; current_period_end = end; next_billing_at = end }

period_start_cases :
    (current_period_end : Option ℕ) (paid_at : ℕ)
    → let start = period_start current_period_end paid_at in
      (paid_at ≤ start) × ((start ≡ paid_at) ⊎ (current_period_end ≡ some start))
period_start_cases none paid_at = (omega arith, inl refl)
period_start_cases (some t) paid_at = elim (Bool-cases (ltb paid_at t)) [
  | inl e ↦ rw e (let h = ltb→lt paid_at t e in omega (arith, h), inr refl)
  | inr e ↦ rw e (omega arith, inl refl)
]

-- The time at which the running period ends, if there is one.
abbrev pub end_or_zero : Option ℕ → ℕ
end_or_zero none = 0
end_or_zero (some t) = t

period_start_late : (e : Option ℕ) (paid_at : ℕ) → end_or_zero e ≤ period_start e paid_at
period_start_late e paid_at = ground arith

-- A payment buys a period of 28 to 31 days, at whose end the next billing is due. The period
-- begins with the payment or where the running period ends, and never earlier than either.
pub resolve_next_period_bounds :
    (offset : ℕ) (current_period_end : Option ℕ) (paid_at : ℕ)
    → let p = resolve_next_period offset current_period_end paid_at in
      (paid_at ≤ p.started_at)
      × ((p.started_at ≡ paid_at) ⊎ (current_period_end ≡ some p.started_at))
      × (end_or_zero current_period_end ≤ p.started_at)
      × (p.started_at + 28 * ms_per_day ≤ p.current_period_end)
      × (p.current_period_end ≤ p.started_at + 31 * ms_per_day)
      × (p.next_billing_at ≡ p.current_period_end)
unfolding resolve_next_period
resolve_next_period_bounds offset current_period_end paid_at =
    let start = period_start_cases current_period_end paid_at in
    let length = add_months_one offset (period_start current_period_end paid_at) in
    (start.0, start.1, period_start_late current_period_end paid_at, length.0, length.1, refl)

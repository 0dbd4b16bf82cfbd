-- ===== src/Subscriptions/Calendar/Bounds.antt =====
-- A month later is 28 to 31 days later.
use easy_clip_be.Common.{
  ℕ, zero, suc, ◌+◌, ◌-◌, ◌*◌, ◌/◌, ◌%◌, ◌≤◌, ◌<◌, ◌≡◌, refl, Bool, true, false, ◌==◌, arith, leb,
  leb→le, Bool-cases, inl, inr,
}
use native.Mathlib.Nat.{add-zero}
use native.Mathlib.Numerals.{add-one}
use easy_clip_be.Subscriptions.Calendar.{
  ms_per_day, day_from_year, is_leap, year_loop, year_from_day, month_start, month_loop,
  month_from_day, make_day, add_months,
}

year_length :
    (y : ℕ) → 1970 ≤ y → day_from_year (suc y) ≡ day_from_year y + month_start (is_leap y) 12
year_length y h = unfold month_start in ground arith

year_loop_bounds :
    (fuel y day : ℕ)
    → 1970 ≤ y
    → day_from_year y ≤ day
    → day < day_from_year (suc (y + fuel))
    → (1970 ≤ year_loop fuel y day)
      × (day_from_year (year_loop fuel y day) ≤ day)
      × (day < day_from_year (suc (year_loop fuel y day)))
unfolding year_loop
year_loop_bounds zero y day h a b = ground arith
year_loop_bounds (suc fuel) y day h a b = ground (arith, year_loop_bounds fuel (suc y) day)

month_loop_bounds :
    (leap : Bool) (m day : ℕ)
    → month_start leap 0 ≤ day
    → day < month_start leap (suc m)
    → (month_loop leap m day ≤ m)
      × (month_start leap (month_loop leap m day) ≤ day)
      × (day < month_start leap (suc (month_loop leap m day)))
unfolding month_loop
month_loop_bounds leap zero day a b = (omega arith, a, b)
month_loop_bounds leap (suc m) day a b = elim (Bool-cases (leb (month_start leap (suc m)) day)) [
  | inl e ↦ rw (e, month_loop) (omega arith, leb→le _ _ e, b)
  | inr e ↦
      rw (e, month_loop)
        (let h = month_loop_bounds leap m day a (ground arith) in (omega arith, h.1, h.2))
]

-- The months of a year have 28 to 31 days.
month_length_bounds :
    (leap : Bool) (m : ℕ)
    → m ≤ 11
    → (month_start leap m + 28 ≤ month_start leap (suc m))
      × (month_start leap (suc m) ≤ month_start leap m + 31)
unfolding month_start
month_length_bounds leap m h = ground arith

-- The fuel reaches the day's year.
year_from_day_bounds :
    (day : ℕ)
    → (1970 ≤ year_from_day day)
      × (day_from_year (year_from_day day) ≤ day)
      × (day < day_from_year (suc (year_from_day day)))
unfolding year_from_day
year_from_day_bounds day =
    year_loop_bounds (day / 365) 1970 day (omega arith) (omega arith) (omega arith)

month_start_zero : (leap : Bool) → month_start leap 0 ≡ 0
unfolding month_start
month_start_zero true = refl
month_start_zero false = refl

make_day_january :
    (y date : ℕ)
    → 1970 ≤ y
    → 1 ≤ date
    → make_day y 12 date + 1 ≡ day_from_year y + month_start (is_leap y) 12 + date
unfolding make_day
make_day_january y date h d = omega (arith, year_length y h, month_start_zero (is_leap (y + 1)))

make_day_within :
    (y n date : ℕ)
    → n < 12
    → 1 ≤ date
    → make_day y n date + 1 ≡ day_from_year y + month_start (is_leap y) n + date
unfolding make_day
make_day_within y n date l d = rw (within n l, whole n l, add-zero y) (omega arith)
  where
    within : (n : ℕ) → n < 12 → n / 12 ≡ 0
    within n l = omega arith

    whole : (n : ℕ) → n < 12 → n % 12 ≡ n
    whole n l = omega arith

make_day_next :
    (y m date : ℕ)
    → 1970 ≤ y
    → m ≤ 11
    → 1 ≤ date
    → make_day y (m + 1) date + 1 ≡ day_from_year y + month_start (is_leap y) (m + 1) + date
make_day_next y m date h k d = elim (Bool-cases (m == 11)) [
  | inl e ↦ let next : m + 1 ≡ 12 = ground (arith, e) in rw next (make_day_january y date h d)
  | inr e ↦ make_day_within y (m + 1) date (ground (arith, e)) d
]

month_from_day_bounds :
    (leap : Bool) (day : ℕ)
    → day < month_start leap 12
    → (month_from_day leap day ≤ 11)
      × (month_start leap (month_from_day leap day) ≤ day)
      × (day < month_start leap (suc (month_from_day leap day)))
unfolding month_from_day
month_from_day_bounds leap day h =
    month_loop_bounds leap 11 day (omega (arith, month_start_zero leap)) h

-- The day that `make_day` gives for the next month, and how far it lies ahead.
next_day :
    (day : ℕ)
    → let y = year_from_day day in
      let m = month_from_day (is_leap y) (day - day_from_year y) in
      let date = day - day_from_year y - month_start (is_leap y) m + 1 in
      (day + 28 ≤ make_day y (m + 1) date) × (make_day y (m + 1) date ≤ day + 31)
next_day day = (omega (arith, made, len.0, mb.1, yb.1), omega (arith, made, len.1, mb.1, yb.1))
  where
    y : ℕ
    y = year_from_day day

    yb : (1970 ≤ y) × (day_from_year y ≤ day) × (day < day_from_year (suc y))
    yb = year_from_day_bounds day

    d : ℕ
    d = day - day_from_year y

    m : ℕ
    m = month_from_day (is_leap y) d

    mb : (m ≤ 11) × (month_start (is_leap y) m ≤ d) × (d < month_start (is_leap y) (suc m))
    mb = month_from_day_bounds (is_leap y) d (omega (arith, year_length y yb.0, yb.1, yb.2))

    len :
        (month_start (is_leap y) m + 28 ≤ month_start (is_leap y) (suc m))
        × (month_start (is_leap y) (suc m) ≤ month_start (is_leap y) m + 31)
    len = month_length_bounds (is_leap y) m mb.0

    made :
        make_day y (m + 1) (d - month_start (is_leap y) m + 1) + 1
        ≡ day_from_year y + month_start (is_leap y) (suc m) + (d - month_start (is_leap y) m + 1)
    made =
        rw (← add-one m)
          (make_day_next y m (d - month_start (is_leap y) m + 1) yb.0 mb.0 (omega arith))

-- Setting the month to the next adds the days of the month that the time is in: 28 to 31.
pub add_months_one :
    (offset t : ℕ)
    → (t + 28 * ms_per_day ≤ add_months offset 1 t) × (add_months offset 1 t ≤ t + 31 * ms_per_day)
unfolding add_months
add_months_one offset t =
    let h = next_day ((t + offset) / ms_per_day) in (omega (arith, h.0), omega (arith, h.1))

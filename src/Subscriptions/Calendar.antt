-- ===== src/Subscriptions/Calendar.antt =====
-- `Date.setMonth` of ECMAScript on times from 1970 on: `MakeDate(MakeDay(year, month, date), time)`
-- in local time. The server's offset from UTC is an argument, in milliseconds, constant and not
-- west of Greenwich.
pub mod Bounds
use easy_clip_be.Common.{
  ℕ, zero, suc, ◌+◌, ◌-◌, ◌*◌, ◌/◌, ◌%◌, Bool, true, false, not, ◌&&◌, ◌||◌, ◌==◌, ltb, leb,
  if◌then◌else◌,
}

abbrev pub ms_per_day : ℕ
ms_per_day = 86400000

-- `DayFromYear`
abbrev pub day_from_year : ℕ → ℕ
day_from_year y = 365 * (y - 1970) + (y - 1969) / 4 + (y - 1601) / 400 - (y - 1901) / 100

abbrev pub is_leap : ℕ → Bool
is_leap y = y % 4 == 0 && (not (y % 100 == 0) || y % 400 == 0)

-- `YearFromTime`: the first year from `y` on that ends after the day.
year_loop : ℕ → ℕ → ℕ → ℕ
year_loop zero y day = y
year_loop (suc fuel) y day =
    let later = year_loop fuel (suc y) day in if ltb day (day_from_year (suc y)) then y else later

year_from_day : ℕ → ℕ
unfolding year_loop
year_from_day day = year_loop (day / 365) 1970 day

-- The day of a common year on which a month begins; January is 0.
abbrev pub common_month_start : ℕ → ℕ
common_month_start m =
    if m == 0
    then 0
    else if m == 1
    then 31
    else if m == 2
    then 59
    else if m == 3
    then 90
    else if m == 4
    then 120
    else if m == 5
    then 151
    else if m == 6
    then 181
    else if m == 7
    then 212
    else if m == 8
    then 243
    else if m == 9
    then 273
    else if m == 10
    then 304
    else if m == 11
    then 334
    else 365

pub month_start : Bool → ℕ → ℕ
month_start leap m = common_month_start m + (if leap && ltb 1 m then 1 else 0)

-- `MonthFromTime`, from the day within the year: the last of the first `m` months that has begun.
month_loop : Bool → ℕ → ℕ → ℕ
month_loop leap zero day = 0
month_loop leap (suc m) day =
    let earlier = month_loop leap m day in
    if leb (month_start leap (suc m)) day then suc m else earlier

month_from_day : Bool → ℕ → ℕ
unfolding month_loop
month_from_day leap day = month_loop leap 11 day

-- `MakeDay`
pub make_day : ℕ → ℕ → ℕ → ℕ
make_day year month date =
    let y = year + month / 12 in day_from_year y + month_start (is_leap y) (month % 12) + date - 1

-- `date.setMonth(date.getMonth() + n)`
pub add_months : ℕ → ℕ → ℕ → ℕ
add_months offset n t =
    let day = (t + offset) / ms_per_day in
    let year = year_from_day day in
    let day_in_year = day - day_from_year year in
    let month = month_from_day (is_leap year) day_in_year in
    let date = day_in_year - month_start (is_leap year) month + 1 in
    make_day year (month + n) date * ms_per_day + (t + offset) % ms_per_day - offset

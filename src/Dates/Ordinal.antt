-- ===== src/Dates/Ordinal.antt =====
-- Stepping a date by a day, against its day number.
use harbormaster.Prelude.{ℕ, zero, suc, ◌+◌, ◌≤◌, ◌<◌, ◌≡◌, refl, arith}
use native.Mathlib.Numerals.{add-one}
use harbormaster.Dates.{
  Date, date, IsValid, days_in_month, days_before_year, days_before_month, ordinal, weekday,
  next_day, prev_day, isoformat,
}

days_in_month_pos : (y m : ℕ) → 1 ≤ days_in_month y m
unfolding days_in_month
days_in_month_pos y m = ground arith

days_before_month-suc :
    (y m : ℕ) → 1 ≤ m → days_before_month y (m + 1) ≡ days_before_month y m + days_in_month y m
unfolding days_before_month
days_before_month-suc y zero h = absurd (omega arith)
days_before_month-suc y (suc m) h = rw add-one

-- The closed formula for the days before a year, against a year's twelve months.
days_before_year-suc :
    (y : ℕ) → 1 ≤ y → days_before_year (y + 1) ≡ days_before_year y + days_before_month y 12 + 31
unfolding days_before_year days_before_month days_in_month
days_before_year-suc y h = ground arith

december : (y : ℕ) → (days_in_month y 12 ≡ 31) × (days_before_month y 1 ≡ 0)
unfolding days_in_month days_before_month
december y = (refl, refl)

pub next_day-IsValid : (t : Date) → IsValid t → t.year < 9999 → IsValid (next_day t)
next_day-IsValid t v h =
    unfold next_day in
    ground (arith, days_in_month_pos t.year (t.month + 1), days_in_month_pos (t.year + 1) 1)

pub ordinal-next_day : (t : Date) → IsValid t → ordinal (next_day t) ≡ ordinal t + 1
unfolding ordinal next_day
ordinal-next_day t v = ground (
  arith,
  days_before_month-suc t.year t.month,
  days_before_year-suc t.year,
  december t.year,
  december (t.year + 1),
)

pub prev_day-next_day : (t : Date) → IsValid t → prev_day (next_day t) ≡ t
unfolding next_day prev_day
prev_day-next_day t v = ground (arith, december t.year)

pub year-next_day-le : (t : Date) → (t.year ≤ (next_day t).year) × ((next_day t).year ≤ t.year + 1)
unfolding next_day
year-next_day-le t = ground arith

iso_example : isoformat (date 2026 8 31) ≡ "2026-08-31"
unfolding isoformat
iso_example = refl

weekday_example : weekday (date 2026 8 31) ≡ 0
unfolding weekday
weekday_example = refl

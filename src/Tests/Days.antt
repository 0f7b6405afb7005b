-- ===== src/Tests/Days.antt =====
-- Days and calendars.
use harbormaster.Prelude.{◌≡◌, refl, true, false, ◌⊎◌, arith}
use harbormaster.Dates.{
  date, IsValid, ordinal, weekday, next_day, prev_day, days_before_year, days_before_month, is_leap,
  days_in_month,
}
use harbormaster.Calendar.{
  is_business_day, max_calendar_step_days, previous_business_day, next_business_day, search_from,
  iterate, roll,
}
use harbormaster.Calendar.Search.{IsNearest, IsExhausted, previous_business_day-cases}
use harbormaster.Calendar.Roll.{roll-open, previous_business_day-next_business_day}
use harbormaster.Tests.Fixtures.{us, shut}

-- Opens all that the days compute with.
unfoldable pub days : Unit {0}
unfolding is_business_day weekday next_day prev_day search_from previous_business_day
    next_business_day iterate roll ordinal days_before_year days_before_month is_leap days_in_month
days = tt

friday_IsValid : IsValid (date 2026 9 4)
unfolding days_in_month
friday_IsValid = record { year_in = omega arith; month_in = omega arith; day_in = omega arith }

-- the Tuesday behind Labor Day and its weekend
previous_business_day-cases_example :
    IsNearest prev_day us max_calendar_step_days
      (date 2026 9 8)
      (previous_business_day us (date 2026 9 8))
    ⊎ IsExhausted prev_day us max_calendar_step_days
        (date 2026 9 8)
        (previous_business_day us (date 2026 9 8))
previous_business_day-cases_example = previous_business_day-cases us (date 2026 9 8)

steps :
    (previous_business_day us (date 2026 9 8) ≡ date 2026 9 4)
    × (next_business_day us (date 2026 9 4) ≡ date 2026 9 8)
    × (roll us (date 2026 9 6) "FOLLOWING" ≡ date 2026 9 8)
    × (is_business_day shut (roll shut (date 2026 9 6) "PRECEDING") ≡ false)
unfolding days
steps = (refl, refl, refl, refl)

roll-open_example :
    (is_business_day us (roll us (date 2026 9 7) "PRECEDING") ≡ true)
    × (roll us (roll us (date 2026 9 7) "PRECEDING") "PRECEDING"
        ≡ roll us (date 2026 9 7) "PRECEDING")
unfolding days
roll-open_example = roll-open us (date 2026 9 7) 3 (omega arith) refl

previous_business_day-next_business_day_example :
    previous_business_day us (next_business_day us (date 2026 9 4)) ≡ date 2026 9 4
unfolding days
previous_business_day-next_business_day_example =
    previous_business_day-next_business_day us (date 2026 9 4) friday_IsValid (omega arith) 3
      (omega arith) refl refl

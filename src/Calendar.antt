-- ===== src/Calendar.antt =====
-- `Calendar` of python/src/inspector/registry.py: business days and the steps between them.
pub mod Search
pub mod Roll
use harbormaster.Prelude.{
  ℕ, zero, suc, ◌+◌, Bool, true, false, not, ◌&&◌, Option, none, some, List, String, contains, Eq,
  nat_eq, string_eq, ◌==◌, if◌then◌else◌,
}
use harbormaster.Prelude.Int.{ℤ, pos, negsuc}
use harbormaster.Prelude.Dict.{Dict, keys, lookup}
use harbormaster.Dates.{Date, date_eq, weekday, next_day, prev_day}

pub record Calendar : Type 0 where
  pub calendar_id : String
  pub weekend : List ℕ
  pub holidays : Dict Date String

abbrev pub max_calendar_step_days : ℕ
max_calendar_step_days = 30

unfoldable pub is_business_day : Calendar → Date → Bool
is_business_day c d = not (contains c.weekend (weekday d)) && not (contains (keys c.holidays) d)

abbrev or_empty : Option String → String
or_empty none = ""
or_empty (some name) = name

unfoldable pub holiday_name : Calendar → Date → String
unfolding lookup
holiday_name c d = or_empty (lookup d c.holidays)

-- The loop of `previous_business_day` and `next_business_day`, with the rounds left. The rest of the
-- loop is only made when the day found is no business day.
unfoldable pub search_from : (Date → Date) → Calendar → ℕ → Date → Date
search_from step c zero d = d
search_from step c (suc left) d =
    let rest = search_from step c left (step d) in
    if is_business_day c (step d) then step d else rest

unfoldable pub previous_business_day : Calendar → Date → Date
previous_business_day c d = search_from prev_day c max_calendar_step_days d

unfoldable pub next_business_day : Calendar → Date → Date
next_business_day c d = search_from next_day c max_calendar_step_days d

-- `for _ in range(n): d = step(d)`
unfoldable pub iterate : (Date → Date) → ℕ → Date → Date
iterate step zero d = d
iterate step (suc n) d = iterate step n (step d)

unfoldable pub add_business_days : Calendar → Date → ℤ → Date
add_business_days c d (pos n) = iterate (next_business_day c) n d
add_business_days c d (negsuc n) = iterate (previous_business_day c) (suc n) d

unfoldable pub roll : Calendar → Date → String → Date
roll c d convention =
    if is_business_day c d
    then d
    else if convention == "PRECEDING"
    then previous_business_day c d
    else next_business_day c d

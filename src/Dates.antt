-- ===== src/Dates.antt =====
-- Python's `datetime.date`, as far as the services use it: the proleptic Gregorian day, its order,
-- its weekday, one day forward and back (`d + timedelta(days=1)`), and `isoformat`.
-- A step past the years 1 and 9999, which raises in Python, is not reached by the services: the days
-- that they read lie in the years 1990 to 2100.
pub mod Ordinal
use harbormaster.Prelude.{
  ℕ, zero, suc, ◌+◌, ◌-◌, ◌*◌, ◌/◌, ◌%◌, ◌≤◌, ◌≡◌, ◌↔◌, refl, Bool, true, false, not, ◌&&◌, ◌||◌,
  ltb, leb, Eq, nat_eq, ◌==◌, if◌then◌else◌, String, ◌<>◌, arith,
}
use harbormaster.Prelude.Text.{digit_char}

pub record Date : Type 0 where
  pub year : ℕ
  pub month : ℕ
  pub day : ℕ

abbrev pub date_beq : Date → Date → Bool
date_beq a b = a.year == b.year && (a.month == b.month && a.day == b.day)

pub date_beq_iff : (a b : Date) → (date_beq a b ≡ true) ↔ (a ≡ b)
date_beq_iff a b = ground arith

instance abbrev pub date_eq : Eq Date
date_eq = record { beq = date_beq; beq_iff = date_beq_iff }

-- `date(y, m, d)` of a day that exists
abbrev pub date : ℕ → ℕ → ℕ → Date
date y m d = record { year = y; month = m; day = d }

-- `a < b`
abbrev pub date_lt : Date → Date → Bool
date_lt a b =
    ltb a.year b.year
    || a.year == b.year && (ltb a.month b.month || a.month == b.month && ltb a.day b.day)

unfoldable pub is_leap : ℕ → Bool
is_leap y = y % 4 == 0 && (not (y % 100 == 0) || y % 400 == 0)

unfoldable pub days_in_month : ℕ → ℕ → ℕ
unfolding is_leap
days_in_month y m =
    if m == 2
    then (if is_leap y then 29 else 28)
    else if (m == 4 || m == 6) || (m == 9 || m == 11)
    then 30
    else 31

abbrev pub is_valid : ℕ → ℕ → ℕ → Bool
is_valid y m d =
    (leb 1 y && leb y 9999) && ((leb 1 m && leb m 12) && (leb 1 d && leb d (days_in_month y m)))

pub record IsValid (t : Date) : Type 0 where
  pub year_in : (1 ≤ t.year) × (t.year ≤ 9999)
  pub month_in : (1 ≤ t.month) × (t.month ≤ 12)
  pub day_in : (1 ≤ t.day) × (t.day ≤ days_in_month t.year t.month)

-- `date.toordinal`: 1 is the first day of the year 1
unfoldable pub days_before_year : ℕ → ℕ
days_before_year y = let p = y - 1 in p * 365 + p / 4 - p / 100 + p / 400

unfoldable pub days_before_month : ℕ → ℕ → ℕ
days_before_month y zero = 0
days_before_month y (suc zero) = 0
days_before_month y (suc (suc m)) = days_before_month y (suc m) + days_in_month y (suc m)

unfoldable pub ordinal : Date → ℕ
ordinal t = days_before_year t.year + days_before_month t.year t.month + t.day

-- `date.weekday`: 0 is Monday
unfoldable pub weekday : Date → ℕ
unfolding ordinal days_before_year days_before_month days_in_month
weekday t = (ordinal t + 6) % 7

-- `d + timedelta(days=1)`
unfoldable pub next_day : Date → Date
next_day t =
    if ltb t.day (days_in_month t.year t.month)
    then date t.year t.month (t.day + 1)
    else if ltb t.month 12
    then date t.year (t.month + 1) 1
    else date (t.year + 1) 1 1

-- `d - timedelta(days=1)`
unfoldable pub prev_day : Date → Date
prev_day t =
    if ltb 1 t.day
    then date t.year t.month (t.day - 1)
    else if ltb 1 t.month
    then date t.year (t.month - 1) (days_in_month t.year (t.month - 1))
    else date (t.year - 1) 12 31

two_digits : ℕ → String
unfolding digit_char
two_digits n = String.◌∷◌ (digit_char (n / 10 % 10)) (String.◌∷◌ (digit_char (n % 10)) "")

-- `d.isoformat()`, and the f-string of a date
unfoldable pub isoformat : Date → String
unfolding two_digits
isoformat t =
    two_digits (t.year / 100)
    <> (two_digits (t.year % 100) <> ("-" <> (two_digits t.month <> ("-" <> two_digits t.day))))

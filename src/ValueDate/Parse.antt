-- ===== src/ValueDate/Parse.antt =====
-- `parse_date` and `date_from_filename` of python/src/inspector/valuedate.py. A format of `strptime`
-- is a list of directives; `scan` gives the ways in which a text fits them, in the order in which
-- the regular expression behind `strptime` tries them.
pub mod Laws
use Prim.Native.Char.{Char, code}
use harbormaster.Prelude.{
  ℕ, zero, suc, ◌+◌, ◌*◌, Bool, true, false, not, ◌&&◌, ◌||◌, Option, none, some, List, [], ◌∷◌,
  ◌++◌, String, Eq, nat_eq, string_eq, ◌==◌, leb, if◌then◌else◌,
}
use harbormaster.Prelude.Text.{
  char_eq, is_digit, is_alpha, is_space, between, is_blank, lower, starts_with, strip, take_chars,
  drop_chars, size, digit_value,
}
use harbormaster.Dates.{Date, date, is_valid, days_in_month}

pub data Directive : Type 0 where
  year_4 month_number day_number month_abbr month_name spaces : Directive
  literal : Char → Directive

abbrev pub months : List String
months =
    "january" ∷ "february" ∷ "march" ∷ "april" ∷ "may" ∷ "june" ∷ "july" ∷ "august" ∷ "september"
    ∷ "october" ∷ "november" ∷ "december" ∷ []

abbrev pub month_abbrs : List String
month_abbrs =
    "jan" ∷ "feb" ∷ "mar" ∷ "apr" ∷ "may" ∷ "jun" ∷ "jul" ∷ "aug" ∷ "sep" ∷ "oct" ∷ "nov" ∷ "dec"
    ∷ []

-- The readings of a prefix: a number, and the text behind it.
abbrev Readings : Type 0
Readings = List (ℕ × String)

abbrev when : Bool → ℕ × String → Readings
when b r = if b then r ∷ [] else []

-- `\d\d\d\d`
read_year : String → Readings
read_year (String.◌∷◌ a (String.◌∷◌ b (String.◌∷◌ c (String.◌∷◌ d s)))) =
    when ((is_digit a && is_digit b) && (is_digit c && is_digit d))
      (1000 * digit_value a + 100 * digit_value b + 10 * digit_value c + digit_value d, s)
read_year _ = []

-- One digit from 1 to 9.
read_one : String → Readings
read_one (String.◌∷◌ a s) = when (between b'1' b'9' a) (digit_value a, s)
read_one _ = []

-- Two digits, from 1 to `top`.
read_two : ℕ → String → Readings
read_two top (String.◌∷◌ a (String.◌∷◌ b s)) =
    let n = 10 * digit_value a + digit_value b in
    when ((is_digit a && is_digit b) && (leb 1 n && leb n top)) (n, s)
read_two top _ = []

-- `1[0-2]|0[1-9]|[1-9]` and `3[0-1]|[1-2]\d|0[1-9]|[1-9]`
read_number : ℕ → String → Readings
unfolding read_two read_one
read_number top s = read_two top s ++ read_one s

-- The names from number `n` on that the text begins with, case ignored.
read_name : ℕ → List String → String → Readings
unfolding starts_with lower
read_name n [] s = []
read_name n (name ∷ names) s =
    let rest = read_name (n + 1) names s in
    if starts_with (lower s) name then (n, drop_chars (size name) s) ∷ rest else rest

-- `\s+`, the longest first
read_spaces : String → List String
read_spaces String.[] = []
read_spaces (String.◌∷◌ c s) = let rest = read_spaces s ++ s ∷ [] in if is_space c then rest else []

abbrev read_literal : Char → String → List String
read_literal c String.[] = []
read_literal c (String.◌∷◌ d s) = if char_eq c d then s ∷ [] else []

-- What a directive does to the date read so far, for each of its readings.
abbrev Step : Type 0
Step = List (Date × String)

set_each : (ℕ → Date) → Readings → Step
set_each f [] = []
set_each f ((n, s) ∷ r) = (f n, s) ∷ set_each f r

keep_each : Date → List String → Step
keep_each t [] = []
keep_each t (s ∷ r) = (t, s) ∷ keep_each t r

read : Directive → Date → String → Step
unfolding set_each keep_each read_year read_number read_name read_spaces
read year_4 t s = set_each (λ n. record t { year = n }) (read_year s)
read month_number t s = set_each (λ n. record t { month = n }) (read_number 12 s)
read day_number t s = set_each (λ n. record t { day = n }) (read_number 31 s)
read month_abbr t s = set_each (λ n. record t { month = n }) (read_name 1 month_abbrs s)
read month_name t s = set_each (λ n. record t { month = n }) (read_name 1 months s)
read spaces t s = keep_each t (read_spaces s)
read (literal c) t s = keep_each t (read_literal c s)

each : (Date → String → Step) → Step → Step
each f [] = []
each f ((t, s) ∷ r) = f t s ++ each f r

scan : List Directive → Date → String → Step
unfolding read each
scan [] t s = (t, s) ∷ []
scan (d ∷ ds) t s = each (scan ds) (read d t s)

-- The first way to read the text has to use all of it, and to be a day of the calendar.
accept : Step → Option Date
accept [] = none
accept ((t, s) ∷ _) = if is_blank s && is_valid t.year t.month t.day then some t else none

-- `datetime.strptime(raw, fmt).date()`, `none` for its ValueError; fields not read are 1900, 1, 1
unfoldable pub strptime : List Directive → String → Option Date
unfolding scan accept days_in_month
strptime format raw = accept (scan format (date 1900 1 1) raw)

-- `_DATE_FORMATS`
abbrev pub date_formats : List (List Directive)
date_formats =
    (year_4 ∷ literal "-" ∷ month_number ∷ literal "-" ∷ day_number ∷ [])
    ∷ (year_4 ∷ literal "/" ∷ month_number ∷ literal "/" ∷ day_number ∷ [])
    ∷ (day_number ∷ literal "/" ∷ month_number ∷ literal "/" ∷ year_4 ∷ [])
    ∷ (month_number ∷ literal "/" ∷ day_number ∷ literal "/" ∷ year_4 ∷ [])
    ∷ (day_number ∷ literal "-" ∷ month_abbr ∷ literal "-" ∷ year_4 ∷ [])
    ∷ (day_number ∷ month_abbr ∷ year_4 ∷ [])
    ∷ (month_abbr ∷ spaces ∷ day_number ∷ literal "," ∷ spaces ∷ year_4 ∷ [])
    ∷ (day_number ∷ spaces ∷ month_name ∷ spaces ∷ year_4 ∷ [])
    ∷ (year_4 ∷ month_number ∷ day_number ∷ [])
    ∷ (day_number ∷ literal "." ∷ month_number ∷ literal "." ∷ year_4 ∷ [])
    ∷ []

abbrev in_range : Date → Bool
in_range t = leb 1990 t.year && leb t.year 2100

-- The loop over the formats: the first that reads the text as a day of the years 1990 to 2100.
unfoldable pub try_formats : List (List Directive) → String → Option Date
try_formats [] raw = none
try_formats (f ∷ fs) raw =
    let rest = try_formats fs raw in
    elim (strptime f raw) [ none ↦ rest | some t ↦ if in_range t then some t else rest ]

-- `re.split(r"[T ]", raw, maxsplit=1)[0]`
unfoldable pub before_time : String → String
before_time String.[] = String.[]
before_time (String.◌∷◌ c s) =
    if char_eq c "T" || char_eq c " " then String.[] else String.◌∷◌ c (before_time s)

unfoldable pub parse_date : String → Option Date
parse_date text =
    let raw = strip text in
    let day = strip (before_time raw) in
    if is_blank raw then none else if is_blank day then none else try_formats date_formats day

-- A prefix whose characters pass the tests one by one.
matches : List (Char → Bool) → String → Bool
matches [] s = true
matches (p ∷ ps) String.[] = false
matches (p ∷ ps) (String.◌∷◌ c s) = p c && matches ps s

abbrev starts_digit : String → Bool
starts_digit String.[] = false
starts_digit (String.◌∷◌ c s) = is_digit c

abbrev iso_shape : List (Char → Bool)
iso_shape =
    is_digit
    ∷ is_digit
    ∷ is_digit
    ∷ is_digit
    ∷ char_eq "-"
    ∷ is_digit
    ∷ is_digit
    ∷ char_eq "-"
    ∷ is_digit
    ∷ is_digit
    ∷ []

abbrev compact_shape : List (Char → Bool)
compact_shape =
    is_digit ∷ is_digit ∷ is_digit ∷ is_digit ∷ is_digit ∷ is_digit ∷ is_digit ∷ is_digit ∷ []

abbrev dmy_shape : List (Char → Bool)
dmy_shape =
    is_digit ∷ is_digit ∷ is_alpha ∷ is_alpha ∷ is_alpha ∷ is_digit ∷ is_digit ∷ is_digit ∷ is_digit
    ∷ []

-- `_FILENAME_DATE` at one place, behind a digit or not: the text of the group that matched.
filename_date_at : Bool → String → Option String
unfolding matches take_chars drop_chars
filename_date_at after_digit s =
    if matches iso_shape s
    then some (take_chars 10 s)
    else if not after_digit && (matches compact_shape s && not (starts_digit (drop_chars 8 s)))
    then some (take_chars 8 s)
    else if matches dmy_shape s
    then some (take_chars 9 s)
    else none

-- `_FILENAME_DATE.search(name)`
search_filename : Bool → String → Option String
unfolding filename_date_at
search_filename after_digit String.[] = none
search_filename after_digit (String.◌∷◌ c s) =
    let rest = search_filename (is_digit c) s in
    elim (filename_date_at after_digit (String.◌∷◌ c s)) [ none ↦ rest | some t ↦ some t ]

unfoldable pub date_from_filename : String → Option Date
unfolding search_filename
date_from_filename name = elim (search_filename false name) [ none ↦ none | some t ↦ parse_date t ]

-- Opens all that a run of the readers computes with.
unfoldable pub readers : Unit {0}
unfolding parse_date date_from_filename strip before_time try_formats strptime
readers = tt

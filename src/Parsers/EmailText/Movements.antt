-- ===== src/Parsers/EmailText/Movements.antt =====
-- python/src/inspector/parsers/email_text.py: the movement in a line, with its currency, direction, account and date.
use harbormaster.Prelude.{
  ℕ, ◌+◌, Bool, true, false, ◌&&◌, ◌||◌, Option, none, some, List, [], ◌∷◌, any, is_some, String,
  ◌<>◌, string_eq, if◌then◌else◌,
}
use harbormaster.Prelude.Text.{
  char_eq, is_digit, is_upper, is_lower, is_alpha, is_space, lower, any_char, has_infix,
  starts_with, take_chars, fixed_two,
}
use harbormaster.Prelude.Dict.{Dict}
use harbormaster.Dates.{Date, isoformat}
use harbormaster.ValueDate.Parse.{strptime, parse_date, day_number, spaces, month_name, year_4}
use harbormaster.Parsers.Patterns.{
  Ways, char, both, either, optional, times, some_times, literal, boundary, search,
}
use harbormaster.Parsers.EmailText.{currencies, symbol_currency, amount}

-- `_CURRENCY_CODE`
abbrev pub one_of : List String → Ways
unfolding starts_with
one_of [] p = []
one_of (c ∷ cs) p = either (literal c) (one_of cs) p

abbrev pub currency_code : Ways
unfolding both
currency_code = both boundary (both (one_of currencies) boundary)

-- `_ACCOUNT`
abbrev is_capital : Ways
is_capital = char (λ c. is_upper c || is_digit c)

abbrev account_part : Ways
unfolding times
account_part = times 2 6 is_capital

abbrev behind_mark : Ways
unfolding both
behind_mark = both (char (λ c. char_eq c "-" || char_eq c "_")) account_part

unfoldable pub account_pattern : Ways
unfolding both times
account_pattern =
    both boundary (both account_part (both behind_mark (both (optional behind_mark) boundary)))

-- `_DATE_PATTERNS`
abbrev digits : ℕ → ℕ → Ways
unfolding times
digits lo hi = times lo hi (char is_digit)

abbrev word : Ways → Ways
unfolding both
word f = both boundary (both f boundary)

abbrev dash : Ways → Ways → Ways
unfolding both
dash f g = both f (both (literal "-") g)

unfoldable pub date_patterns : List Ways
unfolding both times
date_patterns =
    word (dash (digits 4 4) (dash (digits 2 2) (digits 2 2)))
    ∷ word (
        both (digits 1 2) (
          both (some_times (char is_space)) (
            both (char is_upper) (
              both (some_times (char is_lower)) (both (some_times (char is_space)) (digits 4 4))))))
    ∷ word (
        both (digits 1 2)
          (both (literal "/") (both (digits 1 2) (both (literal "/") (digits 4 4)))))
    ∷ word (dash (digits 1 2) (dash (times 3 3 (char is_alpha)) (digits 4 4)))
    ∷ []

abbrev iso_of : Option Date → Option String
unfolding isoformat
iso_of none = none
iso_of (some t) = some (isoformat t)

-- what a pattern found, read by `parse_date`, or as a day with the name of its month
unfoldable pub read_match : String → Option String
unfolding parse_date strptime isoformat
read_match text = elim (parse_date text) [
  | some t ↦ some (isoformat t)
  | none ↦ iso_of (strptime (day_number ∷ spaces ∷ month_name ∷ spaces ∷ year_4 ∷ []) text)
]

abbrev date_by : Ways → String → Option String
unfolding search read_match
date_by pattern text = elim (search pattern text) [ none ↦ none | some t ↦ read_match t ]

unfoldable first_by : List Ways → String → Option String
unfolding search read_match
first_by [] text = none
first_by (f ∷ fs) text = elim (date_by f text) [ none ↦ first_by fs text | some t ↦ some t ]

-- `_first_date`
unfoldable pub first_date : String → Option String
unfolding first_by date_patterns
first_date text = first_by date_patterns text

unfoldable symbol_of : List (String × String) → String → Option String
unfolding has_infix
symbol_of [] line = none
symbol_of ((symbol, iso) ∷ l) line = if has_infix line symbol then some iso else symbol_of l line

-- `_currency`
unfoldable pub currency : String → Option String
unfolding search symbol_of both starts_with
currency line = elim (search currency_code line) [
  | some code ↦ some code
  | none ↦ symbol_of symbol_currency line
]

pub data Direction : Type 0 where
  debit credit unknown : Direction

abbrev debit_words : List String
debit_words = "debit" ∷ "withdrawal" ∷ "outgoing" ∷ "paid" ∷ "payment out" ∷ "sent" ∷ []

abbrev credit_words : List String
credit_words = "credit" ∷ "deposit" ∷ "incoming" ∷ "received" ∷ "receipt" ∷ []

-- `_direction`
unfoldable pub direction : String → Direction
unfolding any has_infix lower any_char
direction line =
    let lowered = lower line in
    if any (has_infix lowered) debit_words
    then debit
    else if any (has_infix lowered) credit_words
    then credit
    else if has_infix line "(" && (has_infix line ")" && any_char is_digit line)
    then debit
    else unknown

abbrev pub direction_name : Direction → String
direction_name debit = "DEBIT"
direction_name credit = "CREDIT"
direction_name unknown = "UNKNOWN"

abbrev pub signed : Direction → String → String
signed debit number = "-" <> number
signed credit number = number
signed unknown number = number

abbrev is_known : Direction → Bool
is_known debit = true
is_known credit = true
is_known unknown = false

abbrev or_blank : Option String → String
or_blank none = ""
or_blank (some s) = s

abbrev or_default : Option String → Option String → Option String
or_default none d = d
or_default (some s) d = some s

-- in hundredths; it is never below the least confidence, 0.5
abbrev pub line_confidence : Option String → Option String → Direction → ℕ
line_confidence account value_date way =
    50
    + (if is_some account then 20 else 0)
    + (if is_some value_date then 20 else 0)
    + (if is_known way then 10 else 0)

abbrev movement :
    String → Option String → Direction → Option String → String → String → Dict String String
unfolding fixed_two take_chars
movement line account way value_date code number =
    ("Account ID", or_blank account)
    ∷ ("Net Amount", signed way number)
    ∷ ("Currency", code)
    ∷ ("Value Date", or_blank value_date)
    ∷ ("Direction", direction_name way)
    ∷ ("Extraction Confidence", fixed_two (line_confidence account value_date way) 100)
    ∷ ("Source Line", take_chars 300 line)
    ∷ []

abbrev movement_of :
    String → Option String → Option String → Option String → Option (Dict String String)
unfolding fixed_two take_chars search account_pattern direction first_date
movement_of line default_date none number = none
movement_of line default_date (some code) none = none
movement_of line default_date (some code) (some number) = some (
    movement line (search account_pattern line) (direction line)
      (or_default (first_date line) default_date) code number)

-- `_extract`
unfoldable pub extract : String → Option String → Option (Dict String String)
unfolding currency amount fixed_two take_chars search account_pattern direction first_date
extract line default_date = movement_of line default_date (currency line) (amount line)

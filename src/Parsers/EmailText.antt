-- ===== src/Parsers/EmailText.antt =====
-- python/src/inspector/parsers/email_text.py: what is read from one line. Confidences are hundredths.
pub mod Movements
pub mod Bodies
pub mod Largest
use Prim.Native.Char.{Char}
use Prim.Native.Nat.{◌^◌}
use harbormaster.Prelude.{
  ℕ, zero, suc, ◌+◌, ◌-◌, ◌*◌, min, Bool, true, false, not, ◌&&◌, ◌||◌, Option, none, some, List,
  [], ◌∷◌, filter, any, is_some, is_empty, String, ◌<>◌, string_eq, ◌==◌, ltb, leb, if◌then◌else◌,
}
use harbormaster.Prelude.Text.{
  char_eq, is_digit, is_upper, is_lower, is_alpha, is_space, is_blank, size, lower, any_char,
  filter_chars, has_infix, take_chars, digit_value, fixed_two,
}
use harbormaster.Dates.{Date}
use harbormaster.ValueDate.Parse.{strptime, parse_date, day_number, spaces, month_name, year_4}
use harbormaster.Mapping.Variation.{Ratio, ratio, below}
use harbormaster.Parsers.Patterns.{
  Place, place, Ways, char, both, either, optional, times, any_times, some_times, literal, boundary,
  not_before, between_places, is_word, search,
}

abbrev pub currencies : List String
currencies = "USD" ∷ "EUR" ∷ "GBP" ∷ "JPY" ∷ "CHF" ∷ "HKD" ∷ "AUD" ∷ "CAD" ∷ "SEK" ∷ "SGD" ∷ []

abbrev pub symbol_currency : List (String × String)
symbol_currency = ("$", "USD") ∷ ("€", "EUR") ∷ ("£", "GBP") ∷ ("¥", "JPY") ∷ []

abbrev digits : ℕ → ℕ → Ways
unfolding times
digits lo hi = times lo hi (char is_digit)

-- `(?:\.\d+)?`
abbrev decimals : Ways
unfolding both times
decimals = optional (both (literal ".") (some_times (char is_digit)))

-- the group `number` of `_AMOUNT`, and what must not stand behind it
unfoldable pub number_ways : Ways
unfolding both times
number_ways =
    both
      (either (both (digits 1 3) (both (any_times (both (literal ",") (digits 3 3))) decimals))
        (both (some_times (char is_digit)) decimals))
      (not_before is_digit)

abbrev is_symbol : Char → Bool
is_symbol c = char_eq c "$" || (char_eq c "€" || (char_eq c "£" || char_eq c "¥"))

-- A match of `_AMOUNT`: whether there is a symbol, the number, and what is ahead.
pub record Match : Type 0 where
  pub symbol : Bool
  pub number : String
  pub rest : String

abbrev first_number : Bool → List Place → Option Match
unfolding number_ways between_places
first_number symbol [] = none
first_number symbol (p ∷ ps) = elim (number_ways p) [
  | [] ↦ first_number symbol ps
  | q ∷ _ ↦ some (record { symbol = symbol; number = between_places p q; rest = q.ahead })
]

abbrev or_else : Option Match → Option Match → Option Match
or_else none n = n
or_else (some m) n = some m

unfoldable pub amount_at : Place → Option Match
unfolding both times number_ways between_places
amount_at p =
    or_else (first_number true (both (char is_symbol) (any_times (char is_space)) p))
      (first_number false (any_times (char is_space) p))

-- `_AMOUNT.finditer(line)`: behind a match the scan goes on at its end
unfoldable pub find_amounts : Bool → ℕ → String → List Match
unfolding amount_at
find_amounts w skip String.[] = []
find_amounts w (suc skip) (String.◌∷◌ c s) = find_amounts (is_word c) skip s
find_amounts w zero (String.◌∷◌ c s) = elim (amount_at (place w (String.◌∷◌ c s))) [
  | none ↦ find_amounts (is_word c) zero s
  | some m ↦ m ∷ find_amounts (is_word c) (size s - size m.rest) s
]

-- `float(number.replace(",", ""))`: the digits so far, and how many of them stand behind the point
unfoldable pub value_from : Bool → ℕ → ℕ → String → Ratio
value_from point n places String.[] = ratio n (10 ^ places)
value_from point n places (String.◌∷◌ c s) =
    value_from (point || char_eq c ".") (if is_digit c then 10 * n + digit_value c else n)
      (if point then places + 1 else places) s

unfoldable pub without_commas : String → String
unfolding filter_chars
without_commas number = filter_chars (λ c. not (char_eq c ",")) number

unfoldable pub value_of : String → Ratio
unfolding value_from without_commas
value_of number = value_from false 0 0 (without_commas number)

-- `"," in number or "." in number`
abbrev is_marked : String → Bool
unfolding any_char
is_marked number = any_char (λ c. char_eq c "," || char_eq c ".") number

abbrev is_year : Ratio → Bool
is_year v = leb (1900 * v.den) v.num && leb v.num (2100 * v.den)

-- the guards of the loop of `_amount`: no identifier, no year, and a marker
unfoldable pub is_money : Match → Bool
unfolding any_char value_of
is_money m =
    not (not (is_marked m.number) && leb 5 (size m.number))
    && (not (is_year (value_of m.number) && not (is_marked m.number))
        && (m.symbol || is_marked m.number))

unfoldable pub larger : Option Match → Match → Option Match
unfolding value_of
larger none m = some m
larger (some b) m = if below (value_of b.number) (value_of m.number) then some m else some b

unfoldable pub largest : Option Match → List Match → Option Match
unfolding is_money larger
largest best [] = best
largest best (m ∷ ms) = largest (if is_money m then larger best m else best) ms

unfoldable pub number_text : Option Match → Option String
unfolding without_commas
number_text none = none
number_text (some m) = some (without_commas m.number)

-- `_amount`
unfoldable pub amount : String → Option String
unfolding find_amounts largest number_text
amount line = number_text (largest none (find_amounts false 0 line))

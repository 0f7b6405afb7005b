-- ===== src/Mapping/Numbers.antt =====
-- `to_decimal` and `looks_like_price_column` of python/src/inspector/mapping/tier1.py. A Decimal is its sign,
-- its coefficient and its exponent; a signalling NaN is kept as a NaN, and no coefficient is rounded to
-- the 28 digits of the context.
use Prim.Native.Char.{Char}
use harbormaster.Prelude.{
  ℕ, suc, ◌+◌, ◌-◌, ◌*◌, ◌/◌, Bool, true, false, not, ◌&&◌, ◌||◌, Option, none, some, List, [], ◌∷◌,
  length, take, filter, filter_map, is_empty, any, ◌≡◌, refl, String, string_eq, ◌==◌, contains,
  leb, if◌then◌else◌,
}
use harbormaster.Prelude.Int.{ℤ, pos, negsuc}
use harbormaster.Prelude.Text.{
  char_eq, is_digit, is_space, digit_value, is_blank, size, strip, starts_with, ends_with,
  has_infix, take_chars, drop_chars, filter_chars, all_chars, lower,
}

pub data Decimal : Type 0 where
  finite : Bool → ℕ → ℤ → Decimal
  infinity : Bool → Decimal
  nan : Decimal

-- `-value`
abbrev pub negated : Decimal → Decimal
negated (finite negative c e) = finite (not negative) c e
negated (infinity negative) = infinity (not negative)
negated nan = nan

-- `-n` and `m - n`
abbrev minus : ℕ → ℕ → ℤ
minus m n = if leb n m then pos (m - n) else negsuc (n - m - 1)

-- The digits in front of a text: their value behind `acc`, their number, and the rest.
read_digits : ℕ → ℕ → String → ℕ × (ℕ × String)
read_digits acc n String.[] = (acc, (n, String.[]))
read_digits acc n (String.◌∷◌ c s) =
    if is_digit c
    then read_digits (acc * 10 + digit_value c) (suc n) s
    else (acc, (n, String.◌∷◌ c s))

-- A sign, and what follows it: true for a minus.
abbrev read_sign : String → Bool × String
read_sign String.[] = (false, String.[])
read_sign (String.◌∷◌ c s) =
    if char_eq c "-"
    then (true, s)
    else if char_eq c "+"
    then (false, s)
    else (false, String.◌∷◌ c s)

-- The exponent behind the digits, less the number of digits behind the point.
abbrev exponent_of : Bool → ℕ → ℕ → ℤ
exponent_of true n places = minus 0 (n + places)
exponent_of false n places = minus n places

read_exponent : Bool → ℕ → ℕ → String → Option Decimal
unfolding read_digits
read_exponent negative c places String.[] = some (finite negative c (minus 0 places))
read_exponent negative c places (String.◌∷◌ e s) =
    let (below, digits) = read_sign s in
    let (n, (count, rest)) = read_digits 0 0 digits in
    if char_eq e "e" && (leb 1 count && is_blank rest)
    then some (finite negative c (exponent_of below n places))
    else none

-- digits, perhaps with a point among, before or behind them, and perhaps an exponent
read_finite : Bool → String → Option Decimal
unfolding read_digits read_exponent
read_finite negative s =
    let (whole, (n, rest)) = read_digits 0 0 s in
    elim rest [
      | String.[] ↦ if leb 1 n then read_exponent negative whole 0 String.[] else none
      | String.◌∷◌ c r ↦
          let (all_digits, (places, behind)) = read_digits whole 0 r in
          if char_eq c "."
          then if leb 1 (n + places) then read_exponent negative all_digits places behind else none
          else if leb 1 n
          then read_exponent negative whole 0 (String.◌∷◌ c r)
          else none
    ]

-- `Decimal(text)`; `none` for the InvalidOperation. Case and underscores do not count.
unfoldable pub decimal : String → Option Decimal
unfolding read_finite lower filter_chars starts_with drop_chars all_chars strip
decimal text =
    let (negative, s) = read_sign (filter_chars (λ c. not (char_eq c "_")) (lower (strip text))) in
    let number = read_finite negative s in
    if s == "inf" || s == "infinity"
    then some (infinity negative)
    else if (starts_with s "nan" && all_chars is_digit (drop_chars 3 s))
        || (starts_with s "snan" && all_chars is_digit (drop_chars 4 s))
    then some nan
    else number

abbrev no_numbers : List String
no_numbers = "-" ∷ "--" ∷ "n/a" ∷ "N/A" ∷ "NULL" ∷ "null" ∷ []

-- `[,\s$€£¥%]`
abbrev is_noise : Char → Bool
is_noise c =
    char_eq c ","
    || (is_space c
        || (char_eq c "$"
            || (char_eq c "€" || (char_eq c "£" || (char_eq c "¥" || char_eq c "%")))))

-- the text without its noise: a trailing minus counts as a sign
abbrev signed : Bool → String → Option Decimal
signed negative text = elim (decimal text) [
  | none ↦ none
  | some value ↦ some (if negative then negated value else value)
]

unfoldable pub to_decimal : String → Option Decimal
unfolding strip starts_with ends_with take_chars drop_chars filter_chars
to_decimal raw =
    let text = strip raw in
    let bracketed = starts_with text "(" && ends_with text ")" in
    let inside : String =
      if bracketed then take_chars (size text - 2) (drop_chars 1 text) else text in
    let cleaned = filter_chars (λ c. not (is_noise c)) inside in
    let trailing = ends_with cleaned "-" in
    let number : String = if trailing then take_chars (size cleaned - 1) cleaned else cleaned in
    if is_blank text || contains no_numbers text
    then none
    else if is_blank number
    then none
    else signed (bracketed || trailing) number

abbrev price_hints : List String
price_hints = "price" ∷ "px" ∷ "rate" ∷ "quote" ∷ []

-- `_PRICE_HINT.search(header)`
unfoldable pub has_price_hint : String → Bool
unfolding any has_infix lower
has_price_hint header = any (has_infix (lower header)) price_hints

-- How many of the first 200 values are looked at, and how many of those are read.
unfoldable pub looks_like_price_column : String → List String → Bool
unfolding filter filter_map strip
looks_like_price_column header values =
    let parsed = filter (λ v. not (is_blank (strip v))) (take 200 values) in
    let usable = filter_map to_decimal parsed in
    has_price_hint header
    && (not (is_empty usable)
        && (leb 1 (length usable) && leb (length parsed * 4 / 5) (length usable)))

reads :
    (to_decimal "(1,234.50)" ≡ some (finite true 123450 (negsuc 1)))
    × (to_decimal " $ 12- " ≡ some (finite true 12 (pos 0)))
    × (to_decimal "1.5E+3" ≡ some (finite false 15 (pos 2)))
    × (to_decimal "n/a" ≡ none)
    × (to_decimal "12x" ≡ none)
    × (to_decimal "()" ≡ none)
    × (looks_like_price_column "Mark Px" ("101.25" ∷ "" ∷ "102" ∷ []) ≡ true)
unfolding to_decimal decimal looks_like_price_column has_price_hint
reads = (refl, refl, refl, refl, refl, refl, refl)

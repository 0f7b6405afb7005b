-- ===== src/Prelude/Floats.antt =====
-- The texts that Python's `float` accepts.
use mathlib.Core.Bool.{Bool, true, false, ◌&&◌, ◌||◌}
use mathlib.Core.List.{[], ◌∷◌}
use Prim.Native.String.{String}
use harbormaster.Prelude.Tests.{if◌then◌else◌}
use harbormaster.Prelude.Equality.{string_eq, contains}
use harbormaster.Prelude.Text.{char_eq, is_digit, is_blank, lower, strip}

abbrev starts_digit : String → Bool
starts_digit String.[] = false
starts_digit (String.◌∷◌ c s) = is_digit c

-- behind a digit: more digits, and an underscore between two of them
unfoldable pub skip_digits : String → String
skip_digits String.[] = String.[]
skip_digits (String.◌∷◌ c s) =
    let rest = skip_digits s in
    if is_digit c || (char_eq c "_" && starts_digit s) then rest else String.◌∷◌ c s

abbrev unsigned : String → String
unsigned String.[] = String.[]
unsigned (String.◌∷◌ c s) = if char_eq c "-" || char_eq c "+" then s else String.◌∷◌ c s

abbrev is_exponent : String → Bool
is_exponent String.[] = true
is_exponent (String.◌∷◌ c s) =
    (char_eq c "e" || char_eq c "E")
    && (starts_digit (unsigned s) && is_blank (skip_digits (unsigned s)))

abbrev behind_whole : String → Bool
behind_whole String.[] = true
behind_whole (String.◌∷◌ c s) =
    if char_eq c "."
    then is_exponent (if starts_digit s then skip_digits s else s)
    else is_exponent (String.◌∷◌ c s)

abbrev is_fraction : String → Bool
is_fraction String.[] = false
is_fraction (String.◌∷◌ c s) = char_eq c "." && (starts_digit s && is_exponent (skip_digits s))

unfoldable pub is_float : String → Bool
unfolding strip lower skip_digits
is_float text =
    let s = unsigned (strip text) in
    contains ("inf" ∷ "infinity" ∷ "nan" ∷ []) (lower s)
    || (if starts_digit s then behind_whole (skip_digits s) else is_fraction s)

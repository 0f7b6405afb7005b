-- ===== src/Prelude/Text.antt =====
-- Python's `str`, as the native text. Case and character classes are those of ASCII.
use Prim.Native.Nat.{ℕ, zero, suc, ◌+◌, ◌-◌, ◌*◌, ◌/◌, ◌%◌}
use Prim.Native.Char.{Char, code, nul}
use Prim.Native.String.{String, ◌++◌ as ◌<>◌}
use mathlib.Core.Bool.{Bool, true, false, not, ◌&&◌, ◌||◌}
use mathlib.Core.List.{List, [], ◌∷◌}
use harbormaster.Prelude.Tests.{ltb, leb, if◌then◌else◌}
use harbormaster.Prelude.Equality.{◌==◌, nat_eq, string_eq}

-- characters

abbrev pub char_eq : Char → Char → Bool
char_eq c d = code c == code d

abbrev pub between : ℕ → ℕ → Char → Bool
between lo hi c = leb lo (code c) && leb (code c) hi

abbrev pub is_digit : Char → Bool
is_digit c = between b'0' b'9' c

abbrev pub is_upper : Char → Bool
is_upper c = between b'A' b'Z' c

abbrev pub is_lower : Char → Bool
is_lower c = between b'a' b'z' c

abbrev pub is_alpha : Char → Bool
is_alpha c = is_upper c || is_lower c

abbrev pub is_alnum : Char → Bool
is_alnum c = is_alpha c || is_digit c

-- `str.isspace` on ASCII
abbrev pub is_space : Char → Bool
is_space c = between 9 13 c || between 28 32 c

pub nth_char : String → ℕ → Char
nth_char String.[] n = nul
nth_char (String.◌∷◌ c s) zero = c
nth_char (String.◌∷◌ c s) (suc n) = nth_char s n

unfoldable pub lower_char : Char → Char
unfolding nth_char
lower_char c = if is_upper c then nth_char "abcdefghijklmnopqrstuvwxyz" (code c - b'A') else c

unfoldable pub upper_char : Char → Char
unfolding nth_char
upper_char c = if is_lower c then nth_char "ABCDEFGHIJKLMNOPQRSTUVWXYZ" (code c - b'a') else c

unfoldable pub digit_char : ℕ → Char
unfolding nth_char
digit_char n = nth_char "0123456789" n

-- texts

-- `len(s)`
abbrev pub size : String → ℕ
size String.[] = 0
size (String.◌∷◌ c s) = suc (size s)

-- `if not s`
abbrev pub is_blank : String → Bool
is_blank String.[] = true
is_blank (String.◌∷◌ c s) = false

unfoldable pub map_chars : (Char → Char) → String → String
map_chars f String.[] = String.[]
map_chars f (String.◌∷◌ c s) = String.◌∷◌ (f c) (map_chars f s)

-- `s.lower()`, `s.upper()`
unfoldable pub lower : String → String
unfolding map_chars lower_char
lower s = map_chars lower_char s

unfoldable pub upper : String → String
unfolding map_chars upper_char
upper s = map_chars upper_char s

-- `"".join(ch for ch in s if p(ch))`
unfoldable pub filter_chars : (Char → Bool) → String → String
filter_chars p String.[] = String.[]
filter_chars p (String.◌∷◌ c s) =
    let rest = filter_chars p s in if p c then String.◌∷◌ c rest else rest

unfoldable pub any_char : (Char → Bool) → String → Bool
any_char p String.[] = false
any_char p (String.◌∷◌ c s) = p c || any_char p s

unfoldable pub all_chars : (Char → Bool) → String → Bool
all_chars p String.[] = true
all_chars p (String.◌∷◌ c s) = p c && all_chars p s

-- `s.lstrip()`
unfoldable pub lstrip : String → String
lstrip String.[] = String.[]
lstrip (String.◌∷◌ c s) = if is_space c then lstrip s else String.◌∷◌ c s

-- `s.rstrip()`
unfoldable pub rstrip : String → String
rstrip String.[] = String.[]
rstrip (String.◌∷◌ c s) =
    let rest = rstrip s in if is_space c && is_blank rest then String.[] else String.◌∷◌ c rest

-- `s.strip()`
unfoldable pub strip : String → String
unfolding lstrip rstrip
strip s = rstrip (lstrip s)

-- `s.startswith(t)`
unfoldable pub starts_with : String → String → Bool
starts_with s String.[] = true
starts_with String.[] (String.◌∷◌ d t) = false
starts_with (String.◌∷◌ c s) (String.◌∷◌ d t) = char_eq c d && starts_with s t

-- `s.endswith(t)`
unfoldable pub ends_with : String → String → Bool
ends_with String.[] t = is_blank t
ends_with (String.◌∷◌ c s) t = String.◌∷◌ c s == t || ends_with s t

-- `t in s`
unfoldable pub has_infix : String → String → Bool
unfolding starts_with
has_infix String.[] t = is_blank t
has_infix (String.◌∷◌ c s) t = starts_with (String.◌∷◌ c s) t || has_infix s t

-- `s[:n]` and `s[n:]`
unfoldable pub take_chars : ℕ → String → String
take_chars zero s = String.[]
take_chars (suc n) String.[] = String.[]
take_chars (suc n) (String.◌∷◌ c s) = String.◌∷◌ c (take_chars n s)

unfoldable pub drop_chars : ℕ → String → String
drop_chars zero s = s
drop_chars (suc n) String.[] = String.[]
drop_chars (suc n) (String.◌∷◌ c s) = drop_chars n s

-- `sep.join(parts)`
unfoldable pub join : String → List String → String
join sep [] = ""
join sep (s ∷ []) = s
join sep (s ∷ t ∷ r) = s <> (sep <> join sep (t ∷ r))

-- `str(n)`, with fuel for the digits: a number has at most as many digits as its value and one
unfoldable pub digits_from : ℕ → ℕ → String → String
digits_from zero n acc = acc
digits_from (suc f) n acc =
    let more = digits_from f (n / 10) (String.◌∷◌ (digit_char (n % 10)) acc) in
    if ltb n 10 then String.◌∷◌ (digit_char n) acc else more

unfoldable pub str_of_nat : ℕ → String
unfolding digits_from digit_char
str_of_nat n = digits_from (n + 1) n ""

-- `repr(s)` of a printable text: single quotes, unless it holds a single quote and no double one
escape : Char → String → String
escape quote String.[] = String.◌∷◌ quote ""
escape quote (String.◌∷◌ c s) =
    if char_eq c quote || char_eq c "\\"
    then String.◌∷◌ "\\" (String.◌∷◌ c (escape quote s))
    else String.◌∷◌ c (escape quote s)

unfoldable pub repr : String → String
unfolding any_char escape
repr s =
    let quote : Char =
      if any_char (char_eq "'") s && not (any_char (char_eq "\"") s) then "\"" else "'" in
    String.◌∷◌ quote (escape quote s)

-- the value of a digit
abbrev pub digit_value : Char → ℕ
digit_value c = code c - b'0'

-- `n / d` to the nearest whole number, a tie to the even one
unfoldable pub round_div : ℕ → ℕ → ℕ
round_div n d =
    let q = n / d in
    let r = 2 * (n % d) in
    if ltb r d then q else if ltb d r then q + 1 else if q % 2 == 0 then q else q + 1

-- `f"{n / d:.2f}"`
unfoldable pub fixed_two : ℕ → ℕ → String
unfolding round_div str_of_nat digit_char
fixed_two n d =
    let cents = round_div (100 * n) d in
    str_of_nat (cents / 100)
    <> ("." <> String.◌∷◌ (digit_char (cents / 10 % 10)) (String.◌∷◌ (digit_char (cents % 10)) ""))

-- `f"{n / d:.0%}"`
unfoldable pub percent : ℕ → ℕ → String
unfolding round_div str_of_nat
percent n d = str_of_nat (round_div (100 * n) d) <> "%"

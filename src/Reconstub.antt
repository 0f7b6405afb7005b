-- ===== src/Reconstub.antt =====
-- python/src/reconstub/main.py: the comparison of two canonical files. A value of a row is its text, `none` for
-- a None. The difference of two Decimals is rounded and overflows as in the default context.
pub mod Consumer
pub mod Digits
pub mod Missing
pub mod Total
use harbormaster.Prelude.{
  ℕ, zero, suc, ◌+◌, ◌-◌, ◌*◌, ◌/◌, Bool, true, false, not, Option, none, some, List, [], ◌∷◌, ◌++◌,
  map, filter, length, String, Eq, string_eq, ◌==◌, contains, ltb, leb, if◌then◌else◌,
}
use Prim.Native.Nat.{◌^◌}
use harbormaster.Prelude.Int.{ℤ, pos, negsuc}
use harbormaster.Prelude.Text.{is_blank, join}
use harbormaster.Prelude.Digits.{digits}
use harbormaster.Prelude.Dict.{Dict, lookup, insert, from_pairs, keys}
use harbormaster.Prelude.Sort.{sort, text_lt}
use harbormaster.Mapping.Numbers.{Decimal, finite, infinity, nan, decimal}

abbrev pub Row : Type 0
Row = Dict String (Option String)

-- `JOIN_KEYS`
abbrev pub join_keys : List String
join_keys = "account_id" ∷ "instrument_id" ∷ "trade_id" ∷ []

-- `COMPARED_FIELDS`
abbrev pub compared_fields : List String
compared_fields =
    "quantity" ∷ "trade_price" ∷ "settlement_price" ∷ "gross_amount" ∷ "net_amount" ∷ "market_value"
    ∷ "currency" ∷ []

pub data BreakKind : Type 0 where
  missing_side_1 missing_side_2 value_mismatch : BreakKind

pub record Break : Type 0 where
  pub kind : BreakKind
  pub join_key : String
  pub field_name : String
  pub side_1_value : String
  pub side_2_value : String

abbrev flat : Option (Option String) → Option String
flat none = none
flat (some v) = v

-- `row.get(name)`
unfoldable pub value_of : Row → String → Option String
value_of row name = flat (lookup name row)

-- `str(value or "")`
abbrev pub text_of : Option String → String
text_of none = ""
text_of (some s) = s

-- `_key`
unfoldable pub key_of : Row → String
unfolding value_of join
key_of row = join "|" (map (λ k. text_of (value_of row k)) join_keys)

-- `_as_decimal`
unfoldable pub as_decimal : Option String → Option Decimal
as_decimal none = none
as_decimal (some s) = if is_blank s then none else decimal s

-- how many places an exponent stands below 0, and the exponent with as many places more
abbrev pub places : ℤ → ℕ
places (pos n) = 0
places (negsuc n) = n + 1

abbrev pub shifted : ℤ → ℕ → ℕ
shifted (pos n) k = n + k
shifted (negsuc n) k = k - (n + 1)

abbrev pub max : ℕ → ℕ → ℕ
max m n = if ltb m n then n else m

-- the distance of two numbers, of which the flags tell the negative ones
abbrev pub distance : Bool → ℕ → Bool → ℕ → ℕ
distance true m true n = if ltb m n then n - m else m - n
distance false m false n = if ltb m n then n - m else m - n
distance true m false n = m + n
distance false m true n = m + n

-- half a unit of the last of the 28 digits that the context keeps
unfoldable pub half_unit : ℕ → ℕ
unfolding digits
half_unit n = if ltb 28 (digits n) then 5 * 10 ^ (digits n - 29) else 0

-- `decimal.Overflow`: `n / 10 ^ k`, rounded to 28 digits half to even, is 10 ^ 1000000 at least. It rounds up to one
-- digit more if half a unit makes it so.
unfoldable pub overflows : ℕ → ℕ → Bool
unfolding digits half_unit
overflows k n = ltb (1000000 + k) (digits (n + half_unit n))

-- whether `n / 10 ^ k`, rounded so, exceeds TOLERANCE: 0.01 is kept as it is, and half a unit above it, which rounds to
-- the even 0.01, is 5e-30
abbrev pub above_tolerance : ℕ → ℕ → Bool
above_tolerance k n = ltb (10 ^ (k - 2) + 5 * 10 ^ (k - 30)) n

-- `abs(a - b)` of numbers with the same exponent, against TOLERANCE
unfoldable pub exceeds_by : ℕ → ℕ → Option Bool
unfolding overflows
exceeds_by k n = if overflows k n then none else some (above_tolerance k n)

-- `abs(a - b) > TOLERANCE` in the default context; `none` for the InvalidOperation, of a NaN and of equal infinities, and
-- for the Overflow
unfoldable pub exceeds : Decimal → Decimal → Option Bool
unfolding exceeds_by
exceeds nan b = none
exceeds (infinity n) nan = none
exceeds (infinity n) (infinity m) = elim n [
  | true ↦ if m then none else some true
  | false ↦ if m then some true else none
]
exceeds (infinity n) (finite _ _ _) = some true
exceeds (finite _ _ _) nan = none
exceeds (finite _ _ _) (infinity m) = some true
exceeds (finite n c e) (finite m d f) =
    let k = max 30 (max (places e) (places f)) in
    exceeds_by k (distance n (c * 10 ^ shifted e k) m (d * 10 ^ shifted f k))

-- the two texts of a mismatch, if there is one; `none` for the exception
abbrev pub Compared : Type 0
Compared = Option (Option (String × String))

abbrev pub by_number : Option Bool → String → String → Compared
by_number none s t = none
by_number (some far) s t = some (if far then some (s, t) else none)

abbrev pub by_text : String → String → Compared
by_text s t = some (if s == t then none else some (s, t))

abbrev pub by_value : Option Decimal → Option Decimal → String → String → Compared
by_value (some a) (some b) s t = by_number (exceeds a b) s t
by_value (some a) none s t = by_text s t
by_value none b s t = by_text s t

-- the body of the loop over the compared fields
unfoldable pub compare_values : Option String → Option String → Compared
unfolding exceeds as_decimal
compare_values none none = some none
compare_values (some s) b = by_value (as_decimal (some s)) (as_decimal b) s (text_of b)
compare_values none (some t) = by_value none (as_decimal (some t)) "" t

abbrev pub mismatch : String → String → String × String → Break
mismatch key name (s, t) = record {
  kind = value_mismatch;
  join_key = key;
  field_name = name;
  side_1_value = s;
  side_2_value = t;
}

abbrev pub found_before : String → String → Compared → Option (List Break) → Option (List Break)
found_before key name none rest = none
found_before key name (some none) rest = rest
found_before key name (some (some p)) none = none
found_before key name (some (some p)) (some bs) = some (mismatch key name p ∷ bs)

unfoldable pub compare_rows : String → Row → Row → List String → Option (List Break)
unfolding compare_values value_of
compare_rows key a b [] = some []
compare_rows key a b (name ∷ names) =
    found_before key name (compare_values (value_of a name) (value_of b name))
      (compare_rows key a b names)

abbrev pub ◌+++◌ : Option (List Break) → Option (List Break) → Option (List Break)
none +++ n = none
some l +++ none = none
some l +++ some m = some (l ++ m)

infixr 60 ◌+++◌
abbrev pub compare_found : String → Option Row → Option Row → Option (List Break)
compare_found key (some a) (some b) = compare_rows key a b compared_fields
compare_found key (some a) none = none
compare_found key none b = none

-- the loop over the keys of both sides
unfoldable pub compare_keys : Dict String Row → Dict String Row → List String → Option (List Break)
unfolding compare_rows lookup
compare_keys left right [] = some []
compare_keys left right (key ∷ r) =
    compare_found key (lookup key left) (lookup key right) +++ compare_keys left right r

abbrev pub keyed : List Row → List (String × Row)
keyed [] = []
keyed (r ∷ rs) = (key_of r, r) ∷ keyed rs

-- `{_key(r): r for r in side}`
unfoldable pub by_key : List Row → Dict String Row
unfolding from_pairs
by_key side = from_pairs (keyed side) []

-- `sorted(left.keys() - right.keys())` and `sorted(left.keys() & right.keys())`
unfoldable pub keys_without : Dict String Row → Dict String Row → List String
unfolding filter sort
keys_without left right = sort text_lt (filter (λ k. not (contains (keys right) k)) (keys left))

unfoldable pub keys_of_both : Dict String Row → Dict String Row → List String
unfolding filter sort
keys_of_both left right = sort text_lt (filter (contains (keys right)) (keys left))

abbrev pub missing : BreakKind → String → Break
missing kind key = record {
  kind = kind;
  join_key = key;
  field_name = "";
  side_1_value = "";
  side_2_value = "";
}

-- `reconcile`; `none` for the exception of a comparison
unfoldable pub reconcile : List Row → List Row → Option (List Break)
reconcile side_1 side_2 =
    let left = by_key side_1 in
    let right = by_key side_2 in
    some (map (missing missing_side_2) (keys_without left right))
    +++ some (map (missing missing_side_1) (keys_without right left))
    +++ compare_keys left right (keys_of_both left right)

-- `len({_key(r) for r in side_1} & {_key(r) for r in side_2})`
unfoldable pub matched : List Row → List Row → ℕ
unfolding filter
matched side_1 side_2 = length (filter (contains (keys (by_key side_2))) (keys (by_key side_1)))

-- ===== src/Mapping/CrossCheck.antt =====
-- `cross_check_amount` of python/src/inspector/mapping/tier1.py. Products, differences and `abs` of Decimals are rounded as
-- in the default context. `none` stands for the InvalidOperation and the Overflow.
use Prim.Native.Nat.{◌^◌}
use harbormaster.Prelude.{
  ℕ, ◌+◌, ◌-◌, ◌*◌, Bool, true, false, Option, none, some, List, [], ◌∷◌, take, String, ◌<>◌,
  string_eq, nat_eq, ◌==◌, leb, ltb, if◌then◌else◌,
}
use harbormaster.Prelude.Int.{ℤ, pos, negsuc}
use harbormaster.Prelude.Text.{is_blank, str_of_nat, round_div}
use harbormaster.Prelude.Digits.{digits}
use harbormaster.Prelude.Dict.{Dict, lookup, from_pairs}
use harbormaster.ValueDate.Columns.{truthy, or_else}
use harbormaster.Mapping.{Table, Mapping, value_at}
use harbormaster.Mapping.Numbers.{Decimal, finite, infinity, nan, to_decimal}

abbrev and_then {ℓ κ} : {A : Type ℓ} {B : Type κ} → Option A → (A → Option B) → Option B
and_then none f = none
and_then (some a) f = f a

-- A number without its sign: `whole / 10 ^ places`.
pub data Magnitude : Type 0 where
  exactly : ℕ → ℕ → Magnitude
  unbounded : Magnitude
  undefined : Magnitude

abbrev max : ℕ → ℕ → ℕ
max m n = if ltb m n then n else m

abbrev magnitude_of : ℕ → ℤ → Magnitude
magnitude_of c (pos n) = exactly (c * 10 ^ n) 0
magnitude_of c (negsuc n) = exactly c (n + 1)

-- a value without its sign
abbrev pub magnitude : Decimal → Magnitude
magnitude nan = undefined
magnitude (infinity _) = unbounded
magnitude (finite _ c e) = magnitude_of c e

-- how many digits the context cuts off `c / 10 ^ k`: it keeps 28 of them, and none behind the 1000026th place
abbrev cut_digits : ℕ → ℕ → ℕ
cut_digits c k = max (digits c - 28) (k - 1000026)

abbrev cut_off : ℕ → ℕ → ℕ
cut_off c n = round_div c (10 ^ n) * 10 ^ n

-- `decimal.Overflow`: the exponent of the first digit is above 999999
abbrev in_range : ℕ → ℕ → Option ℕ
in_range c k = if ltb (1000000 + k) (digits c) then none else some c

-- `c / 10 ^ k` as the context rounds it, half to even, with as many places
unfoldable pub in_context : ℕ → ℕ → Option ℕ
unfolding digits round_div
in_context c k = in_range (cut_off c (cut_digits c k)) k

abbrev exactly_in_context : ℕ → ℕ → Option Magnitude
exactly_in_context c k = and_then (in_context c k) (λ m. some (exactly m k))

-- `abs(value)`
abbrev pub absolute : Magnitude → Option Magnitude
absolute (exactly c k) = exactly_in_context c k
absolute unbounded = some unbounded
absolute undefined = some undefined

-- `abs(qty * price)`
abbrev pub product : Magnitude → Magnitude → Option Magnitude
product undefined b = some undefined
product (exactly c k) undefined = some undefined
product unbounded undefined = some undefined
product unbounded unbounded = some unbounded
product unbounded (exactly c k) = if c == 0 then none else some unbounded
product (exactly c k) unbounded = if c == 0 then none else some unbounded
product (exactly c k) (exactly d l) = exactly_in_context (c * d) (k + l)

abbrev apart : ℕ → ℕ → ℕ
apart m n = if ltb m n then n - m else m - n

-- `gap <= 0.05 * amount`, where the gap has `p` places
abbrev within : ℕ → ℕ → ℕ → ℕ → Option Bool
within gap p d l =
    and_then (in_context (5 * d) (l + 2)) (λ n. some (leb (gap * 10 ^ (l + 2)) (n * 10 ^ p)))

-- `abs(expected - amount) <= amount * 0.05`, of numbers without their signs
abbrev pub within_tolerance : Magnitude → Magnitude → Option Bool
within_tolerance undefined b = none
within_tolerance (exactly c k) undefined = none
within_tolerance unbounded undefined = none
within_tolerance unbounded unbounded = none
within_tolerance unbounded (exactly d l) = some false
within_tolerance (exactly c k) unbounded = some true
within_tolerance (exactly c k) (exactly d l) =
    and_then (in_context (apart (c * 10 ^ l) (d * 10 ^ k)) (k + l)) (λ gap. within gap (k + l) d l)

abbrev pub is_zero : Decimal → Bool
is_zero (finite _ c _) = c == 0
is_zero (infinity _) = false
is_zero nan = false

-- how many rows were checked, and on how many of them the amount agrees
pub record Tally : Type 0 where
  pub checked : ℕ
  pub agree : ℕ

abbrev counted : Tally → Option Bool → Option Tally
counted t none = none
counted t (some true) = some (record { checked = t.checked + 1; agree = t.agree + 1 })
counted t (some false) = some (record { checked = t.checked + 1; agree = t.agree })

abbrev against : Option Magnitude → Option Magnitude → Option Bool
against amount expected = and_then expected (λ e. and_then amount (λ a. within_tolerance e a))

-- the body of the loop over the rows
unfoldable pub check_row : Tally → Option Decimal → Option Decimal → Option Decimal → Option Tally
unfolding in_context
check_row t (some qty) (some price) (some amount) =
    if is_zero amount
    then some t
    else counted t
        (against (absolute (magnitude amount)) (product (magnitude qty) (magnitude price)))
check_row t none price amount = some t
check_row t (some qty) none amount = some t
check_row t (some qty) (some price) none = some t

unfoldable pub check_rows :
    String → String → String → Tally → List (Dict String String) → Option Tally
unfolding check_row to_decimal value_at
check_rows qty price amount t [] = some t
check_rows qty price amount t (row ∷ rows) =
    and_then
      (check_row t (to_decimal (value_at qty row)) (to_decimal (value_at price row))
        (to_decimal (value_at amount row)))
      (λ u. check_rows qty price amount u rows)

-- `{m.canonical_field: m.source_field for m in mappings if m.canonical_field}`
abbrev field_pairs : List Mapping → List (String × String)
field_pairs [] = []
field_pairs (m ∷ ms) =
    let rest = field_pairs ms in
    elim m.canonical_field [
      | none ↦ rest
      | some f ↦ if is_blank f then rest else (f, m.source_field) ∷ rest
    ]

unfoldable pub by_field : List Mapping → Dict String String
unfolding from_pairs
by_field mappings = from_pairs (field_pairs mappings) []

-- the verdict, if there is one, and the note
abbrev pub CrossCheck : Type 0
CrossCheck = Option Bool × String

abbrev verdict : Tally → CrossCheck
verdict t = if t.checked == 0 then (none, "no rows had all three values populated") else (
  some (leb (4 * t.checked) (5 * t.agree)),
  "quantity x price reconciles to amount on "
      <> (str_of_nat t.agree <> ("/" <> (str_of_nat t.checked <> " rows"))),
)

abbrev verdict_of : Option Tally → Option CrossCheck
verdict_of none = none
verdict_of (some t) = some (verdict t)

abbrev on_columns : Table → Option String → Option String → Option String → Option CrossCheck
on_columns table (some qty) (some price) (some amount) =
    verdict_of
      (check_rows qty price amount (record { checked = 0; agree = 0 }) (take 200 table.rows))
on_columns table none price amount =
    some (none, "insufficient columns for an arithmetic cross-check")
on_columns table (some qty) none amount =
    some (none, "insufficient columns for an arithmetic cross-check")
on_columns table (some qty) (some price) none =
    some (none, "insufficient columns for an arithmetic cross-check")

-- `cross_check_amount`
unfoldable pub cross_check_amount : Table → List Mapping → Option CrossCheck
unfolding by_field lookup check_rows str_of_nat
cross_check_amount table mappings =
    let fields = by_field mappings in
    on_columns table (truthy (lookup "quantity" fields)) (truthy (lookup "trade_price" fields))
      (or_else (truthy (lookup "net_amount" fields)) (truthy (lookup "gross_amount" fields)))

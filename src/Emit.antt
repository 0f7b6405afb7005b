-- ===== src/Emit.antt =====
-- `normalise_side` and `build_records` of python/src/inspector/emit.py: the rows of a table on the canonical
-- schema. The Parquet file that they are written to is not modelled.
pub mod Stamps
use harbormaster.Prelude.{
  Bool, true, false, not, ◌&&◌, ◌||◌, Option, none, some, List, [], ◌∷◌, is_some, String, Eq,
  string_eq, ◌==◌, contains, if◌then◌else◌,
}
use harbormaster.Prelude.Text.{is_blank, strip, lower, upper}
use harbormaster.Prelude.Dict.{Dict, lookup, insert, from_pairs}
use harbormaster.Canonical.{canonical_fields}
use harbormaster.ValueDate.Columns.{truthy}
use harbormaster.Mapping.{Table, Mapping, value_at}
use harbormaster.Mapping.Numbers.{Decimal, to_decimal}

-- `_DECIMAL_FIELDS`
abbrev pub decimal_fields : List String
decimal_fields =
    "quantity" ∷ "trade_price" ∷ "settlement_price" ∷ "gross_amount" ∷ "net_amount" ∷ "market_value"
    ∷ []

-- `_SIDE_NORMALISATION`
abbrev pub side_normalisation : Dict String String
side_normalisation =
    ("b", "BUY")
    ∷ ("buy", "BUY")
    ∷ ("bought", "BUY")
    ∷ ("1", "BUY")
    ∷ ("l", "LONG")
    ∷ ("long", "LONG")
    ∷ ("s", "SELL")
    ∷ ("sell", "SELL")
    ∷ ("sold", "SELL")
    ∷ ("2", "SELL")
    ∷ ("sh", "SHORT")
    ∷ ("short", "SHORT")
    ∷ []

abbrev or_text : Option String → String → String
or_text none d = d
or_text (some s) d = s

unfoldable pub normalise_side : String → Option String
unfolding strip lower upper lookup
normalise_side raw =
    let text = lower (strip raw) in
    if is_blank text
    then none
    else some (or_text (lookup text side_normalisation) (upper (strip raw)))

-- A value of a record; a missing one is `null`.
pub data Cell : Type 0 where
  null : Cell
  text : String → Cell
  number : Decimal → Cell

abbrev of_text : Option String → Cell
of_text none = null
of_text (some s) = text s

abbrev of_number : Option Decimal → Cell
of_number none = null
of_number (some d) = number d

abbrev pub CanonicalRow : Type 0
CanonicalRow = Dict String Cell

-- What the Inspector has determined itself.
pub record Stamp : Type 0 where
  pub arrival_id : String
  pub client_id : String
  pub value_date : String
  pub domain : String
  pub source_system : String

abbrev pub stamped : Stamp → CanonicalRow
stamped s =
    ("arrival_id", text s.arrival_id)
    ∷ ("client_id", text s.client_id)
    ∷ ("value_date", text s.value_date)
    ∷ ("domain", text s.domain)
    ∷ ("source_system", text s.source_system)
    ∷ []

-- `{m.canonical_field: m.source_field for m in mappings if m.canonical_field}`
abbrev source_entry : Option String → String → List (String × String) → List (String × String)
source_entry none source r = r
source_entry (some f) source r = (f, source) ∷ r

abbrev sources : List Mapping → List (String × String)
sources [] = []
sources (m ∷ ms) = source_entry (truthy m.canonical_field) m.source_field (sources ms)

unfoldable pub by_field : List Mapping → Dict String String
by_field ms = from_pairs (sources ms) []

-- `(row.get(source) or "").strip() if source else ""`
abbrev raw_at : Option String → Dict String String → String
raw_at none row = ""
raw_at (some source) row = if is_blank source then "" else strip (value_at source row)

unfoldable pub raw_cell : Dict String String → Dict String String → String → String
raw_cell columns row field = raw_at (lookup field columns) row

-- the value of a field, by its kind
unfoldable pub cell_of : String → String → Cell
cell_of field raw =
    if contains decimal_fields field
    then of_number (to_decimal raw)
    else if field == "side"
    then of_text (normalise_side raw)
    else if is_blank raw
    then null
    else text raw

-- the loop over the canonical fields: one that is there already is passed over
unfoldable pub fill :
    Dict String String → Dict String String → List String → CanonicalRow → CanonicalRow
fill columns row [] r = r
fill columns row (f ∷ fs) r =
    fill columns row fs
      (if is_some (lookup f r) then r else insert f (cell_of f (raw_cell columns row f)) r)

-- `record.get(field)` as a text that is not empty
abbrev text_of : Option Cell → Option String
text_of (some (text s)) = if is_blank s then none else some s
text_of _ = none

-- The name of an account that the file leaves out.
unfoldable pub name_account :
    Dict String String → Option String → Option String → CanonicalRow → CanonicalRow
name_account names (some name) account r = r
name_account names none none r = r
name_account names none (some account) r = insert "account_name" (of_text (lookup account names)) r

unfoldable pub build_record :
    Stamp → Dict String String → Dict String String → Dict String String → CanonicalRow
build_record s columns names row =
    let filled = fill columns row canonical_fields (stamped s) in
    name_account names (text_of (lookup "account_name" filled))
      (text_of (lookup "account_id" filled)) filled

unfoldable pub build_rows :
    Stamp → Dict String String → Dict String String → List (Dict String String) → List CanonicalRow
build_rows s columns names [] = []
build_rows s columns names (row ∷ rows) =
    build_record s columns names row ∷ build_rows s columns names rows

-- `build_records`; no account names are an empty dict
unfoldable pub build_records : Table → List Mapping → Stamp → Dict String String → List CanonicalRow
build_records t ms s names = build_rows s (by_field ms) names t.rows

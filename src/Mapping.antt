-- ===== src/Mapping.antt =====
-- `Mapping` of python/src/inspector/mapping/tier1.py and `ParsedTable` of python/src/inspector/parsers/base.py,
-- with the views of a list of mappings that the tiers share.
pub mod Fields
pub mod Numbers
pub mod Variation
pub mod Tier1
pub mod Tier2
pub mod Tier3
pub mod Claude
pub mod CrossCheck
pub mod Resolver
use harbormaster.Prelude.{
  ℕ, Bool, true, false, Option, none, some, List, [], ◌∷◌, String, Eq, string_eq, contains,
  if◌then◌else◌,
}
use harbormaster.Prelude.Text.{is_blank}
use harbormaster.Prelude.Dict.{Dict, lookup}
use harbormaster.Canonical.{Tier, unresolved}

-- The evidence and the warnings of a table are not kept: no decision reads them.
pub record Table : Type 0 where
  pub headers : List String
  pub rows : List (Dict String String)

-- `len(set(self.headers)) != len(self.headers)`, for which `__post_init__` raises a ParseError
abbrev pub has_duplicates : List String → Bool
has_duplicates [] = false
has_duplicates (h ∷ hs) = if contains hs h then true else has_duplicates hs

-- `ParsedTable(headers, rows)`; `none` for the ParseError
unfoldable pub parsed_table : List String → List (Dict String String) → Option Table
parsed_table headers rows =
    if has_duplicates headers then none else some (record { headers = headers; rows = rows })

-- `r.get(header, "")`
unfoldable pub value_at : String → Dict String String → String
value_at header row = elim (lookup header row) [ none ↦ "" | some v ↦ v ]

-- `ParsedTable.column`
unfoldable pub column_of : String → List (Dict String String) → List String
column_of header [] = []
column_of header (row ∷ rows) = value_at header row ∷ column_of header rows

abbrev pub column : Table → String → List String
column t header = column_of header t.rows

-- Confidences are thousandths.
pub record Mapping : Type 0 where
  pub source_field : String
  pub canonical_field : Option String
  pub tier : Tier
  pub confidence : ℕ
  pub evidence : String

-- `Mapping(header, field, tier, confidence, evidence)`
abbrev pub mapped : String → String → Tier → ℕ → String → Mapping
mapped header field tier confidence evidence = record {
  source_field = header;
  canonical_field = some field;
  tier = tier;
  confidence = confidence;
  evidence = evidence;
}

-- `Mapping(header, None, c.Tier.UNRESOLVED, 0.0, evidence)`
abbrev pub left_open : String → String → Mapping
left_open header evidence = record {
  source_field = header;
  canonical_field = none;
  tier = unresolved;
  confidence = 0;
  evidence = evidence;
}

-- `{m.canonical_field for m in mappings if m.canonical_field}`
unfoldable pub fields_of : List Mapping → List String
fields_of [] = []
fields_of (m ∷ ms) = elim m.canonical_field [
  | none ↦ fields_of ms
  | some f ↦ if is_blank f then fields_of ms else f ∷ fields_of ms
]

abbrev pub sources_of : List Mapping → List String
sources_of [] = []
sources_of (m ∷ ms) = m.source_field ∷ sources_of ms

-- ===== src/Parsers/JsonDocument.antt =====
-- python/src/inspector/parsers/json_parser.py. `json.loads`, `json.dumps`, and `str` of what is no scalar, are parameters; a
-- file is its text. The evidence is not kept.
pub mod Headers
use harbormaster.Prelude.{
  ℕ, zero, suc, ◌+◌, Bool, true, false, not, ◌&&◌, ◌||◌, Option, none, some, List, [], ◌∷◌, ◌++◌,
  map, length, is_empty, is_some, all, String, ◌<>◌, string_eq, ◌==◌, contains, ltb, if◌then◌else◌,
}
use harbormaster.Prelude.Text.{
  char_eq, is_blank, lower, lstrip, ends_with, take_chars, join, str_of_nat,
}
use harbormaster.Prelude.Dict.{Dict, lookup, insert, from_pairs, keys}
use harbormaster.Json.{
  Json, null, truth, number, text, array, object, Items, no_items, item, Fields, no_fields, field,
  items_of, fields_of, get, str,
}
use harbormaster.Mapping.{Table, parsed_table}
use harbormaster.Parsers.Flat.{set_default, table_of_flat}

-- `_RECORD_KEYS`
abbrev pub record_keys : List String
record_keys =
    "records" ∷ "rows" ∷ "data" ∷ "items" ∷ "trades" ∷ "positions" ∷ "entries" ∷ "messages"
    ∷ "results" ∷ "payload" ∷ "transactions" ∷ "movements" ∷ []

abbrev pub max_depth : ℕ
max_depth = 8

-- What the standard library does: `loads`, with `none` for the JSONDecodeError, `dumps`, and `str` of what is no scalar.
pub record Library : Type 0 where
  pub loads : String → Option Json
  pub dumps : Json → String
  pub shown : Json → String

abbrev opens_json : String → Bool
opens_json String.[] = false
opens_json (String.◌∷◌ c s) = char_eq c "{" || char_eq c "["

-- `JSONParser.sniff`, in thousandths
unfoldable pub sniff : String → String → ℕ
unfolding lstrip ends_with lower
sniff head name =
    if opens_json (lstrip head) then if ends_with (lower name) ".json" then 950 else 850 else 0

-- `not isinstance(value, (dict, list))`
abbrev pub is_scalar : Json → Bool
is_scalar (array _) = false
is_scalar (object _) = false
is_scalar null = true
is_scalar (truth _) = true
is_scalar (number _) = true
is_scalar (text _) = true

abbrev pub is_object : Json → Bool
is_object (object _) = true
is_object (array _) = false
is_object null = false
is_object (truth _) = false
is_object (number _) = false
is_object (text _) = false

-- `prefix.rstrip(".")`
unfoldable pub without_dots : String → String
without_dots String.[] = String.[]
without_dots (String.◌∷◌ c s) =
    let rest = without_dots s in
    if char_eq c "." && is_blank rest then String.[] else String.◌∷◌ c rest

-- `out.update(more)`
abbrev update : Dict String String → Dict String String → Dict String String
update out more = from_pairs more out

-- `"" if value is None else str(value)`
abbrev cell : Library → Json → String
cell l null = ""
cell l (truth b) = str l.shown (truth b)
cell l (number s) = str l.shown (number s)
cell l (text s) = s
cell l (array is) = str l.shown (array is)
cell l (object fs) = str l.shown (object fs)

abbrev scalar_cell : Library → String → Json → Dict String String
scalar_cell l prefix j =
    let name = without_dots prefix in if is_blank name then [] else (name, cell l j) ∷ []

-- a value below the deepest level
abbrev truncated : Library → String → Json → Dict String String
truncated l prefix j =
    if is_blank prefix then [] else (without_dots prefix, take_chars 512 (l.dumps j)) ∷ []

-- `flatten`, with the loops over the items of a dict and of a list, which have `out` so far
unfoldable mutual
  unfolding from_pairs without_dots take_chars join str_of_nat all

  pub flatten : Library → String → ℕ → Json → Dict String String
  flatten l prefix depth null =
      if ltb max_depth depth then truncated l prefix null else scalar_cell l prefix null
  flatten l prefix depth (truth b) =
      if ltb max_depth depth then truncated l prefix (truth b) else scalar_cell l prefix (truth b)
  flatten l prefix depth (number s) =
      if ltb max_depth depth then truncated l prefix (number s) else scalar_cell l prefix (number s)
  flatten l prefix depth (text s) =
      if ltb max_depth depth then truncated l prefix (text s) else scalar_cell l prefix (text s)
  flatten l prefix depth (object fs) =
      let inside = flatten_fields l prefix depth [] fs in
      if ltb max_depth depth then truncated l prefix (object fs) else inside
  flatten l prefix depth (array is) =
      let inside = flatten_items l prefix depth 0 [] is in
      if ltb max_depth depth
      then truncated l prefix (array is)
      else if all is_scalar (items_of is)
      then (without_dots prefix, join ", " (map (str l.shown) (items_of is))) ∷ []
      else inside

  pub flatten_fields : Library → String → ℕ → Dict String String → Fields → Dict String String
  flatten_fields l prefix depth out no_fields = out
  flatten_fields l prefix depth out (field key j fs) =
      flatten_fields l prefix depth (update out (flatten l (prefix <> (key <> ".")) (depth + 1) j))
        fs

  pub flatten_items : Library → String → ℕ → ℕ → Dict String String → Items → Dict String String
  flatten_items l prefix depth index out no_items = out
  flatten_items l prefix depth index out (item j is) =
      flatten_items l prefix depth (index + 1)
        (update out (flatten l (prefix <> ("[" <> (str_of_nat index <> "]."))) (depth + 1) j)) is

abbrev only_objects : List Json → List Json
only_objects [] = []
only_objects (j ∷ js) = let rest = only_objects js in if is_object j then j ∷ rest else rest

abbrev is_null : Json → Bool
is_null null = true
is_null (truth _) = false
is_null (number _) = false
is_null (text _) = false
is_null (array _) = false
is_null (object _) = false

-- `envelope`
unfoldable pub envelope_of : Library → List (String × Json) → Dict String String
envelope_of l [] = []
envelope_of l ((k, j) ∷ fs) =
    let rest = envelope_of l fs in
    if is_scalar j && not (is_null j) then (k, str l.shown j) ∷ rest else rest

-- a list that is not empty and holds dicts only
abbrev records_in : Json → Option (List Json)
records_in (array (item j is)) =
    if all is_object (items_of (item j is)) then some (items_of (item j is)) else none
records_in (array no_items) = none
records_in null = none
records_in (truth _) = none
records_in (number _) = none
records_in (text _) = none
records_in (object _) = none

abbrev records_at : Option Json → Option (List Json)
records_at none = none
records_at (some j) = records_in j

-- the loop over `_RECORD_KEYS`
unfoldable pub named_records : Fields → List String → Option (List Json)
unfolding get all
named_records fs [] = none
named_records fs (k ∷ ks) = elim (records_at (get k fs)) [
  | none ↦ named_records fs ks
  | some rs ↦ some rs
]

abbrev longer : List Json → Option (List Json) → List Json
longer best none = best
longer best (some rs) = if ltb (length best) (length rs) then rs else best

-- the longest list of dicts, the first of those
unfoldable pub longest_records : List Json → List (String × Json) → List Json
unfolding all
longest_records best [] = best
longest_records best ((k, j) ∷ fs) = longest_records (longer best (records_in j)) fs

abbrev has_object : List (String × Json) → Bool
has_object [] = false
has_object ((k, j) ∷ fs) = is_object j || has_object fs

abbrev pub Records : Type 0
Records = List Json × Dict String String

abbrev single_or_none : Fields → Dict String String → Records
single_or_none fs envelope =
    if has_object (fields_of fs) || not (is_empty envelope) then (object fs ∷ [], []) else ([], [])

abbrev longest_or : Fields → Dict String String → List Json → Records
longest_or fs envelope [] = single_or_none fs envelope
longest_or fs envelope (r ∷ rs) = (r ∷ rs, envelope)

abbrev named_or : Fields → Dict String String → Option (List Json) → Records
named_or fs envelope (some rs) = (rs, envelope)
named_or fs envelope none = longest_or fs envelope (longest_records [] (fields_of fs))

-- `_find_records`: the records, and the scalars around them
unfoldable pub find_records : Library → Json → Records
unfolding named_records longest_records envelope_of
find_records l (array is) = (only_objects (items_of is), [])
find_records l (object fs) =
    named_or fs (envelope_of l (fields_of fs)) (named_records fs record_keys)
find_records l null = ([], [])
find_records l (truth _) = ([], [])
find_records l (number _) = ([], [])
find_records l (text _) = ([], [])

unfoldable pub set_defaults : Dict String String → Dict String String → Dict String String
unfolding set_default
set_defaults [] d = d
set_defaults ((k, v) ∷ l) d = set_defaults l (set_default k v d)

-- one record, with the envelope around it
abbrev pub flat_record : Library → Dict String String → Json → Dict String String
unfolding flatten set_defaults
flat_record l envelope r = set_defaults envelope (flatten l "" 0 r)

-- the loop over the records
unfoldable pub flat_records : Library → Records → List (Dict String String)
unfolding flatten set_defaults
flat_records l (rs, envelope) = map (flat_record l envelope) rs

-- `JSONParser.parse`; `none` for the ParseError
unfoldable pub parse : Library → String → Option Table
unfolding table_of_flat flat_records find_records
parse l content = elim (l.loads content) [
  | none ↦ none
  | some document ↦ table_of_flat (flat_records l (find_records l document))
]

-- ===== src/Parsers/Flat.antt =====
-- Records that are flattened into dicts, as the rows of a table: the last part of `parse` in
-- python/src/inspector/parsers/json_parser.py, xml_parser.py and fixml.py.
pub mod Headers
use harbormaster.Prelude.{
  Bool, true, false, Option, none, some, List, [], ◌∷◌, map, ◌++◌, is_some, contains, String,
  string_eq, if◌then◌else◌,
}
use harbormaster.Prelude.Dict.{Dict, lookup, insert, keys}
use harbormaster.Mapping.{Table, parsed_table}

-- `flat.setdefault(key, value)`
unfoldable pub set_default : String → String → Dict String String → Dict String String
unfolding lookup insert
set_default k v d = if is_some (lookup k d) then d else insert k v d

-- `headers` with the keys that were not seen yet
unfoldable pub add_headers : List String → List String → List String
add_headers headers [] = headers
add_headers headers (k ∷ ks) =
    add_headers (if contains headers k then headers else headers ++ k ∷ []) ks

-- the loop that fills the rows up
unfoldable pub fill_row : List String → Dict String String → Dict String String
unfolding set_default
fill_row [] row = row
fill_row (k ∷ ks) row = fill_row ks (set_default k "" row)

-- `headers`, in the order in which the rows bring them
unfoldable pub headers_of : List String → List (Dict String String) → List String
unfolding add_headers
headers_of headers [] = headers
headers_of headers (flat ∷ flats) = headers_of (add_headers headers (keys flat)) flats

-- the table of the rows, filled up; `none` for the ParseError where there are none
unfoldable pub table_of_flat : List (Dict String String) → Option Table
unfolding headers_of fill_row parsed_table
table_of_flat [] = none
table_of_flat (flat ∷ flats) =
    let headers = headers_of [] (flat ∷ flats) in
    parsed_table headers (map (fill_row headers) (flat ∷ flats))

-- ===== src/Parsers.antt =====
-- python/src/inspector/parsers/delimited.py: from a grid of cells and the place of its header to a table. The
-- warnings are not kept.
pub mod Suffixes
pub mod Rows
pub mod JsonDocument
pub mod Csv
pub mod Flat
pub mod XmlDocument
pub mod Fixml
pub mod Workbook
pub mod Patterns
pub mod EmailText
pub mod Delimited
use harbormaster.Prelude.{
  ℕ, zero, suc, ◌+◌, Bool, true, false, not, Option, none, some, List, [], ◌∷◌, find, is_empty,
  String, ◌<>◌, string_eq, ◌==◌, contains, if◌then◌else◌,
}
use harbormaster.Prelude.Text.{is_alnum, is_blank, filter_chars, lower, strip, str_of_nat}
use harbormaster.Prelude.Dict.{Dict, lookup, insert, from_pairs}
use harbormaster.Mapping.{Table, parsed_table}

abbrev pub total_markers : List String
total_markers =
    "total" ∷ "totals" ∷ "grandtotal" ∷ "subtotal" ∷ "sum" ∷ "count" ∷ "endofreport" ∷ "eof" ∷ "end"
    ∷ []

-- `_norm`
unfoldable pub norm : String → String
unfolding filter_chars lower
norm cell = filter_chars is_alnum (lower cell)

abbrev first_filled : Option String → String
first_filled none = ""
first_filled (some cell) = cell

-- `_is_total_row`
unfoldable pub is_total_row : List String → Bool
unfolding find strip
is_total_row row =
    contains total_markers (norm (first_filled (find (λ c. not (is_blank (strip c))) row)))

-- `h.strip() or f"column_{i + 1}"`
unfoldable pub header_name : ℕ → String → String
unfolding strip str_of_nat
header_name i h = if is_blank (strip h) then "column_" <> str_of_nat (i + 1) else strip h

-- `f"{name}__{n}"`
abbrev pub numbered : String → ℕ → String
numbered name n = name <> ("__" <> str_of_nat n)

-- the number kept in `seen`, and the name given, by the number that was there
abbrev pub next_number : Option ℕ → ℕ
next_number none = 0
next_number (some n) = n + 1

abbrev pub name_given : String → Option ℕ → String
name_given name none = name
name_given name (some n) = numbered name (n + 1)

-- the loop of `_dedupe` from column `i` on
unfoldable pub dedupe_from : ℕ → Dict String ℕ → List String → List String
unfolding lookup insert
dedupe_from i seen [] = []
dedupe_from i seen (h ∷ hs) =
    let name = header_name i h in
    name_given name (lookup name seen)
    ∷ dedupe_from (i + 1) (insert name (next_number (lookup name seen)) seen) hs

-- `_dedupe`
unfoldable pub dedupe : List String → List String
dedupe headers = dedupe_from 0 [] headers

-- each header with its cell: cells that are missing are empty, and those beyond the headers are dropped
unfoldable pub cells_of : List String → List String → List (String × String)
unfolding strip
cells_of [] cells = []
cells_of (h ∷ hs) [] = (h, "") ∷ cells_of hs []
cells_of (h ∷ hs) (c ∷ cells) = (h, strip c) ∷ cells_of hs cells

-- the rows below the header, and how many of them are totals
unfoldable pub read_rows : List String → List (List String) → List (Dict String String) × ℕ
unfolding from_pairs
read_rows headers [] = ([], 0)
read_rows headers (cells ∷ grid) =
    let (rows, dropped) = read_rows headers grid in
    if is_total_row cells
    then (rows, dropped + 1)
    else (from_pairs (cells_of headers cells) [] ∷ rows, dropped)

-- the table of a grid from its header row on; `none` for the ParseError
unfoldable pub table_of : List String → List (List String) → Option Table
table_of header grid =
    let headers = dedupe header in parsed_table headers (read_rows headers grid).0

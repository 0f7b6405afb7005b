-- ===== src/Parsers/Workbook.antt =====
-- python/src/inspector/parsers/excel.py. What `load_workbook` gives is a parameter; the warnings and the evidence are not
-- kept. The names of the columns, the totals and the cells by header are those of Parsers, on the texts of the cells.
use Prim.Native.Char.{code}
use harbormaster.Prelude.{
  ℕ, zero, suc, ◌+◌, ◌-◌, ◌*◌, min, Bool, true, false, not, ◌&&◌, ◌||◌, Option, none, some, List,
  [], ◌∷◌, map, filter, any, all, length, take, get_elem?, is_empty, String, nat_eq, string_eq,
  ◌==◌, ltb, leb, if◌then◌else◌,
}
use harbormaster.Prelude.Text.{
  char_eq, is_blank, lower, strip, starts_with, ends_with, has_infix, filter_chars,
}
use harbormaster.Prelude.Dict.{Dict, from_pairs}
use harbormaster.Mapping.{Table, parsed_table}
use harbormaster.Mapping.Variation.{Ratio, ratio}
use harbormaster.Parsers.{norm, is_total_row, dedupe, cells_of}
use harbormaster.Prelude.Floats.{is_float}
use harbormaster.Parsers.Delimited.Grid.{Scored, best_of, index_of, widest, max_header_search_rows}

-- A cell with its `str`: `None`, a number, or anything else.
pub data Cell : Type 0 where
  nothing : Cell
  number : String → Cell
  other : String → Cell

-- A merged range, with its bounds as openpyxl counts them, from 1.
pub record Range : Type 0 where
  pub min_row : ℕ
  pub min_col : ℕ
  pub max_row : ℕ
  pub max_col : ℕ

pub record Sheet : Type 0 where
  pub name : String
  pub rows : ℕ
  pub cols : ℕ
  pub cells : List (List Cell)
  pub merged : List Range

abbrev pub non_data_sheet_tokens : List String
non_data_sheet_tokens =
    "cover" ∷ "disclaimer" ∷ "notes" ∷ "legend" ∷ "glossary" ∷ "index" ∷ "contents" ∷ "summary"
    ∷ "about" ∷ "readme" ∷ []

-- `_is_blank`
unfoldable pub is_blank_cell : Cell → Bool
unfolding strip
is_blank_cell nothing = true
is_blank_cell (number s) = false
is_blank_cell (other s) = is_blank (strip s)

-- `"" if _is_blank(cell) else str(cell)`
abbrev pub shown : Cell → String
shown nothing = ""
shown (number s) = s
shown (other s) = s

-- `_looks_numeric`
unfoldable pub looks_numeric : Cell → Bool
unfolding strip filter_chars is_float
looks_numeric nothing = false
looks_numeric (number s) = true
looks_numeric (other s) =
    is_float (filter_chars (λ c. not (char_eq c "," || char_eq c "$")) (strip s))

abbrev has_magic : String → Bool
has_magic (String.◌∷◌ a (String.◌∷◌ b (String.◌∷◌ c (String.◌∷◌ d s)))) =
    (code a == b'P' && code b == b'K') && (code c == 3 && code d == 4)
has_magic _ = false

-- `ExcelParser.sniff`, in thousandths
unfoldable pub sniff : String → String → ℕ
unfolding lower ends_with
sniff head name =
    if has_magic head
    then if ends_with (lower name) ".xlsx" || ends_with (lower name) ".xlsm" then 970 else 900
    else 0

-- `score` of a sheet, raised by 6000, so that it is not negative
unfoldable pub sheet_score : Sheet → ℕ
unfolding norm any has_infix
sheet_score s =
    6000
    + (min s.rows 5000 + 5 * min s.cols 100)
    - (if any (has_infix (norm s.name)) non_data_sheet_tokens then 5000 else 0)
    - (if leb s.rows 1 || leb s.cols 1 then 1000 else 0)

abbrev pub better_sheet : Sheet → Sheet → Sheet
unfolding sheet_score
better_sheet best s = if ltb (sheet_score best) (sheet_score s) then s else best

unfoldable pub best_sheet : Sheet → List Sheet → Sheet
unfolding sheet_score
best_sheet best [] = best
best_sheet best (s ∷ ss) = best_sheet (better_sheet best s) ss

-- `_choose_sheet`
abbrev pub choose_sheet : List Sheet → Option Sheet
unfolding best_sheet
choose_sheet [] = none
choose_sheet (s ∷ ss) = some (best_sheet s ss)

abbrev or_nil : Option (List Cell) → List Cell
or_nil none = []
or_nil (some row) = row

abbrev cell_at : List (List Cell) → ℕ → ℕ → Option Cell
cell_at grid r c = get_elem? (or_nil (get_elem? grid r)) c

-- the cells from column `c` on, with a value between two columns; the rows likewise
unfoldable pub fill_cells : ℕ → ℕ → Cell → ℕ → List Cell → List Cell
fill_cells from to value c [] = []
fill_cells from to value c (cell ∷ row) =
    (if leb from c && ltb c to then value else cell) ∷ fill_cells from to value (c + 1) row

unfoldable pub fill_rows : Range → Cell → ℕ → List (List Cell) → List (List Cell)
unfolding fill_cells
fill_rows m value r [] = []
fill_rows m value r (row ∷ grid) =
    let filled = fill_cells (m.min_col - 1) m.max_col value 0 row in
    (if leb (m.min_row - 1) r && ltb r m.max_row then filled else row)
    ∷ fill_rows m value (r + 1) grid

-- the loop over the merged ranges
unfoldable pub forward_fill : List Range → List (List Cell) → List (List Cell)
unfolding fill_rows
forward_fill [] grid = grid
forward_fill (m ∷ ms) grid = elim (cell_at grid (m.min_row - 1) (m.min_col - 1)) [
  | none ↦ forward_fill ms grid
  | some value ↦ forward_fill ms (fill_rows m value 0 grid)
]

abbrev pub is_blank_row : List Cell → Bool
unfolding all is_blank_cell
is_blank_row row = all is_blank_cell row

-- without the blank rows at the end
unfoldable pub trim_rows : List (List Cell) → List (List Cell)
unfolding all is_blank_cell
trim_rows [] = []
trim_rows (row ∷ grid) =
    let rest = trim_rows grid in if is_blank_row row && is_empty rest then [] else row ∷ rest

-- `_grid`
unfoldable pub grid_of : Sheet → List (List Cell)
unfolding forward_fill trim_rows
grid_of s = trim_rows (forward_fill s.merged s.cells)

abbrev pub filled_cells : List Cell → List Cell
unfolding filter is_blank_cell
filled_cells row = filter (λ c. not (is_blank_cell c)) row

-- the points of a row, in twentieths and counted from -3.75 as in Parsers.Delimited.Grid
unfoldable pub sheet_points : ℕ → ℕ → List Cell → List Cell → Ratio
unfolding filter looks_numeric
sheet_points modal index row filled =
    let wide = length row * length filled in
    ratio
      (40 * (length (filter (λ c. not (looks_numeric c)) filled) * length row)
        + ((if length filled == modal then 30 * wide else 0)
            + (20 * (length filled * length filled) + 3 * ((25 - index) * wide))))
      (20 * wide)

abbrev score_cells : ℕ → ℕ → List Cell → Option Scored
unfolding filter is_blank_cell sheet_points
score_cells modal index row = elim (filled_cells row) [
  | [] ↦ none
  | c ∷ cs ↦ some (record { index = index; score = sheet_points modal index row (c ∷ cs) })
]

unfoldable pub header_cells_from : ℕ → ℕ → Option Scored → List (List Cell) → Option Scored
unfolding filter is_blank_cell sheet_points
header_cells_from modal index best [] = best
header_cells_from modal index best (row ∷ rows) =
    header_cells_from modal (index + 1) (best_of best (score_cells modal index row)) rows

-- `_find_header_row`
unfoldable pub find_header_cells : List (List Cell) → ℕ
unfolding header_cells_from widest filter is_blank_cell
find_header_cells grid =
    let widths = map (λ row. length (filled_cells row)) grid in
    index_of (header_cells_from (widest widths 0 widths) 0 none (take max_header_search_rows grid))

-- `trailing_blanks`
unfoldable pub trailing_blanks : List Cell → ℕ
unfolding is_blank_cell
trailing_blanks [] = 0
trailing_blanks (c ∷ cs) =
    let t = trailing_blanks cs in if t == length cs && is_blank_cell c then t + 1 else t

-- the names that stay, and how many may still be dropped
unfoldable pub drop_placeholders : ℕ → List String → List String × ℕ
unfolding starts_with
drop_placeholders t [] = ([], t)
drop_placeholders t (name ∷ names) =
    let (rest, left) = drop_placeholders t names in
    if is_empty rest && (ltb 0 left && starts_with name "column_")
    then ([], left - 1)
    else (name ∷ rest, left)

-- `_dedupe`
unfoldable pub dedupe_cells : List Cell → List String
unfolding dedupe trailing_blanks drop_placeholders
dedupe_cells row = (drop_placeholders (trailing_blanks row) (dedupe (map shown row))).0

-- the rows below the header, without blank rows and totals
unfoldable pub sheet_rows : List String → List (List Cell) → List (Dict String String)
unfolding is_total_row cells_of from_pairs all is_blank_cell
sheet_rows headers [] = []
sheet_rows headers (row ∷ grid) =
    let rest = sheet_rows headers grid in
    if is_blank_row row || is_total_row (map shown row)
    then rest
    else from_pairs (cells_of headers (map shown row)) [] ∷ rest

abbrev table_below : List String → List (List Cell) → Option Table
unfolding sheet_rows parsed_table
table_below [] grid = none
table_below (h ∷ hs) grid = parsed_table (h ∷ hs) (sheet_rows (h ∷ hs) grid)

abbrev cells_below : ℕ → List (List Cell) → List (List Cell)
cells_below n [] = []
cells_below zero (row ∷ rows) = rows
cells_below (suc n) (row ∷ rows) = cells_below n rows

unfoldable pub table_of_grid : List (List Cell) → Option Table
unfolding find_header_cells dedupe_cells sheet_rows parsed_table
table_of_grid [] = none
table_of_grid (row ∷ rows) =
    let index = find_header_cells (row ∷ rows) in
    table_below (dedupe_cells (or_nil (get_elem? (row ∷ rows) index)))
      (cells_below index (row ∷ rows))

abbrev of_sheet : Option Sheet → Option Table
unfolding table_of_grid grid_of
of_sheet none = none
of_sheet (some s) = table_of_grid (grid_of s)

-- `ExcelParser.parse`; `none` for the ParseError
unfoldable pub parse : (String → Option (List Sheet)) → String → Option Table
unfolding table_of_grid grid_of best_sheet
parse loads content = elim (loads content) [
  | none ↦ none
  | some sheets ↦ of_sheet (choose_sheet sheets)
]

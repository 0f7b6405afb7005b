-- ===== src/Parsers/Delimited/Grid.antt =====
-- python/src/inspector/parsers/delimited.py: `_find_header_row` and `parse`. The warnings and the
-- evidence are not kept; the names of the columns and the rows are those of Parsers.
use harbormaster.Prelude.{
  ℕ, zero, suc, ◌+◌, ◌-◌, ◌*◌, Bool, not, ◌&&◌, ◌||◌, Option, none, some, List, [], ◌∷◌, map,
  filter, any, length, take, get_elem?, is_empty, String, nat_eq, ◌==◌, ltb, if◌then◌else◌,
}
use harbormaster.Prelude.Text.{is_blank, strip}
use harbormaster.Prelude.Counter.{count}
use harbormaster.Mapping.{Table}
use harbormaster.Mapping.Variation.{Ratio, ratio, below}
use harbormaster.Parsers.{table_of}
use harbormaster.Parsers.Csv.{splitlines, fresh, read_csv}
use harbormaster.Parsers.Delimited.{Sets, Choice, looks_numeric, best_delimiter, sample_of}

abbrev pub Row : Type 0
Row = List String

abbrev pub max_header_search_rows : ℕ
max_header_search_rows = 25

-- `c.strip()` as a test
abbrev pub is_filled : String → Bool
unfolding strip
is_filled c = not (is_blank (strip c))

unfoldable pub filled_cells : Row → List String
unfolding filter strip
filled_cells row = filter is_filled row

-- the key `(widths.count(w), w)` of one width is below that of another
abbrev is_rarer : List ℕ → ℕ → ℕ → Bool
is_rarer widths v w =
    ltb (count v widths) (count w widths) || (count v widths == count w widths && ltb v w)

unfoldable pub widest : List ℕ → ℕ → List ℕ → ℕ
widest widths best [] = best
widest widths best (w ∷ ws) = widest widths (if is_rarer widths best w then w else best) ws

-- `modal_width`
unfoldable pub modal_width : List Row → ℕ
unfolding widest
modal_width grid = widest (map length grid) 0 (map length grid)

-- The place of a row, and its score in twentieths, counted from -3.75: the least score that a row can get is higher.
pub record Scored : Type 0 where
  pub index : ℕ
  pub score : Ratio

-- twice the share of the cells that are no numbers, the width, the share of the filled cells, and the place
unfoldable pub points : ℕ → ℕ → Row → List String → Ratio
unfolding filter looks_numeric
points modal index row filled =
    let wide = length row * length filled in
    ratio
      (40 * (length (filter (λ c. not (looks_numeric c)) filled) * length row)
        + ((if length row == modal then 30 * wide else 0)
            + (20 * (length filled * length filled) + 3 * ((25 - index) * wide))))
      (20 * wide)

-- the body of the loop up to the score; `none` where it continues
unfoldable pub score_row : ℕ → ℕ → Row → Option Scored
unfolding filled_cells points
score_row modal index row =
    if is_empty (filled_cells row)
    then none
    else some (record { index = index; score = points modal index row (filled_cells row) })

abbrev pub best_of : Option Scored → Option Scored → Option Scored
best_of best none = best
best_of none (some s) = some s
best_of (some b) (some s) = if below b.score s.score then some s else some b

unfoldable pub header_from : ℕ → ℕ → Option Scored → List Row → Option Scored
unfolding score_row
header_from modal index best [] = best
header_from modal index best (row ∷ rows) =
    header_from modal (index + 1) (best_of best (score_row modal index row)) rows

abbrev pub index_of : Option Scored → ℕ
index_of none = 0
index_of (some s) = s.index

unfoldable pub best_header : List Row → Option Scored
unfolding header_from modal_width
best_header grid = header_from (modal_width grid) 0 none (take max_header_search_rows grid)

-- `_find_header_row`
unfoldable pub find_header_row : List Row → ℕ
unfolding best_header
find_header_row grid = index_of (best_header grid)

-- What `parse` returns, and the two exceptions that it raises.
pub data Parsed : Type 0 where
  parsed : Table → Parsed
  parse_error : Parsed
  csv_error : Parsed

abbrev as_parsed : Option Table → Parsed
as_parsed none = parse_error
as_parsed (some t) = parsed t

-- `grid[n + 1:]`
abbrev pub rows_below : ℕ → List Row → List Row
rows_below n [] = []
rows_below zero (row ∷ rows) = rows
rows_below (suc n) (row ∷ rows) = rows_below n rows

abbrev row_at : Option Row → Row
row_at none = []
row_at (some row) = row

unfoldable pub read_grid : List Row → Parsed
unfolding table_of find_header_row
read_grid [] = parse_error
read_grid (row ∷ rows) =
    let grid = row ∷ rows in
    let index = find_header_row grid in
    as_parsed (table_of (row_at (get_elem? grid index)) (rows_below index grid))

-- `[row for row in grid if any(cell.strip() for cell in row)]`
abbrev pub filled_rows : List Row → List Row
unfolding filter any strip
filled_rows grid = filter (any is_filled) grid

unfoldable pub of_csv : Option (List Row) → Parsed
unfolding read_grid filter any strip
of_csv none = csv_error
of_csv (some grid) = read_grid (filled_rows grid)

abbrev read_with : Option Choice → String → Parsed
unfolding read_csv of_csv
read_with none text = parse_error
read_with (some c) text = of_csv (read_csv c.delimiter fresh text)

-- `DelimitedParser.parse`
unfoldable pub parse : Sets → String → Parsed
unfolding best_delimiter any strip read_csv of_csv filter
parse sets text =
    if any is_filled (splitlines text)
    then read_with (best_delimiter sets (sample_of text)) text
    else parse_error

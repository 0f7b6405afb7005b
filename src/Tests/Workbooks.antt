-- ===== src/Tests/Workbooks.antt =====
-- A workbook with a cover sheet, a banner and a merged header.
use harbormaster.Prelude.{◌≡◌, refl, some, [], ◌∷◌, any, all, filter, find}
use harbormaster.Prelude.Text.{
  lower, strip, lstrip, rstrip, filter_chars, has_infix, starts_with, ends_with, str_of_nat,
  digits_from,
}
use harbormaster.Prelude.Dict.{lookup, insert, from_pairs}
use harbormaster.Mapping.{parsed_table}
use harbormaster.Parsers.{norm, is_total_row, dedupe, dedupe_from, header_name, cells_of}
use harbormaster.Prelude.Floats.{skip_digits, is_float}
use harbormaster.Parsers.Delimited.Grid.{widest}
use harbormaster.Parsers.Workbook.{
  nothing, number, other, Sheet, is_blank_cell, looks_numeric, sheet_score, best_sheet, fill_cells,
  fill_rows, forward_fill, trim_rows, grid_of, sheet_points, header_cells_from, find_header_cells,
  trailing_blanks, drop_placeholders, dedupe_cells, sheet_rows, table_of_grid, parse,
}

-- Opens the parser.
unfoldable opening : Unit {0}
unfolding lower strip lstrip rstrip filter_chars has_infix starts_with ends_with str_of_nat
    digits_from lookup insert from_pairs parsed_table norm is_total_row dedupe dedupe_from
    header_name cells_of skip_digits is_float widest is_blank_cell looks_numeric sheet_score
    best_sheet fill_cells fill_rows forward_fill trim_rows grid_of sheet_points header_cells_from
    find_header_cells trailing_blanks drop_placeholders dedupe_cells sheet_rows table_of_grid parse
    any all filter find
opening = tt

abbrev cover : Sheet
cover = record {
  name = "Cover";
  rows = 40;
  cols = 9;
  cells = (other "Disclaimer" ∷ []) ∷ [];
  merged = [];
}

abbrev holdings : Sheet
holdings = record {
  name = "Holdings";
  rows = 6;
  cols = 4;
  cells =
      (other "Positions" ∷ nothing ∷ nothing ∷ nothing ∷ [])
      ∷ (other "Isin" ∷ other "Price" ∷ nothing ∷ nothing ∷ [])
      ∷ (other "X1" ∷ number "5" ∷ number "7.5" ∷ nothing ∷ [])
      ∷ (nothing ∷ nothing ∷ nothing ∷ nothing ∷ [])
      ∷ (other "Total" ∷ number "5" ∷ nothing ∷ nothing ∷ [])
      ∷ (nothing ∷ nothing ∷ nothing ∷ nothing ∷ [])
      ∷ [];
  merged = record { min_row = 2; min_col = 2; max_row = 2; max_col = 3 } ∷ [];
}

read_holdings :
    parse (λ s. some (cover ∷ holdings ∷ [])) ""
    ≡ some (record {
      headers = "Isin" ∷ "Price" ∷ "Price__1" ∷ [];
      rows = (("Isin", "X1") ∷ ("Price", "5") ∷ ("Price__1", "7.5") ∷ []) ∷ [];
    })
unfolding opening
read_holdings = refl

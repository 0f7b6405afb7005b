-- ===== src/Tests/Grids.antt =====
-- A grid of cells as the delimited parser reads it.
use harbormaster.Prelude.{◌+◌, ◌≡◌, refl, true, none, [], ◌∷◌, List, String, All, length, find}
use harbormaster.Prelude.Text.{strip, filter_chars, lower, str_of_nat, digits_from}
use harbormaster.Prelude.Dict.{lookup, insert, from_pairs}
use harbormaster.Mapping.{has_duplicates, parsed_table}
use harbormaster.Parsers.{
  dedupe, dedupe_from, header_name, read_rows, is_total_row, norm, cells_of, table_of,
}
use harbormaster.Parsers.Suffixes.{suffixed_from, dedupe-suffixed}
use harbormaster.Parsers.Rows.{IsFull, read_rows-IsFull}

dedupe-suffixed_example :
    dedupe (" Price" ∷ "Qty" ∷ "Price" ∷ "" ∷ "Price" ∷ [])
    ≡ suffixed_from 0 [] (" Price" ∷ "Qty" ∷ "Price" ∷ "" ∷ "Price" ∷ [])
dedupe-suffixed_example = dedupe-suffixed (" Price" ∷ "Qty" ∷ "Price" ∷ "" ∷ "Price" ∷ [])

three_prices :
    dedupe (" Price" ∷ "Qty" ∷ "Price" ∷ "" ∷ "Price" ∷ [])
    ≡ "Price" ∷ "Qty" ∷ "Price__1" ∷ "column_4" ∷ "Price__2" ∷ []
unfolding dedupe dedupe_from header_name strip lookup insert str_of_nat digits_from
three_prices = refl

-- A header that looks like a suffixed one: the names are not unique, and the table is refused.
suffix_taken : has_duplicates (dedupe ("Price" ∷ "Price" ∷ "Price__1" ∷ [])) ≡ true
unfolding dedupe dedupe_from header_name strip lookup insert str_of_nat digits_from
suffix_taken = refl

suffix_refused : table_of ("Price" ∷ "Price" ∷ "Price__1" ∷ []) [] ≡ none
unfolding table_of parsed_table dedupe dedupe_from header_name strip lookup insert str_of_nat
    digits_from read_rows
suffix_refused = refl

abbrev grid : List (List String)
grid = ("X1" ∷ "5" ∷ []) ∷ ("X2" ∷ []) ∷ ("Grand Total:" ∷ "5" ∷ "7" ∷ []) ∷ []

read_grid :
    read_rows ("Isin" ∷ "Qty" ∷ []) grid
    ≡ ((("Isin", "X1") ∷ ("Qty", "5") ∷ []) ∷ (("Isin", "X2") ∷ ("Qty", "") ∷ []) ∷ [], 1)
unfolding read_rows is_total_row norm cells_of from_pairs insert find strip filter_chars lower
read_grid = refl

read_rows-IsFull_example :
    (length (read_rows ("Isin" ∷ "Qty" ∷ []) grid).0 + (read_rows ("Isin" ∷ "Qty" ∷ []) grid).1 ≡ 3)
    × All (IsFull ("Isin" ∷ "Qty" ∷ [])) (read_rows ("Isin" ∷ "Qty" ∷ []) grid).0
read_rows-IsFull_example = read_rows-IsFull ("Isin" ∷ "Qty" ∷ []) grid

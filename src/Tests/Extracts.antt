-- ===== src/Tests/Extracts.antt =====
-- Delimited texts: the choice of the delimiter, the header row, the quotes.
use harbormaster.Prelude.{
  map, ◌≡◌, refl, true, false, some, [], ◌∷◌, List, String, filter, any, get_elem?, find,
}
use harbormaster.Prelude.Text.{
  lstrip, rstrip, strip, lower, filter_chars, starts_with, ends_with, take_chars, drop_chars,
  str_of_nat, digits_from,
}
use harbormaster.Prelude.Counter.{most_common}
use harbormaster.Prelude.Dict.{lookup, insert, from_pairs}
use harbormaster.Mapping.{parsed_table}
use harbormaster.Mapping.Variation.{ratio}
use harbormaster.Parsers.{
  dedupe, dedupe_from, header_name, read_rows, is_total_row, norm, cells_of, table_of,
}
use harbormaster.Prelude.Floats.{skip_digits, is_float}
use harbormaster.Parsers.Csv.Quoted.{quoted, quoted_row, written, cells_of_record}
use harbormaster.Parsers.Delimited.Quoting.{parse-written}
use harbormaster.Parsers.Csv.{splitlines, lines_from, read_char, end_line, read_csv}
use harbormaster.Parsers.Delimited.{
  Choice, sample_of, looks_numeric, count_char, counts_of, candidate, best_from, best_delimiter,
  sniff,
}
use harbormaster.Parsers.Delimited.Grid.{
  is_filled, filled_rows, of_csv, Row, Scored, Parsed, parsed, csv_error, filled_cells, modal_width,
  points, score_row, header_from, best_header, find_header_row, read_grid, parse,
}
use harbormaster.Parsers.Delimited.Header.{find_header_row-Wins}
use harbormaster.Parsers.Delimited.Scores.{Wins}

-- Opens the parser.
unfoldable extracting : Unit {0}
unfolding quoted quoted_row written of_csv filter any find lstrip rstrip strip lower filter_chars
    starts_with ends_with take_chars drop_chars str_of_nat digits_from most_common lookup insert
    from_pairs parsed_table dedupe dedupe_from header_name read_rows is_total_row norm cells_of
    table_of lines_from read_char end_line read_csv skip_digits is_float looks_numeric count_char
    counts_of candidate best_from best_delimiter sniff filled_cells modal_width points score_row
    header_from best_header find_header_row read_grid parse
extracting = tt

numbers :
    (looks_numeric " (1,234.50) " ≡ true)
    × (looks_numeric "$5e-3" ≡ true)
    × (looks_numeric "1_000" ≡ true)
    × (looks_numeric "1__0" ≡ false)
    × (looks_numeric "2026-08-28" ≡ false)
unfolding extracting
numbers = (refl, refl, refl, refl, refl)

abbrev extract : String
extract = "Daily trades\nId|Note|Qty\nT1|\"a|b\"|5\nT2|say \"\"hi\"\"|6\nTotal||11\n"

abbrev extracted : Parsed
extracted = parsed (record {
  headers = "Id" ∷ "Note" ∷ "Qty" ∷ [];
  rows =
      (("Id", "T1") ∷ ("Note", "a|b") ∷ ("Qty", "5") ∷ [])
      ∷ (("Id", "T2") ∷ ("Note", "say \"\"hi\"\"") ∷ ("Qty", "6") ∷ [])
      ∷ [];
})

read_extract : parse (λ l. l) extract ≡ extracted
unfolding extracting
read_extract = refl

sniffed_extract : sniff (λ l. l) "Id,Qty\nT1,5\n" "a.CSV" ≡ ratio 190 200
unfolding extracting
sniffed_extract = refl

-- Lines that end with a carriage return only: the delimiter is found, and the reader raises.
returns_only : parse (λ l. l) "Id,Qty\rT1,5\r" ≡ csv_error
unfolding extracting
returns_only = refl

abbrev grid : List Row
grid = ("Daily trades" ∷ []) ∷ ("Id" ∷ "Note" ∷ "Qty" ∷ []) ∷ ("T1" ∷ "x" ∷ "5" ∷ []) ∷ []

abbrev first_trade : Scored
first_trade = record { index = 2; score = ratio 1311 180 }

header_below_title : find_header_row grid ≡ 1
unfolding extracting
header_below_title = refl

first_trade_scored : score_row (modal_width grid) 2 ("T1" ∷ "x" ∷ "5" ∷ []) ≡ some first_trade
unfolding extracting
first_trade_scored = refl

find_header_row-Wins_example :
    (header : Row) × (s : Scored) × (get_elem? grid (find_header_row grid) ≡ some header)
    × (score_row (modal_width grid) (find_header_row grid) header ≡ some s)
    × Wins s first_trade
find_header_row-Wins_example =
    find_header_row-Wins grid 2 ("T1" ∷ "x" ∷ "5" ∷ []) first_trade refl first_trade_scored

-- A cell with a delimiter, and one with quotes and a line end.
abbrev quoted_records : List (String × List String)
quoted_records = ("Id", "Note" ∷ []) ∷ ("T,1", "\"5\"\n" ∷ []) ∷ []

abbrev comma : Choice
comma = record { delimiter = ","; agreement = ratio 1 2; score = ratio 1 12 }

comma_found : best_delimiter (λ l. l) (sample_of (written "," quoted_records)) ≡ some comma
unfolding extracting
comma_found = refl

not_blank : any is_filled (splitlines (written "," quoted_records)) ≡ true
unfolding extracting
not_blank = refl

parse-written_example :
    parse (λ l. l) (written "," quoted_records)
    ≡ read_grid (filled_rows (map cells_of_record quoted_records))
parse-written_example = parse-written (λ l. l) quoted_records comma comma_found refl not_blank

-- ===== src/Parsers/Delimited/Quoting.antt =====
-- What `DelimitedParser.parse` of python/src/inspector/parsers/delimited.py makes of a file whose cells are in quotes.
use harbormaster.Prelude.{◌≡◌, ap, true, some, List, map, any, String}
use harbormaster.Parsers.Csv.{splitlines}
use harbormaster.Parsers.Csv.Quoted.{separates, written, cells_of_record, read_csv-written}
use harbormaster.Parsers.Delimited.{Sets, Choice, best_delimiter, sample_of}
use harbormaster.Parsers.Delimited.Grid.{is_filled, filled_rows, of_csv, read_grid, parse}

-- A file of records whose cells are all in quotes, with a line that is not blank, and for which the delimiter that was
-- used is found, is parsed as the grid of its cells without the blank rows, whatever the cells hold: delimiters, quotes
-- and line ends among them.
pub parse-written :
    (sets : Sets) (records : List (String × List String)) (c : Choice)
    → best_delimiter sets (sample_of (written c.delimiter records)) ≡ some c
    → separates c.delimiter ≡ true
    → any is_filled (splitlines (written c.delimiter records)) ≡ true
    → parse sets (written c.delimiter records)
      ≡ read_grid (filled_rows (map cells_of_record records))
unfolding parse of_csv
parse-written sets records c found good filled =
    rw (filled, found) (ap of_csv (read_csv-written c.delimiter records good))

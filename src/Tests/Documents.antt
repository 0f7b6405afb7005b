-- ===== src/Tests/Documents.antt =====
-- A queue payload, read as a table.
use harbormaster.Prelude.{◌≡◌, ◌≢◌, refl, some, [], ◌∷◌, all, length}
use harbormaster.Prelude.Text.{take_chars, join, str_of_nat, digits_from}
use harbormaster.Prelude.Dict.{from_pairs, insert, lookup}
use harbormaster.Json.{
  Json, null, number, text, array, object, no_items, item, no_fields, field, get,
}
use harbormaster.Mapping.{Table, parsed_table}
use harbormaster.Parsers.JsonDocument.{
  Library, find_records, named_records, longest_records, envelope_of, flatten, without_dots,
  set_defaults, flat_records, parse,
}
use harbormaster.Parsers.JsonDocument.Headers.{parse-IsTableOf}
use harbormaster.Parsers.Flat.Headers.{IsTableOf}
use harbormaster.Parsers.Flat.{set_default, add_headers, headers_of, fill_row, table_of_flat}

-- The second record has a nested price and no quantity.
abbrev document : Json
document = object (
    field "venue" (text "XNYS") (
      field "trades"
        (array (
          item (object (field "id" (text "t1") (field "qty" (number "5") no_fields))) (
            item
              (object (
                field "id" (text "t2")
                  (field "price" (object (field "close" null no_fields)) no_fields)))
              no_items)))
        no_fields))

abbrev library : Library
library = record {
  loads = λ s. some document;
  dumps = λ j. "";
  shown = λ j. elim j [ number s ↦ s | _ ↦ "" ];
}

-- Opens the parser.
unfoldable reading : Unit {0}
unfolding find_records named_records longest_records envelope_of flatten without_dots set_default
    set_defaults add_headers headers_of flat_records fill_row table_of_flat parse parsed_table get
    all from_pairs insert lookup take_chars join str_of_nat digits_from
reading = tt

read_document :
    parse library "..."
    ≡ some (record {
      headers = "id" ∷ "qty" ∷ "venue" ∷ "price.close" ∷ [];
      rows =
          (("id", "t1") ∷ ("qty", "5") ∷ ("venue", "XNYS") ∷ ("price.close", "") ∷ [])
          ∷ (("id", "t2") ∷ ("price.close", "") ∷ ("venue", "XNYS") ∷ ("qty", "") ∷ [])
          ∷ [];
    })
unfolding reading
read_document = refl

has_records : (find_records library document).0 ≢ []
unfolding reading
has_records = λ h. cc h

parse-IsTableOf_example :
    (t : Table) × (parse library "..." ≡ some t)
    × IsTableOf (length (find_records library document).0) t
parse-IsTableOf_example = parse-IsTableOf library "..." document refl has_records

-- ===== src/Tests/Values.antt =====
-- Value dates.
use harbormaster.Prelude.{
  string_eq, ◌≡◌, ◌≢◌, ◌↔◌, refl, true, none, some, [], ◌∷◌, String, length, filter, is_some, arith,
}
use harbormaster.Prelude.Text.{round_div}
use harbormaster.Prelude.Dict.{NodupKeys, lookup, insert}
use harbormaster.Prelude.Counter.{count_from, most_common}
use harbormaster.Dates.{Date, date, isoformat}
use harbormaster.Calendar.{is_business_day}
use harbormaster.Tests.Fixtures.{us, trades, request, undated}
use harbormaster.Tests.Days.{days}
use harbormaster.ValueDate.Parse.{parse_date, date_from_filename, readers}
use harbormaster.ValueDate.Parse.Laws.{IsReadable, parse_date-IsReadable, parse_date-oct}
use harbormaster.ValueDate.Columns.{
  find_value_date_column, find_trade_date_column, column_dates, normalized, norm, first_hit,
}
use harbormaster.ValueDate.Resolve.{
  Request, Resolution, resolve, explicit_dates, trade_dates, finish, choose, sorted_set,
  insert_date, finish_with, finish_confidence, ten_thousandths,
}
use harbormaster.ValueDate.Resolve.Flags.{Sourced, resolve-Sourced, resolve_flags}
use harbormaster.ValueDate.Resolve.Business.{resolve-open}
use harbormaster.ValueDate.Split.{group_rows, row_iso, or_nil, append_row}
use harbormaster.ValueDate.Split.Partition.{rows_of, total, group_rows_partition}

-- Opens all that a value date is found with.
unfoldable pub values : Unit {0}
unfolding readers days find_value_date_column find_trade_date_column column_dates normalized norm
    first_hit
values = tt

parse_date-IsReadable_example : IsReadable (date 2026 8 31)
unfolding readers
parse_date-IsReadable_example = parse_date-IsReadable "31AUG2026" (date 2026 8 31) refl

parse_date-oct_example : parse_date "31OCT2026" ≡ none
parse_date-oct_example = parse_date-oct "3" "1" "2026" refl refl

found_dates :
    explicit_dates (request us "MCP_20260831.csv")
    ≡ date 2026 8 28 ∷ date 2026 8 29 ∷ date 2026 8 28 ∷ []
unfolding values
found_dates = refl

resolve-Sourced_example :
    (r : Resolution) × (resolve undated ≡ some r)
    × Sourced undated
        (explicit_dates undated)
        (trade_dates undated)
        (date_from_filename undated.filename)
        r
resolve-Sourced_example = resolve-Sourced undated

abbrev pub monday_file : Request
monday_file = request us "MCP_20260831.csv"

-- What the contents of the file resolve to: Friday twice and Saturday once, and the filename says Monday.
abbrev pub friday : Resolution
friday =
    finish_with
      (choose monday_file (explicit_dates monday_file) (trade_dates monday_file)
        (date_from_filename monday_file.filename))
      (date 2026 8 28, 2)

-- Opens the counting of the candidates.
unfoldable pub counting : Unit {0}
unfolding values resolve finish finish_with choose count_from most_common lookup insert sorted_set
    insert_date finish_confidence ten_thousandths round_div
counting = tt

pub friday_found : resolve monday_file ≡ some friday
unfolding counting
friday_found = refl

friday_reported :
    (friday.resolved ≡ some (date 2026 8 28))
    × (friday.confidence ≡ 873)
    × (friday.mismatch_flagged ≡ true)
    × (friday.from_content ≡ date 2026 8 28 ∷ date 2026 8 29 ∷ [])
unfolding counting
friday_reported = (refl, refl, refl, refl)

resolve_flags_example :
    (friday.from_filename ≡ date_from_filename monday_file.filename)
    × ((friday.mismatch_flagged ≡ true)
        ↔ ((f : Date) × (friday.from_filename ≡ some f) × (friday.resolved ≢ some f)))
resolve_flags_example = resolve_flags monday_file friday friday_found

resolve-open_example : (w : Date) × (friday.resolved ≡ some w) × (is_business_day us w ≡ true)
unfolding counting
resolve-open_example =
    resolve-open monday_file friday
      ((0, omega arith, refl), ((1, omega arith, refl), ((0, omega arith, refl), tt))) friday_found

group_rows_partition_example :
    let g = group_rows "Value Date" trades [] in
    NodupKeys g
    × ((iso : String) → or_nil (lookup iso g) ≡ rows_of "Value Date" iso trades)
    × (total g ≡ length (filter (λ row. is_some (row_iso "Value Date" row)) trades))
group_rows_partition_example = group_rows_partition "Value Date" trades

-- Of the four rows the one whose date cannot be read is in no group.
grouped : total (group_rows "Value Date" trades []) ≡ 3
unfolding readers group_rows row_iso append_row lookup insert isoformat
grouped = refl

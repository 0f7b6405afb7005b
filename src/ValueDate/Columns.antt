-- ===== src/ValueDate/Columns.antt =====
-- Finding the date columns: `find_value_date_column`, `find_trade_date_column` and `_column_dates` of
-- python/src/inspector/valuedate.py. A row is a dict from header to cell.
use harbormaster.Prelude.{◌||◌, Option, none, some, List, [], ◌∷◌, String, string_eq, if◌then◌else◌}
use harbormaster.Prelude.Text.{is_alnum, is_blank, lower, filter_chars, has_infix}
use harbormaster.Prelude.Dict.{Dict, lookup, insert, from_pairs}
use harbormaster.Dates.{Date}
use harbormaster.ValueDate.Parse.{parse_date}

abbrev pub Row : Type 0
Row = Dict String String

-- `"".join(ch for ch in s.lower() if ch.isalnum())`
unfoldable pub norm : String → String
unfolding lower filter_chars
norm s = filter_chars is_alnum (lower s)

-- `{_norm(h): h for h in headers}`
with_norms : List String → List (String × String)
with_norms [] = []
with_norms (h ∷ hs) = (norm h, h) ∷ with_norms hs

unfoldable pub normalized : List String → Dict String String
unfolding with_norms from_pairs insert
normalized headers = from_pairs (with_norms headers) []

-- An empty header found is no hit: `if hit`.
abbrev pub truthy : Option String → Option String
truthy none = none
truthy (some s) = if is_blank s then none else some s

abbrev pub or_else {ℓ} : {A : Type ℓ} → Option A → Option A → Option A
or_else none o = o
or_else (some a) o = some a

-- the loops `for p in patterns: hit = normalized.get(p); if hit: return hit`
unfoldable pub first_hit : Dict String String → List String → Option String
first_hit d [] = none
first_hit d (p ∷ ps) = or_else (truthy (lookup p d)) (first_hit d ps)

norms : List String → List String
norms [] = []
norms (h ∷ hs) = norm h ∷ norms hs

abbrev pub value_date_patterns : List String
value_date_patterns =
    "valuedate" ∷ "valdate" ∷ "settlementdate" ∷ "settledate" ∷ "settldate" ∷ "settlmntdate"
    ∷ "cashsettlementdate" ∷ "effectivedate" ∷ "posteddate" ∷ "postingdate" ∷ "valuedt" ∷ "settldt"
    ∷ []

abbrev pub trade_date_patterns : List String
trade_date_patterns =
    "tradedate" ∷ "trddate" ∷ "dealdate" ∷ "executiondate" ∷ "transactiondate" ∷ "businessdate"
    ∷ "activitydate" ∷ "bookingdate" ∷ "asofdate" ∷ []

contains_match : Dict String String → Option String
contains_match [] = none
contains_match ((n, original) ∷ d) =
    if has_infix n "settlementdate" || has_infix n "valuedate"
    then some original
    else contains_match d

unfoldable pub find_value_date_column : List String → List String → Option String
unfolding norms contains_match normalized first_hit lookup has_infix norm
find_value_date_column headers hints =
    let d = normalized headers in
    or_else (first_hit d (norms hints))
      (or_else (first_hit d value_date_patterns) (contains_match d))

unfoldable pub find_trade_date_column : List String → Option String
unfolding normalized first_hit lookup norm
find_trade_date_column headers = first_hit (normalized headers) trade_date_patterns

-- `row.get(column, "")`
abbrev pub cell : Row → String → String
cell row column = elim (lookup column row) [ none ↦ "" | some v ↦ v ]

-- the dates of the rows that carry one, in order
unfoldable pub column_dates : List Row → String → List Date
column_dates [] column = []
column_dates (row ∷ rows) column =
    let rest = column_dates rows column in
    elim (parse_date (cell row column)) [ none ↦ rest | some d ↦ d ∷ rest ]

-- `_column_dates(rows, col) if col else []`
abbrev pub dates_of : List Row → Option String → List Date
dates_of rows none = []
dates_of rows (some column) = if is_blank column then [] else column_dates rows column

-- ===== src/Attribution/Accounts.antt =====
-- `find_account_ids` of python/src/inspector/attribution.py, and the expression that it scans cells with.
pub mod Known
use Prim.Native.Char.{Char}
use harbormaster.Prelude.{
  ℕ, zero, suc, ◌-◌, Bool, true, false, not, ◌&&◌, ◌||◌, Option, none, some, List, [], ◌∷◌, ◌++◌,
  String, string_eq, contains, filter, take, is_some, is_empty, if◌then◌else◌,
}
use harbormaster.Prelude.Text.{char_eq, is_alnum, is_blank, strip, size, take_chars}
use harbormaster.Prelude.Dict.{Dict, lookup}
use harbormaster.ValueDate.Columns.{Row, norm}

abbrev pub account_column_hints : List String
account_column_hints =
    "accountid" ∷ "account" ∷ "acctno" ∷ "acctnum" ∷ "accountnumber" ∷ "acctid" ∷ "accountno"
    ∷ "clientaccount" ∷ "custodyaccount" ∷ "safekeepingaccount" ∷ "portfolioid" ∷ "book" ∷ "bookid"
    ∷ "subaccount" ∷ "clearingaccount" ∷ "acct" ∷ []

-- `_ACCOUNT_CANDIDATE`: a part of 2 to 6 letters or digits, one of 3 to 6 behind a mark, and perhaps one
-- more of 2 to 6, between word boundaries. The ways to read a part are tried longest first.

abbrev is_word : Char → Bool
is_word c = is_alnum c || char_eq c "_"

abbrev is_mark : Char → Bool
is_mark c = char_eq c "-" || char_eq c "_"

-- The texts behind `lo` to `hi` letters or digits, the longest run first.
part : ℕ → ℕ → String → List String
part zero zero s = s ∷ []
part (suc lo) zero s = []
part zero (suc hi) String.[] = String.[] ∷ []
part (suc lo) (suc hi) String.[] = []
part zero (suc hi) (String.◌∷◌ c s) =
    let more = part zero hi s in
    if is_alnum c then more ++ (String.◌∷◌ c s) ∷ [] else (String.◌∷◌ c s) ∷ []
part (suc lo) (suc hi) (String.◌∷◌ c s) = let more = part lo hi s in if is_alnum c then more else []

behind_mark : ℕ → String → List String
unfolding part
behind_mark lo String.[] = []
behind_mark lo (String.◌∷◌ c s) = if is_mark c then part lo 6 s else []

each : (String → List String) → List String → List String
each f [] = []
each f (s ∷ r) = f s ++ each f r

-- the third part if it can be read, and the match without it
third : String → List String
unfolding behind_mark
third s = behind_mark 2 s ++ s ∷ []

-- `\b` behind a letter or digit
ends_word : String → Bool
ends_word String.[] = true
ends_word (String.◌∷◌ c s) = not (is_word c)

-- The length of the match at one place, behind a word character or not.
candidate_at : Bool → String → Option ℕ
unfolding part behind_mark each third ends_word filter
candidate_at after_word s =
    elim (filter ends_word (each third (each (behind_mark 3) (part 2 6 s)))) [
      | [] ↦ none
      | rest ∷ _ ↦ if after_word then none else some (size s - size rest)
    ]

-- `findall`: after a match the scan goes on behind it.
find_from : Bool → ℕ → String → List String
unfolding candidate_at
find_from after_word skip String.[] = []
find_from after_word (suc skip) (String.◌∷◌ c s) = find_from (is_word c) skip s
find_from after_word zero (String.◌∷◌ c s) = elim (candidate_at after_word (String.◌∷◌ c s)) [
  | none ↦ find_from (is_word c) zero s
  | some n ↦ take_chars n (String.◌∷◌ c s) ∷ find_from (is_word c) (n - 1) s
]

unfoldable pub find_candidates : String → List String
unfolding find_from take_chars
find_candidates s = find_from false zero s

abbrev pub is_known : Dict String String → List String → String → Bool
is_known known found a = is_some (lookup a known) && not (contains found a)

-- the loop over the candidates in one cell
unfoldable pub add_candidates : Dict String String → List String → List String → List String
add_candidates known found [] = found
add_candidates known found (a ∷ as') =
    add_candidates known (if is_known known found a then found ++ a ∷ [] else found) as'

-- one cell: a known account, or in a file with no account column one that the cell holds
unfoldable pub scan_cell : Dict String String → Bool → List String → String → List String
scan_cell known has_columns found value =
    if is_blank value
    then found
    else if is_known known found value
    then found ++ value ∷ []
    else if has_columns
    then found
    else add_candidates known found (find_candidates value)

abbrev pub cell_or_blank : Row → String → String
cell_or_blank row header = elim (lookup header row) [ none ↦ "" | some v ↦ v ]

unfoldable pub scan_row : Dict String String → Bool → List String → List String → Row → List String
scan_row known has_columns [] found row = found
scan_row known has_columns (h ∷ hs) found row =
    scan_row known has_columns hs (scan_cell known has_columns found (strip (cell_or_blank row h)))
      row

unfoldable pub scan_rows :
    Dict String String → Bool → List String → List String → List Row → List String
scan_rows known has_columns columns found [] = found
scan_rows known has_columns columns found (row ∷ rows) =
    scan_rows known has_columns columns (scan_row known has_columns columns found row) rows

abbrev pub account_limit : ℕ
account_limit = 500

unfoldable pub account_columns : List String → List String
unfolding norm filter
account_columns headers = filter (λ h. contains account_column_hints (norm h)) headers

unfoldable pub find_account_ids : List String → List Row → Dict String String → List String
find_account_ids headers rows known =
    let columns = account_columns headers in
    scan_rows known (not (is_empty columns)) (if is_empty columns then headers else columns) []
      (take account_limit rows)

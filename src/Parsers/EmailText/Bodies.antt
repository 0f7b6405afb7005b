-- ===== src/Parsers/EmailText/Bodies.antt =====
-- python/src/inspector/parsers/email_text.py: `sniff` and `parse`. A body is its text; the warnings and the evidence are
-- not kept, but the lines that nearly were movements are counted.
use harbormaster.Prelude.{
  ℕ, ◌+◌, ◌*◌, Bool, ◌&&◌, ◌||◌, Option, none, some, List, [], ◌∷◌, filter, any, length, take,
  is_some, String, ltb, leb, if◌then◌else◌,
}
use harbormaster.Prelude.Text.{
  char_eq, is_blank, lower, lstrip, strip, has_infix, starts_with, ends_with, take_chars,
}
use harbormaster.Prelude.Dict.{Dict}
use harbormaster.Mapping.{Table, parsed_table}
use harbormaster.Parsers.Csv.{splitlines}
use harbormaster.Parsers.Delimited.{sample_of, opens_other, count_char}
use harbormaster.Parsers.Patterns.{search}
use harbormaster.Parsers.EmailText.Movements.{first_date, currency, account_pattern, extract}

-- `HEADERS`
abbrev pub headers : List String
headers =
    "Account ID" ∷ "Net Amount" ∷ "Currency" ∷ "Value Date" ∷ "Direction" ∷ "Extraction Confidence"
    ∷ "Source Line" ∷ []

abbrev email_markers : List String
email_markers = "from:" ∷ "to:" ∷ "subject:" ∷ "sent:" ∷ "cc:" ∷ "date:" ∷ []

-- a line with three commas or three bars
abbrev is_delimited : String → Bool
unfolding count_char
is_delimited line = leb 3 (count_char "," line) || leb 3 (count_char "|" line)

abbrev has_suffix : String → Bool
unfolding lower ends_with any
has_suffix name = any (ends_with (lower name)) (".txt" ∷ ".eml" ∷ ".msg" ∷ [])

unfoldable sniff_prose : List String → String → ℕ
unfolding lower ends_with any currency count_char filter
sniff_prose lines name =
    if ltb (length lines) 2
    then 0
    else if ltb (length lines) (2 * length (filter is_delimited lines))
    then 0
    else if leb 2 (length (filter (λ l. is_some (currency l)) lines)) && has_suffix name
    then 600
    else 0

-- `EmailTextParser.sniff` of a head that is decoded, in thousandths
unfoldable pub sniff : String → String → ℕ
unfolding lstrip lower has_infix filter take_chars sniff_prose
sniff head name =
    if opens_other (lstrip head)
    then 0
    else if leb 2 (length (filter (has_infix (lower (take_chars 4000 head))) email_markers))
    then 930
    else sniff_prose (sample_of head) name

-- `_looks_like_a_movement`
unfoldable pub looks_like_a_movement : String → Bool
unfolding search account_pattern currency
looks_like_a_movement line = is_some (search account_pattern line) || is_some (currency line)

-- `_is_header_line`
unfoldable pub is_header_line : String → Bool
unfolding any starts_with lower
is_header_line line = any (starts_with (lower line)) email_markers

-- `line.split(":", 1)[1]`
unfoldable behind_colon : String → String
behind_colon String.[] = String.[]
behind_colon (String.◌∷◌ c s) = if char_eq c ":" then s else behind_colon s

unfoldable subject_in : List String → String
unfolding starts_with lower strip behind_colon
subject_in [] = ""
subject_in (line ∷ lines) =
    if starts_with (lower line) "subject:" then strip (behind_colon line) else subject_in lines

-- `_subject`
unfoldable pub subject : String → String
unfolding subject_in
subject text = subject_in (take 20 (splitlines text))

-- `candidate` of a line that is not passed over
abbrev pub is_passed : String → Bool
unfolding is_header_line
is_passed candidate = is_blank candidate || is_header_line candidate

-- what one line adds to the rows and to the near misses
abbrev counted :
    Option (Dict String String)
    → Bool
    → List (Dict String String) × ℕ
    → List (Dict String String) × ℕ
counted (some row) near (rows, misses) = (row ∷ rows, misses)
counted none near (rows, misses) = (rows, if near then misses + 1 else misses)

-- the loop over the lines
unfoldable pub read_lines : Option String → List String → List (Dict String String) × ℕ
unfolding strip is_header_line extract looks_like_a_movement
read_lines default_date [] = ([], 0)
read_lines default_date (line ∷ lines) =
    let rest = read_lines default_date lines in
    if is_passed (strip line)
    then rest
    else counted (extract (strip line) default_date) (looks_like_a_movement (strip line)) rest

abbrev table_of_rows : List (Dict String String) → Option Table
unfolding parsed_table
table_of_rows [] = none
table_of_rows (row ∷ rows) = parsed_table headers (row ∷ rows)

-- a date in the subject, or else in the text
unfoldable pub default_date : String → Option String
unfolding first_date subject
default_date text = elim (first_date (subject text)) [ some t ↦ some t | none ↦ first_date text ]

-- `EmailTextParser.parse`; `none` for the ParseError
unfoldable pub parse : String → Option Table
unfolding strip read_lines default_date parsed_table
parse text =
    if is_blank (strip text)
    then none
    else table_of_rows (read_lines (default_date text) (splitlines text)).0

-- ===== src/Parsers/Delimited.antt =====
-- python/src/inspector/parsers/delimited.py: what counts as a number, the choice of the delimiter, and `sniff`. A file is
-- its text.
pub mod Grid
pub mod Scores
pub mod Quoting
pub mod Header
use Prim.Native.Char.{Char}
use harbormaster.Prelude.{
  ℕ, zero, suc, ◌+◌, ◌-◌, ◌*◌, ◌/◌, min, Bool, true, false, not, ◌&&◌, ◌||◌, Option, none, some,
  List, [], ◌∷◌, map, filter, any, length, take, is_empty, String, nat_eq, string_eq, ◌==◌,
  contains, ltb, leb, if◌then◌else◌,
}
use harbormaster.Prelude.Text.{
  char_eq, is_digit, is_blank, size, lower, lstrip, strip, starts_with, ends_with, filter_chars,
  take_chars, drop_chars,
}
use harbormaster.Prelude.Floats.{is_float}
use harbormaster.Prelude.Counter.{count, most_common}
use harbormaster.Mapping.{Table}
use harbormaster.Mapping.Variation.{Ratio, ratio, below}
use harbormaster.Parsers.{table_of}
use harbormaster.Parsers.Csv.{splitlines, fresh, read_csv}

-- `_looks_numeric`
unfoldable pub looks_numeric : String → Bool
unfolding strip filter_chars starts_with ends_with take_chars drop_chars is_float
looks_numeric cell =
    let stripped =
      filter_chars (λ c. not (char_eq c "," || (char_eq c "$" || char_eq c "%"))) (strip cell) in
    is_float (
      if starts_with stripped "(" && ends_with stripped ")"
      then take_chars (size stripped - 2) (drop_chars 1 stripped)
      else stripped)

-- the delimiter

-- The order in which a set of the numbers of a list is gone through.
abbrev pub Sets : Type 0
Sets = List ℕ → List ℕ

abbrev pub candidate_delimiters : List Char
candidate_delimiters = "," ∷ "\t" ∷ "|" ∷ ";" ∷ []

-- `line.count(delim)`
unfoldable pub count_char : Char → String → ℕ
count_char d String.[] = 0
count_char d (String.◌∷◌ c s) = let n = count_char d s in if char_eq c d then n + 1 else n

unfoldable pub counts_of : Char → List String → List ℕ
unfolding filter count_char
counts_of d lines = filter (ltb 0) (map (count_char d) lines)

pub record Choice : Type 0 where
  pub delimiter : Char
  pub agreement : Ratio
  pub score : Ratio

-- the agreement on the modal count, and its weight by the number of columns
abbrev pub choice_of : Char → List ℕ → ℕ × ℕ → Choice
choice_of d counts (modal, agreed) = record {
  delimiter = d;
  agreement = ratio agreed (length counts);
  score = ratio (agreed * min 6 modal) (length counts * 6);
}

abbrev choice_at : Char → List ℕ → Option (ℕ × ℕ) → Option Choice
choice_at d counts none = none
choice_at d counts (some m) = some (choice_of d counts m)

abbrev pub needed : List String → ℕ
needed lines = if ltb 2 (length lines / 3) then length lines / 3 else 2

-- one round of the loop over the candidates; `none` where it continues
unfoldable pub candidate : Sets → List String → Char → Option Choice
unfolding counts_of most_common
candidate sets lines d =
    let counts = counts_of d lines in
    if ltb (length counts) (needed lines)
    then none
    else choice_at d counts (most_common (map (λ n. (n, count n counts)) (sets counts)))

abbrev pub score_of_best : Option Choice → Ratio
score_of_best none = ratio 0 1
score_of_best (some c) = c.score

abbrev pub better : Option Choice → Option Choice → Option Choice
better best none = best
better best (some c) = if below (score_of_best best) c.score then some c else best

unfoldable pub best_from : Sets → List String → Option Choice → List Char → Option Choice
unfolding candidate
best_from sets lines best [] = best
best_from sets lines best (d ∷ ds) = best_from sets lines (better best (candidate sets lines d)) ds

-- `_best_delimiter`
unfoldable pub best_delimiter : Sets → List String → Option Choice
unfolding best_from
best_delimiter sets lines = best_from sets lines none candidate_delimiters

-- the first twenty lines that are not blank
abbrev pub sample_of : String → List String
unfolding strip filter
sample_of text = take 20 (filter (λ l. not (is_blank (strip l))) (splitlines text))

abbrev pub opens_other : String → Bool
opens_other String.[] = true
opens_other (String.◌∷◌ c s) = char_eq c "<" || (char_eq c "{" || char_eq c "[")

abbrev has_suffix : String → Bool
has_suffix name = any (ends_with (lower name)) (".csv" ∷ ".tsv" ∷ ".txt" ∷ ".psv" ∷ [])

abbrev at_most : Ratio → Ratio → Ratio
at_most r q = if below q r then q else r

-- `score`, in hundredths
abbrev sniffed : Bool → Option Choice → Ratio
sniffed named none = ratio 0 1
sniffed named (some c) =
    let hundredths = 35 * c.agreement.den + 50 * c.agreement.num in
    at_most
      (ratio (hundredths + (if named then 10 * c.agreement.den else 0)) (100 * c.agreement.den))
      (ratio 97 100)

-- `DelimitedParser.sniff` of a head that is decoded
unfoldable pub sniff : Sets → String → String → Ratio
unfolding lstrip ends_with lower any best_delimiter
sniff sets head name =
    if opens_other (lstrip head) || ltb (length (sample_of head)) 2
    then ratio 0 1
    else sniffed (has_suffix name) (best_delimiter sets (sample_of head))

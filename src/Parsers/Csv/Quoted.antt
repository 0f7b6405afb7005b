-- ===== src/Parsers/Csv/Quoted.antt =====
-- What the csv reader of python/src/inspector/parsers/delimited.py does with cells in quotes.
use text.Mathlib.TextEquality.{Char-path}
use text.Mathlib.TextLemmas.{append_assoc, append-nil, cons-append, nil-append}
use mathlib.Core.List.{append_assoc as list_assoc}
use native.Mathlib.Omega.{arith}
use Prim.Native.Char.{Char, code}
use harbormaster.Prelude.{
  ◌≡◌, refl, sym, ap, ◌∙◌, inl, inr, Bool, true, false, not, ◌&&◌, Option, none, some, List, [],
  ◌∷◌, ◌++◌, String, ◌<>◌, nat_eq, ◌==◌, Bool-cases, map, if◌then◌else◌,
}
use harbormaster.Prelude.Text.{char_eq}
use harbormaster.Parsers.Csv.{
  Mode, start_field, in_quoted_field, quote_in_quoted_field, Reading, one, behind, is_newline,
  read_char, end_line, read_csv, fresh,
}

-- A cell as it is written between quotes, with what stands behind its opening quote.
unfoldable pub quoted : String → String → String
quoted String.[] rest = String.◌∷◌ "\"" rest
quoted (String.◌∷◌ c s) rest =
    let more = quoted s rest in
    if char_eq c "\"" then String.◌∷◌ "\"" (String.◌∷◌ "\"" more) else String.◌∷◌ c more

-- a delimiter that is no quote, and ends no line
abbrev pub separates : Char → Bool
separates d = not (char_eq d "\"") && not (is_newline d)

abbrev reading : Mode → String → List String → Reading
reading m f fs = record { mode = m; field = f; fields = fs }

behind-nil : (o : Option (List (List String))) → behind [] o ≡ o
behind-nil none = refl
behind-nil (some rows) = refl

step :
    (d c : Char) (s f : String) (fs : List String)
    → char_eq c "\"" ≡ false
    → read_csv d (reading in_quoted_field f fs) (String.◌∷◌ c s)
      ≡ read_csv d (reading in_quoted_field (f <> one c) fs) s
unfolding read_csv read_char end_line
step d c s f fs plain = elim (Bool-cases (code c == 10)) [
  | inl feed ↦ rw (plain, feed) (behind-nil _)
  | inr other ↦ rw (plain, other) (behind-nil _)
]

step_quote :
    (d : Char) (s f : String) (fs : List String)
    → read_csv d (reading in_quoted_field f fs) (String.◌∷◌ "\"" (String.◌∷◌ "\"" s))
      ≡ read_csv d (reading in_quoted_field (f <> one "\"") fs) s
unfolding read_csv read_char end_line
step_quote d s f fs = ap (behind []) (behind-nil _) ∙ behind-nil _

snoc-append : (f : String) (c : Char) (s : String) → (f <> one c) <> s ≡ f <> String.◌∷◌ c s
snoc-append f c s =
    append_assoc f (one c) s
    ∙ ap (λ x. f <> x) (cons-append c "" s ∙ ap (String.◌∷◌ c) (nil-append s))

closing :
    (d : Char) (rest f : String) (fs : List String)
    → read_csv d (reading in_quoted_field f fs) (String.◌∷◌ "\"" rest)
      ≡ read_csv d (reading quote_in_quoted_field f fs) rest
unfolding read_csv read_char end_line
closing d rest f fs = behind-nil _

-- A quoted cell is read to its closing quote.
read_csv-quoted :
    (d : Char) (s rest f : String) (fs : List String)
    → read_csv d (reading in_quoted_field f fs) (quoted s rest)
      ≡ read_csv d (reading quote_in_quoted_field (f <> s) fs) rest
unfolding quoted
read_csv-quoted d String.[] rest f fs =
    closing d rest f fs
    ∙ ap (λ x. read_csv d (reading quote_in_quoted_field x fs) rest) (sym (append-nil f))
read_csv-quoted d (String.◌∷◌ c s) rest f fs =
    let behind_c =
      read_csv-quoted d s rest (f <> one c) fs
      ∙ ap (λ x. read_csv d (reading quote_in_quoted_field x fs) rest) (snoc-append f c s) in
    elim (Bool-cases (char_eq c "\"")) [
      | inr plain ↦ rw plain (step d c (quoted s rest) f fs plain ∙ behind_c)
      | inl quote ↦ rw quote (
          step_quote d (quoted s rest) f fs
          ∙ ap (λ x. read_csv d (reading in_quoted_field (f <> one x) fs) (quoted s rest))
              (sym (Char-path c "\"" ((nat_eq.beq_iff (code c) (code "\"")).0 quote)))
          ∙ behind_c)
    ]

-- a record as it is written: its cells in quotes, with the delimiter between them, and a line feed
unfoldable pub quoted_row : Char → String → List String → String → String
unfolding quoted
quoted_row d cell [] rest = quoted cell (String.◌∷◌ "\n" rest)
quoted_row d cell (next ∷ cells) rest =
    quoted cell (String.◌∷◌ d (String.◌∷◌ "\"" (quoted_row d next cells rest)))

unfoldable pub written : Char → List (String × List String) → String
unfolding quoted_row
written d [] = ""
written d ((cell, cells) ∷ records) = String.◌∷◌ "\"" (quoted_row d cell cells (written d records))

abbrev pub cells_of_record : String × List String → List String
cells_of_record (cell, cells) = cell ∷ cells

-- A record is read at the start of a line, or behind a delimiter.
opens :
    (d : Char) (s : String) (fs : List String)
    → read_csv d (reading start_field "" fs) (String.◌∷◌ "\"" s)
      ≡ read_csv d (reading in_quoted_field "" fs) s
unfolding read_csv read_char end_line
opens d s fs = behind-nil _

starts :
    (d : Char) (s : String)
    → read_csv d fresh (String.◌∷◌ "\"" s) ≡ read_csv d (reading in_quoted_field "" []) s
unfolding read_csv read_char end_line
starts d s = behind-nil _

ends_cell :
    (d : Char) (s f : String) (fs : List String)
    → separates d ≡ true
    → read_csv d (reading quote_in_quoted_field f fs) (String.◌∷◌ d s)
      ≡ read_csv d (reading start_field "" (fs ++ f ∷ [])) s
unfolding read_csv read_char end_line
ends_cell d s f fs good =
    let no_quote : char_eq d "\"" ≡ false = ground (arith, good) in
    let no_line : is_newline d ≡ false = ground (arith, good) in
    let no_feed : (code d == 10) ≡ false = ground (arith, good) in
    let same : char_eq d d ≡ true = (nat_eq.beq_iff (code d) (code d)).1 refl in
    rw (no_quote, no_line, no_feed, same) (behind-nil _)

ends_record :
    (d : Char) (s f : String) (fs : List String)
    → read_csv d (reading quote_in_quoted_field f fs) (String.◌∷◌ "\n" s)
      ≡ behind ((fs ++ f ∷ []) ∷ []) (read_csv d fresh s)
unfolding read_csv read_char end_line
ends_record d s f fs = refl

cell_read :
    (d : Char) (cell rest : String) (fs : List String)
    → read_csv d (reading in_quoted_field "" fs) (quoted cell rest)
      ≡ read_csv d (reading quote_in_quoted_field cell fs) rest
cell_read d cell rest fs =
    read_csv-quoted d cell rest "" fs
    ∙ ap (λ x. read_csv d (reading quote_in_quoted_field x fs) rest) (nil-append cell)

read_csv-row :
    (d : Char) (cell : String) (cells : List String) (rest : String) (fs : List String)
    → separates d ≡ true
    → read_csv d (reading in_quoted_field "" fs) (quoted_row d cell cells rest)
      ≡ behind ((fs ++ cell ∷ cells) ∷ []) (read_csv d fresh rest)
unfolding quoted_row
read_csv-row d cell [] rest fs good =
    cell_read d cell (String.◌∷◌ "\n" rest) fs ∙ ends_record d rest cell fs
read_csv-row d cell (next ∷ cells) rest fs good =
    let behind_cell = String.◌∷◌ "\"" (quoted_row d next cells rest) in
    cell_read d cell (String.◌∷◌ d behind_cell) fs
    ∙ ends_cell d behind_cell cell fs good
    ∙ opens d (quoted_row d next cells rest) (fs ++ cell ∷ [])
    ∙ read_csv-row d next cells rest (fs ++ cell ∷ []) good
    ∙ ap (λ row. behind (row ∷ []) (read_csv d fresh rest))
        (list_assoc fs (cell ∷ []) (next ∷ cells))

-- Records written with every cell in quotes are read back, whatever their cells hold.
pub read_csv-written :
    (d : Char) (records : List (String × List String))
    → separates d ≡ true
    → read_csv d fresh (written d records) ≡ some (map cells_of_record records)
unfolding written read_csv
read_csv-written d [] good = refl
read_csv-written d ((cell, cells) ∷ records) good =
    starts d (quoted_row d cell cells (written d records))
    ∙ read_csv-row d cell cells (written d records) [] good
    ∙ ap (behind ((cell ∷ cells) ∷ [])) (read_csv-written d records good)

-- ===== src/Parsers/Csv.antt =====
-- `csv.reader(io.StringIO(text), delimiter=delim)` of python/src/inspector/parsers/delimited.py, with the dialect that
-- it takes by default, and `str.splitlines`. The limit on the size of a field is left out.
pub mod Quoted
use Prim.Native.Char.{Char, code}
use harbormaster.Prelude.{
  Bool, false, ◌&&◌, ◌||◌, Option, none, some, List, [], ◌∷◌, ◌++◌, String, ◌<>◌, nat_eq, ◌==◌,
  if◌then◌else◌,
}
use harbormaster.Prelude.Text.{char_eq, between, is_blank}

abbrev is_break : Char → Bool
is_break c = between 10 13 c || between 28 30 c

abbrev pub one : Char → String
one c = String.◌∷◌ c String.[]

-- `text.splitlines()`, with the line so far; a line feed behind a carriage return ends no line of its own
unfoldable pub lines_from : Bool → String → String → List String
lines_from after_return line String.[] = if is_blank line then [] else line ∷ []
lines_from after_return line (String.◌∷◌ c s) =
    let rest = lines_from (code c == 13) (if is_break c then "" else line <> one c) s in
    if after_return && code c == 10 then rest else if is_break c then line ∷ rest else rest

abbrev pub splitlines : String → List String
splitlines text = lines_from false "" text

pub data Mode : Type 0 where
  start_record : Mode
  start_field : Mode
  in_field : Mode
  in_quoted_field : Mode
  quote_in_quoted_field : Mode
  eat_crnl : Mode

pub record Reading : Type 0 where
  pub mode : Mode
  pub field : String
  pub fields : List String

abbrev pub fresh : Reading
fresh = record { mode = start_record; field = ""; fields = [] }

abbrev pub is_newline : Char → Bool
is_newline c = code c == 10 || code c == 13

abbrev to_mode : Mode → Reading → Reading
to_mode m r = record { mode = m; field = r.field; fields = r.fields }

abbrev save : Mode → Reading → Reading
save m r = record { mode = m; field = ""; fields = r.fields ++ r.field ∷ [] }

abbrev add : Mode → Char → Reading → Reading
add m c r = record { mode = m; field = r.field <> one c; fields = r.fields }

-- a character outside quotes
abbrev plain : Char → Char → Reading → Reading
plain delim c r =
    if is_newline c
    then save eat_crnl r
    else if char_eq c delim
    then save start_field r
    else add in_field c r

abbrev opening : Char → Char → Reading → Reading
opening delim c r = if char_eq c "\"" then to_mode in_quoted_field r else plain delim c r

abbrev read_mode : Mode → Char → Char → Reading → Option Reading
read_mode start_record delim c r =
    some (if is_newline c then to_mode eat_crnl r else opening delim c r)
read_mode start_field delim c r = some (opening delim c r)
read_mode in_field delim c r = some (plain delim c r)
read_mode in_quoted_field delim c r =
    some (if char_eq c "\"" then to_mode quote_in_quoted_field r else add in_quoted_field c r)
read_mode quote_in_quoted_field delim c r =
    some (if char_eq c "\"" then add in_quoted_field c r else plain delim c r)
read_mode eat_crnl delim c r = if is_newline c then some r else none

-- one character; `none` for the csv.Error
unfoldable pub read_char : Char → Char → Reading → Option Reading
read_char delim c r = read_mode r.mode delim c r

-- the end of a line: the record that is complete, if it is, and what is read next
abbrev end_mode : Mode → Reading → List (List String) × Reading
end_mode start_record r = (r.fields ∷ [], fresh)
end_mode start_field r = ((r.fields ++ r.field ∷ []) ∷ [], fresh)
end_mode in_field r = ((r.fields ++ r.field ∷ []) ∷ [], fresh)
end_mode in_quoted_field r = ([], r)
end_mode quote_in_quoted_field r = ((r.fields ++ r.field ∷ []) ∷ [], fresh)
end_mode eat_crnl r = (r.fields ∷ [], fresh)

unfoldable pub end_line : Reading → List (List String) × Reading
end_line r = end_mode r.mode r

-- the end of the text, at which an open quote is closed
abbrev end_text : Mode → Reading → List (List String)
end_text start_record r = []
end_text start_field r = (r.fields ++ r.field ∷ []) ∷ []
end_text in_field r = (r.fields ++ r.field ∷ []) ∷ []
end_text in_quoted_field r = (r.fields ++ r.field ∷ []) ∷ []
end_text quote_in_quoted_field r = (r.fields ++ r.field ∷ []) ∷ []
end_text eat_crnl r = r.fields ∷ []

abbrev pub behind : List (List String) → Option (List (List String)) → Option (List (List String))
behind rows none = none
behind rows (some more) = some (rows ++ more)

unfoldable pub read_csv : Char → Reading → String → Option (List (List String))
unfolding read_char end_line
read_csv delim r String.[] = some (end_text r.mode r)
read_csv delim r (String.◌∷◌ c s) = elim (read_char delim c r) [
  | none ↦ none
  | some next ↦
      let (rows, after) = if code c == 10 then end_line next else ([], next) in
      behind rows (read_csv delim after s)
]

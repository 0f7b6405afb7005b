-- ===== src/Mapping/Claude.antt =====
-- python/src/inspector/mapping/tier3_llm.py. The model service and `json.loads` are parameters, and so is `str` of a
-- number, a list or a dict. Confidences are thousandths; the latencies are not kept.
pub mod Calls
pub mod Answers
pub mod Results
pub mod Attempts
use Prim.Native.Nat.{◌^◌}
use harbormaster.Prelude.{
  ℕ, zero, suc, ◌+◌, ◌*◌, Bool, true, false, not, ◌&&◌, Option, none, some, List, [], ◌∷◌, ◌++◌,
  map, take, is_empty, is_some, String, ◌<>◌, string_eq, ◌==◌, contains, leb, if◌then◌else◌,
}
use harbormaster.Prelude.Int.{ℤ, pos, negsuc}
use harbormaster.Prelude.Floats.{is_float}
use harbormaster.Prelude.Text.{
  char_eq, is_blank, size, strip, starts_with, take_chars, drop_chars, join, repr, round_div, lower,
}
use harbormaster.Prelude.Dict.{Dict, lookup, values}
use harbormaster.Prelude.Sort.{sort, text_lt}
use harbormaster.Canonical.{mappable_fields}
use harbormaster.Json.{
  Json, null, truth, number, text, array, object, Items, Fields, items_of, get, str,
}
use harbormaster.Mapping.Numbers.{Decimal, finite, infinity, nan, decimal}
use harbormaster.Mapping.Tier3.{
  AdjudicationRequest, AdjudicatedField, AdjudicationResult, deterministic_fake,
}

abbrev pub default_model : String
default_model = "claude-sonnet-4-6"

abbrev pub max_attempts : ℕ
max_attempts = 2

abbrev pub max_model_confidence : ℕ
max_model_confidence = 850

pub record Usage : Type 0 where
  pub calls : ℕ
  pub input_tokens : ℕ
  pub output_tokens : ℕ
  pub cache_read_tokens : ℕ
  pub failures : ℕ

-- A block of the content: its type and its text.
pub record Block : Type 0 where
  pub block_type : String
  pub block_text : String

-- A response: its blocks, and the tokens for input, output and reads of the cache where it has a usage.
pub record Response : Type 0 where
  pub content : List Block
  pub usage : Option (ℕ × (ℕ × ℕ))

-- `json.loads`, with `none` for the JSONDecodeError, and `str` of what is no scalar.
pub record Decoder : Type 0 where
  pub loads : String → Option Json
  pub shown : Json → String

-- the number as thousandths, at most 850
abbrev pub thousandths : ℕ → ℤ → ℕ
thousandths c (pos n) =
    if leb max_model_confidence (c * 10 ^ n * 1000) then max_model_confidence else c * 10 ^ n * 1000
thousandths c (negsuc n) =
    if leb (max_model_confidence * 10 ^ (n + 1)) (c * 1000)
    then max_model_confidence
    else round_div (c * 1000) (10 ^ (n + 1))

-- `round(max(0.0, min(confidence, MAX_MODEL_CONFIDENCE)), 3)`
abbrev pub bounded : Decimal → ℕ
bounded nan = 0
bounded (infinity true) = 0
bounded (infinity false) = max_model_confidence
bounded (finite true c e) = 0
bounded (finite false c e) = thousandths c e

abbrev pub bounded_or : Option Decimal → ℕ
bounded_or none = 700
bounded_or (some d) = bounded d

-- `_clamp`. A text that `float` does not accept gives 0.7. An integer is taken to be one that a float can hold: on a larger
-- one the code raises OverflowError.
unfoldable pub clamp : Json → ℕ
unfolding round_div decimal is_float
clamp null = 700
clamp (truth true) = max_model_confidence
clamp (truth false) = 0
clamp (number s) = bounded_or (decimal s)
clamp (text s) = if is_float s then bounded_or (decimal s) else 700
clamp (array is) = 700
clamp (object fs) = 700

abbrev pub or_default : Json → Option Json → Json
or_default j none = j
or_default j (some k) = k

abbrev pub unresolved : String → String → AdjudicatedField
unresolved source rationale = record {
  source_field = source;
  canonical_field = none;
  confidence = 0;
  rationale = rationale;
}

abbrev pub resolved_to : String → String → ℕ → String → AdjudicatedField
resolved_to source canonical confidence rationale = record {
  source_field = source;
  canonical_field = some canonical;
  confidence = confidence;
  rationale = rationale;
}

abbrev pub or_declined : String → String
or_declined rationale = if is_blank rationale then "declined" else rationale

-- what is made of a proposed field
unfoldable pub judge : List String → String → String → ℕ → String → AdjudicatedField
judge taken source canonical confidence rationale =
    if not (contains mappable_fields canonical)
    then unresolved source
        ("proposed unknown canonical field " <> (repr canonical <> "; discarded"))
    else if contains taken canonical
    then unresolved source ("proposed " <> (canonical <> ", which is already assigned"))
    else resolved_to source canonical confidence rationale

-- `from` the first brace that opens, and up to the last one that closes
from_brace : String → Option String
from_brace String.[] = none
from_brace (String.◌∷◌ c s) = if char_eq c "{" then some (String.◌∷◌ c s) else from_brace s

to_last_brace : String → Option String
to_last_brace String.[] = none
to_last_brace (String.◌∷◌ c s) = elim (to_last_brace s) [
  | some r ↦ some (String.◌∷◌ c r)
  | none ↦ if char_eq c "}" then some (String.◌∷◌ c String.[]) else none
]

-- what stands in front of the next fence
before_fence : String → String
unfolding starts_with
before_fence String.[] = String.[]
before_fence (String.◌∷◌ c s) =
    if starts_with (String.◌∷◌ c s) "```" then String.[] else String.◌∷◌ c (before_fence s)

abbrev without_tag : String → String
without_tag s = if starts_with s "json" then drop_chars 4 s else s

-- the text without the fence of a code block
unfoldable pub unfenced : String → String
unfolding strip starts_with drop_chars before_fence
unfenced s =
    let cleaned = strip s in
    if starts_with cleaned "```" then without_tag (before_fence (drop_chars 3 cleaned)) else cleaned

abbrev fields_if_object : Option Json → Option Fields
fields_if_object (some (object fs)) = some fs
fields_if_object _ = none

infixl 5 ◌>>=◌
abbrev ◌>>=◌ {ℓ κ} : {A : Type ℓ} {B : Type κ} → Option A → (A → Option B) → Option B
none >>= f = none
some a >>= f = f a

-- `_json`
unfoldable pub payload_of : Decoder → String → Option Fields
unfolding unfenced from_brace to_last_brace
payload_of d s = do
  opened ← from_brace (unfenced s)
  document ← to_last_brace opened
  fields_if_object (d.loads document)

abbrev texts_of : List Block → List String
texts_of [] = []
texts_of (b ∷ bs) =
    let rest = texts_of bs in if b.block_type == "text" then b.block_text ∷ rest else rest

-- `_text`
unfoldable pub response_text : Response → String
unfolding strip join
response_text r = strip (join "\n" (texts_of r.content))

-- the proposed field, if there is one
abbrev pub canonical_of : Decoder → Option Json → Option String
canonical_of d none = none
canonical_of d (some null) = none
canonical_of d (some (text s)) = if is_blank s then none else some s
canonical_of d (some j) = some (str d.shown j)

abbrev pub proposed : List String → String → Option String → ℕ → String → AdjudicatedField
proposed taken source none confidence rationale = unresolved source (or_declined rationale)
proposed taken source (some canonical) confidence rationale =
    judge taken source canonical confidence rationale

abbrev pub text_at : Decoder → String → Fields → String
text_at d key fs = str d.shown (or_default (text "") (get key fs))

abbrev pub read_object :
    Decoder → List String → List String → Fields → String → Option AdjudicatedField
read_object d requested taken fs source =
    if contains requested source
    then some (
        proposed taken source (canonical_of d (get "canonical_field" fs))
          (clamp (or_default (number "0.7") (get "confidence" fs)))
          (take_chars 300 (text_at d "rationale" fs)))
    else none

-- the body of the loop over the items: no answer for what is no object, and for a column that nobody asked about
unfoldable pub read_item : Decoder → List String → List String → Json → Option AdjudicatedField
unfolding judge clamp get take_chars
read_item d requested taken (object fs) =
    read_object d requested taken fs (text_at d "source_field" fs)
read_item d requested taken null = none
read_item d requested taken (truth _) = none
read_item d requested taken (number _) = none
read_item d requested taken (text _) = none
read_item d requested taken (array _) = none

abbrev pub answer_taken : List String → Option AdjudicatedField → List String
answer_taken taken none = taken
answer_taken taken (some a) = elim a.canonical_field [ none ↦ taken | some f ↦ f ∷ taken ]

abbrev pub with_answer : Option AdjudicatedField → List AdjudicatedField → List AdjudicatedField
with_answer none l = l
with_answer (some a) l = a ∷ l

unfoldable pub read_items : Decoder → List String → List String → List Json → List AdjudicatedField
unfolding read_item
read_items d requested taken [] = []
read_items d requested taken (j ∷ js) =
    let answer = read_item d requested taken j in
    with_answer answer (read_items d requested (answer_taken taken answer) js)

-- what `for item in payload.get("fields", [])` runs over; `none` for the TypeError
abbrev pub iterated : Option Json → Option (List Json)
iterated none = some []
iterated (some (array is)) = some (items_of is)
iterated (some (object fs)) = some []
iterated (some (text s)) = some []
iterated (some null) = none
iterated (some (truth _)) = none
iterated (some (number _)) = none

-- the columns that no answer is about
abbrev pub sources_answered : List AdjudicatedField → List String
sources_answered [] = []
sources_answered (a ∷ l) = a.source_field ∷ sources_answered l

unfoldable pub unaddressed : List String → List String → List AdjudicatedField
unaddressed answered [] = []
unaddressed answered (h ∷ hs) =
    let rest = unaddressed answered hs in
    if contains answered h then rest else unresolved h "not addressed by the model" ∷ rest

abbrev pub completed : String → List String → List AdjudicatedField → Option AdjudicationResult
completed model headers [] = none
completed model headers (a ∷ l) =
    some
      (record { fields = (a ∷ l) ++ unaddressed (sources_answered (a ∷ l)) headers; model = model })

-- `None`, a result, or an exception
pub data Parsed : Type 0 where
  raised : Parsed
  refused : Parsed
  accepted : AdjudicationResult → Parsed

abbrev pub accepted_or : Option AdjudicationResult → Parsed
accepted_or none = refused
accepted_or (some r) = accepted r

abbrev pub parsed_items : Decoder → String → AdjudicationRequest → Option (List Json) → Parsed
parsed_items d model q none = raised
parsed_items d model q (some js) = accepted_or (
    completed model q.unresolved_headers (read_items d q.unresolved_headers (values q.resolved) js))

abbrev pub parsed_payload : Decoder → String → AdjudicationRequest → Option Fields → Parsed
parsed_payload d model q none = refused
parsed_payload d model q (some fs) = parsed_items d model q (iterated (get "fields" fs))

-- `_parse`
unfoldable pub parse : Decoder → String → Response → AdjudicationRequest → Parsed
unfolding response_text payload_of read_items unaddressed get
parse d model response q =
    let s = response_text response in
    if is_blank s then refused else parsed_payload d model q (payload_of d s)

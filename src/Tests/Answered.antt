-- ===== src/Tests/Answered.antt =====
-- An answer of the model, as it is read.
use harbormaster.Prelude.{
  ℕ, ◌≡◌, refl, some, none, [], ◌∷◌, String, if◌then◌else◌, ◌==◌, string_eq, nat_eq, Option,
}
use harbormaster.Prelude.Text.{
  strip, join, take_chars, drop_chars, starts_with, round_div, filter_chars, lower, all_chars,
}
use harbormaster.Json.{
  Json, null, number, text, array, object, no_items, item, no_fields, field, get,
}
use harbormaster.Mapping.Numbers.{decimal}
use harbormaster.Mapping.Tier3.{AdjudicationRequest, AdjudicatedField}
use harbormaster.Mapping.Claude.{
  Usage, Response, Decoder, parse, response_text, payload_of, unfenced, read_items, read_item,
  unaddressed, judge, clamp, default_model, max_attempts,
}
use harbormaster.Mapping.Claude.Calls.{adjudicate, attempts, attempt}
use harbormaster.Mapping.Claude.Attempts.{IsBounded, adjudicate-IsBounded}

abbrev asked : AdjudicationRequest
asked = record {
  client_id = "c1";
  client_name = "Client";
  source_hint = "";
  domain = "POSITION";
  template_fingerprint = "t1";
  unresolved_headers = "Clean Px" ∷ "Lots" ∷ "Memo" ∷ [];
  resolved = ("Qty", "quantity") ∷ [];
  samples = [];
}

abbrev proposal : String → Json → Json → Json
proposal source canonical confidence = object (
    field "source_field" (text source)
      (field "canonical_field" canonical (field "confidence" confidence no_fields)))

-- The first field is new, the second is taken, and the third is about a column that is not there.
abbrev answer : Json
answer = object (
    field "fields"
      (array (
        item (proposal "Clean Px" (text "settlement_price") (number "0.99")) (
          item (proposal "Lots" (text "quantity") (number "0.6"))
            (item (proposal "Other" (text "side") (number "0.9")) no_items))))
      no_fields)

abbrev decoder : Decoder
decoder = record { loads = λ s. some answer; shown = λ j. "" }

abbrev replied : Response
replied = record {
  content = record { block_type = "text"; block_text = "{}" } ∷ [];
  usage = some (1200, (80, 1000));
}

-- The first attempt fails.
abbrev service : ℕ → Option Response
service n = if n == 1 then none else some replied

abbrev unused : Usage
unused = record {
  calls = 0;
  input_tokens = 0;
  output_tokens = 0;
  cache_read_tokens = 0;
  failures = 0;
}

abbrev answered_with : String → Option String → ℕ → String → AdjudicatedField
answered_with source canonical confidence rationale = record {
  source_field = source;
  canonical_field = canonical;
  confidence = confidence;
  rationale = rationale;
}

second_attempt : adjudicate decoder default_model max_attempts service unused asked ≡ record {
  usage = record {
    calls = 1;
    input_tokens = 1200;
    output_tokens = 80;
    cache_read_tokens = 1000;
    failures = 1;
  };
  result = some (record {
    fields =
        answered_with "Clean Px" (some "settlement_price") 850 ""
        ∷ answered_with "Lots" none 0 "proposed quantity, which is already assigned"
        ∷ answered_with "Memo" none 0 "not addressed by the model"
        ∷ [];
    model = "claude-sonnet-4-6";
  });
}
unfolding adjudicate attempts attempt parse response_text payload_of unfenced read_items read_item
    unaddressed judge clamp get strip join take_chars drop_chars starts_with round_div decimal
    filter_chars lower all_chars
second_attempt = refl

-- Fields that are null instead of a list raise an exception that nothing catches.
fields_null :
    (adjudicate
      (record { loads = λ s. some (object (field "fields" null no_fields)); shown = λ j. "" })
      default_model
      max_attempts
      service
      unused
      asked).result
    ≡ none
unfolding adjudicate attempts attempt parse response_text payload_of unfenced get strip join
    starts_with
fields_null = refl

adjudicate-IsBounded_example :
    IsBounded asked max_attempts unused
      (adjudicate decoder default_model max_attempts service unused asked)
adjudicate-IsBounded_example =
    adjudicate-IsBounded decoder default_model max_attempts service unused asked

-- ===== src/Mapping/Claude/Calls.antt =====
-- `ClaudeAdjudicator.adjudicate` and its prompt: what the service answers to the n-th attempt is a parameter, `none` for
-- a failure of the transport. `raised` is the exception of an answer that cannot be iterated.
use harbormaster.Prelude.{
  ℕ, zero, suc, ◌+◌, Bool, Option, none, some, List, [], ◌∷◌, ◌++◌, map, take, is_empty, String,
  ◌<>◌, string_eq, ◌==◌, if◌then◌else◌,
}
use harbormaster.Prelude.Text.{is_blank, join, repr, lower}
use harbormaster.Prelude.Dict.{Dict, lookup}
use harbormaster.Prelude.Sort.{sort, text_lt}
use harbormaster.Canonical.{mappable_fields}
use harbormaster.Mapping.Tier3.{AdjudicationRequest, AdjudicationResult}
use harbormaster.Mapping.Claude.{
  Usage, Response, Decoder, Parsed, raised, refused, accepted, parse, unresolved,
}

-- `_declined`
abbrev pub declined : String → AdjudicationRequest → String → AdjudicationResult
declined model q reason = record {
  fields = map (λ h. unresolved h reason) q.unresolved_headers;
  model = model;
}

-- the counters behind a failure, and behind a response
abbrev pub failed : Usage → Usage
failed u = record u { failures = u.failures + 1 }

abbrev pub answered : Usage → Option (ℕ × (ℕ × ℕ)) → Usage
answered u none = record u { calls = u.calls + 1 }
answered u (some (input, (output, cached))) = record u {
  calls = u.calls + 1;
  input_tokens = u.input_tokens + input;
  output_tokens = u.output_tokens + output;
  cache_read_tokens = u.cache_read_tokens + cached;
}

-- what an attempt comes to: a result, an exception, or a reason to try again
pub data Attempt : Type 0 where
  finished : AdjudicationResult → Attempt
  crashed : Attempt
  again : String → Attempt

abbrev pub of_parsed : Parsed → Attempt
of_parsed raised = crashed
of_parsed refused = again "model output failed validation"
of_parsed (accepted r) = finished r

unfoldable pub attempt :
    Decoder → String → AdjudicationRequest → Usage → Option Response → Usage × Attempt
unfolding parse
attempt d model q u none = (failed u, again "model unavailable")
attempt d model q u (some r) = (answered u r.usage, of_parsed (parse d model r q))

-- the result, with `none` for an exception
pub record Outcome : Type 0 where
  pub usage : Usage
  pub result : Option AdjudicationResult

-- What follows an attempt when so many are left, the next of which is `more`.
abbrev pub concluded :
    String → AdjudicationRequest → (Usage → Outcome) → ℕ → Usage → Attempt → Outcome
concluded model q more rounds v (finished r) = record { usage = v; result = some r }
concluded model q more rounds v crashed = record { usage = v; result = none }
concluded model q more zero v (again reason) = record {
  usage = v;
  result = some (declined model q reason);
}
concluded model q more (suc _) v (again reason) = more v

-- The loop with `rounds` attempts left, of which the first has the number `n`.
unfoldable pub attempts :
    Decoder → String → AdjudicationRequest → (ℕ → Option Response) → ℕ → ℕ → Usage → Outcome
unfolding attempt
attempts d model q service n zero u = record {
  usage = u;
  result = some (declined model q "exhausted attempts");
}
attempts d model q service n (suc rounds) u =
    let (v, outcome) = attempt d model q u (service n) in
    concluded model q (attempts d model q service (suc n) rounds) rounds v outcome

-- `adjudicate`, with as many attempts as the adjudicator was given
unfoldable pub adjudicate :
    Decoder → String → ℕ → (ℕ → Option Response) → Usage → AdjudicationRequest → Outcome
unfolding attempts
adjudicate d model tries service u q =
    if is_empty q.unresolved_headers
    then record { usage = u; result = some (record { fields = []; model = model }) }
    else attempts d model q service 1 tries u

abbrev or_text : String → String → String
or_text s t = if is_blank s then t else s

abbrev pair_lt : String × String → String × String → Bool
pair_lt (a, b) (c, d) = if a == c then text_lt b d else text_lt a c

abbrev settled : List (String × String) → List String
settled [] = []
settled ((k, v) ∷ l) = (k <> (" -> " <> v)) ∷ settled l

abbrev settled_lines : Dict String String → List String
settled_lines resolved =
    if is_empty resolved
    then []
    else "Already mapped (do not reuse these canonical fields):"
      ∷ join ", " (settled (sort pair_lt resolved))
      ∷ ""
      ∷ []

abbrev or_nil : Option (List String) → List String
or_nil none = []
or_nil (some l) = l

abbrev shown_samples : List String → String
shown_samples [] = "no samples"
shown_samples (s ∷ r) = join ", " (map repr (s ∷ r))

abbrev column_line : Dict String (List String) → String → String
column_line samples h = "- " <> (h <> (": " <> shown_samples (take 5 (or_nil (lookup h samples)))))

-- `_build_prompt`
unfoldable pub build_prompt : AdjudicationRequest → String
unfolding join sort repr lookup
build_prompt q = join "\n" (
    ("Client: " <> or_text q.client_name q.client_id)
    ∷ ("Venue: " <> or_text q.source_hint "unknown")
    ∷ ("Report type: " <> q.domain)
    ∷ ""
    ∷ "Canonical fields available:"
    ∷ join ", " (sort text_lt mappable_fields)
    ∷ ""
    ∷ (settled_lines q.resolved
        ++ "Unresolved columns, with sample values:"
          ∷ map (column_line q.samples) q.unresolved_headers))

pub data Adjudicator : Type 0 where
  claude fake : Adjudicator

-- `build_adjudicator`, with what `HM_ADJUDICATOR` holds
unfoldable pub build_adjudicator : Option String → Option String → Adjudicator
unfolding lower
build_adjudicator kind environment =
    let chosen : String = elim kind [ none ↦ "" | some k ↦ k ] in
    let configured : String = elim environment [ none ↦ "fake" | some e ↦ e ] in
    if lower (or_text chosen configured) == "claude" then claude else fake

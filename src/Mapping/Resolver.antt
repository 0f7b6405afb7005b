-- ===== src/Mapping/Resolver.antt =====
-- python/src/inspector/mapping/resolver.py: the escalation from tier to tier. The adjudicator is a parameter;
-- the cache is that in memory.
pub mod Visits
pub mod Escalation
use harbormaster.Prelude.{
  ℕ, zero, suc, ◌+◌, Bool, true, false, not, ◌&&◌, ◌||◌, Option, none, some, List, [], ◌∷◌, ◌++◌,
  take, is_some, is_empty, String, ◌<>◌, Eq, string_eq, ◌==◌, contains, ltb, if◌then◌else◌,
}
use harbormaster.Prelude.Text.{is_blank}
use harbormaster.Prelude.Dict.{Dict, lookup, from_pairs}
use harbormaster.Canonical.{Tier, local, llm}
use harbormaster.ValueDate.Columns.{truthy}
use harbormaster.Mapping.{Table, column, Mapping, fields_of}
use harbormaster.Mapping.Tier1.{map_table}
use harbormaster.Mapping.Tier2.{Signals, LocalMatch, match_local}
use harbormaster.Mapping.Tier3.{
  AdjudicationRequest, AdjudicatedField, AdjudicationResult, InMemoryCache, as_map, get, put,
}

abbrev pub sample_rows : ℕ
sample_rows = 5

pub record ResolutionOutcome : Type 0 where
  pub mappings : List Mapping
  pub tier2_used : ℕ
  pub tier3_used : ℕ
  pub cache_hit : Bool
  pub degraded : Bool
  pub promotable : Option (Dict String String)

-- The mappings after a loop over the unresolved ones, and how many of those it resolved.
pub record Visit : Type 0 where
  pub mappings : List Mapping
  pub used : ℕ

-- The body of a loop `for m in unresolved`, which changes `m` by what `_claimed(mappings)` is at that
-- moment: `before` are the fields of the mappings in front of it, as they are by now.
unfoldable pub visited :
    (List String → Mapping → Mapping) → List String → Mapping → List Mapping → Mapping
visited f before m ms = if is_some m.canonical_field then m else f (before ++ fields_of (m ∷ ms)) m

-- whether the loop gave the mapping its field
abbrev counted : Mapping → Mapping → ℕ
counted m n = if is_some m.canonical_field then 0 else if is_some n.canonical_field then 1 else 0

unfoldable pub visit : (List String → Mapping → Mapping) → List String → List Mapping → Visit
visit f before [] = record { mappings = []; used = 0 }
visit f before (m ∷ ms) =
    let n = visited f before m ms in
    let rest = visit f (before ++ fields_of (n ∷ [])) ms in
    record { mappings = n ∷ rest.mappings; used = rest.used + counted m n }

abbrev pub with_evidence : Mapping → String → Mapping
with_evidence m text = record m { evidence = text }

abbrev pub assigned : Mapping → String → Tier → ℕ → String → Mapping
assigned m field tier confidence evidence = record {
  source_field = m.source_field;
  canonical_field = some field;
  tier = tier;
  confidence = confidence;
  evidence = evidence;
}

-- `_apply`: what was learned for this layout before. Its set `taken` is what is claimed at the moment.
unfoldable pub recall : List String → Mapping → Option String → Mapping
recall claimed m none = m
recall claimed m (some field) =
    if contains claimed field
    then m
    else assigned m field llm 800 "cached adjudication for this template"

unfoldable pub from_cache : Dict String String → List String → Mapping → Mapping
from_cache learned claimed m = recall claimed m (truthy (lookup m.source_field learned))

-- `_run_tier2`
unfoldable pub take_match : Mapping → LocalMatch → Mapping
take_match m found = elim found.canonical_field [
  | none ↦ with_evidence m (m.evidence <> ("; tier2: " <> found.evidence))
  | some field ↦ assigned m field local found.confidence found.evidence
]

unfoldable pub from_tier2 : Signals → List String → Mapping → Mapping
from_tier2 s claimed m = take_match m (match_local s m.source_field claimed)

-- `_run_tier3`
unfoldable pub take_answer : List String → Mapping → String → AdjudicatedField → Mapping
take_answer claimed m model answer = elim answer.canonical_field [
  | none ↦ with_evidence m (m.evidence <> "; tier3 declined")
  | some field ↦
      if contains claimed field
      then with_evidence m
          (m.evidence <> ("; tier3 proposed " <> (field <> " but it was already assigned")))
      else assigned m field llm answer.confidence (model <> (": " <> answer.rationale))
]

unfoldable pub hear : List String → Mapping → String → Option AdjudicatedField → Mapping
hear claimed m model none = with_evidence m (m.evidence <> "; tier3 declined")
hear claimed m model (some answer) = take_answer claimed m model answer

unfoldable pub from_tier3 : AdjudicationResult → List String → Mapping → Mapping
from_tier3 r claimed m = hear claimed m r.model (lookup m.source_field (as_map r))

abbrev resolved_pairs : List Mapping → List (String × String)
resolved_pairs [] = []
resolved_pairs (m ∷ ms) = elim m.canonical_field [
  | none ↦ resolved_pairs ms
  | some field ↦ (m.source_field, field) ∷ resolved_pairs ms
]

abbrev unresolved_headers : List Mapping → List String
unresolved_headers [] = []
unresolved_headers (m ∷ ms) = elim m.canonical_field [
  | none ↦ m.source_field ∷ unresolved_headers ms
  | some _ ↦ unresolved_headers ms
]

abbrev samples_of : Table → List String → List (String × List String)
samples_of t [] = []
samples_of t (h ∷ hs) = (h, take sample_rows (column t h)) ∷ samples_of t hs

-- What `resolve` is told of the file.
pub record Context : Type 0 where
  pub client_id : String
  pub client_name : String
  pub source_hint : String
  pub domain : String
  pub template_fingerprint : String

abbrev pub request : Context → Table → List Mapping → AdjudicationRequest
request x t ms = record {
  client_id = x.client_id;
  client_name = x.client_name;
  source_hint = x.source_hint;
  domain = x.domain;
  template_fingerprint = x.template_fingerprint;
  unresolved_headers = unresolved_headers ms;
  resolved = from_pairs (resolved_pairs ms) [];
  samples = from_pairs (samples_of t (unresolved_headers ms)) [];
}

is_llm : Tier → Bool
is_llm llm = true
is_llm _ = false

-- `learned`
unfoldable pub learned_pairs : List Mapping → List (String × String)
unfolding is_llm
learned_pairs [] = []
learned_pairs (m ∷ ms) =
    let rest = learned_pairs ms in
    elim (truthy m.canonical_field) [
      | none ↦ rest
      | some field ↦ if is_llm m.tier then (m.source_field, field) ∷ rest else rest
    ]

-- The resolver: the overrides, the libraries of tier 2, the adjudicator if there is one, and the cache.
pub record TieredResolver : Type 0 where
  pub field_overrides : Dict String String
  pub signals : Signals
  pub adjudicator : Option (AdjudicationRequest → AdjudicationResult)
  pub cache : InMemoryCache

-- `template_fingerprint and client_id`
abbrev has_key : Context → Bool
has_key x = not (is_blank x.template_fingerprint) && not (is_blank x.client_id)

abbrev pub cached : InMemoryCache → Context → Option (Dict String String) × InMemoryCache
cached c x = if has_key x then get c x.template_fingerprint x.client_id else (none, c)

-- `if cached`: a dict that is there and not empty
abbrev pub as_hit : Option (Dict String String) → Option (Dict String String)
as_hit none = none
as_hit (some d) = if is_empty d then none else some d

unfoldable pub apply_cached : Option (Dict String String) → List Mapping → List Mapping
apply_cached none ms = ms
apply_cached (some learned) ms = (visit (from_cache learned) [] ms).mappings

unfoldable pub run_tier3 :
    Option (AdjudicationRequest → AdjudicationResult) → AdjudicationRequest → List Mapping → Visit
run_tier3 none q ms = record { mappings = ms; used = 0 }
run_tier3 (some adjudicate) q ms =
    if is_empty q.unresolved_headers
    then record { mappings = ms; used = 0 }
    else visit (from_tier3 (adjudicate q)) [] ms

-- no third tier behind a hit in the cache
abbrev pub asked :
    TieredResolver → Option (Dict String String) → Option (AdjudicationRequest → AdjudicationResult)
asked r none = r.adjudicator
asked r (some _) = none

abbrev learned : List Mapping → Dict String String
learned ms = from_pairs (learned_pairs ms) []

-- `resolve`: the outcome, and the resolver with the cache as it is left
unfoldable pub resolve : TieredResolver → Context → Table → ResolutionOutcome × TieredResolver
resolve r x t =
    let (found, cache) = cached r.cache x in
    let hit : Option (Dict String String) = as_hit found in
    let second =
      visit (from_tier2 r.signals) [] (apply_cached hit (map_table r.field_overrides t)) in
    let third = run_tier3 (asked r hit) (request x t second.mappings) second.mappings in
    let learns = ltb 0 third.used && has_key x in
    (
      record {
        mappings = third.mappings;
        tier2_used = second.used;
        tier3_used = third.used;
        cache_hit = is_some hit;
        degraded = not r.signals.available;
        promotable = if learns then some (learned third.mappings) else none;
      },
      record r {
        cache =
            if learns
            then put cache x.template_fingerprint x.client_id (learned third.mappings)
            else cache;
      },
    )

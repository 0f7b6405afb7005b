-- ===== src/Confidence.antt =====
-- python/src/inspector/confidence.py: one score out of the three judgements, and the disposition. Confidences
-- of the parts are thousandths; the coverage, the score and the thresholds are ten thousandths.
pub mod Dispatch
pub mod Caution
use harbormaster.Prelude.{
  ℕ, zero, suc, ◌+◌, ◌*◌, Bool, true, false, not, ◌&&◌, Option, none, some, List, [], ◌∷◌, ◌++◌,
  is_empty, String, ◌<>◌, Eq, nat_eq, string_eq, ◌==◌, contains, ltb, leb, if◌then◌else◌,
}
use harbormaster.Prelude.Text.{
  is_blank, lower, has_infix, starts_with, join, repr, round_div, fixed_two,
}
use harbormaster.Prelude.Dict.{Dict, lookup, from_pairs}
use harbormaster.Canonical.{Domain, domain_of, weight, required_by_domain}
use harbormaster.Attribution.{Attribution}
use harbormaster.ValueDate.Columns.{truthy}
use harbormaster.ValueDate.Resolve.{
  Method, content_explicit, content_inferred, filename, arrival_minus_calendar, llm_adjudicated,
  human, Resolution,
}
use harbormaster.Mapping.{Mapping}

pub data Disposition : Type 0 where
  dispatched quarantined rejected : Disposition

-- `_threshold`, from the number that the environment holds, if it holds one that is not negative
abbrev pub threshold : Option ℕ → ℕ → ℕ
threshold none default = default
threshold (some value) default = if leb value 10000 then value else default

-- `HM_CONF_DISPATCH` and `HM_CONF_QUARANTINE`
pub record Environment : Type 0 where
  pub conf_dispatch : Option ℕ
  pub conf_quarantine : Option ℕ

abbrev pub dispatch_threshold : Environment → ℕ
dispatch_threshold e = threshold e.conf_dispatch 8500

abbrev pub quarantine_threshold : Environment → ℕ
quarantine_threshold e = threshold e.conf_quarantine 6000

pub record Score : Type 0 where
  pub overall : ℕ
  pub client : ℕ
  pub value_date : ℕ
  pub mapping_coverage : ℕ
  pub disposition : Disposition
  pub reasons : List String
  pub unmapped_required : List String

-- `{m.canonical_field: m for m in mappings if m.canonical_field}`
abbrev pub entry : Option String → Mapping → List (String × Mapping) → List (String × Mapping)
entry none m r = r
entry (some f) m r = (f, m) ∷ r

abbrev pub by_field : List Mapping → List (String × Mapping)
by_field [] = []
by_field (m ∷ ms) = entry (truthy m.canonical_field) m (by_field ms)

unfoldable pub resolved_fields : List Mapping → Dict String Mapping
resolved_fields ms = from_pairs (by_field ms) []

-- `total_weight`, `earned` (in thousandths) and `missing` of the loop over the required fields
pub record Coverage : Type 0 where
  pub total_weight : ℕ
  pub earned : ℕ
  pub missing : List String

abbrev pub add_field : String → Option Mapping → Coverage → Coverage
add_field field none c = record {
  total_weight = weight field + c.total_weight;
  earned = c.earned;
  missing = field ∷ c.missing;
}
add_field field (some m) c = record {
  total_weight = weight field + c.total_weight;
  earned = weight field * m.confidence + c.earned;
  missing = c.missing;
}

unfoldable pub cover : Dict String Mapping → List String → Coverage
cover resolved [] = record { total_weight = 0; earned = 0; missing = [] }
cover resolved (field ∷ fields) = add_field field (lookup field resolved) (cover resolved fields)

-- `mapping_coverage` of a domain; with nothing required there is nothing missing
unfoldable pub coverage_of : Coverage → ℕ
coverage_of c = if c.total_weight == 0 then 10000 else round_div (c.earned * 10) c.total_weight

abbrev pub covered : List Mapping → Domain → Coverage
covered ms d = cover (resolved_fields ms) (required_by_domain d)

abbrev pub method_text : Method → String
method_text content_explicit = "CONTENT_EXPLICIT"
method_text content_inferred = "CONTENT_INFERRED"
method_text filename = "FILENAME"
method_text arrival_minus_calendar = "ARRIVAL_MINUS_CALENDAR"
method_text llm_adjudicated = "LLM_ADJUDICATED"
method_text human = "HUMAN"

abbrev pub date_confidence : Resolution → ℕ
date_confidence v = elim v.resolved [ none ↦ 0 | some _ ↦ v.confidence ]

-- The weights are 0.35, 0.35 and 0.30.
unfoldable pub overall_of : ℕ → ℕ → ℕ → ℕ
overall_of client_conf date_conf coverage =
    round_div (35 * client_conf + 35 * date_conf + 3 * coverage) 10

client_reasons : Attribution → List String
unfolding join
client_reasons a = elim a.client_id [
  | none ↦ ("client could not be determined: " <> join "; " a.evidence) ∷ []
  | some c ↦
      if a.conflict
      then ("conflicting evidence for client " <> (c <> (": " <> join "; " a.evidence))) ∷ []
      else []
]

date_reasons : Resolution → List String
unfolding fixed_two
date_reasons v = elim v.resolved [
  | none ↦ "value date could not be determined" ∷ []
  | some _ ↦
      (if v.mismatch_flagged then ("value-date disagreement: " <> v.notes) ∷ [] else [])
      ++ (if ltb v.confidence 700
          then ("value date rests on weak evidence ("
              <> (method_text v.method
                  <> (", confidence " <> (fixed_two v.confidence 1000 <> ")"))))
            ∷ []
          else [])
]

missing_reasons : String → List String → List String
unfolding repr
missing_reasons domain [] = []
missing_reasons domain (f ∷ fs) =
    ("required field " <> (repr f <> (" for domain " <> (domain <> " was not mapped"))))
    ∷ missing_reasons domain fs

weak_reasons : List String → List Mapping → List String
unfolding repr
weak_reasons required [] = []
weak_reasons required (m ∷ ms) =
    let rest = weak_reasons required ms in
    elim (truthy m.canonical_field) [
      | none ↦ rest
      | some f ↦
          if contains required f && ltb m.confidence 700
          then (f
              <> (" mapped from "
                  <> (repr m.source_field <> (" on weak evidence: " <> m.evidence))))
            ∷ rest
          else rest
    ]

price_reasons : List Mapping → List String
unfolding repr lower has_infix
price_reasons [] = []
price_reasons (m ∷ ms) =
    let rest = price_reasons ms in
    elim m.canonical_field [
      | some _ ↦ rest
      | none ↦
          if has_infix (lower m.evidence) "price"
          then ("price column " <> (repr m.source_field <> (" left unassigned: " <> m.evidence)))
            ∷ rest
          else rest
    ]

disagreements : List String → List String
unfolding starts_with
disagreements [] = []
disagreements (r ∷ rs) =
    let rest = disagreements rs in
    if starts_with r "value-date disagreement" then r ∷ rest else rest

unfoldable pub reasons_of :
    Attribution → Resolution → List Mapping → Domain → String → List String → List String
unfolding client_reasons date_reasons missing_reasons weak_reasons price_reasons
reasons_of a v ms d domain missing =
    client_reasons a
    ++ (date_reasons v
        ++ (missing_reasons domain missing
            ++ (weak_reasons (required_by_domain d) ms ++ price_reasons ms)))

-- `_route`
unfoldable pub route : Environment → ℕ → Option String → Bool → List String → Disposition
route e overall none dated missing =
    if leb (quarantine_threshold e) (2 * overall) then quarantined else rejected
route e overall (some c) false missing =
    if leb (quarantine_threshold e) (2 * overall) then quarantined else rejected
route e overall (some c) true (f ∷ missing) = quarantined
route e overall (some c) true [] =
    if leb (dispatch_threshold e) overall
    then dispatched
    else if leb (quarantine_threshold e) overall
    then quarantined
    else rejected

abbrev pub is_dated : Resolution → Bool
is_dated v = elim v.resolved [ none ↦ false | some _ ↦ true ]

-- A dispatched arrival keeps the disagreement of its value date only.
unfoldable pub kept_reasons : Disposition → List String → List String
unfolding disagreements
kept_reasons dispatched reasons = disagreements reasons
kept_reasons quarantined reasons = reasons
kept_reasons rejected reasons = reasons

-- `compose` for a domain
unfoldable pub compose_for :
    Environment → Attribution → Resolution → List Mapping → Domain → String → Score
compose_for e a v ms d domain =
    let c = covered ms d in
    let overall = overall_of a.confidence (date_confidence v) (coverage_of c) in
    let way = route e overall a.client_id (is_dated v) c.missing in
    record {
      overall = overall;
      client = a.confidence;
      value_date = date_confidence v;
      mapping_coverage = coverage_of c;
      disposition = way;
      reasons = kept_reasons way (reasons_of a v ms d domain c.missing);
      unmapped_required = c.missing;
    }

-- `compose`; `none` for the ValueError of a text that is no domain
unfoldable pub compose :
    Environment → Attribution → Resolution → List Mapping → String → Option Score
compose e a v ms domain = elim (domain_of domain) [
  | none ↦ none
  | some d ↦ some (compose_for e a v ms d domain)
]

-- ===== src/Confidence/Caution.antt =====
-- Weak evidence of one part keeps an arrival from dispatch, however good the other parts are.
use native.Mathlib.Nat.{mul-le-mul_left}
use mathlib.Core.Path.{subst}
use mathlib.Core.Option.{some-injective}
use harbormaster.Prelude.{
  ℕ, ◌+◌, ◌*◌, ◌≤◌, ◌<◌, ◌≡◌, ◌≢◌, sym, ap, ◌∙◌, inl, inr, false, Option, none, some, List, [], ◌∷◌,
  All, String, nat_eq, string_eq, ◌==◌, arith, Option-cases, Bool-cases, if_true, if_false,
}
use harbormaster.Prelude.Text.{round_div}
use harbormaster.Prelude.Rounding.{round_div-share}
use harbormaster.Prelude.Dict.{Dict, lookup, from_pairs, insert, lookup-insert, lookup-nil}
use harbormaster.Canonical.{Domain, domain_of, weight, required_by_domain}
use harbormaster.Attribution.{Attribution, attribute}
use harbormaster.Attribution.Verdict.{attribute-IsCautious}
use harbormaster.Registry.{Registry}
use harbormaster.ValueDate.Columns.{Row, truthy}
use harbormaster.ValueDate.Resolve.{
  Method, content_explicit, content_inferred, filename, arrival_minus_calendar, llm_adjudicated,
  human, Resolution, Request, resolve,
}
use harbormaster.ValueDate.Resolve.Business.{conf_of, resolve-confidence}
use harbormaster.Mapping.{Mapping}
use harbormaster.Confidence.{
  dispatched, threshold, Environment, Score, Coverage, entry, by_field, cover, coverage_of, covered,
  resolved_fields, date_confidence, overall_of, compose_for, compose,
}
use harbormaster.Confidence.Dispatch.{compose-compose_for, compose-dispatched}

-- No mapping is surer than certain.
abbrev pub IsBounded : List Mapping → Type 0
IsBounded ms = All (λ m. m.confidence ≤ 1000) ms

abbrev AllBounded : Dict String Mapping → Type 0
AllBounded d = (f : String) (m : Mapping) → lookup f d ≡ some m → m.confidence ≤ 1000

insert-AllBounded :
    (f : String) (m : Mapping) (d : Dict String Mapping)
    → m.confidence ≤ 1000
    → AllBounded d
    → AllBounded (insert f m d)
insert-AllBounded f m d le bounded g n found =
    let at_g = sym (lookup-insert g f m d) ∙ found in
    elim (Bool-cases (g == f)) [
      | inl same ↦
          subst (λ x. x.confidence ≤ 1000)
            (some-injective m n (sym (if_true (g == f) m (lookup g d) same) ∙ at_g)) le
      | inr differ ↦ bounded g n (sym (if_false (g == f) m (lookup g d) differ) ∙ at_g)
    ]

entry-AllBounded :
    (o : Option String) (m : Mapping) (r : List (String × Mapping)) (d : Dict String Mapping)
    → m.confidence ≤ 1000
    → AllBounded d
    → ((d' : Dict String Mapping) → AllBounded d' → AllBounded (from_pairs r d'))
    → AllBounded (from_pairs (entry o m r) d)
unfolding from_pairs
entry-AllBounded none m r d le bounded more = more d bounded
entry-AllBounded (some f) m r d le bounded more =
    more (insert f m d) (insert-AllBounded f m d le bounded)

by_field-AllBounded :
    (ms : List Mapping) (d : Dict String Mapping)
    → IsBounded ms
    → AllBounded d
    → AllBounded (from_pairs (by_field ms) d)
unfolding from_pairs
by_field-AllBounded [] d _ bounded = bounded
by_field-AllBounded (m ∷ ms) d (le, les) bounded =
    entry-AllBounded (truthy m.canonical_field) m (by_field ms) d le bounded
      (λ d'. by_field-AllBounded ms d' les)

cover-le :
    (resolved : Dict String Mapping) (fields : List String)
    → AllBounded resolved
    → (cover resolved fields).earned ≤ (cover resolved fields).total_weight * 1000
unfolding cover
cover-le resolved [] bounded = omega arith
cover-le resolved (f ∷ fields) bounded = elim (Option-cases (lookup f resolved)) [
  | inl missing ↦ rw missing (omega (arith, cover-le resolved fields bounded))
  | inr (m, found) ↦ rw found (
      omega
        (arith, cover-le resolved fields bounded, mul-le-mul_left (weight f) (bounded f m found)))
]

coverage_of-le : (c : Coverage) → c.earned ≤ c.total_weight * 1000 → coverage_of c ≤ 10000
unfolding coverage_of
coverage_of-le c le = elim (Bool-cases (c.total_weight == 0)) [
  | inl empty ↦ rw empty (omega arith)
  | inr there ↦
      rw there
        (round_div-share (c.earned * 10) c.total_weight 10000 (ground arith) (omega (arith, le)))
]

below_default : (a v c : ℕ) → 35 * a + 35 * v ≤ 53900 → c ≤ 10000 → overall_of a v c < 8500
unfolding overall_of round_div
below_default a v c parts le = ground arith

coverage-le : (ms : List Mapping) (d : Domain) → IsBounded ms → coverage_of (covered ms d) ≤ 10000
unfolding resolved_fields
coverage-le ms d bounded = coverage_of-le (covered ms d) (
    cover-le (resolved_fields ms) (required_by_domain d) (
      by_field-AllBounded ms [] bounded
        (λ f m found. cc (sym (lookup-nil {V = Mapping} f) ∙ found))))

date_confidence-le : (v : Resolution) (n : ℕ) → v.confidence ≤ n → date_confidence v ≤ n
date_confidence-le v n le = elim (Option-cases v.resolved) [
  | inl undated ↦ rw undated (omega arith)
  | inr (day, found) ↦ rw found le
]

-- At the default threshold, and if the mappings are bounded, an arrival whose client and date are too weak
-- together is not dispatched.
weak_parts :
    (e : Environment) (a : Attribution) (v : Resolution) (ms : List Mapping) (domain : String)
    (d : Domain) (s : Score)
    → domain_of domain ≡ some d
    → compose e a v ms domain ≡ some s
    → e.conf_dispatch ≡ none
    → IsBounded ms
    → 35 * a.confidence + 35 * date_confidence v ≤ 53900
    → s.disposition ≢ dispatched
unfolding compose_for
weak_parts e a v ms domain d s known is default bounded weak sent =
    let (_, _, _, enough) = compose-dispatched e a v ms domain d s known is sent in
    let made = compose-compose_for e a v ms domain d s known is in
    let low = below_default a.confidence (date_confidence v) _ weak (coverage-le ms d bounded) in
    absurd (
      omega (
        arith,
        low,
        subst (λ o. threshold o 8500 ≤ s.overall) default enough,
        ap (λ t. t.overall) made,
      ))

conf_of-le : (m : Method) → conf_of m ≤ 970
conf_of-le content_explicit = omega arith
conf_of-le content_inferred = omega arith
conf_of-le filename = omega arith
conf_of-le arrival_minus_calendar = omega arith
conf_of-le llm_adjudicated = omega arith
conf_of-le human = omega arith

-- A file whose evidence for its client conflicts, and a file whose value date rests on its arrival only,
-- is not dispatched at the default threshold, whatever its columns, if no mapping is surer than certain.
pub compose-caution :
    (name : String) (headers : List String) (rows : List Row) (r : Registry) (q : Request)
    (v : Resolution) (e : Environment) (ms : List Mapping) (domain : String) (d : Domain)
    (s : Score)
    → resolve q ≡ some v
    → domain_of domain ≡ some d
    → compose e (attribute name headers rows r) v ms domain ≡ some s
    → e.conf_dispatch ≡ none
    → IsBounded ms
    → s.disposition ≡ dispatched
    → ((attribute name headers rows r).conflict ≡ false) × (v.method ≢ arrival_minus_calendar)
compose-caution name headers rows r q v e ms domain d s found known is default bounded sent =
    let a = attribute name headers rows r in
    let (doubt, _, sure) = attribute-IsCautious name headers rows r in
    let dated = resolve-confidence q v found in
    let low = weak_parts e a v ms domain d s known is default bounded in
    (
      elim (Bool-cases a.conflict) [
        | inl conflict ↦
            let date = date_confidence-le v 970 (omega (arith, dated, conf_of-le v.method)) in
            absurd (low (omega (arith, doubt conflict, date)) sent)
        | inr agreed ↦ agreed
      ],
      λ arrival.
          let date = date_confidence-le v 550 (omega (arith, dated, ap conf_of arrival)) in
          absurd (low (omega (arith, sure, date)) sent),
    )

-- ===== src/Mapping/Tier3/Fake.antt =====
-- What `DeterministicFake.adjudicate` of mapping/tier3.py may answer.
use harbormaster.Prelude.{
  ◌≡◌, refl, ap, ◌∙◌, inl, inr, Bool, true, false, not, ◌&&◌, none, some, List, [], ◌∷◌, all, find,
  is_empty, is_some, String, string_eq, ◌==◌, contains, if◌then◌else◌, arith, Bool-cases,
  Option-cases,
}
use harbormaster.Prelude.Text.{has_infix}
use harbormaster.Prelude.Dict.{Dict, values, lookup}
use harbormaster.Canonical.{normalize_header}
use harbormaster.ValueDate.Parse.{parse_date}
use harbormaster.Mapping.{has_duplicates}
use harbormaster.Mapping.Tier3.{
  AdjudicationRequest, AdjudicatedField, Decision, rules, by_rule, from_samples, cleaned, is_code,
  first_decision, or_nil, answered, with_taken, fake_fields, deterministic_fake,
}

-- The fields that answers give.
abbrev pub given_fields : List AdjudicatedField → List String
given_fields [] = []
given_fields (a ∷ l) = elim a.canonical_field [
  | none ↦ given_fields l
  | some f ↦ f ∷ given_fields l
]

-- A decision for a field that is not taken, or none.
abbrev IsFree : List String → Decision → Type 0
IsFree taken none = Unit
IsFree taken (some (f, _)) = contains taken f ≡ false

by_rule-IsFree :
    (taken : List String) (header : String) (r : List (List String × String))
    → IsFree taken (by_rule taken header r)
unfolding by_rule
by_rule-IsFree taken header [] = tt
by_rule-IsFree taken header ((tokens, f) ∷ r) = elim (Bool-cases (contains taken f)) [
  | inl used ↦ rw used (by_rule-IsFree taken header r)
  | inr free ↦ rw free (elim (Option-cases (find (has_infix header) tokens)) [
    | inl absent ↦ rw absent (by_rule-IsFree taken header r)
    | inr (token, there) ↦ rw there free
  ])
]

guarded-IsFree :
    (taken : List String) (a : Bool) (f why : String) (d : Decision)
    → IsFree taken d
    → IsFree taken (if a && not (contains taken f) then some (f, why) else d)
guarded-IsFree taken false f why d h = h
guarded-IsFree taken true f why d h = elim (Bool-cases (contains taken f)) [
  | inl used ↦ rw used h
  | inr free ↦ rw free free
]

from_samples-IsFree : (taken samples : List String) → IsFree taken (from_samples taken samples)
unfolding from_samples
from_samples-IsFree taken samples = elim (Bool-cases (is_empty (cleaned samples))) [
  | inl nothing ↦ rw nothing tt
  | inr there ↦ rw there (
      guarded-IsFree taken (all is_code (cleaned samples)) "currency"
        "sample values are three-letter uppercase codes"
        (if all (λ v. is_some (parse_date v)) (cleaned samples) && not (contains taken "trade_date")
          then some ("trade_date", "sample values parse as dates")
          else none)
        (guarded-IsFree taken (all (λ v. is_some (parse_date v)) (cleaned samples)) "trade_date"
          "sample values parse as dates" none tt))
]

first_decision-IsFree :
    (taken : List String) (d e : Decision)
    → IsFree taken d
    → IsFree taken e
    → IsFree taken (first_decision d e)
first_decision-IsFree taken none e h g = g
first_decision-IsFree taken (some p) e h g = h

-- Fields without duplicates, none of which is taken.
pub record IsApart (taken fields : List String) : Type 0 where
  pub distinct : has_duplicates fields ≡ false
  pub free : (f : String) → contains fields f ≡ true → contains taken f ≡ false

pub nil-IsApart : (taken : List String) → IsApart taken []
nil-IsApart taken = record { distinct = refl; free = λ f has. ground (arith, has) }

-- One more field, which is taken for those behind it.
pub cons-IsApart :
    (taken : List String) (f : String) (fields : List String)
    → contains taken f ≡ false
    → IsApart (f ∷ taken) fields
    → IsApart taken (f ∷ fields)
cons-IsApart taken f fields free h = record {
  distinct = elim (Bool-cases (contains fields f)) [
    | inl again ↦ ground (arith, h.free f again, string_eq.beq_iff f f)
    | inr new ↦ ground (arith, new, h.distinct)
  ];
  free = λ g has. elim (Bool-cases (g == f)) [
    | inl same ↦ cc (ap (contains taken) ((string_eq.beq_iff g f).0 same) ∙ free)
    | inr differ ↦ ground (arith, has, differ, h.free g)
  ];
}

answered-IsApart :
    (taken : List String) (header : String) (d : Decision) (l : List AdjudicatedField)
    → IsFree taken d
    → IsApart (with_taken taken d) (given_fields l)
    → IsApart taken (given_fields (answered header d ∷ l))
answered-IsApart taken header none l free h = h
answered-IsApart taken header (some (f, why)) l free h =
    cons-IsApart taken f (given_fields l) free h

fake_fields-IsApart :
    (samples : Dict String (List String)) (taken headers : List String)
    → IsApart taken (given_fields (fake_fields samples taken headers))
unfolding fake_fields
fake_fields-IsApart samples taken [] = nil-IsApart taken
fake_fields-IsApart samples taken (h ∷ hs) =
    let d : Decision =
      first_decision (by_rule taken (normalize_header h) rules)
        (from_samples taken (or_nil (lookup h samples))) in
    answered-IsApart taken h d (fake_fields samples (with_taken taken d) hs)
      (first_decision-IsFree taken _ _ (by_rule-IsFree taken _ rules) (from_samples-IsFree taken _))
      (fake_fields-IsApart samples (with_taken taken d) hs)

-- The deterministic adjudicator gives no field twice, and none that the earlier tiers had resolved.
pub deterministic_fake-IsApart :
    (q : AdjudicationRequest)
    → IsApart (values q.resolved) (given_fields (deterministic_fake q).fields)
unfolding deterministic_fake
deterministic_fake-IsApart q =
    fake_fields-IsApart q.samples (values q.resolved) q.unresolved_headers

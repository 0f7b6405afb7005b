-- ===== src/Confidence/Dispatch.antt =====
-- What is known of an arrival that is dispatched.
use mathlib.Core.Path.{subst}
use mathlib.Core.Option.{some-injective}
use harbormaster.Prelude.{
  ℕ, ◌≤◌, ◌≡◌, refl, sym, ap, ◌∙◌, inl, inr, Bool, true, false, Option, none, some, List, [], ◌∷◌,
  is_some, String, nat_eq, string_eq, option_eq, ◌||◌, ◌==◌, contains, arith, Bool-cases,
}
use harbormaster.Prelude.Text.{is_blank}
use harbormaster.Prelude.Dict.{Dict, lookup, from_pairs, insert, lookup-insert, lookup-nil}
use harbormaster.Canonical.{Domain, domain_of, required_by_domain}
use harbormaster.Attribution.{Attribution}
use harbormaster.ValueDate.Columns.{truthy}
use harbormaster.ValueDate.Resolve.{Resolution}
use harbormaster.Mapping.{Mapping}
use harbormaster.Confidence.{
  dispatched, Environment, dispatch_threshold, Score, cover, covered, entry, by_field,
  resolved_fields, route, is_dated, compose_for, compose,
}

-- Dispatch asks for a client, a value date, every required field, and the score of the threshold.
pub route-dispatched :
    (e : Environment) (overall : ℕ) (c : Option String) (dated : Bool) (missing : List String)
    → route e overall c dated missing ≡ dispatched
    → (is_some c ≡ true) × (dated ≡ true) × (missing ≡ []) × (dispatch_threshold e ≤ overall)
unfolding route
route-dispatched e overall none dated missing h = ground arith
route-dispatched e overall (some c) false missing h = ground arith
route-dispatched e overall (some c) true (f ∷ missing) h = cc
route-dispatched e overall (some c) true [] h = ground arith

-- A field that is not missing has a column.
cover-missing :
    (resolved : Dict String Mapping) (fields : List String) (f : String)
    → (cover resolved fields).missing ≡ []
    → contains fields f ≡ true
    → is_some (lookup f resolved) ≡ true
unfolding cover
cover-missing resolved [] f h has = cc
cover-missing resolved (g ∷ fields) f h has =
    ground (arith, cover-missing resolved fields f, string_eq.beq_iff f g)

-- A mapping gives the field to a column.
abbrev pub assigns : String → List Mapping → Bool
assigns f [] = false
assigns f (m ∷ ms) = m.canonical_field == some f || assigns f ms

module _ (f : String) where
  abbrev LooksUp : List Mapping → Type 0
  LooksUp ms =
      (d : Dict String Mapping)
      → is_some (lookup f (from_pairs (by_field ms) d)) ≡ true
      → (assigns f ms || is_some (lookup f d)) ≡ true

  lookup-entry :
      (o : Option String) (m : Mapping) (ms : List Mapping) (d : Dict String Mapping)
      → LooksUp ms
      → is_some (lookup f (from_pairs (entry (truthy o) m (by_field ms)) d)) ≡ true
      → ((o == some f || assigns f ms) || is_some (lookup f d)) ≡ true
  unfolding from_pairs
  lookup-entry none m ms d more h = more d h
  lookup-entry (some g) m ms d more h = elim (Bool-cases (is_blank g)) [
    | inl blank ↦ ground (arith, more d (rw blank at h))
    | inr there ↦ ground (
      arith,
      more (insert g m d) (rw there at h),
      lookup-insert f g m d,
      string_eq.beq_iff f g,
      string_eq.beq_iff g f,
    )
  ]

  lookup-by_field : (ms : List Mapping) → LooksUp ms
  unfolding from_pairs
  lookup-by_field [] d h = h
  lookup-by_field (m ∷ ms) d h = lookup-entry m.canonical_field m ms d (lookup-by_field ms) h

covered-assigns :
    (ms : List Mapping) (d : Domain) (f : String)
    → (covered ms d).missing ≡ []
    → contains (required_by_domain d) f ≡ true
    → assigns f ms ≡ true
unfolding resolved_fields
covered-assigns ms d f none_missing required = ground (
  arith,
  lookup-by_field f ms []
      (cover-missing (resolved_fields ms) (required_by_domain d) f none_missing required),
  lookup-nil {V = Mapping} f,
)

dated-resolved : (v : Resolution) → is_dated v ≡ true → is_some v.resolved ≡ true
dated-resolved v h = ground arith

pub compose-compose_for :
    (e : Environment) (a : Attribution) (v : Resolution) (ms : List Mapping) (domain : String)
    (d : Domain) (s : Score)
    → domain_of domain ≡ some d
    → compose e a v ms domain ≡ some s
    → compose_for e a v ms d domain ≡ s
unfolding compose
compose-compose_for e a v ms domain d s known is =
    some-injective (compose_for e a v ms d domain) s (sym (rw (known, compose) refl) ∙ is)

-- An arrival is dispatched only with a client, a value date, a column for every field that its domain
-- requires, and the score of the threshold at least.
pub compose-dispatched :
    (e : Environment) (a : Attribution) (v : Resolution) (ms : List Mapping) (domain : String)
    (d : Domain) (s : Score)
    → domain_of domain ≡ some d
    → compose e a v ms domain ≡ some s
    → s.disposition ≡ dispatched
    → (is_some a.client_id ≡ true)
      × (is_some v.resolved ≡ true)
      × ((f : String) → contains (required_by_domain d) f ≡ true → assigns f ms ≡ true)
      × (dispatch_threshold e ≤ s.overall)
unfolding compose_for
compose-dispatched e a v ms domain d s known is sent =
    let made = compose-compose_for e a v ms domain d s known is in
    let (c, dated, none_missing, enough) =
      route-dispatched e _ a.client_id (is_dated v) (covered ms d).missing (sent_by made) in
    (
      c,
      dated-resolved v dated,
      λ f required. covered-assigns ms d f none_missing required,
      subst (λ n. dispatch_threshold e ≤ n) (ap (λ t. t.overall) made) enough,
    )
  where
    sent_by :
        compose_for e a v ms d domain ≡ s → (compose_for e a v ms d domain).disposition ≡ dispatched
    sent_by made = ap (λ t. t.disposition) made ∙ sent

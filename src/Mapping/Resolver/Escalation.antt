-- ===== src/Mapping/Resolver/Escalation.antt =====
-- Escalation goes one way: no tier changes what a tier before it resolved, and none gives away a field that
-- is taken.
use mathlib.Core.Option.{some-injective}
use mathlib.Core.Path.{subst}
use harbormaster.Prelude.{
  ◌≡◌, refl, ap, false, ◌∙◌, inl, inr, Option, none, some, List, [], String, string_eq, contains,
  is_empty, Option-cases, Bool-cases,
}
use harbormaster.Prelude.Dict.{Dict}
use harbormaster.Mapping.{Table, Mapping, fields_of, has_duplicates}
use harbormaster.Mapping.Tier1.{map_table}
use harbormaster.Mapping.Tier1.Unique.{map_table-distinct}
use harbormaster.Mapping.Tier2.{Signals, match_local}
use harbormaster.Mapping.Tier2.Accept.{match_local-IsSound}
use harbormaster.Mapping.Tier3.{AdjudicationRequest, AdjudicatedField, AdjudicationResult}
use harbormaster.Mapping.Resolver.Visits.{
  Extends, Extends-refl, Extends-trans, IsUnique, Respects, visit-IsUnique, visit-Extends,
}
use harbormaster.Mapping.Resolver.{
  recall, hear, visit, from_cache, take_match, from_tier2, take_answer, from_tier3, apply_cached,
  run_tier3, resolve, TieredResolver, Context, as_hit, cached, asked, request,
}

recall-free :
    (claimed : List String) (m : Mapping) (o : Option String)
    → m.canonical_field ≡ none
    → ((recall claimed m o).source_field ≡ m.source_field)
      × ((g : String) → (recall claimed m o).canonical_field ≡ some g → contains claimed g ≡ false)
unfolding recall
recall-free claimed m none open_yet = (refl, λ g h. cc (open_yet, h))
recall-free claimed m (some field) open_yet = elim (Bool-cases (contains claimed field)) [
  | inl taken ↦ rw taken (refl, λ g h. cc (open_yet, h))
  | inr free ↦
      rw free (refl, λ g h. subst (λ k. contains claimed k ≡ false) (some-injective field g h) free)
]

from_cache-Respects : (learned : Dict String String) → Respects (from_cache learned)
unfolding from_cache
from_cache-Respects learned claimed m = recall-free claimed m _

from_tier2-Respects : (s : Signals) → Respects (from_tier2 s)
unfolding from_tier2 take_match
from_tier2-Respects s claimed m open_yet =
    elim (Option-cases (match_local s m.source_field claimed).canonical_field) [
      | inl declined ↦ rw declined (refl, λ g h. cc (open_yet, h))
      | inr (field, matched) ↦
          rw matched (refl, λ g h. (match_local-IsSound s m.source_field claimed g (matched ∙ h)).0)
    ]

hear-free :
    (claimed : List String) (m : Mapping) (model : String) (o : Option AdjudicatedField)
    → m.canonical_field ≡ none
    → ((hear claimed m model o).source_field ≡ m.source_field)
      × ((g : String)
          → (hear claimed m model o).canonical_field ≡ some g
          → contains claimed g ≡ false)
unfolding hear take_answer
hear-free claimed m model none open_yet = (refl, λ g h. cc (open_yet, h))
hear-free claimed m model (some answer) open_yet = elim (Option-cases answer.canonical_field) [
  | inl declined ↦ rw declined (refl, λ g h. cc (open_yet, h))
  | inr (field, proposed) ↦ rw proposed (elim (Bool-cases (contains claimed field)) [
    | inl taken ↦ rw taken (refl, λ g h. cc (open_yet, h))
    | inr free ↦
        rw free
          (refl, λ g h. subst (λ k. contains claimed k ≡ false) (some-injective field g h) free)
  ])
]

from_tier3-Respects : (r : AdjudicationResult) → Respects (from_tier3 r)
unfolding from_tier3
from_tier3-Respects r claimed m = hear-free claimed m r.model _

-- the stages

abbrev Escalates : List Mapping → List Mapping → Type 0
Escalates ms ns = Extends ms ns × (IsUnique ms → IsUnique ns)

visit-Escalates :
    (f : List String → Mapping → Mapping) (ms : List Mapping)
    → Respects f
    → Escalates ms (visit f [] ms).mappings
visit-Escalates f ms respects = (visit-Extends f respects [] ms, visit-IsUnique f respects [] ms)

apply_cached-Escalates :
    (hit : Option (Dict String String)) (ms : List Mapping) → Escalates ms (apply_cached hit ms)
unfolding apply_cached
apply_cached-Escalates none ms = (Extends-refl ms, λ u. u)
apply_cached-Escalates (some learned) ms = visit-Escalates _ ms (from_cache-Respects learned)

run_tier3-Escalates :
    (a : Option (AdjudicationRequest → AdjudicationResult)) (q : AdjudicationRequest)
    (ms : List Mapping)
    → Escalates ms (run_tier3 a q ms).mappings
unfolding run_tier3
run_tier3-Escalates none q ms = (Extends-refl ms, λ u. u)
run_tier3-Escalates (some adjudicate) q ms = elim (Bool-cases (is_empty q.unresolved_headers)) [
  | inl all_done ↦ rw all_done (Extends-refl ms, λ u. u)
  | inr some_left ↦ rw some_left (visit-Escalates _ ms (from_tier3-Respects (adjudicate q)))
]

-- Whatever the cache, the libraries and the adjudicator say, the outcome has a mapping for each of tier 1's,
-- those that tier 1 resolved are unchanged, and if tier 1 gave no field to two columns, then no field is
-- given to two columns.
pub resolve-Escalates :
    (r : TieredResolver) (x : Context) (t : Table)
    → let first = map_table r.field_overrides t in
      let last = (resolve r x t).0.mappings in Extends first last × (IsUnique first → IsUnique last)
unfolding resolve
resolve-Escalates r x t =
    let hit = as_hit (cached r.cache x).0 in
    let first = map_table r.field_overrides t in
    let recalled = apply_cached hit first in
    let second = visit (from_tier2 r.signals) [] recalled in
    let (e1, u1) = apply_cached-Escalates hit first in
    let (e2, u2) =
      visit-Escalates (from_tier2 r.signals) recalled (from_tier2-Respects r.signals) in
    let (e3, u3) =
      run_tier3-Escalates (asked r hit) (request x t second.mappings) second.mappings in
    (
      Extends-trans first recalled _ e1 (Extends-trans recalled second.mappings _ e2 e3),
      λ u. u3 (u2 (u1 u)),
    )

-- For a client without overrides, and a table whose headers are distinct, no field is given to two columns
-- by all the tiers together, whatever the cache, the libraries and the adjudicator say.
pub resolve-IsUnique :
    (r : TieredResolver) (x : Context) (t : Table)
    → r.field_overrides ≡ []
    → has_duplicates t.headers ≡ false
    → IsUnique (resolve r x t).0.mappings
resolve-IsUnique r x t none_given headers =
    (resolve-Escalates r x t).1 (
      ap (λ o. has_duplicates (fields_of (map_table o t))) none_given
      ∙ map_table-distinct t headers)

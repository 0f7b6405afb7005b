-- ===== src/Mapping/Tier1/Unique.antt =====
-- Without overrides, tier 1 gives no field to two columns.
use mathlib.Core.Path.{subst}
use mathlib.Core.Option.{some-injective}
use harbormaster.Prelude.{
  ◌≡◌, refl, sym, ap, ◌∙◌, inl, inr, Bool, true, false, ◌||◌, Option, none, some, List, [], ◌∷◌,
  ◌++◌, String, All, filter_map, string_eq, ◌==◌, contains, if◌then◌else◌, arith, Option-cases,
  Bool-cases, beq_refl, if_true, if_false,
}
use harbormaster.Prelude.Dict.{Dict, lookup, from_pairs, lookup-nil, from_pairs-values}
use harbormaster.Mapping.{Table, Mapping, fields_of, sources_of, has_duplicates}
use harbormaster.Mapping.Fields.{
  fields_of-append, duplicates-append, duplicates_split, fields_of-cons, contains-fields_of,
  distinct_one,
}
use harbormaster.Mapping.Tier1.{
  start, map_headers, field_overrides, resolve_prices, by_source, in_source_order, map_table,
}
use harbormaster.Mapping.Tier1.Claims.{Claims, Kept, map_headers-Kept}
use harbormaster.Mapping.Tier1.Roles.{resolve_prices-Fresh}
use harbormaster.Mapping.Tier1.Sources.{map_table-sources}

-- The column that has a field, as told by `owner`.
abbrev Owned : (String → Option String) → Mapping → Type 0
Owned owner m =
    (f : String) → contains (fields_of (m ∷ [])) f ≡ true → owner f ≡ some m.source_field

-- The columns of `ms` that have the field, the first of them.
abbrev holder : List Mapping → String → Option String
holder [] f = none
holder (m ∷ ms) f = if contains (fields_of (m ∷ [])) f then some m.source_field else holder ms f

-- A column in front with other fields changes no owner behind.
shift :
    (m : Mapping) (owner : String → Option String) (ns : List Mapping)
    → ((f : String) → contains (fields_of ns) f ≡ true → contains (fields_of (m ∷ [])) f ≡ false)
    → All (Owned owner) ns
    → All (Owned (λ f. if contains (fields_of (m ∷ [])) f then some m.source_field else owner f)) ns
shift m owner [] apart owned = tt
shift m owner (n ∷ ns) apart (first, owned) = (
  λ f has.
      if_false (contains (fields_of (m ∷ [])) f) m.source_field (owner f)
        (apart f (contains-fields_of n ns f ∙ ap (λ b. b || contains (fields_of ns) f) has))
      ∙ first f has,
  shift m owner ns
      (λ f has.
        apart f (contains-fields_of n ns f ∙ last_true (contains (fields_of (n ∷ [])) f) _ has))
      owned,
)
  where
    last_true : (a b : Bool) → b ≡ true → (a || b) ≡ true
    last_true a b h = ground arith

-- Where no field is given twice, the first column that has a field is the only one.
holder-Owned :
    (ms : List Mapping) → has_duplicates (fields_of ms) ≡ false → All (Owned (holder ms)) ms
holder-Owned [] u = tt
holder-Owned (m ∷ ms) u =
    let (distinct, apart) =
      duplicates_split (fields_of (m ∷ [])) (fields_of ms)
        (ap has_duplicates (sym (fields_of-cons m ms)) ∙ u) in
    (
      λ f has. if_true (contains (fields_of (m ∷ [])) f) m.source_field (holder ms f) has,
      shift m (holder ms) ms apart (holder-Owned ms distinct),
    )

none_given : fields_of [] ≡ []
unfolding fields_of
none_given = refl

-- A field of the columns has its owner among them.
owner_there :
    (owner : String → Option String) (ms : List Mapping) (f s : String)
    → All (Owned owner) ms
    → owner f ≡ some s
    → contains (fields_of ms) f ≡ true
    → contains (sources_of ms) s ≡ true
owner_there owner [] f s owned is has = cc (sym has ∙ ap (λ l. contains l f) none_given)
owner_there owner (m ∷ ms) f s (first, owned) is has =
    elim (Bool-cases (contains (fields_of (m ∷ [])) f)) [
      | inl own ↦
          let same : m.source_field ≡ s =
            some-injective m.source_field s (sym (first f own) ∙ is) in
          rw ((string_eq.beq_iff s m.source_field).1 (sym same)) refl
      | inr other ↦
          let behind : contains (fields_of ms) f ≡ true =
            ap (λ b. b || contains (fields_of ms) f) (sym other)
            ∙ sym (contains-fields_of m ms f)
            ∙ has in
          second_true (s == m.source_field) _ (owner_there owner ms f s owned is behind)
    ]
  where
    second_true : (a b : Bool) → b ≡ true → (a || b) ≡ true
    second_true a b h = ground arith

-- Columns that own their fields and have distinct headers have distinct fields.
Owned-distinct :
    (owner : String → Option String) (ms : List Mapping)
    → All (Owned owner) ms
    → has_duplicates (sources_of ms) ≡ false
    → has_duplicates (fields_of ms) ≡ false
Owned-distinct owner [] owned u = unfold fields_of in refl
Owned-distinct owner (m ∷ ms) (first, owned) u =
    let (distinct, apart) = duplicates_split (m.source_field ∷ []) (sources_of ms) u in
    ap has_duplicates (fields_of-cons m ms)
    ∙ duplicates-append (fields_of (m ∷ [])) (fields_of ms) (distinct_one m)
        (Owned-distinct owner ms owned distinct)
        (λ f own. elim (Bool-cases (contains (fields_of ms) f)) [
          | inr apart_yet ↦ apart_yet
          | inl again ↦
              let there = owner_there owner ms f m.source_field owned (first f own) again in
              cc (sym (apart m.source_field there) ∙ ap (λ b. b || false) (beq_refl m.source_field))
        ])

-- What is found by its header is one of the mappings.
found-Owned :
    (owner : String → Option String) (d : Dict String Mapping) (hs : List String)
    → ((h : String) (m : Mapping) → lookup h d ≡ some m → Owned owner m)
    → All (Owned owner) (filter_map (λ h. lookup h d) hs)
unfolding filter_map
found-Owned owner d [] owned = tt
found-Owned owner d (h ∷ hs) owned = elim (Option-cases (lookup h d)) [
  | inl miss ↦ rw (miss, filter_map) (found-Owned owner d hs owned)
  | inr (m, found) ↦ rw (found, filter_map) (owned h m found, found-Owned owner d hs owned)
]

by_source-All {ℓ} :
    (P : Mapping → Type ℓ) (ms : List Mapping) → All P ms → All (λ e. P e.1) (by_source ms)
by_source-All P [] h = tt
by_source-All P (m ∷ ms) (first, rest) = (first, by_source-All P ms rest)

-- The choice by headers of mappings without a field twice has no field twice.
in_source_order-distinct :
    (hs : List String) (ms : List Mapping)
    → has_duplicates (fields_of ms) ≡ false
    → has_duplicates (sources_of (in_source_order hs ms)) ≡ false
    → has_duplicates (fields_of (in_source_order hs ms)) ≡ false
unfolding in_source_order
in_source_order-distinct hs ms distinct named =
    Owned-distinct (holder ms) _
      (found-Owned (holder ms) (from_pairs (by_source ms) []) hs (
        from_pairs-values (Owned (holder ms)) (by_source ms) []
          (by_source-All (Owned (holder ms)) ms (holder-Owned ms distinct))
          (λ k v found. cc (sym (lookup-nil {V = Mapping} k) ∙ found))))
      named

-- The fields before the choice.
all_distinct :
    (t : Table)
    → let p = map_headers t [] start t.headers in
      has_duplicates (fields_of (p.mappings ++ resolve_prices t p.deferred p.mappings)) ≡ false
all_distinct t =
    let p = map_headers t [] start t.headers in
    let kept : Kept p = map_headers-Kept t start t.headers nothing in
    let prices = resolve_prices-Fresh t p.deferred p.mappings in
    ap has_duplicates (fields_of-append p.mappings (resolve_prices t p.deferred p.mappings))
    ∙ duplicates-append (fields_of p.mappings) (fields_of (resolve_prices t p.deferred p.mappings))
        kept.distinct prices.distinct
        (λ f plain.
          elim (Bool-cases (contains (fields_of (resolve_prices t p.deferred p.mappings)) f)) [
            | inr apart ↦ apart
            | inl price ↦ cc (sym plain ∙ kept.no_price f (prices.prices f price))
          ])
  where
    nothing : Kept start
    nothing =
        subst (λ fs. Claims fs []) (sym none_given)
          (record { distinct = refl; claims = λ f h. cc; no_price = λ f h. refl })

-- Of a table whose headers are distinct, as `ParsedTable` checks, and for a client without overrides, tier
-- 1 gives no field to two columns.
pub map_table-distinct :
    (t : Table)
    → has_duplicates t.headers ≡ false
    → has_duplicates (fields_of (map_table [] t)) ≡ false
unfolding map_table field_overrides from_pairs
map_table-distinct t headers =
    in_source_order-distinct t.headers _ (all_distinct t)
      (ap has_duplicates (map_table-sources [] t) ∙ headers)

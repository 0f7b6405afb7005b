-- ===== src/Mapping/Tier1/Sources.antt =====
-- `map_table` returns one mapping per column, in the order of the columns.
use mathlib.Core.Option.{some-injective}
use harbormaster.Prelude.{
  ◌≡◌, refl, sym, ap, ◌∙◌, inl, inr, true, ◌||◌, Option, none, some, List, [], ◌∷◌, filter_map,
  String, string_eq, ◌==◌, contains, arith, Bool-cases, is_some, beq_refl, if_true, if_false,
}
use harbormaster.Prelude.Dict.{Dict, lookup, insert, from_pairs, lookup-insert, lookup-nil}
use harbormaster.Mapping.Fields.{has_source-append}
use harbormaster.Mapping.{Table, Mapping, sources_of}
use harbormaster.Mapping.Tier1.{
  start, map_headers, resolve_prices, by_source, in_source_order, map_table, field_overrides,
}
use harbormaster.Mapping.Tier1.Covers.{map_headers-covers}
use harbormaster.Mapping.Tier1.PriceSources.{resolve_prices-contains}

-- The last step: what has a mapping is found again by its header.

is_some-by_source :
    (h : String) (ms : List Mapping) (d : Dict String Mapping)
    → is_some (lookup h (from_pairs (by_source ms) d))
      ≡ (contains (sources_of ms) h || is_some (lookup h d))
unfolding from_pairs
is_some-by_source h [] d = refl
is_some-by_source h (m ∷ ms) d =
    ground (
      arith,
      is_some-by_source h ms (insert m.source_field m d),
      lookup-insert h m.source_field m d,
    )

-- Each mapping stands under its own header.
abbrev pub IsKeyed : Dict String Mapping → Type 0
IsKeyed d = (h : String) (m : Mapping) → lookup h d ≡ some m → m.source_field ≡ h

insert-IsKeyed :
    (m : Mapping) (d : Dict String Mapping) → IsKeyed d → IsKeyed (insert m.source_field m d)
insert-IsKeyed m d keyed h n found =
    let at_h = sym (lookup-insert h m.source_field m d) ∙ found in
    elim (Bool-cases (h == m.source_field)) [
      | inl same ↦
          ap (λ x. x.source_field)
            (some-injective n m (sym at_h ∙ if_true (h == m.source_field) m (lookup h d) same))
          ∙ sym ((string_eq.beq_iff h m.source_field).0 same)
      | inr differ ↦ keyed h n (sym (if_false (h == m.source_field) m (lookup h d) differ) ∙ at_h)
    ]

pub by_source-IsKeyed :
    (ms : List Mapping) (d : Dict String Mapping)
    → IsKeyed d
    → IsKeyed (from_pairs (by_source ms) d)
unfolding from_pairs
by_source-IsKeyed [] d keyed = keyed
by_source-IsKeyed (m ∷ ms) d keyed = by_source-IsKeyed ms _ (insert-IsKeyed m d keyed)

filter_map-cons :
    (f : String → Option Mapping) (h : String) (hs : List String) (m : Mapping)
    → f h ≡ some m
    → filter_map f (h ∷ hs) ≡ m ∷ filter_map f hs
unfolding filter_map
filter_map-cons f h hs m is = rw (is, filter_map) refl

filter_map-sources :
    (f : String → Option Mapping) (hs : List String)
    → ((h : String) → contains hs h ≡ true → (m : Mapping) × (f h ≡ some m) × (m.source_field ≡ h))
    → sources_of (filter_map f hs) ≡ hs
unfolding filter_map
filter_map-sources f [] all_there = refl
filter_map-sources f (h ∷ hs) all_there =
    let (m, is, named) = all_there h (rw (beq_refl h) refl) in
    ap sources_of (filter_map-cons f h hs m is)
    ∙ ap (λ n. n ∷ sources_of (filter_map f hs)) named
    ∙ ap (λ l. h ∷ l) (filter_map-sources f hs (λ k has. all_there k (ground (arith, has))))

is_some-some {ℓ} : {A : Type ℓ} (o : Option A) → is_some o ≡ true → (a : A) × (o ≡ some a)
is_some-some none h = cc
is_some-some (some a) h = (a, refl)

in_source_order-sources :
    (hs : List String) (ms : List Mapping)
    → ((h : String) → contains hs h ≡ true → contains (sources_of ms) h ≡ true)
    → sources_of (in_source_order hs ms) ≡ hs
unfolding in_source_order
in_source_order-sources hs ms all_there = filter_map-sources _ hs (λ h has.
    let (m, is) = is_some-some _ (
      is_some-by_source h ms []
      ∙ ap (λ b. b || is_some (lookup {V = Mapping} h [])) (all_there h has)) in
    (
      m,
      is,
      by_source-IsKeyed ms [] (λ k n found. cc (sym (lookup-nil {V = Mapping} k) ∙ found)) h m is,
    ))

-- Tier 1 gives each column of the table one mapping, in the order of the columns.
pub map_table-sources :
    (overrides : Dict String String) (t : Table) → sources_of (map_table overrides t) ≡ t.headers
unfolding map_table
map_table-sources overrides t =
    let p = map_headers t (field_overrides overrides) start t.headers in
    in_source_order-sources t.headers _ (λ h has.
      has_source-append p.mappings (resolve_prices t p.deferred p.mappings) h
      ∙ ap (λ b. contains (sources_of p.mappings) h || b)
          (resolve_prices-contains t p.deferred p.mappings h)
      ∙ map_headers-covers t (field_overrides overrides) start t.headers h
      ∙ has)

-- ===== src/Mapping/Tier1/Covers.antt =====
-- The pass over the headers leaves each with a mapping, or among the columns of prices.
use harbormaster.Prelude.{
  ◌≡◌, inl, inr, Bool, not, ◌&&◌, ◌||◌, Option, none, some, List, [], ◌∷◌, ◌++◌, String, string_eq,
  ◌==◌, contains, arith, Bool-cases,
}
use harbormaster.Prelude.Dict.{Dict}
use harbormaster.Canonical.{mappable_fields}
use harbormaster.Mapping.Fields.{contains-append, has_source-append}
use harbormaster.Mapping.Numbers.{looks_like_price_column}
use harbormaster.Mapping.{Table, column, Mapping, sources_of}
use harbormaster.Mapping.Tier1.{
  Pass, is_price, map_with, map_unknown, map_known, map_header, map_headers,
}

-- the header has a mapping, or waits among the price columns
abbrev pub covers : Pass → String → Bool
covers p h = contains (sources_of p.mappings) h || contains p.deferred h

mapped-covers :
    (ms : List Mapping) (d : List String) (m : Mapping) (h : String)
    → (contains (sources_of (ms ++ m ∷ [])) h || contains d h)
      ≡ ((contains (sources_of ms) h || contains d h) || h == m.source_field)
mapped-covers ms d m h = ground (arith, has_source-append ms (m ∷ []) h)

deferred-covers :
    (ms : List Mapping) (d : List String) (header h : String)
    → (contains (sources_of ms) h || contains (d ++ header ∷ []) h)
      ≡ ((contains (sources_of ms) h || contains d h) || h == header)
deferred-covers ms d header h = ground (arith, contains-append d (header ∷ []) h)

module _ (t : Table) (p : Pass) (header h : String) where
  map_unknown-covers : covers (map_unknown t p header) h ≡ (covers p h || h == header)
  unfolding map_unknown
  map_unknown-covers = elim (Bool-cases (looks_like_price_column header (column t header))) [
    | inl price ↦ rw price (deferred-covers p.mappings p.deferred header h)
    | inr other ↦ rw other (mapped-covers p.mappings p.deferred _ h)
  ]

  map_known-covers :
      (hit : String) → covers (map_known t p header hit) h ≡ (covers p h || h == header)
  unfolding map_known
  map_known-covers hit = elim (Bool-cases (is_price hit)) [
    | inl price ↦ rw price (deferred-covers p.mappings p.deferred header h)
    | inr other ↦
        rw other (elim (Bool-cases (contains mappable_fields hit && not (contains p.claimed hit))) [
          | inl free ↦ rw free (mapped-covers p.mappings p.deferred _ h)
          | inr not_free ↦ rw not_free (elim (Bool-cases (contains p.claimed hit)) [
            | inl taken ↦ rw taken (mapped-covers p.mappings p.deferred _ h)
            | inr unknown ↦ rw unknown map_unknown-covers
          ])
        ])
  ]

  map_with-covers :
      (o hit : Option String) → covers (map_with t p header o hit) h ≡ (covers p h || h == header)
  unfolding map_with
  map_with-covers (some o) hit = mapped-covers p.mappings p.deferred _ h
  map_with-covers none (some hit) = map_known-covers hit
  map_with-covers none none = map_unknown-covers

  map_header-covers :
      (overrides : Dict String String)
      → covers (map_header t overrides p header) h ≡ (covers p h || h == header)
  unfolding map_header
  map_header-covers overrides = map_with-covers _ _

pub map_headers-covers :
    (t : Table) (overrides : Dict String String) (p : Pass) (hs : List String) (h : String)
    → covers (map_headers t overrides p hs) h ≡ (covers p h || contains hs h)
unfolding map_headers
map_headers-covers t overrides p [] h = ground arith
map_headers-covers t overrides p (x ∷ hs) h = ground (
  arith,
  map_headers-covers t overrides (map_header t overrides p x) hs h,
  map_header-covers t p x h overrides,
)

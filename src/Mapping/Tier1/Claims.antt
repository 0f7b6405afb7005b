-- ===== src/Mapping/Tier1/Claims.antt =====
-- Without overrides, the pass over the headers gives each field once, and none of those of prices.
use mathlib.Core.List.{append-nil}
use mathlib.Core.Path.{subst}
use mathlib.Core.Option.{some-injective}
use harbormaster.Prelude.{
  ◌≡◌, ◌≢◌, refl, sym, ap, ◌∙◌, inl, inr, Bool, true, false, not, ◌&&◌, ◌||◌, Option, none, some,
  List, [], ◌∷◌, ◌++◌, String, string_eq, ◌==◌, contains, arith, Bool-cases,
}
use harbormaster.Prelude.Dict.{lookup-nil}
use harbormaster.Canonical.{mappable_fields, normalize_header, alias_lookup}
use harbormaster.ValueDate.Columns.{truthy}
use harbormaster.Mapping.{Table, column, Mapping, fields_of, has_duplicates, left_open}
use harbormaster.Mapping.Fields.{
  contains-append, fields_of-append, contains-fields_of-one, duplicates-extend, fields_of-open,
}
use harbormaster.Mapping.Numbers.{looks_like_price_column}
use harbormaster.Mapping.Tier1.{
  Pass, is_price, map_unknown, map_known, map_with, map_header, map_headers,
}

-- The fields given so far: each once, each among those claimed, and none that prices are given.
pub record Claims (fields claimed : List String) : Type 0 where
  pub distinct : has_duplicates fields ≡ false
  pub claims : (f : String) → contains fields f ≡ true → contains claimed f ≡ true
  pub no_price : (f : String) → is_price f ≡ true → contains fields f ≡ false

abbrev pub Kept : Pass → Type 0
Kept p = Claims (fields_of p.mappings) p.claimed

-- A column that gets no field changes nothing of this.
declined-Claims :
    (ms : List Mapping) (claimed : List String) (header evidence : String)
    → Claims (fields_of ms) claimed
    → Claims (fields_of (ms ++ left_open header evidence ∷ [])) claimed
declined-Claims ms claimed header evidence c =
    let same =
      fields_of-append ms (left_open header evidence ∷ [])
      ∙ ap (λ l. fields_of ms ++ l) (fields_of-open (left_open header evidence) refl)
      ∙ append-nil (fields_of ms) in
    subst (λ fs. Claims fs claimed) (sym same) c

has_field-append :
    (ms : List Mapping) (m : Mapping) (f : String)
    → contains (fields_of (ms ++ m ∷ [])) f
      ≡ (contains (fields_of ms) f || contains (fields_of (m ∷ [])) f)
has_field-append ms m f =
    ap (λ l. contains l f) (fields_of-append ms (m ∷ []))
    ∙ contains-append (fields_of ms) (fields_of (m ∷ [])) f

-- Of a column with the field `g`, the fields but `g` are those of the others.
other_field :
    (ms : List Mapping) (m : Mapping) (g f : String)
    → m.canonical_field ≡ some g
    → contains (fields_of (ms ++ m ∷ [])) f ≡ true
    → f ≢ g
    → contains (fields_of ms) f ≡ true
other_field ms m g f given there differ = elim (Bool-cases (contains (fields_of (m ∷ [])) f)) [
  | inl own ↦ absurd (differ (contains-fields_of-one m g f given own))
  | inr apart ↦ ground (arith, has_field-append ms m f, there, apart)
]

-- A field that is free and no price is given to one more column.
assigned-Claims :
    (ms : List Mapping) (claimed : List String) (m : Mapping) (g : String)
    → m.canonical_field ≡ some g
    → contains claimed g ≡ false
    → is_price g ≡ false
    → Claims (fields_of ms) claimed
    → Claims (fields_of (ms ++ m ∷ [])) (g ∷ claimed)
assigned-Claims ms claimed m g given free plain c = record {
  distinct = duplicates-extend ms m c.distinct (λ k is.
      elim (Bool-cases (contains (fields_of ms) k)) [
        | inr new ↦ new
        | inl old ↦
            cc (c.claims k old, ap (contains claimed) (some-injective k g (sym is ∙ given)), free)
      ]);
  claims = λ f there. elim (Bool-cases (f == g)) [
    | inl same ↦ rw same refl
    | inr differ ↦ rw differ (
        c.claims f
          (other_field ms m g f given there (λ e. cc (differ, (string_eq.beq_iff f g).1 e))))
  ];
  no_price = λ f price. elim (Bool-cases (contains (fields_of (ms ++ m ∷ [])) f)) [
    | inr apart ↦ apart
    | inl there ↦
        let old = other_field ms m g f given there (λ e. cc (sym price ∙ ap is_price e ∙ plain)) in
        cc (c.no_price f price, old)
  ];
}

free_of_both : (a b : Bool) → (a && not b) ≡ true → b ≡ false
free_of_both a b h = ground arith

module _ (t : Table) (p : Pass) (header : String) (c : Kept p) where
  map_unknown-Kept : Kept (map_unknown t p header)
  unfolding map_unknown
  map_unknown-Kept = elim (Bool-cases (looks_like_price_column header (column t header))) [
    | inl price ↦ rw price c
    | inr other ↦ rw other (declined-Claims p.mappings p.claimed header _ c)
  ]

  map_known-Kept : (hit : String) → Kept (map_known t p header hit)
  unfolding map_known
  map_known-Kept hit = elim (Bool-cases (is_price hit)) [
    | inl price ↦ rw price c
    | inr plain ↦
        rw plain (elim (Bool-cases (contains mappable_fields hit && not (contains p.claimed hit))) [
          | inl free ↦
              rw free
                (assigned-Claims p.mappings p.claimed _ hit refl (free_of_both _ _ free) plain c)
          | inr not_free ↦ rw not_free (elim (Bool-cases (contains p.claimed hit)) [
            | inl taken ↦ rw taken (declined-Claims p.mappings p.claimed header _ c)
            | inr new ↦ rw new map_unknown-Kept
          ])
        ])
  ]

  map_with-Kept : (hit : Option String) → Kept (map_with t p header none hit)
  unfolding map_with
  map_with-Kept (some hit) = map_known-Kept hit
  map_with-Kept none = map_unknown-Kept

map_header-Kept :
    (t : Table) (p : Pass) (header : String) → Kept p → Kept (map_header t [] p header)
unfolding map_header
map_header-Kept t p header c =
    subst (λ o. Kept (map_with t p header (truthy o) (truthy (alias_lookup header))))
      (sym (lookup-nil (normalize_header header)))
      (map_with-Kept t p header c (truthy (alias_lookup header)))

pub map_headers-Kept :
    (t : Table) (p : Pass) (hs : List String) → Kept p → Kept (map_headers t [] p hs)
unfolding map_headers
map_headers-Kept t p [] c = c
map_headers-Kept t p (h ∷ hs) c =
    map_headers-Kept t (map_header t [] p h) hs (map_header-Kept t p h c)

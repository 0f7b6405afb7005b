-- ===== src/Canonical/Lookup.antt =====
-- What the dictionary of aliases answers.
use harbormaster.Prelude.{
  ◌≡◌, refl, inl, inr, Bool, true, none, some, [], ◌∷◌, String, string_eq, contains, all, is_some,
  arith, Option-cases,
}
use harbormaster.Prelude.Dict.{Dict, lookup, values}
use harbormaster.Canonical.Aliases.{field_aliases}
use harbormaster.Canonical.{
  mappable_fields, normalize_header, strip_noise, build_index, alias_index, alias_lookup,
  dictionary,
}

-- No alias stands for two fields: the module loads.
index_builds : is_some (build_index field_aliases []) ≡ true
unfolding dictionary
index_builds = refl

index_mappable : all (contains mappable_fields) (values alias_index) ≡ true
unfolding dictionary all
index_mappable = refl

lookup-all :
    (p : String → Bool) (d : Dict String String) (k v : String)
    → all p (values d) ≡ true
    → lookup k d ≡ some v
    → p v ≡ true
unfolding lookup all
lookup-all p [] k v h e = cc
lookup-all p ((j, w) ∷ d) k v h e = ground (arith, lookup-all p d k v)

-- A header that the dictionary knows, with or without its noise, means a field that a column may be
-- mapped to: never the client, the value date, the domain or the arrival id.
pub alias_lookup-mappable :
    (header field : String)
    → alias_lookup header ≡ some field
    → contains mappable_fields field ≡ true
unfolding alias_lookup
alias_lookup-mappable header field h =
    elim (Option-cases (lookup (normalize_header header) alias_index)) [
      | inl miss ↦
          lookup-all _ alias_index (strip_noise (normalize_header header)) field index_mappable
            (ground arith)
      | inr (f, hit) ↦
          lookup-all _ alias_index (normalize_header header) field index_mappable (ground arith)
    ]

reads :
    (alias_lookup "Net Settlement Value ($)" ≡ some "net_amount")
    × (alias_lookup "Market Value (USD)" ≡ some "market_value")
    × (alias_lookup "Value Date" ≡ none)
unfolding dictionary
reads = (refl, refl, refl)

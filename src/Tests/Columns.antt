-- ===== src/Tests/Columns.antt =====
-- Columns, the canonical fields, and the escalation between the tiers.
use harbormaster.Prelude.{
  ◌≡◌, refl, true, false, some, [], ◌∷◌, contains, string_eq, filter, filter_map,
}
use harbormaster.Prelude.Dict.{from_pairs}
use harbormaster.Prelude.Sort.{sort, insert_sorted}
use harbormaster.Canonical.{mappable_fields, dictionary}
use harbormaster.Canonical.Lookup.{alias_lookup-mappable}
use harbormaster.Mapping.{Table, sources_of, fields_of, has_duplicates, column_of, value_at}
use harbormaster.Mapping.Numbers.{to_decimal, decimal, looks_like_price_column, has_price_hint}
use harbormaster.Mapping.Variation.{
  variation_ratio, has_token, settlement_preference, trade_preference,
}
use harbormaster.Mapping.Tier1.{
  map_table, map_headers, map_header, map_with, map_known, map_unknown, field_overrides, names_only,
  role_results, structure, instrument_column, group_by, score, resolve_prices, in_source_order,
}
use harbormaster.Mapping.Tier1.Unique.{map_table-distinct}
use harbormaster.Mapping.Tier1.Sources.{map_table-sources}
use harbormaster.Mapping.Tier2.{Signals, match_local}
use harbormaster.Mapping.Tier2.Accept.{IsSound, match_local-IsSound}
use harbormaster.Mapping.Tier3.{deterministic_fake}
use harbormaster.Mapping.Resolver.{TieredResolver, Context, resolve}
use harbormaster.Mapping.Resolver.Visits.{Extends, IsUnique}
use harbormaster.Mapping.Resolver.Escalation.{resolve-Escalates, resolve-IsUnique}

alias_lookup-mappable_example : contains mappable_fields "net_amount" ≡ true
unfolding dictionary
alias_lookup-mappable_example = alias_lookup-mappable "Net Settlement Value ($)" "net_amount" refl

-- Two price columns, one of which repeats for each instrument, and one that nobody knows.
abbrev prices : Table
prices = record {
  headers = "ISIN" ∷ "Price" ∷ "Close Px" ∷ "Zzz" ∷ [];
  rows =
      (("ISIN", "X1") ∷ ("Price", "10.5") ∷ ("Close Px", "11") ∷ ("Zzz", "a") ∷ [])
      ∷ (("ISIN", "X1") ∷ ("Price", "10.7") ∷ ("Close Px", "11") ∷ ("Zzz", "b") ∷ [])
      ∷ [];
}

-- Opens the first tier.
unfoldable pub first_tier : Unit {0}
unfolding dictionary map_table map_headers map_header map_with map_known map_unknown field_overrides
    names_only role_results structure instrument_column group_by score resolve_prices
    in_source_order filter filter_map from_pairs sort insert_sorted looks_like_price_column
    has_price_hint to_decimal decimal variation_ratio has_token settlement_preference
    trade_preference column_of value_at fields_of
first_tier = tt

mapped_prices :
    fields_of (map_table [] prices) ≡ "instrument_id" ∷ "trade_price" ∷ "settlement_price" ∷ []
unfolding first_tier
mapped_prices = refl

-- A client's override and a column of prices both get the one field.
claimed_twice :
    fields_of (map_table (("Zzz", "trade_price") ∷ []) prices)
    ≡ "instrument_id" ∷ "trade_price" ∷ "settlement_price" ∷ "trade_price" ∷ []
unfolding first_tier
claimed_twice = refl

map_table-sources_example :
    sources_of (map_table [] prices) ≡ "ISIN" ∷ "Price" ∷ "Close Px" ∷ "Zzz" ∷ []
map_table-sources_example = map_table-sources [] prices

map_table-distinct_example : has_duplicates (fields_of (map_table [] prices)) ≡ false
map_table-distinct_example = map_table-distinct prices refl

-- a fuzzy matcher that always answers with the first text, at 0.9
abbrev signals : Signals
signals = record {
  available = false;
  nearness = λ a b. 0;
  extract_one = λ a texts. some (900000, 0);
}

abbrev resolver : TieredResolver
resolver = record {
  field_overrides = [];
  signals = signals;
  adjudicator = some deterministic_fake;
  cache = record { store = []; hits = 0; misses = 0 };
}

abbrev context : Context
context = record {
  client_id = "meridian";
  client_name = "Meridian";
  source_hint = "OMS";
  domain = "TRADE";
  template_fingerprint = "f1";
}

match_local-IsSound_example :
    IsSound ("source_system" ∷ []) (match_local signals "Zzz" ("source_system" ∷ []))
match_local-IsSound_example = match_local-IsSound signals "Zzz" ("source_system" ∷ [])

resolve-Escalates_example :
    Extends (map_table [] prices) (resolve resolver context prices).0.mappings
    × (IsUnique (map_table [] prices) → IsUnique (resolve resolver context prices).0.mappings)
resolve-Escalates_example = resolve-Escalates resolver context prices

resolve-IsUnique_example : IsUnique (resolve resolver context prices).0.mappings
resolve-IsUnique_example = resolve-IsUnique resolver context prices refl refl

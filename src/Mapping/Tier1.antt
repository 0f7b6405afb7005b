-- ===== src/Mapping/Tier1.antt =====
-- `Tier1Mapper` of python/src/inspector/mapping/tier1.py: the dictionary pass over the headers, and the
-- assignment of the two price fields among the columns that it put aside.
pub mod Covers
pub mod PriceSources
pub mod Sources
pub mod Claims
pub mod Roles
pub mod Unique
use harbormaster.Prelude.{
  ℕ, zero, suc, ◌+◌, ◌-◌, Bool, true, false, not, ◌&&◌, ◌||◌, Option, none, some, List, [], ◌∷◌,
  ◌++◌, map, filter, find, filter_map, is_empty, String, ◌<>◌, Eq, nat_eq, string_eq, option_eq,
  ◌==◌, contains, ltb, if◌then◌else◌,
}
use harbormaster.Prelude.Text.{is_blank, repr}
use harbormaster.Prelude.Dict.{Dict, lookup, insert, from_pairs}
use harbormaster.Prelude.Sort.{sort}
use harbormaster.Canonical.{
  Tier, alias, local, human, mappable_fields, normalize_header, alias_lookup,
}
use harbormaster.ValueDate.Columns.{truthy}
use harbormaster.Mapping.{Table, column, Mapping, mapped, left_open}
use harbormaster.Mapping.Numbers.{looks_like_price_column}
use harbormaster.Mapping.Variation.{
  Ratio, at_least_half, below, shown, variation_ratio, has_token, settlement_tokens, trade_tokens,
  settlement_preference, trade_preference, price_conf, price_conf_rest,
}

abbrev with_norm_keys : Dict String String → List (String × String)
with_norm_keys [] = []
with_norm_keys ((k, v) ∷ d) = (normalize_header k, v) ∷ with_norm_keys d

-- `Tier1Mapper.__init__`: the overrides by the normalised header
unfoldable pub field_overrides : Dict String String → Dict String String
field_overrides overrides = from_pairs (with_norm_keys overrides) []

-- `mappings`, `claimed` and `deferred_prices`
pub record Pass : Type 0 where
  pub mappings : List Mapping
  pub claimed : List String
  pub deferred : List String

abbrev assign : Pass → Mapping → String → Pass
assign p m field = record p { mappings = p.mappings ++ m ∷ []; claimed = field ∷ p.claimed }

abbrev decline : Pass → Mapping → Pass
decline p m = record p { mappings = p.mappings ++ m ∷ [] }

abbrev defer : Pass → String → Pass
defer p header = record p { deferred = p.deferred ++ header ∷ [] }

abbrev pub is_price : String → Bool
is_price field = field == "trade_price" || field == "settlement_price"

-- no alias that can be used
unfoldable pub map_unknown : Table → Pass → String → Pass
map_unknown t p header =
    if looks_like_price_column header (column t header)
    then defer p header
    else decline p (left_open header "no alias match")

unfoldable pub map_known : Table → Pass → String → String → Pass
map_known t p header hit =
    if is_price hit
    then defer p header
    else if contains mappable_fields hit && not (contains p.claimed hit)
    then assign p (mapped header hit alias 1000 ("alias:" <> normalize_header header)) hit
    else if contains p.claimed hit
    then decline p (left_open header ("conflicts with an earlier column already mapped to " <> hit))
    else map_unknown t p header

-- by the override of the header and its alias
unfoldable pub map_with : Table → Pass → String → Option String → Option String → Pass
map_with t p header (some o) hit =
    assign p (mapped header o human 1000 ("client override -> " <> o)) o
map_with t p header none (some hit) = map_known t p header hit
map_with t p header none none = map_unknown t p header

unfoldable pub map_header : Table → Dict String String → Pass → String → Pass
map_header t overrides p header =
    map_with t p header (truthy (lookup (normalize_header header) overrides))
      (truthy (alias_lookup header))

unfoldable pub map_headers : Table → Dict String String → Pass → List String → Pass
map_headers t overrides p [] = p
map_headers t overrides p (h ∷ hs) = map_headers t overrides (map_header t overrides p h) hs

-- what the header says of the price: a settlement price, a trade price, both or nothing
unfoldable pub names_only : List String → List String → String → Bool
names_only these others header = has_token these header && not (has_token others header)

abbrev pub settlement_candidates : List String → List String
settlement_candidates hs = filter (names_only settlement_tokens trade_tokens) hs

abbrev pub trade_candidates : List String → List String
trade_candidates hs = filter (names_only trade_tokens settlement_tokens) hs

abbrev pub undecided : List String → List String
undecided hs =
    filter
      (λ h.
        not (names_only settlement_tokens trade_tokens h)
        && not (names_only trade_tokens settlement_tokens h))
      hs

-- `field.replace('_', ' ')` of the two price fields
abbrev pub spaced : String → String
spaced field = if field == "settlement_price" then "settlement price" else "trade price"

abbrev pub surplus : String → String → String → Mapping
surplus field winner header = left_open header (
    "also names a "
    <> (spaced field <> ("; " <> (repr winner <> " is the stronger match for this file"))))

-- The loop over the roles: the candidates by preference, the first of which is mapped.
unfoldable pub role_results : String → String → List String → List Mapping
role_results field reason [] = []
role_results field reason (winner ∷ rest) =
    mapped winner field alias 980 reason ∷ map (surplus field winner) rest

abbrev pub by_preference : (String → ℕ) → List String → List String
by_preference preference hs = sort (λ a b. ltb (preference b) (preference a)) hs

abbrev pub taken_by : String → List String → List String
taken_by field [] = []
taken_by field (h ∷ hs) = field ∷ []

-- The structural pass over the columns that the vocabulary left, with the fields that are taken.
unfoldable pub structure : String → List String → List (String × Ratio) → List Mapping
structure basis taken [] = []
structure basis taken ((h, r) ∷ scored) =
    if not (contains taken "trade_price") && at_least_half r
    then mapped h "trade_price" local (price_conf r)
        ("varies per row " <> (basis <> (" (ratio " <> (shown r <> ")"))))
      ∷ structure basis ("trade_price" ∷ taken) scored
    else if not (contains taken "settlement_price") && not (at_least_half r)
    then mapped h "settlement_price" local (price_conf_rest r)
        ("constant " <> (basis <> (" (ratio " <> (shown r <> ")"))))
      ∷ structure basis ("settlement_price" ∷ taken) scored
    else left_open h ("additional price column, roles already assigned (ratio " <> (shown r <> ")"))
      ∷ structure basis taken scored

-- `instrument_col`
unfoldable pub instrument_column : List Mapping → Option String
instrument_column [] = none
instrument_column (m ∷ ms) =
    if m.canonical_field == some "instrument_id" then some m.source_field else instrument_column ms

-- `group_by`, empty for `None`
unfoldable pub group_by : Table → Option String → List String
group_by t none = []
group_by t (some header) = if is_blank header then [] else column t header

unfoldable pub score : Table → List String → List String → List (String × Ratio)
score t group [] = []
score t group (h ∷ hs) = (h, variation_ratio (column t h) group) ∷ score t group hs

abbrev by_ratio : List (String × Ratio) → List (String × Ratio)
by_ratio scored = sort (λ a b. below b.1 a.1) scored

unfoldable pub resolve_prices : Table → List String → List Mapping → List Mapping
resolve_prices t headers settled =
    let group = group_by t (instrument_column settled) in
    let settlements = by_preference settlement_preference (settlement_candidates headers) in
    let trades = by_preference trade_preference (trade_candidates headers) in
    let basis : String = if is_empty group then "across all rows" else "within instrument groups" in
    role_results "settlement_price" "header names a settlement or mark price" settlements
    ++ (role_results "trade_price" "header names an execution price" trades
        ++ structure basis
            (taken_by "settlement_price" settlements ++ taken_by "trade_price" trades)
            (by_ratio (score t group (undecided headers))))

abbrev by_source : List Mapping → List (String × Mapping)
by_source [] = []
by_source (m ∷ ms) = (m.source_field, m) ∷ by_source ms

-- `_in_source_order`
unfoldable pub in_source_order : List String → List Mapping → List Mapping
unfolding filter_map
in_source_order headers mappings =
    filter_map (λ h. lookup h (from_pairs (by_source mappings) [])) headers

abbrev pub start : Pass
start = record { mappings = []; claimed = []; deferred = [] }

-- `map_table` of a mapper with these overrides
unfoldable pub map_table : Dict String String → Table → List Mapping
map_table overrides t =
    let p = map_headers t (field_overrides overrides) start t.headers in
    in_source_order t.headers (p.mappings ++ resolve_prices t p.deferred p.mappings)

-- ===== src/Canonical.antt =====
-- python/src/inspector/mapping/canonical.py: the canonical schema, the weights and requirements of its
-- fields, and the first tier's dictionary of header aliases.
pub mod Aliases
pub mod Lookup
use harbormaster.Prelude.{
  ℕ, ◌+◌, ◌-◌, Bool, true, false, not, ◌&&◌, Option, none, some, List, [], ◌∷◌, ◌++◌, String, Eq,
  string_eq, ◌==◌, contains, ltb, if◌then◌else◌,
}
use harbormaster.Prelude.Text.{is_alnum, lower, filter_chars, ends_with, take_chars, size}
use harbormaster.Prelude.Dict.{Dict, lookup, insert}
use Aliases.{field_aliases}

pub data Domain : Type 0 where
  trade position cash collateral unknown : Domain

-- `Domain(text)`; `none` for the ValueError of a text that is no domain
abbrev pub domain_of : String → Option Domain
domain_of s =
    if s == "TRADE"
    then some trade
    else if s == "POSITION"
    then some position
    else if s == "CASH"
    then some cash
    else if s == "COLLATERAL"
    then some collateral
    else if s == "UNKNOWN"
    then some unknown
    else none

pub data Tier : Type 0 where
  alias local llm human unresolved : Tier

abbrev pub canonical_fields : List String
canonical_fields =
    "arrival_id" ∷ "source_system" ∷ "client_id" ∷ "account_id" ∷ "account_name" ∷ "trade_id"
    ∷ "instrument_id" ∷ "instrument_type" ∷ "trade_date" ∷ "value_date" ∷ "quantity" ∷ "trade_price"
    ∷ "settlement_price" ∷ "gross_amount" ∷ "net_amount" ∷ "market_value" ∷ "currency" ∷ "side"
    ∷ "domain" ∷ []

abbrev pub mappable_fields : List String
mappable_fields =
    "source_system" ∷ "account_id" ∷ "account_name" ∷ "trade_id" ∷ "instrument_id"
    ∷ "instrument_type" ∷ "trade_date" ∷ "quantity" ∷ "trade_price" ∷ "settlement_price"
    ∷ "gross_amount" ∷ "net_amount" ∷ "market_value" ∷ "currency" ∷ "side" ∷ []

abbrev pub field_weights : Dict String ℕ
field_weights =
    ("quantity", 3)
    ∷ ("trade_price", 3)
    ∷ ("settlement_price", 3)
    ∷ ("gross_amount", 3)
    ∷ ("net_amount", 3)
    ∷ ("market_value", 3)
    ∷ ("account_id", 2)
    ∷ ("instrument_id", 2)
    ∷ ("trade_id", 2)
    ∷ ("trade_date", 2)
    ∷ ("currency", 2)
    ∷ []

abbrev pub default_field_weight : ℕ
default_field_weight = 1

-- `FIELD_WEIGHTS.get(field, DEFAULT_FIELD_WEIGHT)`
unfoldable pub weight : String → ℕ
unfolding lookup
weight field = elim (lookup field field_weights) [ none ↦ default_field_weight | some w ↦ w ]

-- `sorted(REQUIRED_BY_DOMAIN[domain])`
unfoldable pub required_by_domain : Domain → List String
required_by_domain trade =
    "account_id" ∷ "currency" ∷ "instrument_id" ∷ "net_amount" ∷ "quantity" ∷ "trade_date"
    ∷ "trade_price" ∷ []
required_by_domain position =
    "account_id" ∷ "instrument_id" ∷ "market_value" ∷ "quantity" ∷ "settlement_price" ∷ []
required_by_domain cash = "account_id" ∷ "currency" ∷ "net_amount" ∷ []
required_by_domain collateral = "account_id" ∷ "currency" ∷ "instrument_id" ∷ "market_value" ∷ []
required_by_domain unknown = []

unfoldable pub normalize_header : String → String
unfolding lower filter_chars
normalize_header raw = filter_chars is_alnum (lower raw)

abbrev pub noise_tokens : List String
noise_tokens =
    "usd" ∷ "eur" ∷ "gbp" ∷ "jpy" ∷ "chf" ∷ "hkd" ∷ "local" ∷ "base" ∷ "reporting" ∷ "inbase"
    ∷ "inlocal" ∷ "amt" ∷ "value1" ∷ "col" ∷ []

-- the loop of `strip_noise`
strip_tokens : List String → String → String
strip_tokens [] out = out
strip_tokens (t ∷ ts) out = strip_tokens ts (
    if ends_with out t && ltb (size t + 2) (size out)
    then take_chars (size out - size t) out
    else out)

unfoldable pub strip_noise : String → String
unfolding strip_tokens ends_with take_chars
strip_noise normalized = strip_tokens noise_tokens normalized

-- The loops that fill `_ALIAS_INDEX`; `none` for the ValueError on an alias of two fields.
unfoldable pub add_aliases : String → List String → Dict String String → Option (Dict String String)
add_aliases field [] index = some index
add_aliases field (a ∷ as') index =
    let rest = add_aliases field as' (insert a field index) in
    elim (lookup a index) [ none ↦ rest | some other ↦ if other == field then rest else none ]

unfoldable pub build_index :
    Dict String (List String) → Dict String String → Option (Dict String String)
build_index [] index = some index
build_index ((field, aliases) ∷ r) index =
    elim (add_aliases field aliases
      (insert (normalize_header field) field (insert field field index))) [
        | none ↦ none
        | some filled ↦ build_index r filled
      ]

abbrev or_empty : Option (Dict String String) → Dict String String
or_empty none = []
or_empty (some d) = d

-- `_ALIAS_INDEX`, which the module fills when it is loaded
unfoldable pub alias_index : Dict String String
alias_index = or_empty (build_index field_aliases [])

unfoldable pub alias_lookup : String → Option String
alias_lookup raw =
    let normalized = normalize_header raw in
    elim (lookup normalized alias_index) [
      | none ↦ lookup (strip_noise normalized) alias_index
      | some hit ↦ some hit
    ]

-- Opens all that a lookup computes with.
unfoldable pub dictionary : Unit {0}
unfolding alias_lookup alias_index build_index add_aliases strip_noise normalize_header lookup
    insert
dictionary = tt

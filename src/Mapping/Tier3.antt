-- ===== src/Mapping/Tier3.antt =====
-- python/src/inspector/mapping/tier3.py, without the durable cache: what an adjudicator is asked and answers,
-- the deterministic stand-in, the cache in memory, and what a reviewer could promote. Confidences are
-- thousandths, and so is that of an adjudicator's answer.
use harbormaster.Prelude.{
  ℕ, ◌+◌, Bool, not, ◌&&◌, Option, none, some, List, [], ◌∷◌, find, filter, all, is_empty, is_some,
  map, String, ◌<>◌, nat_eq, string_eq, ◌==◌, contains, leb, if◌then◌else◌,
}
use harbormaster.Prelude.Text.{
  is_alpha, is_upper, is_blank, size, strip, has_infix, all_chars, repr,
}
use harbormaster.Prelude.Dict.{Dict, lookup, from_pairs, values}
use harbormaster.Canonical.{normalize_header}
use harbormaster.ValueDate.Parse.{parse_date}
pub mod Store
pub mod Fake

-- The candidate fields are not kept: they are always the mappable ones.
pub record AdjudicationRequest : Type 0 where
  pub client_id : String
  pub client_name : String
  pub source_hint : String
  pub domain : String
  pub template_fingerprint : String
  pub unresolved_headers : List String
  pub resolved : Dict String String
  pub samples : Dict String (List String)

pub record AdjudicatedField : Type 0 where
  pub source_field : String
  pub canonical_field : Option String
  pub confidence : ℕ
  pub rationale : String

-- The token counts are not kept.
pub record AdjudicationResult : Type 0 where
  pub fields : List AdjudicatedField
  pub model : String

abbrev by_source : List AdjudicatedField → List (String × AdjudicatedField)
by_source [] = []
by_source (f ∷ fs) = (f.source_field, f) ∷ by_source fs

unfoldable pub as_map : AdjudicationResult → Dict String AdjudicatedField
as_map r = from_pairs (by_source r.fields) []

-- `DeterministicFake._RULES`
abbrev pub rules : List (List String × String)
rules =
    ("settl" ∷ "close" ∷ "mtm" ∷ "mark" ∷ "official" ∷ "eod" ∷ [], "settlement_price")
    ∷ ("exec" ∷ "fill" ∷ "deal" ∷ "traded" ∷ "lastpx" ∷ "avgpx" ∷ [], "trade_price")
    ∷ ("qty" ∷ "quantity" ∷ "unit" ∷ "share" ∷ "contract" ∷ "nominal" ∷ "volume" ∷ [], "quantity")
    ∷ ("net" ∷ "proceed" ∷ "consider" ∷ "cash" ∷ "amount" ∷ "money" ∷ [], "net_amount")
    ∷ ("gross" ∷ "principal" ∷ [], "gross_amount")
    ∷ ("mkt" ∷ "market" ∷ "valuation" ∷ "fair" ∷ [], "market_value")
    ∷ ("ccy" ∷ "curr" ∷ [], "currency")
    ∷ ("acct" ∷ "account" ∷ "portfolio" ∷ "custody" ∷ "book" ∷ [], "account_id")
    ∷ (
      "isin" ∷ "cusip" ∷ "sedol" ∷ "symbol" ∷ "ticker" ∷ "instrument" ∷ "security" ∷ [],
      "instrument_id",
    )
    ∷ ("side" ∷ "buysell" ∷ "direction" ∷ "longshort" ∷ [], "side")
    ∷ ("trddt" ∷ "tradedate" ∷ "dealdate" ∷ "execdate" ∷ [], "trade_date")
    ∷ []

-- a field and why; no field when none was decided
abbrev pub Decision : Type 0
Decision = Option (String × String)

-- the loop over the rules: the first whose field is free and one of whose tokens is in the header
unfoldable pub by_rule : List String → String → List (List String × String) → Decision
unfolding find has_infix
by_rule taken header [] = none
by_rule taken header ((tokens, field) ∷ r) =
    let rest = by_rule taken header r in
    if contains taken field then rest else elim (find (has_infix header) tokens) [
      | none ↦ rest
      | some token ↦ some (field, "header contains " <> repr token)
    ]

-- `len(v) == 3 and v.isalpha() and v.isupper()`
abbrev pub is_code : String → Bool
is_code v = (size v == 3) && (all_chars is_alpha v && all_chars is_upper v)

abbrev pub cleaned : List String → List String
cleaned samples = filter (λ v. not (is_blank v)) (map strip samples)

-- `_from_samples`
unfoldable pub from_samples : List String → List String → Decision
unfolding all filter strip all_chars
from_samples taken samples =
    let vs = cleaned samples in
    if is_empty vs
    then none
    else if all is_code vs && not (contains taken "currency")
    then some ("currency", "sample values are three-letter uppercase codes")
    else if all (λ v. is_some (parse_date v)) vs && not (contains taken "trade_date")
    then some ("trade_date", "sample values parse as dates")
    else none

abbrev pub or_nil : Option (List String) → List String
or_nil none = []
or_nil (some l) = l

abbrev pub first_decision : Decision → Decision → Decision
first_decision none d = d
first_decision (some e) d = some e

abbrev pub answered : String → Decision → AdjudicatedField
answered header none = record {
  source_field = header;
  canonical_field = none;
  confidence = 0;
  rationale = "no rule or sample evidence applied";
}
answered header (some (field, rationale)) = record {
  source_field = header;
  canonical_field = some field;
  confidence = 800;
  rationale = rationale;
}

abbrev pub with_taken : List String → Decision → List String
with_taken taken none = taken
with_taken taken (some (field, _)) = field ∷ taken

-- the loop of `adjudicate` over the headers
unfoldable pub fake_fields :
    Dict String (List String) → List String → List String → List AdjudicatedField
unfolding lookup
fake_fields samples taken [] = []
fake_fields samples taken (h ∷ hs) =
    let d : Decision =
      first_decision (by_rule taken (normalize_header h) rules)
        (from_samples taken (or_nil (lookup h samples))) in
    answered h d ∷ fake_fields samples (with_taken taken d) hs

-- `DeterministicFake.adjudicate`
unfoldable pub deterministic_fake : AdjudicationRequest → AdjudicationResult
deterministic_fake q = record {
  fields = fake_fields q.samples (values q.resolved) q.unresolved_headers;
  model = "deterministic-fake";
}

-- `InMemoryCache`
pub record InMemoryCache : Type 0 where
  pub store : List (String × (String × Dict String String))
  pub hits : ℕ
  pub misses : ℕ

abbrev pub same_key : String → String → String × (String × Dict String String) → Bool
same_key fingerprint client_id e = (e.0 == fingerprint) && (e.1.0 == client_id)

unfoldable pub stored :
    String → String → List (String × (String × Dict String String)) → Option (Dict String String)
stored fingerprint client_id [] = none
stored fingerprint client_id (e ∷ r) =
    if same_key fingerprint client_id e then some e.1.1 else stored fingerprint client_id r

unfoldable pub get : InMemoryCache → String → String → Option (Dict String String) × InMemoryCache
get c fingerprint client_id =
    let found = stored fingerprint client_id c.store in
    (
      found,
      elim found [
        | none ↦ record c { misses = c.misses + 1 }
        | some _ ↦ record c { hits = c.hits + 1 }
      ],
    )

unfoldable pub put_in :
    String
    → String
    → Dict String String
    → List (String × (String × Dict String String))
    → List (String × (String × Dict String String))
put_in fingerprint client_id mappings [] = (fingerprint, (client_id, mappings)) ∷ []
put_in fingerprint client_id mappings (e ∷ r) =
    if same_key fingerprint client_id e
    then (fingerprint, (client_id, mappings)) ∷ r
    else e ∷ put_in fingerprint client_id mappings r

unfoldable pub put : InMemoryCache → String → String → Dict String String → InMemoryCache
put c fingerprint client_id mappings = record c {
  store = put_in fingerprint client_id mappings c.store;
}

abbrev promotable_pairs : ℕ → List AdjudicatedField → List (String × String)
promotable_pairs least [] = []
promotable_pairs least (f ∷ fs) =
    let rest = promotable_pairs least fs in
    elim f.canonical_field [
      | none ↦ rest
      | some field ↦
          if not (is_blank field) && leb least f.confidence
          then (f.source_field, field) ∷ rest
          else rest
    ]

-- `promotable`, at a least confidence
unfoldable pub promotable : ℕ → AdjudicationResult → Dict String String
promotable least r = from_pairs (promotable_pairs least r.fields) []

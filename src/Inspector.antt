-- ===== src/Inspector.antt =====
-- python/src/inspector/main.py: the choice of a parser and the pipeline of `classify`. A parser is what its protocol in
-- parsers/base.py says; its score is in thousandths. A file is its text; the digest of a fingerprint is a parameter.
pub mod Publication
pub mod Batches
pub mod Routing
use harbormaster.Prelude.{
  ℕ, zero, suc, ◌+◌, Bool, true, false, not, ◌&&◌, Option, none, some, List, [], ◌∷◌, ◌++◌, map,
  length, String, ◌<>◌, string_eq, nat_eq, ◌==◌, ltb, leb, is_empty, if◌then◌else◌,
}
use harbormaster.Prelude.Int.{pos}
use harbormaster.Prelude.Text.{is_blank, take_chars, join, str_of_nat}
use harbormaster.Prelude.Dict.{Dict}
use harbormaster.Prelude.Sort.{sort, text_lt}
use harbormaster.Dates.{Date}
use harbormaster.Calendar.{Calendar}
use harbormaster.Registry.{Registry, Client, client, calendar, calendar_for, value_date_hints}
use harbormaster.Attribution.{Attribution, attribute}
use harbormaster.Canonical.{normalize_header}
use harbormaster.ValueDate.Columns.{Row}
use harbormaster.ValueDate.Resolve.{Resolution, Request, resolve}
use harbormaster.ValueDate.Split.{split_by_value_date}
use harbormaster.Mapping.{Table, Mapping, parsed_table}
use harbormaster.Mapping.CrossCheck.{CrossCheck, cross_check_amount}
use harbormaster.Mapping.Resolver
use harbormaster.Mapping.Resolver.{TieredResolver, Context, ResolutionOutcome}
use harbormaster.Mapping.Tier2.{Signals}
use harbormaster.Mapping.Tier3.{AdjudicationRequest, AdjudicationResult, InMemoryCache}
use harbormaster.Confidence.{Score, Environment, compose}

-- The value of a call, the ParseError that the consumer catches, or any other exception.
pub data Result (A : Type 0) : Type 0 where
  ok : A → Result A
  malformed : Result A
  raised : Result A

infixl 5 ◌>>=◌
abbrev pub ◌>>=◌ : {A B : Type 0} → Result A → (A → Result B) → Result B
ok a >>= f = f a
malformed >>= f = malformed
raised >>= f = raised

-- A value, or an exception that is no ParseError.
abbrev pub or_raise : {A : Type 0} → Option A → Result A
or_raise none = raised
or_raise (some a) = ok a

-- A value, or a ParseError.
abbrev pub or_malformed : {A : Type 0} → Option A → Result A
or_malformed none = malformed
or_malformed (some a) = ok a

-- `Parser`
pub record Parser : Type 0 where
  pub format_name : String
  pub sniff : String → String → ℕ
  pub parse : String → Option Table

abbrev pub sniff_bytes : ℕ
sniff_bytes = 65536

-- the first of the parsers with the highest score: the sort is stable and reversed
unfoldable pub best_parser : String → String → List Parser → Option (Parser × ℕ)
best_parser head name [] = none
best_parser head name (p ∷ ps) = elim (best_parser head name ps) [
  | none ↦ some (p, p.sniff head name)
  | some (q, s) ↦ if ltb (p.sniff head name) s then some (q, s) else some (p, p.sniff head name)
]

abbrev recognised : Parser × ℕ → Result (Parser × ℕ)
recognised (p, score) = if score == 0 then malformed else ok (p, score)

-- `Inspector.sniff`
unfoldable pub sniff : List Parser → String → String → Result (Parser × ℕ)
unfolding best_parser take_chars
sniff parsers content name =
    or_raise (best_parser (take_chars sniff_bytes content) name parsers) >>= recognised

abbrev pub or_text : Option String → String → String
or_text none d = d
or_text (some s) d = if is_blank s then d else s

-- `template_fingerprint`
unfoldable pub template_fingerprint : (String → String) → Option String → List String → String
unfolding join
template_fingerprint digest client_id headers =
    "tf_" <> digest (join "|" (or_text client_id "?" ∷ map normalize_header headers))

-- `Inspector`, with the environment of the thresholds and the day of `datetime.now`
pub record Inspector : Type 0 where
  pub registry : Registry
  pub parsers : List Parser
  pub signals : Signals
  pub adjudicator : Option (AdjudicationRequest → AdjudicationResult)
  pub cache : Option InMemoryCache
  pub environment : Environment
  pub digest : String → String
  pub today : Date

pub record Classification : Type 0 where
  pub arrival_id : String
  pub source_format : String
  pub client_id : Option String
  pub attribution : Attribution
  pub value_date : Resolution
  pub domain : String
  pub mappings : List Mapping
  pub score : Score
  pub table : Table
  pub template_fingerprint : String
  pub canonical_uri : String
  pub row_count : ℕ
  pub sub_batch_index : ℕ
  pub sub_batch_total : ℕ
  pub cross_check : String

-- `attribution.client_id` as a test
abbrev pub known_id : Attribution → Option String
known_id a = elim a.client_id [ none ↦ none | some c ↦ if is_blank c then none else some c ]

abbrev pub client_of : Registry → Option String → Option Client
client_of r none = none
client_of r (some c) = client r c

abbrev pub calendar_of : Registry → Option String → Option Calendar
calendar_of r none = calendar r "US_EQUITY"
calendar_of r (some c) = calendar_for r c

abbrev pub hints_of : Option Client → List String
hints_of none = []
hints_of (some c) = value_date_hints c

abbrev pub overrides_of : Option Client → Dict String String
overrides_of none = []
overrides_of (some c) = c.field_overrides

abbrev pub name_of : Option Client → String
name_of none = ""
name_of (some c) = c.client_name

-- the note of the cross-check, marked if it failed
abbrev pub check_note : CrossCheck → String
check_note (some false, note) = "arithmetic cross-check FAILED: " <> note
check_note (some true, note) = note
check_note (none, note) = note

-- What `classify` has found when the rows are split.
pub record Found : Type 0 where
  pub arrival_id : String
  pub original_name : String
  pub source_format : String
  pub attribution : Attribution
  pub calendar_used : Calendar
  pub hints : List String
  pub domain : String
  pub mappings : List Mapping
  pub fingerprint : String
  pub note : String

abbrev pub resolution_request : Date → Found → Table → Request
resolution_request today f t = record {
  headers = t.headers;
  rows = t.rows;
  filename = f.original_name;
  arrival_day = today;
  calendar = f.calendar_used;
  hints = f.hints;
  settlement_offset_days = pos 1;
}

abbrev pub classified : Found → Table → ℕ → ℕ → Resolution → Score → Classification
classified f t index total v s = record {
  arrival_id = f.arrival_id;
  source_format = f.source_format;
  client_id = f.attribution.client_id;
  attribution = f.attribution;
  value_date = v;
  domain = f.domain;
  mappings = f.mappings;
  score = s;
  table = t;
  template_fingerprint = f.fingerprint;
  canonical_uri = "";
  row_count = length t.rows;
  sub_batch_index = index;
  sub_batch_total = total;
  cross_check = f.note;
}

-- a table with its date and its score
unfoldable pub classify_table :
    Environment → Date → Found → Table → ℕ → ℕ → (Resolution → Resolution) → Result Classification
unfolding resolve compose
classify_table e today f t index total noted =
    or_raise (resolve (resolution_request today f t)) >>= λ v.
    or_raise (compose e f.attribution (noted v) f.mappings f.domain) >>= λ s.
    ok (classified f t index total (noted v) s)

abbrev pub with_note : ℕ → ℕ → Resolution → Resolution
with_note index total v = record v {
  notes =
      "sub-batch "
      <> (str_of_nat (index + 1)
          <> (" of "
              <> (str_of_nat total
                  <> ("; file spans " <> (str_of_nat total <> (" value dates. " <> v.notes))))));
}

-- the loop over the groups, from group `index` on
unfoldable pub classify_groups :
    Environment
    → Date
    → Found
    → List String
    → ℕ
    → ℕ
    → List (String × List Row)
    → Result (List Classification)
unfolding classify_table str_of_nat parsed_table
classify_groups e today f headers index total [] = ok []
classify_groups e today f headers index total ((_, rows) ∷ groups) =
    or_malformed (parsed_table headers rows) >>= λ t.
    classify_table e today f t index total (with_note index total) >>= λ c.
    classify_groups e today f headers (index + 1) total groups >>= λ cs. ok (c ∷ cs)

abbrev pub by_iso : String × List Row → String × List Row → Bool
by_iso a b = text_lt a.0 b.0

-- one classification, or one for each value date
unfoldable pub classify_split :
    Environment → Date → Found → Table → List (String × List Row) → Result (List Classification)
unfolding classify_table classify_groups sort
classify_split e today f t [] = classify_table e today f t 0 1 (λ v. v) >>= λ c. ok (c ∷ [])
classify_split e today f t (g ∷ gs) =
    classify_groups e today f t.headers 0 (length (g ∷ gs)) (sort by_iso (g ∷ gs))

abbrev pub context_of : Attribution → Option Client → String → String → Context
context_of a c domain fingerprint = record {
  client_id = or_text a.client_id "";
  client_name = name_of c;
  source_hint = a.source_hint;
  domain = domain;
  template_fingerprint = fingerprint;
}

-- a cache that is given is shared by all files; without one each file has a new one
abbrev pub cache_or_new : Option InMemoryCache → InMemoryCache
cache_or_new none = record { store = []; hits = 0; misses = 0 }
cache_or_new (some c) = c

abbrev pub kept_cache : Option InMemoryCache → InMemoryCache → Option InMemoryCache
kept_cache none after = none
kept_cache (some before) after = some after

abbrev pub resolver_of : Inspector → Option Client → TieredResolver
resolver_of i c = record {
  field_overrides = overrides_of c;
  signals = i.signals;
  adjudicator = i.adjudicator;
  cache = cache_or_new i.cache;
}

-- the mappings of a file, and the inspector with the cache as it is left
unfoldable pub map_columns :
    Inspector → Attribution → Option Client → String → Table → ResolutionOutcome × Inspector
unfolding template_fingerprint Resolver.resolve
map_columns i a c domain t =
    let (outcome, resolver) =
      Resolver.resolve (resolver_of i c)
        (context_of a c domain (template_fingerprint i.digest a.client_id t.headers)) t in
    (outcome, record i { cache = kept_cache i.cache resolver.cache })

abbrev pub domain_text : Attribution → String
domain_text a = or_text (some a.domain) "UNKNOWN"

abbrev pub outcome_of : Inspector → Attribution → Table → ResolutionOutcome × Inspector
outcome_of i a t = map_columns i a (client_of i.registry (known_id a)) (domain_text a) t

abbrev pub found_of :
    Inspector → String → String → Parser → Table → Attribution → Calendar → CrossCheck → Found
found_of i arrival_id name parser t a cal check = record {
  arrival_id = arrival_id;
  original_name = name;
  source_format = parser.format_name;
  attribution = a;
  calendar_used = cal;
  hints = hints_of (client_of i.registry (known_id a));
  domain = domain_text a;
  mappings = (outcome_of i a t).0.mappings;
  fingerprint = template_fingerprint i.digest a.client_id t.headers;
  note = check_note check;
}

abbrev pub groups_of : Inspector → Table → Attribution → List (String × List Row)
groups_of i t a =
    split_by_value_date t.rows t.headers (hints_of (client_of i.registry (known_id a)))

-- `classify` once the client is known
unfoldable pub classify_attributed :
    Inspector
    → String
    → String
    → Parser
    → Table
    → Attribution
    → Result (List Classification × Inspector)
unfolding map_columns cross_check_amount split_by_value_date classify_split value_date_hints
    calendar_for
classify_attributed i arrival_id name parser t a =
    or_raise (calendar_of i.registry (known_id a)) >>= λ cal.
    or_raise (cross_check_amount t (outcome_of i a t).0.mappings) >>= λ check.
    classify_split i.environment i.today (found_of i arrival_id name parser t a cal check) t
      (groups_of i t a)
    >>= λ cs. ok (cs, (outcome_of i a t).1)

-- `Inspector.classify`
unfoldable pub classify :
    Inspector → String → String → String → Result (List Classification × Inspector)
unfolding sniff classify_attributed attribute
classify i arrival_id content name = sniff i.parsers content name >>= λ chosen.
    or_malformed (chosen.0.parse content) >>= λ t.
    classify_attributed i arrival_id name chosen.0 t (attribute name t.headers t.rows i.registry)

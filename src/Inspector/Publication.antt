-- ===== src/Inspector/Publication.antt =====
-- `write_canonical`, `to_proto`, `topic_for` and the handler of `main` in python/src/inspector/main.py. The files, the decoder
-- of the raw arrivals and the encoder of the classified ones are parameters.
use harbormaster.Prelude.{
  ℕ, Bool, Option, none, some, List, [], ◌∷◌, ◌++◌, map, length, String, ◌<>◌, ltb, string_eq,
  if◌then◌else◌,
}
use harbormaster.Prelude.Text.{is_blank, str_of_nat, starts_with, drop_chars}
use harbormaster.Prelude.Dict.{Dict, lookup, from_pairs}
use harbormaster.Dates.{Date, isoformat}
use harbormaster.Registry.{Registry, Client, Account, client}
use harbormaster.ValueDate.Resolve.{Resolution, Method, resolved_iso}
use harbormaster.Mapping.{Mapping}
use harbormaster.Canonical.{Tier}
use harbormaster.Confidence.{Disposition, dispatched, quarantined, rejected}
use harbormaster.Emit.{CanonicalRow, build_records}
use harbormaster.Bus.{Message, MemoryBus, slot_key, publish}
use harbormaster.Inspector.{
  Result, ok, malformed, raised, ◌>>=◌, or_raise, Inspector, Classification, or_text, classify,
}

abbrev pub topic_arrivals_classified : String
topic_arrivals_classified = "hm.arrivals.classified"

abbrev pub topic_arrivals_quarantine : String
topic_arrivals_quarantine = "hm.arrivals.quarantined"

-- `topic_for`
abbrev pub topic_for : Disposition → String
topic_for dispatched = topic_arrivals_classified
topic_for quarantined = topic_arrivals_quarantine
topic_for rejected = topic_arrivals_quarantine

-- `{a.id: a.name for a in client.accounts}`
abbrev name_pairs : List Account → List (String × String)
name_pairs [] = []
name_pairs (a ∷ r) = (a.id, a.name) ∷ name_pairs r

abbrev account_names : Option Client → Dict String String
account_names none = []
account_names (some c) = from_pairs (name_pairs c.accounts) []

abbrev owner_of : Registry → Option String → Option Client
owner_of r none = none
owner_of r (some c) = if is_blank c then none else client r c

-- the name of the canonical file
unfoldable pub canonical_name : Classification → String
unfolding str_of_nat
canonical_name c =
    c.arrival_id
    <> ((if ltb 1 c.sub_batch_total then "_" <> str_of_nat c.sub_batch_index else "") <> ".parquet")

-- the records that `write_canonical` writes
unfoldable pub canonical_records : Registry → Classification → List CanonicalRow
unfolding build_records
canonical_records r c =
    build_records c.table c.mappings
      (record {
        arrival_id = c.arrival_id;
        client_id = or_text c.client_id "";
        value_date = resolved_iso c.value_date;
        domain = c.domain;
        source_system = c.attribution.source_hint;
      })
      (account_names (owner_of r c.client_id))

-- the files of the canonical store by their names, and the classification with what `write_canonical` sets
unfoldable pub write_canonical :
    Registry
    → Classification
    → List (String × List CanonicalRow)
    → Classification × List (String × List CanonicalRow)
unfolding canonical_name canonical_records
write_canonical r c files =
    let records = canonical_records r c in
    (
      record c {
        canonical_uri = "fs://canonical/" <> canonical_name c;
        row_count = length records;
      },
      files ++ (canonical_name c, records) ∷ [],
    )

pub data SourceFormat : Type 0 where
  csv excel xml fixml email_text json any_format : SourceFormat

-- `_FORMAT_ENUM.get`
abbrev formats : Dict String SourceFormat
formats =
    ("CSV", csv)
    ∷ ("EXCEL", excel)
    ∷ ("XML", xml)
    ∷ ("FIXML", fixml)
    ∷ ("EMAIL_TEXT", email_text)
    ∷ ("JSON", json)
    ∷ []

abbrev format_or : Option SourceFormat → SourceFormat
format_or none = any_format
format_or (some f) = f

pub data ProductDomain : Type 0 where
  trade position cash collateral any_domain : ProductDomain

-- `_DOMAIN_ENUM.get`
abbrev domains : Dict String ProductDomain
domains =
    ("TRADE", trade)
    ∷ ("POSITION", position)
    ∷ ("CASH", cash)
    ∷ ("COLLATERAL", collateral)
    ∷ ("UNKNOWN", any_domain)
    ∷ []

abbrev domain_or : Option ProductDomain → ProductDomain
domain_or none = any_domain
domain_or (some d) = d

pub record ValueDateResolution : Type 0 where
  pub resolved : String
  pub from_filename : String
  pub from_content : List String
  pub from_arrival : String
  pub method : Method
  pub confidence : ℕ
  pub mismatch_flagged : Bool
  pub calendar_id : String
  pub notes : String

pub record FieldMapping : Type 0 where
  pub source_field : String
  pub canonical_field : String
  pub tier : Tier
  pub confidence : ℕ
  pub evidence : String

-- The message of a classification, without the time at which it is made.
pub record ArrivalClassified : Type 0 where
  pub arrival_id : String
  pub format : SourceFormat
  pub source_hint : String
  pub client_id : String
  pub client_confidence : ℕ
  pub account_ids : List String
  pub domain : ProductDomain
  pub value_date : ValueDateResolution
  pub row_count : ℕ
  pub field_mappings : List FieldMapping
  pub canonical_uri : String
  pub overall_confidence : ℕ
  pub disposition : Disposition
  pub review_reasons : List String
  pub template_fingerprint : String
  pub sub_batch_index : ℕ
  pub sub_batch_total : ℕ

abbrev iso_or_nothing : Option Date → String
iso_or_nothing none = ""
iso_or_nothing (some d) = isoformat d

abbrev resolution_message : Resolution → ValueDateResolution
resolution_message v = record {
  resolved = resolved_iso v;
  from_filename = iso_or_nothing v.from_filename;
  from_content = map isoformat v.from_content;
  from_arrival = iso_or_nothing v.from_arrival;
  method = v.method;
  confidence = v.confidence;
  mismatch_flagged = v.mismatch_flagged;
  calendar_id = v.calendar_id;
  notes = v.notes;
}

abbrev mapping_message : Mapping → FieldMapping
mapping_message m = record {
  source_field = m.source_field;
  canonical_field = or_text m.canonical_field "";
  tier = m.tier;
  confidence = m.confidence;
  evidence = m.evidence;
}

-- `reasons`
unfoldable pub reasons_with_check : Classification → List String
reasons_with_check c =
    if is_blank c.cross_check then c.score.reasons else c.score.reasons ++ c.cross_check ∷ []

-- `to_proto`
unfoldable pub to_proto : Classification → ArrivalClassified
unfolding isoformat lookup reasons_with_check
to_proto c = record {
  arrival_id = c.arrival_id;
  format = format_or (lookup c.source_format formats);
  source_hint = c.attribution.source_hint;
  client_id = or_text c.client_id "";
  client_confidence = c.attribution.confidence;
  account_ids = c.attribution.account_ids;
  domain = domain_or (lookup c.domain domains);
  value_date = resolution_message c.value_date;
  row_count = c.row_count;
  field_mappings = map mapping_message c.mappings;
  canonical_uri = c.canonical_uri;
  overall_confidence = c.score.overall;
  disposition = c.score.disposition;
  review_reasons = reasons_with_check c;
  template_fingerprint = c.template_fingerprint;
  sub_batch_index = c.sub_batch_index;
  sub_batch_total = c.sub_batch_total;
}

-- a raw arrival as it is decoded
pub record ArrivalRaw : Type 0 where
  pub arrival_id : String
  pub uri : String
  pub original_name : String

-- what is outside: the codec, and the content of a file of the object store
pub record Outside : Type 0 where
  pub decode : String → Option ArrivalRaw
  pub encode : ArrivalClassified → String
  pub read : String → Option String

abbrev pub message_of : (ArrivalClassified → String) → Classification → Message
message_of encode c = record {
  topic = topic_for c.score.disposition;
  key = slot_key (or_text c.client_id "UNKNOWN") c.domain (resolved_iso c.value_date);
  value = encode (to_proto c);
  headers = [];
  partition = 0;
  offset = 0;
}

-- the inspector, the bus and the canonical files
pub record World : Type 0 where
  pub inspector : Inspector
  pub bus : MemoryBus
  pub files : List (String × List CanonicalRow)

abbrev pub published : Option MemoryBus → World → Result World
published none w = raised
published (some b) w = ok (record w { bus = b })

-- the body of the loop over the classifications
unfoldable pub send : Outside → (String → ℕ) → World → Classification → Result World
unfolding write_canonical to_proto publish slot_key
send o hash w c =
    let (written, files) = write_canonical w.inspector.registry c w.files in
    published (publish hash w.bus (message_of o.encode written ∷ [])) (record w { files = files })

unfoldable pub send_all : Outside → (String → ℕ) → World → List Classification → Result World
unfolding send
send_all o hash w [] = ok w
send_all o hash w (c ∷ cs) = send o hash w c >>= λ v. send_all o hash v cs

-- `raw.uri.removeprefix("fs://")`
abbrev pub without_scheme : String → String
without_scheme uri = if starts_with uri "fs://" then drop_chars 5 uri else uri

-- the `except ParseError` of `handle`
abbrev pub caught : World → Result World → Result World
caught w (ok v) = ok v
caught w malformed = ok w
caught w raised = raised

abbrev pub classify_raw :
    Outside → Inspector → ArrivalRaw → Result (List Classification × Inspector)
classify_raw o i raw = or_raise (o.read (without_scheme raw.uri)) >>= λ content.
    classify i raw.arrival_id content raw.original_name

-- `handle`
unfoldable pub handle : Outside → (String → ℕ) → World → Message → Result World
unfolding classify send_all starts_with drop_chars
handle o hash w m = or_raise (o.decode m.value) >>= λ raw. caught w (
    classify_raw o w.inspector raw >>= λ found.
    send_all o hash (record w { inspector = found.1 }) found.0)

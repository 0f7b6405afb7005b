-- ===== src/Reconstub/Consumer.antt =====
-- `run_assignment` and the handler of `main` in python/src/reconstub/main.py. The decoding of a payload and the
-- canonical files are parameters; an exception is `none`. The time at which a report is written is not kept.
pub mod Voids
pub mod Ignored
use harbormaster.Prelude.{
  ℕ, Bool, true, false, Option, none, some, List, [], ◌∷◌, ◌++◌, take, length, String, ◌<>◌,
  string_eq, ◌==◌, contains, if◌then◌else◌,
}
use harbormaster.Prelude.Text.{starts_with, drop_chars}
use harbormaster.Prelude.Dict.{Dict, insert}
use harbormaster.Bus.{Message, MemoryBus, drain}
use harbormaster.Reconstub.{Row, Break, text_of, reconcile, matched}

-- `TOPIC_BERTH_ASSIGNED` and `TOPIC_BERTH_SUPERSEDED`
abbrev pub topic_berth_assigned : String
topic_berth_assigned = "hm.berth.assigned"

abbrev pub topic_berth_superseded : String
topic_berth_superseded = "hm.berth.superseded"

-- The entries of a payload that the stub reads, `none` where one is missing.
pub record Payload : Type 0 where
  pub assignment_id : Option String
  pub side_1_uri : Option String
  pub side_2_uri : Option String
  pub client_id : Option String
  pub domain : Option String
  pub value_date : Option String
  pub supersedes : Option String

pub record Report : Type 0 where
  pub assignment_id : String
  pub client_id : String
  pub domain : String
  pub value_date : String
  pub side_1_rows : ℕ
  pub side_2_rows : ℕ
  pub matched_rows : ℕ
  pub breaks : List Break
  pub superseded : String

-- `to_dict`: how many breaks there are, and the first 500 of them
abbrev pub written_breaks : Report → ℕ × List Break
written_breaks r = (length r.breaks, take 500 r.breaks)

-- What is outside: the decoder of a payload, and the rows of a file of the object store.
pub record Outside : Type 0 where
  pub decode : String → Option Payload
  pub read_parquet : String → Option (List Row)

-- `voided`, and the report files by their names
pub record Stub : Type 0 where
  pub voided : List String
  pub reports : Dict String Report

infixl 5 ◌>>=◌
abbrev pub ◌>>=◌ : {A B : Type 0} → Option A → (A → Option B) → Option B
none >>= f = none
some a >>= f = f a

-- `load_canonical`
unfoldable pub load_canonical : Outside → String → Option (List Row)
unfolding starts_with drop_chars
load_canonical o uri = if starts_with uri "fs://" then o.read_parquet (drop_chars 5 uri) else none

abbrev report_of :
    String
    → String
    → Option String
    → String
    → Option String
    → List Row
    → List Row
    → List Break
    → Report
report_of assignment client domain day supersedes side_1 side_2 breaks = record {
  assignment_id = assignment;
  client_id = client;
  domain = text_of domain;
  value_date = day;
  side_1_rows = length side_1;
  side_2_rows = length side_2;
  matched_rows = matched side_1 side_2;
  breaks = breaks;
  superseded = text_of supersedes;
}

-- `run_assignment`, without the file that it writes
unfoldable pub run_assignment : Outside → Payload → Option Report
unfolding load_canonical reconcile matched
run_assignment o p = do
  uri_1 ← p.side_1_uri
  side_1 ← load_canonical o uri_1
  uri_2 ← p.side_2_uri
  side_2 ← load_canonical o uri_2
  assignment ← p.assignment_id
  client ← p.client_id
  day ← p.value_date
  breaks ← reconcile side_1 side_2
  some (report_of assignment client p.domain day p.supersedes side_1 side_2 breaks)

-- the name of the report file
unfoldable pub report_name : Report → String
report_name r = r.client_id <> ("_" <> (r.domain <> ("_" <> (r.value_date <> ".json"))))

abbrev void : Stub → String → Stub
void s assignment = record s { voided = assignment ∷ s.voided }

abbrev store : Stub → Report → Stub
store s r = record s { reports = insert (report_name r) r s.reports }

abbrev stored : Stub → Option Report → Option Stub
stored s none = none
stored s (some r) = some (store s r)

abbrev run_unless : Outside → Stub → Payload → Bool → Option Stub
run_unless o s p true = some s
run_unless o s p false = stored s (run_assignment o p)

abbrev handle_payload : Outside → Stub → Bool → Payload → String → Option Stub
handle_payload o s true p assignment = some (void s assignment)
handle_payload o s false p assignment = run_unless o s p (contains s.voided assignment)

-- `handle`
unfoldable pub handle : Outside → Stub → Message → Option Stub
unfolding run_assignment
handle o s m = do
  p ← o.decode m.value
  assignment ← p.assignment_id
  handle_payload o s (m.topic == topic_berth_superseded) p assignment

-- the calls of `handle` by `consume`, which an exception ends
unfoldable pub handle_all : Outside → Stub → List Message → Option Stub
handle_all o s [] = some s
handle_all o s (m ∷ ms) = handle o s m >>= λ t. handle_all o t ms

-- `consume` of `main`
unfoldable pub consume : Outside → MemoryBus → Option Stub
unfolding handle_all drain
consume o b =
    handle_all o (record { voided = []; reports = [] })
      (drain b (topic_berth_assigned ∷ topic_berth_superseded ∷ []))

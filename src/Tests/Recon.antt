-- ===== src/Tests/Recon.antt =====
-- Two sides that are reconciled, and the consumer of assignments.
use harbormaster.Prelude.{
  ◌≡◌, ◌+◌, ◌*◌, true, refl, false, not, ◌&&◌, some, none, [], ◌∷◌, List, String, All, map,
  contains, string_eq, filter, if◌then◌else◌, ◌==◌, arith,
}
use Prim.Native.Nat.{◌^◌}
use harbormaster.Prelude.Text.{strip, join, starts_with, drop_chars, lower, filter_chars, all_chars}
use harbormaster.Prelude.Dict.{from_pairs, insert, lookup}
use harbormaster.Prelude.Sort.{sort, insert_sorted}
use harbormaster.Mapping.Numbers.{decimal}
use harbormaster.Bus.{
  Message, MemoryBus, memory_bus, publish, append_all, append, partition_for, messages, drain,
  drain_topic,
}
use harbormaster.Prelude.Digits.{digits, digit_count}
use harbormaster.Reconstub.{
  Row, Break, value_mismatch, missing_side_1, missing_side_2, reconcile, by_key, keys_without,
  keys_of_both, compare_keys, compare_rows, compare_values, value_of, key_of, as_decimal, exceeds,
  exceeds_by, overflows, half_unit, matched,
}
use harbormaster.Reconstub.Missing.{keys_of_kind, reconcile-missing}
use harbormaster.Reconstub.Total.{IsPlain, reconcile_total}
use harbormaster.Reconstub.Consumer.{
  Payload, Report, Outside, Stub, run_assignment, load_canonical, report_name, handle, handle_all,
  consume, topic_berth_assigned, topic_berth_superseded,
}
use harbormaster.Reconstub.Consumer.Voids.{NoNew, handle_all-void}
use harbormaster.Reconstub.Consumer.Ignored.{run_each, consume-run_each}

-- Opens the comparison.
unfoldable pub comparison : Unit {0}
unfolding reconcile by_key keys_without keys_of_both compare_keys compare_rows compare_values
    value_of key_of as_decimal exceeds exceeds_by overflows half_unit digits digit_count decimal
    from_pairs insert lookup sort insert_sorted filter join strip starts_with drop_chars lower
    filter_chars all_chars
comparison = tt

abbrev row : String → String → Row
row trade quantity =
    ("account_id", some "A1")
    ∷ ("instrument_id", some "X1")
    ∷ ("trade_id", some trade)
    ∷ ("quantity", some quantity)
    ∷ ("settlement_price", none)
    ∷ []

abbrev client_side : List Row
client_side = row "t1" "100" ∷ row "t2" "5.00" ∷ row "t3" "7" ∷ []

abbrev own_side : List Row
own_side = row "t2" "5.009" ∷ row "t1" "100.02" ∷ row "t4" "7" ∷ []

abbrev missing_break : String → Break
missing_break key = record {
  kind = missing_side_2;
  join_key = key;
  field_name = "";
  side_1_value = "";
  side_2_value = "";
}

-- A difference of 0.009 is no break, one of 0.02 is.
abbrev expected : List Break
expected =
    missing_break "A1|X1|t3"
    ∷ record (missing_break "A1|X1|t4") { kind = missing_side_1 }
    ∷ record {
      kind = value_mismatch;
      join_key = "A1|X1|t1";
      field_name = "quantity";
      side_1_value = "100";
      side_2_value = "100.02";
    }
    ∷ []

reconciled : reconcile client_side own_side ≡ some expected
unfolding comparison
reconciled = refl

abbrev MissingStatement : String → Type 0
MissingStatement k =
    (contains (keys_of_kind missing_side_2 expected) k
      ≡ (contains (map key_of client_side) k && not (contains (map key_of own_side) k)))
    × (contains (keys_of_kind missing_side_1 expected) k
        ≡ (contains (map key_of own_side) k && not (contains (map key_of client_side) k)))

reconcile-missing_example : MissingStatement "A1|X1|t4"
reconcile-missing_example = reconcile-missing client_side own_side expected reconciled "A1|X1|t4"

client_side-IsPlain : All IsPlain client_side
unfolding comparison
client_side-IsPlain = omega arith

own_side-IsPlain : All IsPlain own_side
unfolding comparison
own_side-IsPlain = omega arith

reconcile_total_example : (bs : List Break) × (reconcile client_side own_side ≡ some bs)
reconcile_total_example = reconcile_total client_side own_side client_side-IsPlain own_side-IsPlain

-- A NaN on both sides raises.
nan_raises : reconcile (row "t1" "NaN" ∷ []) (row "t1" "1" ∷ []) ≡ none
unfolding comparison
nan_raises = refl

abbrev payload : String → Payload
payload id = record {
  assignment_id = some id;
  side_1_uri = some "fs://client";
  side_2_uri = some "fs://own";
  client_id = some "c1";
  domain = some "POSITION";
  value_date = some "2026-08-28";
  supersedes = none;
}

-- The payload of a message is the id of its assignment.
abbrev outside : Outside
outside = record {
  decode = λ s. some (payload s);
  read_parquet = λ name. if name == "client" then some client_side else some own_side;
}

abbrev about : String → String → Message
about topic id = record {
  topic = topic;
  key = "c1:POSITION:2026-08-28";
  value = id;
  headers = [];
  partition = 0;
  offset = 0;
}

abbrev report : String → Report
report id = record {
  assignment_id = id;
  client_id = "c1";
  domain = "POSITION";
  value_date = "2026-08-28";
  side_1_rows = 3;
  side_2_rows = 3;
  matched_rows = 2;
  breaks = expected;
  superseded = "";
}

abbrev with_reports : List String → List (String × Report) → Stub
with_reports voided reports = record { voided = voided; reports = reports }

-- Opens the consumer.
unfoldable consumption : Unit {0}
unfolding comparison handle_all handle run_assignment load_canonical report_name matched run_each
    consume publish append_all append partition_for messages drain drain_topic
consumption = tt

-- The void comes first: the assignment is skipped, and the other is run.
voided_first :
    handle_all outside
      (with_reports ("as1" ∷ []) [])
      (about topic_berth_assigned "as1" ∷ about topic_berth_assigned "as2" ∷ [])
    ≡ some (with_reports ("as1" ∷ []) (("c1_POSITION_2026-08-28.json", report "as2") ∷ []))
unfolding consumption
voided_first = refl

handle_all-void_example :
    NoNew "as1"
      (with_reports ("as1" ∷ []) [])
      (with_reports ("as1" ∷ []) (("c1_POSITION_2026-08-28.json", report "as2") ∷ []))
handle_all-void_example =
    handle_all-void "as1" outside (with_reports ("as1" ∷ []) [])
      (with_reports ("as1" ∷ []) (("c1_POSITION_2026-08-28.json", report "as2") ∷ []))
      (about topic_berth_assigned "as1" ∷ about topic_berth_assigned "as2" ∷ []) refl voided_first

-- The void is published first, and drained last.
abbrev events : List Message
events = about topic_berth_superseded "as1" ∷ about topic_berth_assigned "as1" ∷ []

abbrev queued : String → Message
queued topic = record (about topic "as1") { offset = 0 }

abbrev filled_bus : MemoryBus
filled_bus = record {
  partitions = 1;
  log =
      (topic_berth_superseded, (0, queued topic_berth_superseded ∷ []) ∷ [])
      ∷ (topic_berth_assigned, (0, queued topic_berth_assigned ∷ []) ∷ [])
      ∷ [];
  closed = false;
}

bus_filled : publish (λ key. 0) (memory_bus 1) events ≡ some filled_bus
unfolding consumption
bus_filled = refl

not_skipped :
    consume outside filled_bus
    ≡ some (with_reports ("as1" ∷ []) (("c1_POSITION_2026-08-28.json", report "as1") ∷ []))
unfolding consumption
not_skipped = refl

consume-run_each_example :
    run_each outside [] (messages filled_bus topic_berth_assigned)
    ≡ some (("c1_POSITION_2026-08-28.json", report "as1") ∷ [])
consume-run_each_example =
    consume-run_each outside (λ key. 0) 1 events filled_bus
      (with_reports ("as1" ∷ []) (("c1_POSITION_2026-08-28.json", report "as1") ∷ [])) bus_filled
      not_skipped

-- The difference of 1.01 and 1 is rounded to 28 digits before it is compared: half a unit above 0.01 is no break.
rounded_difference :
    (exceeds_by 30 (10 ^ 28 + 5) ≡ some false)
    × (exceeds_by 30 (10 ^ 28 + 6) ≡ some true)
    × (exceeds_by 30 (2 * 10 ^ 28) ≡ some true)
unfolding comparison
rounded_difference = (refl, refl, refl)

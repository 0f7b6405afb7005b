-- ===== src/Tests/Records.antt =====
-- Records, masks and messages.
use harbormaster.Prelude.{
  ◌≡◌, refl, true, none, filter, nat_eq, some, List, [], ◌∷◌, All, length, String, string_eq,
}
use harbormaster.Prelude.Text.{size, strip, lower, upper, drop_chars}
use harbormaster.Prelude.Dict.{lookup, insert, from_pairs}
use harbormaster.Canonical.{alias}
use harbormaster.Mapping.{Table, Mapping, mapped, value_at}
use harbormaster.Mapping.Numbers.{to_decimal, decimal}
use harbormaster.Emit.{
  Stamp, text, by_field, raw_cell, cell_of, fill, name_account, build_record, build_records,
  normalise_side,
}
use harbormaster.Emit.Stamps.{IsStamped, build_records-IsStamped}
use harbormaster.Bus.{
  Message, MemoryBus, memory_bus, append_all, partition_for, publish, queue, placed, close,
}
use harbormaster.Bus.Order.{publish-queue}
use harbormaster.Masking.{account_number, stars}
use harbormaster.Masking.Shown.{account_number-hides}

abbrev file : Table
file = record {
  headers = "Acct" ∷ "Value Date" ∷ "Venue" ∷ [];
  rows = (("Acct", "MCP-001") ∷ ("Value Date", "2026-01-01") ∷ ("Venue", "X") ∷ []) ∷ [];
}

-- Columns that claim the value date and the source system.
abbrev columns : List Mapping
columns =
    mapped "Acct" "account_id" alias 1000 ""
    ∷ mapped "Value Date" "value_date" alias 1000 ""
    ∷ mapped "Venue" "source_system" alias 1000 ""
    ∷ []

abbrev stamp : Stamp
stamp = record {
  arrival_id = "a1";
  client_id = "meridian";
  value_date = "2026-08-28";
  domain = "CASH";
  source_system = "OMS";
}

build_records-IsStamped_example :
    (length (build_records file columns stamp []) ≡ 1)
    × All (IsStamped stamp) (build_records file columns stamp [])
build_records-IsStamped_example = build_records-IsStamped file columns stamp []

-- What the column says of the value date and of the source system is not in the record.
stamps_win :
    (lookup "value_date" (
        build_record stamp
          (by_field columns)
          (("MCP-001", "Main") ∷ [])
          (("Acct", " MCP-001") ∷ ("Venue", "X") ∷ []))
      ≡ some (text "2026-08-28"))
    × (lookup "account_name" (
          build_record stamp
            (by_field columns)
            (("MCP-001", "Main") ∷ [])
            (("Acct", " MCP-001") ∷ ("Venue", "X") ∷ []))
        ≡ some (text "Main"))
    × (normalise_side " sold " ≡ some "SELL")
unfolding build_record by_field fill cell_of raw_cell name_account from_pairs insert lookup strip
    lower upper value_at to_decimal decimal normalise_side
stamps_win = (refl, refl, refl)

account_number-hides_example :
    (size (account_number true "AB-1234") ≡ 7)
    × (account_number true "AB-1234" ≡ account_number true "XY-1234")
unfolding drop_chars
account_number-hides_example = account_number-hides "AB-1234" "XY-1234" refl (λ h. refl)

masks : account_number true "AB-1234" ≡ "***1234"
unfolding account_number stars drop_chars
masks = refl

abbrev note : String → String → Message
note topic key = record {
  topic = topic;
  key = key;
  value = "";
  headers = [];
  partition = 0;
  offset = 0;
}

-- two partitions; the hash of a key is its length
abbrev notes : List Message
notes = note "raw" "abc" ∷ note "raw" "ab" ∷ note "raw" "xyz" ∷ note "other" "a" ∷ []

abbrev noted : MemoryBus
noted = record (memory_bus 2) { log = append_all (partition_for size (memory_bus 2)) notes [] }

was_published : publish size (memory_bus 2) notes ≡ some noted
unfolding publish
was_published = refl

publish-queue_example :
    queue "raw" 1 noted.log ≡ placed 1 0 (note "raw" "abc") ∷ placed 1 1 (note "raw" "xyz") ∷ []
unfolding lookup filter partition_for
publish-queue_example = publish-queue size (memory_bus 2) noted notes "raw" 1 was_published

shut_bus : publish size (close noted) notes ≡ none
unfolding publish
shut_bus = refl

-- ===== src/Bus.antt =====
-- `slot_key` and `MemoryBus` of python/src/inspector/bus.py. The hash of a key is a parameter, a message is a
-- value (each is published once), and the codec of the protocol buffers is not modelled.
pub mod Order
use harbormaster.Prelude.{
  ℕ, zero, suc, ◌+◌, ◌-◌, ◌%◌, Bool, true, false, Option, none, some, List, [], ◌∷◌, ◌++◌, length,
  String, ◌<>◌, Eq, nat_eq, string_eq, if◌then◌else◌,
}
use harbormaster.Prelude.Text.{is_blank}
use harbormaster.Prelude.Dict.{Dict, lookup, insert}

unfoldable pub slot_key : String → String → String → String
slot_key client_id domain value_date = client_id <> (":" <> (domain <> (":" <> value_date)))

pub record Message : Type 0 where
  pub topic : String
  pub key : String
  pub value : String
  pub headers : Dict String String
  pub partition : ℕ
  pub offset : ℕ

abbrev pub Log : Type 0
Log = Dict String (Dict ℕ (List Message))

pub record MemoryBus : Type 0 where
  pub partitions : ℕ
  pub log : Log
  pub closed : Bool

-- `max(1, partitions)`
abbrev at_least_one : ℕ → ℕ
at_least_one zero = 1
at_least_one (suc n) = suc n

abbrev pub memory_bus : ℕ → MemoryBus
memory_bus partitions = record { partitions = at_least_one partitions; log = []; closed = false }

-- `partition_for`, with the hash of a key as a number
unfoldable pub partition_for : (String → ℕ) → MemoryBus → String → ℕ
partition_for hash b key = if is_blank key then 0 else hash key % b.partitions

abbrev pub or_empty : Option (Dict ℕ (List Message)) → Dict ℕ (List Message)
or_empty none = []
or_empty (some d) = d

abbrev pub or_nil : Option (List Message) → List Message
or_nil none = []
or_nil (some l) = l

abbrev pub queues : String → Log → Dict ℕ (List Message)
queues topic log = or_empty (lookup topic log)

-- `self._log[topic][p]`
abbrev pub queue : String → ℕ → Log → List Message
queue topic p log = or_nil (lookup p (queues topic log))

abbrev pub placed : ℕ → ℕ → Message → Message
placed p n m = record m { partition = p; offset = n }

-- the body of the loop of `publish`
unfoldable pub append : (String → ℕ) → Message → Log → Log
append place m log =
    let p = place m.key in
    let held = queue m.topic p log in
    insert m.topic (insert p (held ++ placed p (length held) m ∷ []) (queues m.topic log)) log

unfoldable pub append_all : (String → ℕ) → List Message → Log → Log
append_all place [] log = log
append_all place (m ∷ ms) log = append_all place ms (append place m log)

-- `publish`; `none` for the RuntimeError of a bus that is closed
unfoldable pub publish : (String → ℕ) → MemoryBus → List Message → Option MemoryBus
publish hash b ms =
    if b.closed then none else some (record b { log = append_all (partition_for hash b) ms b.log })

-- the queues of the first `n` partitions, in order
unfoldable pub drain_topic : ℕ → String → Log → List Message
drain_topic zero topic log = []
drain_topic (suc n) topic log = drain_topic n topic log ++ queue topic n log

-- `messages`
unfoldable pub messages : MemoryBus → String → List Message
messages b topic = drain_topic b.partitions topic b.log

-- `_drain`: what `consume` hands to its handler, one after the other
unfoldable pub drain : MemoryBus → List String → List Message
drain b [] = []
drain b (topic ∷ topics) = messages b topic ++ drain b topics

abbrev pub close : MemoryBus → MemoryBus
close b = record b { closed = true }

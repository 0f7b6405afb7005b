-- ===== src/Bus/Order.antt =====
-- The order of the messages in a partition.
use mathlib.Core.Option.{some-injective}
use mathlib.Core.List.{append_assoc, append-nil}
use harbormaster.Prelude.{
  ℕ, suc, ◌+◌, ◌≡◌, refl, sym, ap, ◌∙◌, inl, inr, Bool, true, false, ◌&&◌, none, some, List, [],
  ◌∷◌, ◌++◌, length, length-append, filter, String, nat_eq, string_eq, ◌==◌, if◌then◌else◌, arith,
  Bool-cases, if_true, if_false,
}
use harbormaster.Prelude.Dict.{Dict, lookup, insert, lookup-insert}
use harbormaster.Bus.{
  or_nil, or_empty, Message, Log, MemoryBus, queue, queues, placed, append, append_all,
  partition_for, publish,
}

-- The messages at consecutive offsets of a partition.
abbrev pub numbered : ℕ → ℕ → List Message → List Message
numbered p n [] = []
numbered p n (m ∷ ms) = placed p n m ∷ numbered p (suc n) ms

-- The messages for a partition of a topic, in the order in which they were published.
abbrev pub meant_for : (String → ℕ) → String → ℕ → List Message → List Message
meant_for place topic p ms = filter (λ m. topic == m.topic && p == place m.key) ms

-- A queue behind an update of its topic, and of another.
queue-insert :
    (topic t : String) (p : ℕ) (d : Dict ℕ (List Message)) (log : Log) (b : Bool)
    → (topic == t) ≡ b
    → queue topic p (insert t d log) ≡ (if b then or_nil (lookup p d) else queue topic p log)
queue-insert topic t p d log true h =
    ap (λ o. or_nil (lookup p (or_empty o)))
      (lookup-insert topic t d log ∙ if_true (topic == t) d (lookup topic log) h)
queue-insert topic t p d log false h =
    ap (λ o. or_nil (lookup p (or_empty o)))
      (lookup-insert topic t d log ∙ if_false (topic == t) d (lookup topic log) h)

module _ (place : String → ℕ) (topic : String) (p : ℕ) where
  -- The queue with the message behind what it held.
  abbrev extended : String → ℕ → Message → Log → List Message
  extended t q m log = queue t q log ++ placed q (length (queue t q log)) m ∷ []

  queue-append :
      (m : Message) (log : Log)
      → queue topic p (append place m log) ≡ (
          if topic == m.topic && p == place m.key
          then extended topic p m log
          else queue topic p log)
  unfolding append
  queue-append m log = elim (Bool-cases (topic == m.topic)) [
    | inr other ↦ rw other (queue-insert topic m.topic p _ log false other)
    | inl same ↦ rw same (
        queue-insert topic m.topic p _ log true same ∙ elim (Bool-cases (p == place m.key)) [
          | inl there ↦ rw there (
              ap or_nil (
                lookup-insert p (place m.key) (extended m.topic (place m.key) m log)
                  (queues m.topic log)
                ∙ if_true (p == place m.key) _ _ there)
              ∙ ap (λ t. extended t (place m.key) m log)
                  (sym ((string_eq.beq_iff topic m.topic).0 same))
              ∙ ap (λ q. extended topic q m log) (sym ((nat_eq.beq_iff p (place m.key)).0 there)))
          | inr elsewhere ↦ rw elsewhere (
              ap or_nil (
                lookup-insert p (place m.key) (extended m.topic (place m.key) m log)
                  (queues m.topic log)
                ∙ if_false (p == place m.key) _ _ elsewhere)
              ∙ ap (λ t. queue t p log) (sym ((string_eq.beq_iff topic m.topic).0 same)))
        ])
  ]

  queue-append_all :
      (ms : List Message) (log : Log)
      → queue topic p (append_all place ms log)
        ≡ queue topic p log ++ numbered p (length (queue topic p log)) (meant_for place topic p ms)
  unfolding append_all filter
  queue-append_all [] log = sym (append-nil (queue topic p log))
  queue-append_all (m ∷ ms) log = elim (Bool-cases (topic == m.topic && p == place m.key)) [
    | inr other ↦ rw other (
        queue-append_all ms (append place m log)
        ∙ ap after (queue-append m log ∙ not_this m log other))
    | inl meant ↦ rw meant (
        queue-append_all ms (append place m log)
        ∙ ap after (queue-append m log ∙ this m log meant)
        ∙ longer (queue topic p log) m (meant_for place topic p ms))
  ]
    where
      after : List Message → List Message
      after held = held ++ numbered p (length held) (meant_for place topic p ms)

      this :
          (n : Message) (l : Log)
          → (topic == n.topic && p == place n.key) ≡ true
          → (if topic == n.topic && p == place n.key then extended topic p n l else queue topic p l)
            ≡ extended topic p n l
      this n l h = rw h refl

      not_this :
          (n : Message) (l : Log)
          → (topic == n.topic && p == place n.key) ≡ false
          → (if topic == n.topic && p == place n.key then extended topic p n l else queue topic p l)
            ≡ queue topic p l
      not_this n l h = rw h refl

      one_more : (k : ℕ) → k + 1 ≡ suc k
      one_more k = omega arith

      longer :
          (held : List Message) (n : Message) (r : List Message)
          → (held ++ placed p (length held) n ∷ [])
              ++ numbered p (length (held ++ placed p (length held) n ∷ [])) r
            ≡ held ++ numbered p (length held) (n ∷ r)
      longer held n r =
          ap (λ k. (held ++ placed p (length held) n ∷ []) ++ numbered p k r)
            (length-append held (placed p (length held) n ∷ []) ∙ one_more (length held))
          ∙ append_assoc held (placed p (length held) n ∷ []) (numbered p (suc (length held)) r)

-- A publication puts the messages of a topic whose key belongs to a partition behind what the partition
-- held, in the order in which they were published and at consecutive offsets, and no others.
pub publish-queue :
    (hash : String → ℕ) (b c : MemoryBus) (ms : List Message) (topic : String) (p : ℕ)
    → publish hash b ms ≡ some c
    → queue topic p c.log
      ≡ queue topic p b.log
        ++ numbered p (length (queue topic p b.log)) (meant_for (partition_for hash b) topic p ms)
unfolding publish
publish-queue hash b c ms topic p h =
    ap (λ x. queue topic p x.log) (sym (was_open b.closed _ h))
    ∙ queue-append_all (partition_for hash b) topic p ms b.log
  where
    was_open : (closed : Bool) (d : MemoryBus) → (if closed then none else some d) ≡ some c → d ≡ c
    was_open true d e = cc
    was_open false d e = some-injective d c e

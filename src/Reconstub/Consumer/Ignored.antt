-- ===== src/Reconstub/Consumer/Ignored.antt =====
-- What `consume` of the bus in memory makes of the voids: assignments are drained first.
use mathlib.Core.Option.{some-injective}
use harbormaster.Prelude.{
  ℕ, zero, suc, ◌≡◌, refl, sym, ap, ◌∙◌, inl, inr, ◌&&◌, Option, none, some, List, [], ◌∷◌, ◌++◌,
  All, filter, String, string_eq, nat_eq, ◌==◌, contains, arith, Bool-cases,
}
use harbormaster.Prelude.Dict.{Dict, lookup, insert}
use harbormaster.Bus.{
  Message, MemoryBus, memory_bus, Log, queue, publish, messages, drain, drain_topic, partition_for,
}
use harbormaster.Bus.Order.{numbered, meant_for, publish-queue}
use harbormaster.Reconstub.Consumer.{
  Report, Outside, Stub, ◌>>=◌, run_assignment, report_name, handle, handle_all, consume,
  topic_berth_assigned, topic_berth_superseded, handle_payload, run_unless, stored, store,
}
use harbormaster.Reconstub.Consumer.Voids.{>>=-some, handle_parts}

abbrev filed : Dict String Report → Report → Dict String Report
filed reports r = insert (report_name r) r reports

-- What an assignment is run to.
abbrev run_message : Outside → Message → Option Report
run_message o m = o.decode m.value >>= λ p. p.assignment_id >>= λ a. run_assignment o p

-- The reports of a list of assignments, each of which is run.
unfoldable pub run_each : Outside → Dict String Report → List Message → Option (Dict String Report)
run_each o reports [] = some reports
run_each o reports (m ∷ ms) = run_message o m >>= λ r. run_each o (filed reports r) ms

-- All messages of one topic.
abbrev OnTopic : String → List Message → Type 0
OnTopic topic ms = All (λ m. m.topic ≡ topic) ms

handle_all-append :
    (o : Outside) (s t : Stub) (l m : List Message)
    → handle_all o s (l ++ m) ≡ some t
    → (u : Stub) × (handle_all o s l ≡ some u) × (handle_all o u m ≡ some t)
unfolding handle_all
handle_all-append o s t [] m h = (s, refl, h)
handle_all-append o s t (x ∷ l) m h =
    let (u, first, rest) = >>=-some (handle o s x) _ h in
    let (v, done, last) = handle_all-append o u t l m rest in
    (v, ap (λ r. r >>= λ w. handle_all o w l) first ∙ done, last)

-- A message of the topic of voids changes no report.
handle-void :
    (o : Outside) (s t : Stub) (m : Message)
    → m.topic ≡ topic_berth_superseded
    → handle o s m ≡ some t
    → t.reports ≡ s.reports
handle-void o s t m there h =
    let (p, a, _, _, done) = handle_parts o s t m h in
    ap (λ x. x.reports)
      (sym (
        some-injective _ t (
          sym (ap (λ topic. handle_payload o s (topic == topic_berth_superseded) p a) there)
          ∙ done)))

handle_all-voids :
    (o : Outside) (s t : Stub) (ms : List Message)
    → OnTopic topic_berth_superseded ms
    → handle_all o s ms ≡ some t
    → t.reports ≡ s.reports
unfolding handle_all
handle_all-voids o s t [] there h = ap (λ x. x.reports) (sym (some-injective s t h))
handle_all-voids o s t (m ∷ ms) (first, there) h =
    let (u, done, rest) = >>=-some (handle o s m) _ h in
    handle_all-voids o u t ms there rest ∙ handle-void o s u m first done

-- The outcome of a run that is filed.
stored-some :
    (s t : Stub) (r : Option Report)
    → stored s r ≡ some t
    → (q : Report) × (r ≡ some q) × (t ≡ store s q)
stored-some s t none h = cc
stored-some s t (some q) h = (q, refl, sym (some-injective _ t h))

-- An assignment that is handled while nothing is voided is run.
handle-assigned :
    (o : Outside) (s t : Stub) (m : Message)
    → m.topic ≡ topic_berth_assigned
    → s.voided ≡ []
    → handle o s m ≡ some t
    → (r : Report) × (run_message o m ≡ some r) × (t ≡ store s r)
handle-assigned o s t m there none_yet h =
    let (p, a, read, own, done) = handle_parts o s t m h in
    let (r, ran, now) = stored-some s t (run_assignment o p) (
      sym (
        ap (λ topic. handle_payload o s (topic == topic_berth_superseded) p a) there
        ∙ ap (λ l. run_unless o s p (contains l a)) none_yet)
      ∙ done) in
    (
      r,
      ap (λ d. d >>= λ q. q.assignment_id >>= λ b. run_assignment o q) read
          ∙ ap (λ i. i >>= λ b. run_assignment o p) own
          ∙ ran,
      now,
    )

handle_all-assigned :
    (o : Outside) (s t : Stub) (ms : List Message)
    → OnTopic topic_berth_assigned ms
    → s.voided ≡ []
    → handle_all o s ms ≡ some t
    → run_each o s.reports ms ≡ some t.reports
unfolding handle_all run_each
handle_all-assigned o s t [] there none_yet h = ap some (ap (λ x. x.reports) (some-injective s t h))
handle_all-assigned o s t (m ∷ ms) (first, there) none_yet h =
    let (u, done, rest) = >>=-some (handle o s m) _ h in
    let (r, ran, now) = handle-assigned o s u m first none_yet done in
    ap (λ x. x >>= λ q. run_each o (filed s.reports q) ms) ran
    ∙ ap (λ x. run_each o x.reports ms) (sym now)
    ∙ handle_all-assigned o u t ms there (ap (λ x. x.voided) now ∙ none_yet) rest

-- What a bus holds of a topic is of that topic.
numbered-OnTopic :
    (topic : String) (p n : ℕ) (ms : List Message)
    → OnTopic topic ms
    → OnTopic topic (numbered p n ms)
numbered-OnTopic topic p n [] h = tt
numbered-OnTopic topic p n (m ∷ ms) (first, h) = (first, numbered-OnTopic topic p (suc n) ms h)

meant_for-OnTopic :
    (place : String → ℕ) (topic : String) (p : ℕ) (ms : List Message)
    → OnTopic topic (meant_for place topic p ms)
unfolding filter
meant_for-OnTopic place topic p [] = tt
meant_for-OnTopic place topic p (m ∷ ms) =
    elim (Bool-cases (topic == m.topic && p == place m.key)) [
      | inl meant ↦ rw meant (
          (
            sym ((string_eq.beq_iff topic m.topic).0 (ground arith)),
            meant_for-OnTopic place topic p ms,
          ))
      | inr other ↦ rw other (meant_for-OnTopic place topic p ms)
    ]

append-OnTopic :
    (topic : String) (l m : List Message)
    → OnTopic topic l
    → OnTopic topic m
    → OnTopic topic (l ++ m)
append-OnTopic topic [] m h g = g
append-OnTopic topic (x ∷ l) m (first, h) g = (first, append-OnTopic topic l m h g)

drain_topic-OnTopic :
    (log : Log) (topic : String)
    → ((p : ℕ) → OnTopic topic (queue topic p log))
    → (n : ℕ) → OnTopic topic (drain_topic n topic log)
unfolding drain_topic
drain_topic-OnTopic log topic h zero = tt
drain_topic-OnTopic log topic h (suc n) =
    append-OnTopic topic (drain_topic n topic log) (queue topic n log)
      (drain_topic-OnTopic log topic h n) (h n)

messages-OnTopic :
    (hash : String → ℕ) (partitions : ℕ) (ms : List Message) (b : MemoryBus) (topic : String)
    → publish hash (memory_bus partitions) ms ≡ some b
    → OnTopic topic (messages b topic)
unfolding messages lookup
messages-OnTopic hash partitions ms b topic h =
    drain_topic-OnTopic b.log topic
      (λ p. rw (publish-queue hash (memory_bus partitions) b ms topic p h) (
        numbered-OnTopic topic p 0
          (meant_for (partition_for hash (memory_bus partitions)) topic p ms)
          (meant_for-OnTopic (partition_for hash (memory_bus partitions)) topic p ms)))
      b.partitions

-- From whatever was published on a bus in memory, every assignment is run, in the order in which it is drained,
-- although one that a message on the bus voids should be left out.
pub consume-run_each :
    (o : Outside) (hash : String → ℕ) (partitions : ℕ) (ms : List Message) (b : MemoryBus)
    (t : Stub)
    → publish hash (memory_bus partitions) ms ≡ some b
    → consume o b ≡ some t
    → run_each o [] (messages b topic_berth_assigned) ≡ some t.reports
unfolding consume drain
consume-run_each o hash partitions ms b t h done =
    let start : Stub = record { voided = []; reports = [] } in
    let (u, ran, rest) =
      handle_all-append o start t (messages b topic_berth_assigned)
        (messages b topic_berth_superseded ++ []) done in
    handle_all-assigned o start u (messages b topic_berth_assigned)
      (messages-OnTopic hash partitions ms b topic_berth_assigned h) refl ran
    ∙ ap some (
        sym (
          handle_all-voids o u t (messages b topic_berth_superseded ++ [])
            (append-OnTopic topic_berth_superseded (messages b topic_berth_superseded) []
              (messages-OnTopic hash partitions ms b topic_berth_superseded h) tt)
            rest))

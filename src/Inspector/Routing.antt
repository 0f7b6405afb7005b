-- ===== src/Inspector/Routing.antt =====
-- What the handler of the Inspector publishes.
use mathlib.Core.Path.{subst}
use mathlib.Core.Option.{some-injective}
use harbormaster.Prelude.{
  ℕ, ◌+◌, ◌≤◌, ◌≢◌, ◌⊎◌, inl, inr, ◌<>◌, is_some, contains, string_eq, ◌≡◌, refl, sym, ap, ◌∙◌,
  Bool, true, false, Option, none, some, List, [], ◌∷◌, ◌++◌, length, String, if◌then◌else◌,
}
use harbormaster.Canonical.{Domain, domain_of, required_by_domain}
use harbormaster.Registry.{Registry}
use harbormaster.ValueDate.Resolve.{resolved_iso}
use harbormaster.Emit.{CanonicalRow}
use harbormaster.Bus.{slot_key, Message, MemoryBus, Log, append_all, append, partition_for, publish}
use harbormaster.Confidence.{
  Environment, Disposition, dispatched, quarantined, rejected, dispatch_threshold,
}
use harbormaster.Confidence.Dispatch.{assigns}
use harbormaster.Inspector.{
  Result, ok, malformed, raised, ◌>>=◌, or_raise, or_text, Inspector, Classification, classify,
}
use harbormaster.Inspector.Batches.{
  >>=-ok, ok-injective, or_raise-ok, IsReady, Origin, AreParts, classify-AreParts,
}
use harbormaster.Inspector.Publication.{
  topic_for, to_proto, canonical_name, canonical_records, ArrivalRaw, Outside, message_of, World,
  published, write_canonical, send, send_all, without_scheme, caught, handle,
}

-- A bus behind the publication of messages, one after the other.
abbrev pub behind : (String → ℕ) → MemoryBus → List Message → MemoryBus
behind hash b ms = record b { log = append_all (partition_for hash b) ms b.log }

publish-behind :
    (hash : String → ℕ) (b c : MemoryBus) (ms : List Message)
    → publish hash b ms ≡ some c
    → c ≡ behind hash b ms
unfolding publish
publish-behind hash b c ms h = was_open b.closed h
  where
    was_open :
        (closed : Bool)
        → (if closed then none else some (behind hash b ms)) ≡ some c
        → c ≡ behind hash b ms
    was_open true e = cc
    was_open false e = sym (some-injective (behind hash b ms) c e)

append_all-append :
    (place : String → ℕ) (ms ns : List Message) (log : Log)
    → append_all place (ms ++ ns) log ≡ append_all place ns (append_all place ms log)
unfolding append_all
append_all-append place [] ns log = refl
append_all-append place (m ∷ ms) ns log = append_all-append place ms ns (append place m log)

behind-append :
    (hash : String → ℕ) (b : MemoryBus) (ms ns : List Message)
    → behind hash (behind hash b ms) ns ≡ behind hash b (ms ++ ns)
unfolding partition_for
behind-append hash b ms ns =
    ap (λ l. record b { log = l }) (sym (append_all-append (partition_for hash b) ms ns b.log))

behind-nil : (hash : String → ℕ) (b : MemoryBus) → behind hash b [] ≡ b
unfolding append_all
behind-nil hash b = refl

abbrev pub is_dispatched : Disposition → Bool
is_dispatched dispatched = true
is_dispatched quarantined = false
is_dispatched rejected = false

-- A classification as it is announced: with the name of its canonical file, and the number of the records in it.
abbrev pub announced : Registry → Classification → Classification
announced r c = record c {
  canonical_uri = "fs://canonical/" <> canonical_name c;
  row_count = length (canonical_records r c);
}

-- The message of a classification. On the topic of classified arrivals it is one with all that a dispatch asks for.
pub record IsMessageOf (e : Environment) (o : Outside) (r : Registry) (c : Classification)
    (m : Message) : Type 0 where
  pub says : m.value ≡ o.encode (to_proto (announced r c))
  pub slot :
      m.key
      ≡ or_text c.client_id "UNKNOWN" <> (":" <> (c.domain <> (":" <> resolved_iso c.value_date)))
  pub routed : m.topic ≡ (
      if is_dispatched c.score.disposition
      then "hm.arrivals.classified"
      else "hm.arrivals.quarantined")
  pub safe :
      (d : Domain)
      → domain_of c.domain ≡ some d
      → m.topic ≡ "hm.arrivals.classified"
      → (is_some c.client_id ≡ true)
        × (is_some c.value_date.resolved ≡ true)
        × ((f : String) → contains (required_by_domain d) f ≡ true → assigns f c.mappings ≡ true)
        × (dispatch_threshold e ≤ c.score.overall)

-- One message for each classification, in their order.
abbrev pub AreMessagesOf :
    Environment → Outside → Registry → List Classification → List Message → Type 0
AreMessagesOf e o r [] [] = Unit
AreMessagesOf e o r [] (m ∷ ms) = ⊥
AreMessagesOf e o r (c ∷ cs) [] = ⊥
AreMessagesOf e o r (c ∷ cs) (m ∷ ms) = IsMessageOf e o r c m × AreMessagesOf e o r cs ms

topic_for-routed :
    (d : Disposition)
    → topic_for d
      ≡ (if is_dispatched d then "hm.arrivals.classified" else "hm.arrivals.quarantined")
topic_for-routed dispatched = refl
topic_for-routed quarantined = refl
topic_for-routed rejected = refl

-- The topic of a classified arrival is that of the dispatched ones only.
topic_for-dispatched : (d : Disposition) → topic_for d ≡ "hm.arrivals.classified" → d ≡ dispatched
topic_for-dispatched dispatched h = refl
topic_for-dispatched quarantined h = cc
topic_for-dispatched rejected h = cc

message_of-IsMessageOf :
    (e : Environment) (o : Outside) (r : Registry) (c : Classification)
    → IsReady e c
    → IsMessageOf e o r c (message_of o.encode (announced r c))
unfolding slot_key
message_of-IsMessageOf e o r c ready = record {
  says = refl;
  slot = refl;
  routed = topic_for-routed c.score.disposition;
  safe = λ d known topic. ready d known (topic_for-dispatched c.score.disposition topic);
}

-- A world with the same inspector, and messages behind those on its bus.
Sends : (String → ℕ) → World → World → List Message → Type 0
Sends hash w v ms = (v.bus ≡ behind hash w.bus ms) × (v.inspector ≡ w.inspector)

send-Sends :
    (o : Outside) (hash : String → ℕ) (w v : World) (c : Classification)
    → send o hash w c ≡ ok v
    → Sends hash w v (message_of o.encode (announced w.inspector.registry c) ∷ [])
unfolding send write_canonical Sends
send-Sends o hash w v c h = by_bus (publish hash w.bus (m ∷ [])) refl h
  where
    m : Message
    m = message_of o.encode (announced w.inspector.registry c)

    files : List (String × List CanonicalRow)
    files = (write_canonical w.inspector.registry c w.files).1

    by_bus :
        (b : Option MemoryBus)
        → publish hash w.bus (m ∷ []) ≡ b
        → published b (record w { files = files }) ≡ ok v
        → (v.bus ≡ behind hash w.bus (m ∷ [])) × (v.inspector ≡ w.inspector)
    by_bus none at e' = cc
    by_bus (some b) at e' = (
      ap (λ x. x.bus) (sym (ok-injective _ v e')) ∙ publish-behind hash w.bus b (m ∷ []) at,
      ap (λ x. x.inspector) (sym (ok-injective _ v e')),
    )

send_all-Sends :
    (o : Outside) (hash : String → ℕ) (e : Environment) (g : Origin) (headers : List String)
    (total index : ℕ) (w v : World) (cs : List Classification)
    → AreParts e g headers total index cs
    → send_all o hash w cs ≡ ok v
    → (ms : List Message) × AreMessagesOf e o w.inspector.registry cs ms
      × (v.bus ≡ behind hash w.bus ms)
unfolding send_all Sends
send_all-Sends o hash e g headers total index w v [] parts h =
    ([], tt, ap (λ x. x.bus) (sym (ok-injective w v h)) ∙ sym (behind-nil hash w.bus))
send_all-Sends o hash e g headers total index w v (c ∷ cs) (part, parts) h =
    let r = w.inspector.registry in
    let m = message_of o.encode (announced r c) in
    let (u, first, rest) = >>=-ok (send o hash w c) _ h in
    let (at_u, same) = send-Sends o hash w u c first in
    let (ms, are, at_v) = send_all-Sends o hash e g headers total (index + 1) u v cs parts rest in
    (
      m ∷ ms,
      (
        message_of-IsMessageOf e o r c part.ready,
        subst (λ i. AreMessagesOf e o i.registry cs ms) same are,
      ),
      at_v ∙ ap (λ b. behind hash b ms) at_u ∙ behind-append hash w.bus (m ∷ []) ms,
    )

published-no_ParseError : (b : Option MemoryBus) (u : World) → published b u ≢ malformed
published-no_ParseError none u = λ h. cc h
published-no_ParseError (some b) u = λ h. cc h

send-no_ParseError :
    (o : Outside) (hash : String → ℕ) (w : World) (c : Classification) → send o hash w c ≢ malformed
unfolding send
send-no_ParseError o hash w c = published-no_ParseError _ _

>>=-no_ParseError :
    {A B : Type 0} (first : Result A) (next : A → Result B)
    → first ≢ malformed
    → ((a : A) → next a ≢ malformed)
    → (first >>= next) ≢ malformed
>>=-no_ParseError (ok a) next h g = g a
>>=-no_ParseError malformed next h g = absurd (h refl)
>>=-no_ParseError raised next h g = λ e. cc e

-- Sending raises no ParseError.
send_all-no_ParseError :
    (o : Outside) (hash : String → ℕ) (w : World) (cs : List Classification)
    → send_all o hash w cs ≢ malformed
unfolding send_all
send_all-no_ParseError o hash w [] = λ h. cc h
send_all-no_ParseError o hash w (c ∷ cs) =
    >>=-no_ParseError (send o hash w c) _ (send-no_ParseError o hash w c)
      (λ v. send_all-no_ParseError o hash v cs)

-- The messages of an arrival: those of its classifications, or none where it cannot be parsed.
abbrev pub AreOfArrival : Outside → Inspector → ArrivalRaw → String → List Message → Type 0
AreOfArrival o i raw content ms =
    ((cs : List Classification) × (j : Inspector) × (classify i raw.arrival_id content
          raw.original_name
        ≡ ok (cs, j))
      × AreMessagesOf i.environment o j.registry cs ms)
    ⊎ ((classify i raw.arrival_id content raw.original_name ≡ malformed) × (ms ≡ []))

-- What the handler does with the content of an arrival that is there.
caught-AreOfArrival :
    (o : Outside) (hash : String → ℕ) (w v : World) (raw : ArrivalRaw) (content : String)
    (found : Result (List Classification × Inspector))
    → classify w.inspector raw.arrival_id content raw.original_name ≡ found
    → caught w (found >>= λ f. send_all o hash (record w { inspector = f.1 }) f.0) ≡ ok v
    → (ms : List Message) × AreOfArrival o w.inspector raw content ms
      × (v.bus ≡ behind hash w.bus ms)
caught-AreOfArrival o hash w v raw content raised at h = cc
caught-AreOfArrival o hash w v raw content malformed at h =
    ([], inr (at, refl), ap (λ x. x.bus) (sym (ok-injective w v h)) ∙ sym (behind-nil hash w.bus))
caught-AreOfArrival o hash w v raw content (ok (cs, j)) at h =
    by_sent (send_all o hash (record w { inspector = j }) cs) refl h
  where
    by_sent :
        (r : Result World)
        → send_all o hash (record w { inspector = j }) cs ≡ r
        → caught w r ≡ ok v
        → (ms : List Message) × AreOfArrival o w.inspector raw content ms
          × (v.bus ≡ behind hash w.bus ms)
    by_sent malformed sent e' =
        absurd (send_all-no_ParseError o hash (record w { inspector = j }) cs sent)
    by_sent raised sent e' = cc
    by_sent (ok u) sent e' =
        let (p, score, t, _, _, (parts, _)) =
          classify-AreParts w.inspector j raw.arrival_id content raw.original_name cs at in
        let (ms, are, on_bus) =
          send_all-Sends o hash w.inspector.environment _ t.headers (length cs) 0
            (record w { inspector = j }) u cs parts sent in
        (ms, inl (cs, j, at, are), ap (λ x. x.bus) (sym (ok-injective u v e')) ∙ on_bus)

-- A handler that is through has read the content.
content_there :
    (o : Outside) (hash : String → ℕ) (w v : World) (raw : ArrivalRaw) (c : Option String)
    → caught w (
        (or_raise c >>= λ content. classify w.inspector raw.arrival_id content raw.original_name)
        >>= λ found. send_all o hash (record w { inspector = found.1 }) found.0)
      ≡ ok v
    → (content : String) × (c ≡ some content)
      × (caught w (
            classify w.inspector raw.arrival_id content raw.original_name >>= λ found.
            send_all o hash (record w { inspector = found.1 }) found.0)
          ≡ ok v)
content_there o hash w v raw none h = cc
content_there o hash w v raw (some content) h = (content, refl, h)

-- When the handler is through, it has read the content that the raw arrival names, and has put messages behind what was
-- on the bus: one for each classification of the arrival, in their order, or none where the arrival cannot be parsed. A
-- message says what was classified, with the canonical file and the number of its records, under the key of its client,
-- domain and value date. It is on the topic of classified arrivals if its disposition is to dispatch, and on that of the
-- quarantine if not; and a message on the topic of classified arrivals, of a domain that is known, has a client, a value
-- date, a column for every field that its domain requires, and the score of the threshold.
pub handle-Publishes :
    (o : Outside) (hash : String → ℕ) (w v : World) (m : Message)
    → handle o hash w m ≡ ok v
    → (raw : ArrivalRaw) × (content : String) × (ms : List Message) × (o.decode m.value ≡ some raw)
      × (o.read (without_scheme raw.uri) ≡ some content)
      × AreOfArrival o w.inspector raw content ms
      × (v.bus ≡ behind hash w.bus ms)
unfolding handle
handle-Publishes o hash w v m h =
    let (raw, decoded, h1) = >>=-ok (or_raise (o.decode m.value)) _ h in
    let (content, there, h2) = content_there o hash w v raw (o.read (without_scheme raw.uri)) h1 in
    let (ms, are, on_bus) =
      caught-AreOfArrival o hash w v raw content
        (classify w.inspector raw.arrival_id content raw.original_name) refl h2 in
    (raw, content, ms, or_raise-ok (o.decode m.value) raw decoded, there, are, on_bus)

-- ===== src/Reconstub/Consumer/Voids.antt =====
-- What a void does to the assignments that come behind it.
use mathlib.Core.Option.{some-injective}
use harbormaster.Prelude.{
  ◌≡◌, refl, sym, ap, ◌∙◌, inl, inr, Bool, true, false, Option, none, some, List, [], ◌∷◌, String,
  string_eq, ◌==◌, contains, arith, Bool-cases, if_true, if_false,
}
use harbormaster.Prelude.Dict.{lookup, lookup-insert}
use harbormaster.Bus.{Message}
use harbormaster.Reconstub.{reconcile}
use harbormaster.Reconstub.Consumer.{
  Payload, Report, Outside, Stub, ◌>>=◌, load_canonical, run_assignment, report_name, store, stored,
  run_unless, handle_payload, handle, handle_all, topic_berth_superseded,
}

pub >>=-some :
    {A B : Type 0} (first : Option A) (next : A → Option B) {out : B}
    → (first >>= next) ≡ some out
    → (value : A) × (first ≡ some value) × (next value ≡ some out)
>>=-some none next done = cc
>>=-some (some value) next done = (value, refl, done)

-- What a message that is handled brings.
pub handle_parts :
    (o : Outside) (s t : Stub) (m : Message)
    → handle o s m ≡ some t
    → (p : Payload) × (a : String) × (o.decode m.value ≡ some p)
      × (p.assignment_id ≡ some a)
      × (handle_payload o s (m.topic == topic_berth_superseded) p a ≡ some t)
unfolding handle
handle_parts o s t m h =
    let (p, read, h1) = >>=-some (o.decode m.value) _ h in
    let (a, own, h2) = >>=-some p.assignment_id _ h1 in (p, a, read, own, h2)

-- A report is that of the assignment it was run for.
pub run_assignment-id :
    (o : Outside) (p : Payload) (a : String) (r : Report)
    → p.assignment_id ≡ some a
    → run_assignment o p ≡ some r
    → r.assignment_id ≡ a
unfolding run_assignment
run_assignment-id o p a r own h =
    let (uri_1, _, h1) = >>=-some p.side_1_uri _ h in
    let (side_1, _, h2) = >>=-some (load_canonical o uri_1) _ h1 in
    let (uri_2, _, h3) = >>=-some p.side_2_uri _ h2 in
    let (side_2, _, h4) = >>=-some (load_canonical o uri_2) _ h3 in
    let (b, named, h5) = >>=-some p.assignment_id _ h4 in
    let (client, _, h6) = >>=-some p.client_id _ h5 in
    let (day, _, h7) = >>=-some p.value_date _ h6 in
    let (breaks, _, h8) = >>=-some (reconcile side_1 side_2) _ h7 in
    ap (λ q. q.assignment_id) (sym (some-injective _ r h8)) ∙ some-injective b a (sym named ∙ own)

-- The reports of an assignment in `t` are among those in `s`, and it is voided in both.
pub record NoNew (id : String) (s t : Stub) : Type 0 where
  pub still : contains t.voided id ≡ true
  pub old :
      (name : String) (r : Report)
      → lookup name t.reports ≡ some r
      → r.assignment_id ≡ id
      → lookup name s.reports ≡ some r

store-NoNew :
    (id a : String) (s : Stub) (r : Report)
    → contains s.voided id ≡ true
    → contains s.voided a ≡ false
    → r.assignment_id ≡ a
    → NoNew id s (store s r)
store-NoNew id a s r voided fresh own = record {
  still = voided;
  old = λ name q found of_id. elim (Bool-cases (name == report_name r)) [
    | inr other ↦
        sym (lookup-insert name (report_name r) r s.reports ∙ if_false _ r _ other) ∙ found
    | inl same ↦
        let here : r ≡ q =
          some-injective r q
            (sym (lookup-insert name (report_name r) r s.reports ∙ if_true _ r _ same) ∙ found) in
        let is_id : a ≡ id = sym own ∙ ap (λ x. x.assignment_id) here ∙ of_id in
        cc (sym voided ∙ sym (ap (contains s.voided) is_id) ∙ fresh)
  ];
}

handle-NoNew :
    (id : String) (o : Outside) (s t : Stub) (m : Message)
    → contains s.voided id ≡ true
    → handle o s m ≡ some t
    → NoNew id s t
handle-NoNew id o s t m voided h =
    let (p, a, _, own, h2) = handle_parts o s t m h in
    by_topic p a own (m.topic == topic_berth_superseded) h2
  where
    by_run :
        (p : Payload) (a : String) (r : Option Report)
        → p.assignment_id ≡ some a
        → contains s.voided a ≡ false
        → run_assignment o p ≡ r
        → stored s r ≡ some t
        → NoNew id s t
    by_run p a none own fresh ran e = cc
    by_run p a (some r) own fresh ran e =
        rw (sym (some-injective _ t e))
          (store-NoNew id a s r voided fresh (run_assignment-id o p a r own ran))

    by_voided :
        (p : Payload) (a : String) (b : Bool)
        → p.assignment_id ≡ some a
        → contains s.voided a ≡ b
        → run_unless o s p b ≡ some t
        → NoNew id s t
    by_voided p a true own old e =
        rw (sym (some-injective s t e)) (record { still = voided; old = λ n r f i. f })
    by_voided p a false own fresh e = by_run p a (run_assignment o p) own fresh refl e

    by_topic :
        (p : Payload) (a : String)
        → p.assignment_id ≡ some a
        → (b : Bool) → handle_payload o s b p a ≡ some t
        → NoNew id s t
    by_topic p a own true e =
        rw (sym (some-injective _ t e)) (record { still = ground arith; old = λ n r f i. f })
    by_topic p a own false e = by_voided p a (contains s.voided a) own refl e

-- Once an assignment is voided, no message writes a report of it any more: every report of it that is there at
-- the end was there, under the same name, before.
pub handle_all-void :
    (id : String) (o : Outside) (s t : Stub) (ms : List Message)
    → contains s.voided id ≡ true
    → handle_all o s ms ≡ some t
    → NoNew id s t
unfolding handle_all
handle_all-void id o s t [] voided h =
    rw (sym (some-injective s t h)) (record { still = voided; old = λ n r f i. f })
handle_all-void id o s t (m ∷ ms) voided h =
    let (u, first, rest) = >>=-some (handle o s m) _ h in
    let one = handle-NoNew id o s u m voided first in
    let more = handle_all-void id o u t ms one.still rest in
    record { still = more.still; old = λ n r f i. one.old n r (more.old n r f i) i }

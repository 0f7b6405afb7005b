-- ===== src/Mapping/Claude/Results.antt =====
-- The answers of a result, with those for the columns that the model left out.
use mathlib.Core.Path.{subst}
use harbormaster.Prelude.{
  ◌≡◌, refl, sym, ap, ◌∙◌, inl, inr, true, false, Option, none, some, List, [], ◌∷◌, ◌++◌, All,
  String, string_eq, ◌==◌, contains, arith, Bool-cases, Option-cases,
}
use harbormaster.Mapping.Fields.{contains-append}
use harbormaster.Prelude.Text.{is_blank}
use harbormaster.Prelude.Dict.{values}
use harbormaster.Json.{Json, Fields, get}
use harbormaster.Mapping.Tier3.{AdjudicationRequest, AdjudicatedField, AdjudicationResult}
use harbormaster.Mapping.Tier3.Fake.{given_fields, IsApart}
use harbormaster.Mapping.Claude.{
  Decoder, Response, unaddressed, sources_answered, completed, accepted_or, parsed_items,
  parsed_payload, iterated, parse, refused, accepted, payload_of, response_text,
}
use harbormaster.Mapping.Claude.Answers.{IsSound, AreSound, unresolved-IsSound, read_items-AreSound}

-- A result for a request: every answer is about a column that was asked about, is no surer than 0.85, and gives a
-- mappable field if it gives one; no field is given twice or was given before; every column asked about has an answer.
pub record IsSafe (q : AdjudicationRequest) (r : AdjudicationResult) : Type 0 where
  pub sound : All (IsSound q.unresolved_headers) r.fields
  pub apart : IsApart (values q.resolved) (given_fields r.fields)
  pub complete :
      (h : String)
      → contains q.unresolved_headers h ≡ true
      → contains (sources_answered r.fields) h ≡ true

-- Answers that give nothing.
abbrev pub AllOpen : List AdjudicatedField → Type 0
AllOpen l = All (λ a. a.canonical_field ≡ none) l

pub given-append :
    (l m : List AdjudicatedField) → AllOpen m → given_fields (l ++ m) ≡ given_fields l
given-append [] [] h = refl
given-append [] (a ∷ m) (open_yet, h) = rw open_yet (given-append [] m h)
given-append (a ∷ l) m h = elim (Option-cases a.canonical_field) [
  | inl open_yet ↦ rw open_yet (given-append l m h)
  | inr (f, given) ↦ rw given (ap (λ r. f ∷ r) (given-append l m h))
]

sources-append :
    (l m : List AdjudicatedField)
    → sources_answered (l ++ m) ≡ sources_answered l ++ sources_answered m
sources-append [] m = refl
sources-append (a ∷ l) m = ap (λ r. a.source_field ∷ r) (sources-append l m)

module _ (answered : List String) where
  unaddressed-AllOpen : (hs : List String) → AllOpen (unaddressed answered hs)
  unfolding unaddressed
  unaddressed-AllOpen [] = tt
  unaddressed-AllOpen (h ∷ hs) = elim (Bool-cases (contains answered h)) [
    | inl there ↦ rw there (unaddressed-AllOpen hs)
    | inr missing ↦ rw missing (refl, unaddressed-AllOpen hs)
  ]

  unaddressed-IsSound :
      (headers hs : List String)
      → ((h : String) → contains hs h ≡ true → contains headers h ≡ true)
      → All (IsSound headers) (unaddressed answered hs)
  unfolding unaddressed
  unaddressed-IsSound headers [] sub = tt
  unaddressed-IsSound headers (h ∷ hs) sub =
      let rest = unaddressed-IsSound headers hs (λ k m. sub k (ground (arith, m))) in
      elim (Bool-cases (contains answered h)) [
        | inl there ↦ rw there rest
        | inr missing ↦ rw missing (
            (
              unresolved-IsSound headers h "not addressed by the model"
                  (sub h (rw ((string_eq.beq_iff h h).1 refl) refl)),
              rest,
            ))
      ]

  unaddressed_complete :
      (hs : List String) (k : String)
      → contains hs k ≡ true
      → contains answered k ≡ false
      → contains (sources_answered (unaddressed answered hs)) k ≡ true
  unfolding unaddressed
  unaddressed_complete [] k m out = cc
  unaddressed_complete (h ∷ hs) k m out = elim (Bool-cases (contains answered h)) [
    | inl there ↦ rw there (elim (Bool-cases (k == h)) [
      | inl same ↦ cc (sym out ∙ ap (contains answered) ((string_eq.beq_iff k h).0 same) ∙ there)
      | inr other ↦ unaddressed_complete hs k (ground (arith, m, other)) out
    ])
    | inr missing ↦ rw missing (elim (Bool-cases (k == h)) [
      | inl same ↦ rw same refl
      | inr other ↦ rw other (unaddressed_complete hs k (ground (arith, m, other)) out)
    ])
  ]

All-append {ℓ κ} : {A : Type ℓ} (P : A → Type κ) (l m : List A) → All P l → All P m → All P (l ++ m)
All-append P [] m h g = g
All-append P (a ∷ l) m (first, h) g = (first, All-append P l m h g)

-- Answers with those for the columns that they leave out.
filled-IsSafe :
    (d : Decoder) (q : AdjudicationRequest) (model : String) (l : List AdjudicatedField)
    → AreSound d q.unresolved_headers (values q.resolved) l
    → IsSafe q (record {
      fields = l ++ unaddressed (sources_answered l) q.unresolved_headers;
      model = model;
    })
filled-IsSafe d q model l h =
    let hs = q.unresolved_headers in
    let more = unaddressed (sources_answered l) hs in
    record {
      sound =
          All-append (IsSound hs) l more h.sound
            (unaddressed-IsSound (sources_answered l) hs hs (λ k m. m));
      apart = rw (given-append l more (unaddressed-AllOpen (sources_answered l) hs)) h.apart;
      complete = λ k asked.
          ap (λ s. contains s k) (sources-append l more)
          ∙ contains-append (sources_answered l) (sources_answered more) k
          ∙ elim (Bool-cases (contains (sources_answered l) k)) [
            | inl there ↦ rw there refl
            | inr out ↦ rw out (unaddressed_complete (sources_answered l) hs k asked out)
          ];
    }

completed-IsSafe :
    (d : Decoder) (q : AdjudicationRequest) (model : String) (l : List AdjudicatedField)
    (r : AdjudicationResult)
    → AreSound d q.unresolved_headers (values q.resolved) l
    → accepted_or (completed model q.unresolved_headers l) ≡ accepted r
    → IsSafe q r
completed-IsSafe d q model [] r h e = cc
completed-IsSafe d q model (a ∷ l) r h e =
    subst (IsSafe q) (accepted-injective _ r e) (filled-IsSafe d q model (a ∷ l) h)
  where
    accepted-injective : (s t : AdjudicationResult) → accepted s ≡ accepted t → s ≡ t
    accepted-injective s t h = cc

-- Whatever the model answers, a result that is accepted is safe.
pub parse-IsSafe :
    (d : Decoder) (model : String) (response : Response) (q : AdjudicationRequest)
    (r : AdjudicationResult)
    → parse d model response q ≡ accepted r
    → IsSafe q r
unfolding parse
parse-IsSafe d model response q r h = elim (Bool-cases (is_blank (response_text response))) [
  | inl nothing ↦ let e : refused ≡ accepted r = rw nothing at h in cc e
  | inr some_text ↦ by_payload (payload_of d (response_text response)) (rw some_text at h)
]
  where
    by_items : (o : Option (List Json)) → parsed_items d model q o ≡ accepted r → IsSafe q r
    by_items none e = cc
    by_items (some js) e =
        completed-IsSafe d q model _ r
          (read_items-AreSound d q.unresolved_headers (values q.resolved) js) e

    by_payload : (o : Option Fields) → parsed_payload d model q o ≡ accepted r → IsSafe q r
    by_payload none e = cc
    by_payload (some fs) e = by_items (iterated (get "fields" fs)) e

-- ===== src/Mapping/Claude/Answers.antt =====
-- What an answer of the model may say once it is read.
use mathlib.Core.Path.{subst}
use mathlib.Core.Option.{some-injective}
use harbormaster.Prelude.{
  ℕ, ◌+◌, ◌*◌, ◌≤◌, ◌<◌, ◌≡◌, inl, inr, true, false, Option, none, some, List, [], ◌∷◌, All, String,
  string_eq, contains, leb, arith, Bool-cases,
}
use Prim.Native.Nat.{◌^◌}
use harbormaster.Prelude.Rounding.{pow_pos, round_div-share}
use harbormaster.Prelude.Int.{pos, negsuc}
use harbormaster.Prelude.Floats.{is_float}
use harbormaster.Prelude.Text.{take_chars, round_div}
use harbormaster.Canonical.{mappable_fields}
use harbormaster.Json.{Json, null, truth, number, text, array, object, Fields, get}
use harbormaster.Mapping.Numbers.{Decimal, finite, infinity, nan, decimal}
use harbormaster.Mapping.Tier3.{AdjudicatedField}
use harbormaster.Mapping.Tier3.Fake.{given_fields, IsApart, nil-IsApart, cons-IsApart}
use harbormaster.Mapping.Claude.{
  Decoder, bounded, bounded_or, clamp, judge, proposed, unresolved, resolved_to, read_object,
  read_item, read_items, answer_taken, with_answer, canonical_of, text_at, or_default, or_declined,
}

thousandths-le :
    (c : ℕ) (d : ℕ) → 0 < d → leb (850 * d) (c * 1000) ≡ false → round_div (c * 1000) d ≤ 850
thousandths-le c d there less = round_div-share (c * 1000) d 850 there (ground arith)

bounded-le : (d : Decimal) → bounded d ≤ 850
bounded-le nan = omega arith
bounded-le (infinity true) = omega arith
bounded-le (infinity false) = omega arith
bounded-le (finite true c e) = omega arith
bounded-le (finite false c (pos n)) = ground arith
bounded-le (finite false c (negsuc n)) = elim (Bool-cases (leb (850 * 10 ^ (n + 1)) (c * 1000))) [
  | inl more ↦ rw more (omega arith)
  | inr less ↦ rw less (thousandths-le c (10 ^ (n + 1)) (pow_pos (n + 1)) less)
]

bounded_or-le : (o : Option Decimal) → bounded_or o ≤ 850
bounded_or-le none = omega arith
bounded_or-le (some d) = bounded-le d

clamp-le : (j : Json) → clamp j ≤ 850
unfolding clamp
clamp-le null = omega arith
clamp-le (truth true) = omega arith
clamp-le (truth false) = omega arith
clamp-le (number s) = bounded_or-le (decimal s)
clamp-le (text s) = elim (Bool-cases (is_float s)) [
  | inl accepted ↦ rw accepted (bounded_or-le (decimal s))
  | inr refused ↦ rw refused (omega arith)
]
clamp-le (array is) = omega arith
clamp-le (object fs) = omega arith

-- A field that may be given while others are taken.
abbrev Fits : List String → Option String → Type 0
Fits taken none = Unit
Fits taken (some f) = (contains mappable_fields f ≡ true) × (contains taken f ≡ false)

-- An answer about a column that was asked about.
pub record IsSound (requested : List String) (a : AdjudicatedField) : Type 0 where
  pub asked : contains requested a.source_field ≡ true
  pub unsure : a.confidence ≤ 850
  pub mappable : (f : String) → a.canonical_field ≡ some f → contains mappable_fields f ≡ true

abbrev Judged : List String → List String → Option AdjudicatedField → Type 0
Judged requested taken none = Unit
Judged requested taken (some a) = IsSound requested a × Fits taken a.canonical_field

pub unresolved-IsSound :
    (requested : List String) (source why : String)
    → contains requested source ≡ true
    → IsSound requested (unresolved source why)
unresolved-IsSound requested source why h = record {
  asked = h;
  unsure = omega arith;
  mappable = λ f e. cc;
}

resolved_to-IsSound :
    (requested : List String) (source canonical : String) (sure : ℕ) (why : String)
    → contains requested source ≡ true
    → sure ≤ 850
    → contains mappable_fields canonical ≡ true
    → IsSound requested (resolved_to source canonical sure why)
resolved_to-IsSound requested source canonical sure why asked le known = record {
  asked = asked;
  unsure = le;
  mappable =
      λ f e. subst (λ x. contains mappable_fields x ≡ true) (some-injective canonical f e) known;
}

judge-Judged :
    (requested taken : List String) (source canonical why : String) (sure : ℕ)
    → contains requested source ≡ true
    → sure ≤ 850
    → Judged requested taken (some (judge taken source canonical sure why))
unfolding judge
judge-Judged requested taken source canonical why sure asked le =
    elim (Bool-cases (contains mappable_fields canonical)) [
      | inr unknown ↦ rw unknown (unresolved-IsSound requested source _ asked, tt)
      | inl known ↦ rw known (elim (Bool-cases (contains taken canonical)) [
        | inl used ↦ rw used (unresolved-IsSound requested source _ asked, tt)
        | inr free ↦
            rw free (
              resolved_to-IsSound requested source canonical sure why asked le known,
              (known, free),
            )
      ])
    ]

proposed-Judged :
    (requested taken : List String) (source : String) (o : Option String) (sure : ℕ) (why : String)
    → contains requested source ≡ true
    → sure ≤ 850
    → Judged requested taken (some (proposed taken source o sure why))
proposed-Judged requested taken source none sure why asked le =
    (unresolved-IsSound requested source (or_declined why) asked, tt)
proposed-Judged requested taken source (some canonical) sure why asked le =
    judge-Judged requested taken source canonical why sure asked le

module _ (d : Decoder) (requested : List String) where
  read_object-Judged :
      (taken : List String) (fs : Fields) (source : String)
      → Judged requested taken (read_object d requested taken fs source)
  read_object-Judged taken fs source = elim (Bool-cases (contains requested source)) [
    | inl asked ↦ rw asked (
        proposed-Judged requested taken source (canonical_of d (get "canonical_field" fs))
          (clamp (or_default (number "0.7") (get "confidence" fs)))
          (take_chars 300 (text_at d "rationale" fs)) asked
          (clamp-le (or_default (number "0.7") (get "confidence" fs))))
    | inr other ↦ rw other tt
  ]

  read_item-Judged :
      (taken : List String) (j : Json) → Judged requested taken (read_item d requested taken j)
  unfolding read_item
  read_item-Judged taken null = tt
  read_item-Judged taken (truth _) = tt
  read_item-Judged taken (number _) = tt
  read_item-Judged taken (text _) = tt
  read_item-Judged taken (array _) = tt
  read_item-Judged taken (object fs) = read_object-Judged taken fs (text_at d "source_field" fs)

  -- What holds of the answers to a list of items.
  pub record AreSound (taken : List String) (l : List AdjudicatedField) : Type 0 where
    pub sound : All (IsSound requested) l
    pub apart : IsApart taken (given_fields l)

  with_answer-AreSound :
      (taken : List String) (a : Option AdjudicatedField) (l : List AdjudicatedField)
      → Judged requested taken a
      → AreSound (answer_taken taken a) l
      → AreSound taken (with_answer a l)
  with_answer-AreSound taken none l h r = r
  with_answer-AreSound taken (some a) l (sound, fits) r = record {
    sound = (sound, r.sound);
    apart = by_field a.canonical_field fits r.apart;
  }
    where
      by_field :
          (o : Option String)
          → Fits taken o
          → IsApart (elim o [ none ↦ taken | some f ↦ f ∷ taken ]) (given_fields l)
          → IsApart taken (elim o [ none ↦ given_fields l | some f ↦ f ∷ given_fields l ])
      by_field none fits h = h
      by_field (some f) fits h = cons-IsApart taken f (given_fields l) fits.1 h

  pub read_items-AreSound :
      (taken : List String) (js : List Json) → AreSound taken (read_items d requested taken js)
  unfolding read_items
  read_items-AreSound taken [] = record { sound = tt; apart = nil-IsApart taken }
  read_items-AreSound taken (j ∷ js) =
      with_answer-AreSound taken (read_item d requested taken j)
        (read_items d requested (answer_taken taken (read_item d requested taken j)) js)
        (read_item-Judged taken j)
        (read_items-AreSound (answer_taken taken (read_item d requested taken j)) js)

-- ===== src/Mapping/Resolver/Visits.antt =====
-- A loop over the open columns that respects what is claimed.
use mathlib.Core.List.{append_assoc}
use harbormaster.Prelude.{
  ◌≡◌, refl, sym, ap, ◌∙◌, ◌⊎◌, inl, inr, true, false, ◌||◌, none, some, List, [], ◌∷◌, ◌++◌,
  String, string_eq, ◌==◌, contains, is_some, arith, Option-cases, Bool-cases,
}
use harbormaster.Prelude.Text.{is_blank}
use harbormaster.Mapping.Fields.{fields_of-cons}
use harbormaster.Mapping.{Mapping, fields_of, has_duplicates}
use harbormaster.Mapping.Resolver.{visit, visited}

-- The same columns, with at most their open ones changed.
abbrev pub Extends : List Mapping → List Mapping → Type 0
Extends [] [] = Unit
Extends (m ∷ ms) (n ∷ ns) =
    (n.source_field ≡ m.source_field) × (is_some m.canonical_field ≡ true → n ≡ m) × Extends ms ns
Extends _ _ = ⊥

pub Extends-refl : (ms : List Mapping) → Extends ms ms
Extends-refl [] = tt
Extends-refl (m ∷ ms) = (refl, λ h. refl, Extends-refl ms)

pub Extends-trans : (a b c : List Mapping) → Extends a b → Extends b c → Extends a c
Extends-trans [] [] [] _ _ = tt
Extends-trans [] [] (_ ∷ _) _ h = absurd h
Extends-trans [] (_ ∷ _) c h _ = absurd h
Extends-trans (_ ∷ _) [] c h _ = absurd h
Extends-trans (_ ∷ _) (_ ∷ _) [] _ h = absurd h
Extends-trans (x ∷ a) (y ∷ b) (z ∷ c) (source, same, more) (source', same', more') = (
  source' ∙ source,
  λ h. same' (ap (λ m. is_some m.canonical_field) (same h) ∙ h) ∙ same h,
  Extends-trans a b c more more',
)

-- No field is given to two columns.
abbrev pub IsUnique : List Mapping → Type 0
IsUnique ms = has_duplicates (fields_of ms) ≡ false

-- What a tier may do to an open column: keep its header, and give it a field that is not claimed.
abbrev pub Respects : (List String → Mapping → Mapping) → Type 0
Respects f =
    (claimed : List String) (m : Mapping)
    → m.canonical_field ≡ none
    → ((f claimed m).source_field ≡ m.source_field)
      × ((g : String) → (f claimed m).canonical_field ≡ some g → contains claimed g ≡ false)

contains-insert :
    (a b : List String) (g x : String) → contains (a ++ g ∷ b) x ≡ (x == g || contains (a ++ b) x)
contains-insert [] b g x = refl
contains-insert (y ∷ a) b g x = ground (arith, contains-insert a b g x)

duplicates-insert :
    (a b : List String) (g : String)
    → has_duplicates (a ++ g ∷ b) ≡ (contains (a ++ b) g || has_duplicates (a ++ b))
duplicates-insert [] b g = ground arith
duplicates-insert (y ∷ a) b g = ground (
  arith,
  duplicates-insert a b g,
  contains-insert a b g y,
  string_eq.beq_iff y g,
  string_eq.beq_iff g y,
)

fields-split :
    (before : List String) (n : Mapping) (ns : List Mapping)
    → before ++ fields_of (n ∷ ns) ≡ (before ++ fields_of (n ∷ [])) ++ fields_of ns
fields-split before n ns =
    ap (λ l. before ++ l) (fields_of-cons n ns)
    ∙ sym (append_assoc before (fields_of (n ∷ [])) (fields_of ns))

-- A column with a new field, or none, among columns with other fields.
unique-given :
    (before : List String) (n : Mapping) (ms : List Mapping)
    → ((g : String) → n.canonical_field ≡ some g → contains (before ++ fields_of ms) g ≡ false)
    → has_duplicates (before ++ fields_of ms) ≡ false
    → has_duplicates (before ++ fields_of (n ∷ ms)) ≡ false
unfolding fields_of
unique-given before n ms fresh u = elim (Option-cases n.canonical_field) [
  | inl open_yet ↦ rw open_yet u
  | inr (g, given) ↦ rw given (elim (Bool-cases (is_blank g)) [
    | inl blank ↦ rw blank u
    | inr there ↦ rw there (
        duplicates-insert before (fields_of ms) g
        ∙ ap (λ b. b || has_duplicates (before ++ fields_of ms)) (fresh g given)
        ∙ u)
  ])
]

fields_of-open :
    (m : Mapping) (ms : List Mapping) → m.canonical_field ≡ none → fields_of (m ∷ ms) ≡ fields_of ms
unfolding fields_of
fields_of-open m ms h = rw h refl

module _ (f : List String → Mapping → Mapping) (respects : Respects f) where
  visited-cases :
      (before : List String) (m : Mapping) (ms : List Mapping)
      → (visited f before m ms ≡ m)
        ⊎ ((m.canonical_field ≡ none)
            × (visited f before m ms ≡ f (before ++ fields_of (m ∷ ms)) m))
  unfolding visited
  visited-cases before m ms = elim (Option-cases m.canonical_field) [
    | inl open_yet ↦ inr (open_yet, rw open_yet refl)
    | inr (g, given) ↦ inl (rw given refl)
  ]

  visited_unique :
      (before : List String) (m : Mapping) (ms : List Mapping)
      → has_duplicates (before ++ fields_of (m ∷ ms)) ≡ false
      → has_duplicates (before ++ fields_of (visited f before m ms ∷ ms)) ≡ false
  visited_unique before m ms u = elim (visited-cases before m ms) [
    | inl same ↦ ap (λ n. has_duplicates (before ++ fields_of (n ∷ ms))) same ∙ u
    | inr (open_yet, changed) ↦
        let claimed = ap (λ l. before ++ l) (fields_of-open m ms open_yet) in
        ap (λ n. has_duplicates (before ++ fields_of (n ∷ ms))) changed
        ∙ unique-given before _ ms
            (λ g given. ap (λ l. contains l g) (sym claimed) ∙ (respects _ m open_yet).1 g given)
            (ap has_duplicates (sym claimed) ∙ u)
  ]

  pub visit-IsUnique :
      (before : List String) (ms : List Mapping)
      → has_duplicates (before ++ fields_of ms) ≡ false
      → has_duplicates (before ++ fields_of (visit f before ms).mappings) ≡ false
  unfolding visit
  visit-IsUnique before [] u = u
  visit-IsUnique before (m ∷ ms) u =
      let n = visited f before m ms in
      ap has_duplicates (fields-split before n _)
      ∙ visit-IsUnique (before ++ fields_of (n ∷ [])) ms
          (ap has_duplicates (sym (fields-split before n ms)) ∙ visited_unique before m ms u)

  visited-keeps :
      (before : List String) (m : Mapping) (ms : List Mapping)
      → ((visited f before m ms).source_field ≡ m.source_field)
        × (is_some m.canonical_field ≡ true → visited f before m ms ≡ m)
  visited-keeps before m ms = elim (visited-cases before m ms) [
    | inl same ↦ (ap (λ n. n.source_field) same, λ h. same)
    | inr (open_yet, changed) ↦ (
      ap (λ n. n.source_field) changed ∙ (respects _ m open_yet).0,
      λ h. cc (sym (ap is_some open_yet) ∙ h),
    )
  ]

  pub visit-Extends :
      (before : List String) (ms : List Mapping) → Extends ms (visit f before ms).mappings
  unfolding visit
  visit-Extends before [] = tt
  visit-Extends before (m ∷ ms) =
      let (source, same) = visited-keeps before m ms in
      (source, same, visit-Extends (before ++ fields_of (visited f before m ms ∷ [])) ms)

-- ===== src/Mapping/Fields.antt =====
-- The fields of a list of mappings, and lists of names without duplicates.
use mathlib.Core.List.{append_assoc}
use harbormaster.Prelude.{
  ◌≡◌, refl, sym, ap, ◌∙◌, inl, inr, true, false, ◌||◌, none, some, List, [], ◌∷◌, ◌++◌, String,
  string_eq, ◌==◌, contains, if◌then◌else◌, arith, Option-cases, Bool-cases,
}
use harbormaster.Prelude.Text.{is_blank}
use harbormaster.Mapping.{Mapping, sources_of, fields_of, has_duplicates}

pub contains-append :
    (l m : List String) (h : String) → contains (l ++ m) h ≡ (contains l h || contains m h)
contains-append [] m h = refl
contains-append (x ∷ l) m h = ground (arith, contains-append l m h)

pub duplicates-append :
    (a b : List String)
    → has_duplicates a ≡ false
    → has_duplicates b ≡ false
    → ((f : String) → contains a f ≡ true → contains b f ≡ false)
    → has_duplicates (a ++ b) ≡ false
duplicates-append [] b ua ub apart = ub
duplicates-append (x ∷ a) b ua ub apart =
    let x_new : contains a x ≡ false = ground arith in
    let a_distinct : has_duplicates a ≡ false = ground arith in
    let rest = duplicates-append a b a_distinct ub (λ f has. apart f (ground (arith, has))) in
    let first : contains b x ≡ false = apart x (rw ((string_eq.beq_iff x x).1 refl) refl) in
    rw (contains-append a b x ∙ ap (λ c. c || contains b x) x_new ∙ first) rest

-- And back: the two parts of a list without duplicates.
pub duplicates_split :
    (a b : List String)
    → has_duplicates (a ++ b) ≡ false
    → (has_duplicates b ≡ false) × ((f : String) → contains b f ≡ true → contains a f ≡ false)
duplicates_split [] b u = (u, λ f has. refl)
duplicates_split (x ∷ a) b u =
    let (distinct, apart) = duplicates_split a b (ground (arith, u)) in
    (
      distinct,
      λ f has. elim (Bool-cases (f == x)) [
        | inl same ↦
            let twice : contains (a ++ b) f ≡ true = rw (contains-append a b f, apart f has) has in
            cc (
              sym twice
              ∙ ap (contains (a ++ b)) ((string_eq.beq_iff f x).0 same)
              ∙ first_new x (a ++ b) u)
        | inr differ ↦ rw differ (apart f has)
      ],
    )
  where
    first_new :
        (y : String) (l : List String) → has_duplicates (y ∷ l) ≡ false → contains l y ≡ false
    first_new y l h = ground arith

pub fields_of-cons :
    (m : Mapping) (ms : List Mapping) → fields_of (m ∷ ms) ≡ fields_of (m ∷ []) ++ fields_of ms
unfolding fields_of
fields_of-cons m ms = elim (Option-cases m.canonical_field) [
  | inl open_yet ↦ rw open_yet refl
  | inr (g, given) ↦
      rw given
        (elim (Bool-cases (is_blank g)) [ inl blank ↦ rw blank refl | inr there ↦ rw there refl ])
]

pub fields_of-append : (ms ns : List Mapping) → fields_of (ms ++ ns) ≡ fields_of ms ++ fields_of ns
fields_of-append [] ns = unfold fields_of in refl
fields_of-append (m ∷ ms) ns =
    fields_of-cons m (ms ++ ns)
    ∙ ap (λ l. fields_of (m ∷ []) ++ l) (fields_of-append ms ns)
    ∙ sym (append_assoc (fields_of (m ∷ [])) (fields_of ms) (fields_of ns))
    ∙ ap (λ l. l ++ fields_of ns) (sym (fields_of-cons m ms))

pub fields_of-open : (m : Mapping) → m.canonical_field ≡ none → fields_of (m ∷ []) ≡ []
unfolding fields_of
fields_of-open m open_yet = rw open_yet refl

-- Of one mapping: at most its field.
pub fields_of-one :
    (m : Mapping) (g : String)
    → m.canonical_field ≡ some g
    → fields_of (m ∷ []) ≡ (if is_blank g then [] else g ∷ [])
unfolding fields_of
fields_of-one m g given = rw given refl

pub contains-fields_of-one :
    (m : Mapping) (g f : String)
    → m.canonical_field ≡ some g
    → contains (fields_of (m ∷ [])) f ≡ true
    → f ≡ g
contains-fields_of-one m g f given has = elim (Bool-cases (is_blank g)) [
  | inl blank ↦ cc (rw (fields_of-one m g given, blank) at has)
  | inr there ↦
      let has' : contains (g ∷ []) f ≡ true = rw (fields_of-one m g given, there) at has in
      (string_eq.beq_iff f g).0 (ground (arith, has'))
]

pub distinct_one : (m : Mapping) → has_duplicates (fields_of (m ∷ [])) ≡ false
unfolding fields_of
distinct_one m = elim (Option-cases m.canonical_field) [
  | inl open_yet ↦ rw open_yet refl
  | inr (g, given) ↦
      rw given
        (elim (Bool-cases (is_blank g)) [ inl blank ↦ rw blank refl | inr there ↦ rw there refl ])
]

pub contains-fields_of :
    (m : Mapping) (ms : List Mapping) (f : String)
    → contains (fields_of (m ∷ ms)) f
      ≡ (contains (fields_of (m ∷ [])) f || contains (fields_of ms) f)
contains-fields_of m ms f =
    ap (λ l. contains l f) (fields_of-cons m ms)
    ∙ contains-append (fields_of (m ∷ [])) (fields_of ms) f

-- A list of mappings extended by one whose field, if it has one, is new.
pub duplicates-extend :
    (ms : List Mapping) (m : Mapping)
    → has_duplicates (fields_of ms) ≡ false
    → ((g : String) → m.canonical_field ≡ some g → contains (fields_of ms) g ≡ false)
    → has_duplicates (fields_of (ms ++ m ∷ [])) ≡ false
duplicates-extend ms m distinct fresh =
    ap has_duplicates (fields_of-append ms (m ∷ []))
    ∙ duplicates-append (fields_of ms) (fields_of (m ∷ [])) distinct (distinct_one m) (λ f has.
      elim (Bool-cases (contains (fields_of (m ∷ [])) f)) [
        | inr apart ↦ apart
        | inl twice ↦ elim (Option-cases m.canonical_field) [
          | inl open_yet ↦ cc (rw (fields_of-open m open_yet) at twice)
          | inr (g, given) ↦
              let same = contains-fields_of-one m g f given twice in
              cc (sym has ∙ ap (contains (fields_of ms)) same ∙ fresh g given)
        ]
      ])

pub has_source-append :
    (l m : List Mapping) (h : String)
    → contains (sources_of (l ++ m)) h ≡ (contains (sources_of l) h || contains (sources_of m) h)
has_source-append [] m h = refl
has_source-append (x ∷ l) m h = ground (arith, has_source-append l m h)

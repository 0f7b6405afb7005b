-- ===== src/Reconstub/Missing.antt =====
-- The keys that `reconcile` reports as missing on a side.
use mathlib.Core.Option.{some-injective}
use mathlib.Core.List.{append-nil}
use harbormaster.Prelude.{
  ◌≡◌, refl, sym, ap, ◌∙◌, inl, inr, Bool, true, false, not, ◌&&◌, ◌||◌, Option, none, some, List,
  [], ◌∷◌, ◌++◌, map, filter, String, string_eq, ◌==◌, contains, if◌then◌else◌, arith, Bool-cases,
}
use harbormaster.Prelude.Dict.{Dict, lookup, insert, from_pairs, keys}
use harbormaster.Prelude.Sort.{sort, insert_sorted, text_lt}
use harbormaster.Reconstub.{
  Row, Break, BreakKind, missing_side_1, missing_side_2, value_mismatch, key_of, missing, mismatch,
  compare_rows, compare_keys, compare_values, value_of, by_key, keyed, keys_without, keys_of_both,
  reconcile, ◌+++◌, found_before, compare_found, compared_fields, Compared,
}

contains-insert_sorted :
    (x : String) (l : List String) (k : String)
    → contains (insert_sorted text_lt x l) k ≡ contains (x ∷ l) k
unfolding insert_sorted
contains-insert_sorted x [] k = refl
contains-insert_sorted x (y ∷ l) k = elim (Bool-cases (text_lt y x)) [
  | inl before ↦ rw before (ground (arith, contains-insert_sorted x l k))
  | inr behind ↦ rw behind refl
]

pub contains-sort : (l : List String) (k : String) → contains (sort text_lt l) k ≡ contains l k
unfolding sort
contains-sort [] k = refl
contains-sort (x ∷ l) k =
    contains-insert_sorted x (sort text_lt l) k ∙ ap (λ b. k == x || b) (contains-sort l k)

pub contains-filter :
    (p : String → Bool) (l : List String) (k : String)
    → contains (filter p l) k ≡ (contains l k && p k)
unfolding filter
contains-filter p [] k = refl
contains-filter p (x ∷ l) k = elim (Bool-cases (k == x)) [
  | inl same ↦
      let e : p k ≡ p x = ap p ((string_eq.beq_iff k x).0 same) in
      ground (arith, contains-filter p l k)
  | inr other ↦ ground (arith, contains-filter p l k)
]

contains-keys-insert :
    (j : String) (r : Row) (d : Dict String Row) (k : String)
    → contains (keys (insert j r d)) k ≡ (k == j || contains (keys d) k)
unfolding insert
contains-keys-insert j r [] k = refl
contains-keys-insert j r ((i, q) ∷ d) k = ground (
  arith,
  contains-keys-insert j r d k,
  string_eq.beq_iff j i,
  string_eq.beq_iff k i,
  string_eq.beq_iff k j,
)

contains-keys-from_pairs :
    (rows : List Row) (d : Dict String Row) (k : String)
    → contains (keys (from_pairs (keyed rows) d)) k
      ≡ (contains (map key_of rows) k || contains (keys d) k)
unfolding from_pairs
contains-keys-from_pairs [] d k = refl
contains-keys-from_pairs (r ∷ rows) d k =
    contains-keys-from_pairs rows (insert (key_of r) r d) k
    ∙ ground (arith, contains-keys-insert (key_of r) r d k)

-- The keys of a side are those of its rows.
pub contains-keys-by_key :
    (rows : List Row) (k : String) → contains (keys (by_key rows)) k ≡ contains (map key_of rows) k
unfolding by_key
contains-keys-by_key rows k = contains-keys-from_pairs rows [] k ∙ ground arith

abbrev is_kind : BreakKind → BreakKind → Bool
is_kind missing_side_1 missing_side_1 = true
is_kind missing_side_2 missing_side_2 = true
is_kind value_mismatch value_mismatch = true
is_kind _ _ = false

-- The keys of the breaks of a kind.
abbrev pub keys_of_kind : BreakKind → List Break → List String
keys_of_kind kind [] = []
keys_of_kind kind (b ∷ bs) =
    let rest = keys_of_kind kind bs in if is_kind kind b.kind then b.join_key ∷ rest else rest

keys_of_kind-append :
    (kind : BreakKind) (l m : List Break)
    → keys_of_kind kind (l ++ m) ≡ keys_of_kind kind l ++ keys_of_kind kind m
keys_of_kind-append kind [] m = refl
keys_of_kind-append kind (b ∷ l) m = elim (Bool-cases (is_kind kind b.kind)) [
  | inl this ↦ rw this (ap (λ r. b.join_key ∷ r) (keys_of_kind-append kind l m))
  | inr other ↦ rw other (keys_of_kind-append kind l m)
]

missing_own :
    (kind : BreakKind) (l : List String)
    → is_kind kind kind ≡ true
    → keys_of_kind kind (map (missing kind) l) ≡ l
missing_own kind [] h = refl
missing_own kind (k ∷ l) h = rw h (ap (λ r. k ∷ r) (missing_own kind l h))

missing_other :
    (kind other : BreakKind) (l : List String)
    → is_kind kind other ≡ false
    → keys_of_kind kind (map (missing other) l) ≡ []
missing_other kind other [] h = refl
missing_other kind other (k ∷ l) h = rw h (missing_other kind other l h)

+++-eq-some :
    (m n : Option (List Break)) (bs : List Break)
    → (m +++ n) ≡ some bs
    → (l : List Break) × (r : List Break) × (m ≡ some l) × (n ≡ some r) × (bs ≡ l ++ r)
+++-eq-some none n bs h = cc
+++-eq-some (some l) none bs h = cc
+++-eq-some (some l) (some r) bs h = (l, r, refl, refl, sym (some-injective (l ++ r) bs h))

-- A comparison of rows reports nothing as missing.
module _ (kind : BreakKind) (missed : is_kind kind value_mismatch ≡ false) where
  compare_rows-missing :
      (key : String) (a b : Row) (names : List String) (bs : List Break)
      → compare_rows key a b names ≡ some bs
      → keys_of_kind kind bs ≡ []
  unfolding compare_rows
  compare_rows-missing key a b [] bs h = ap (keys_of_kind kind) (sym (some-injective [] bs h))
  compare_rows-missing key a b (name ∷ names) bs h =
      by_found (compare_values (value_of a name) (value_of b name)) (compare_rows key a b names)
        (compare_rows-missing key a b names) h
    where
      by_found :
          (found : Compared) (rest : Option (List Break))
          → ((r : List Break) → rest ≡ some r → keys_of_kind kind r ≡ [])
          → found_before key name found rest ≡ some bs
          → keys_of_kind kind bs ≡ []
      by_found none rest ih e = cc
      by_found (some none) rest ih e = ih bs e
      by_found (some (some p)) none ih e = cc
      by_found (some (some p)) (some r) ih e =
          ap (keys_of_kind kind) (sym (some-injective (mismatch key name p ∷ r) bs e))
          ∙ rw missed (ih r refl)

  compare_keys-missing :
      (left right : Dict String Row) (ks : List String) (bs : List Break)
      → compare_keys left right ks ≡ some bs
      → keys_of_kind kind bs ≡ []
  unfolding compare_keys
  compare_keys-missing left right [] bs h = ap (keys_of_kind kind) (sym (some-injective [] bs h))
  compare_keys-missing left right (k ∷ ks) bs h =
      let (l, r, first, rest, both) =
        +++-eq-some (compare_found k (lookup k left) (lookup k right)) (compare_keys left right ks)
          bs h in
      ap (keys_of_kind kind) both
      ∙ keys_of_kind-append kind l r
      ∙ ap (λ x. x ++ keys_of_kind kind r) (by_rows (lookup k left) (lookup k right) l first)
      ∙ compare_keys-missing left right ks r rest
    where
      by_rows :
          (a b : Option Row) (l : List Break)
          → compare_found k a b ≡ some l
          → keys_of_kind kind l ≡ []
      by_rows (some a) (some b) l e = compare_rows-missing k a b compared_fields l e
      by_rows (some a) none l e = cc
      by_rows none b l e = cc

contains-keys_without :
    (rows other : List Row) (k : String)
    → contains (keys_without (by_key rows) (by_key other)) k
      ≡ (contains (map key_of rows) k && not (contains (map key_of other) k))
unfolding keys_without
contains-keys_without rows other k =
    contains-sort (filter (λ j. not (contains (keys (by_key other)) j)) (keys (by_key rows))) k
    ∙ contains-filter (λ j. not (contains (keys (by_key other)) j)) (keys (by_key rows)) k
    ∙ ap (λ b. b && not (contains (keys (by_key other)) k)) (contains-keys-by_key rows k)
    ∙ ap (λ b. contains (map key_of rows) k && not b) (contains-keys-by_key other k)

-- The breaks in their order: what side 2 lacks, what side 1 lacks, and the mismatches.
reconcile_parts :
    (side_1 side_2 : List Row) (bs : List Break)
    → reconcile side_1 side_2 ≡ some bs
    → (r : List Break) × (compare_keys
          (by_key side_1)
          (by_key side_2)
          (keys_of_both (by_key side_1) (by_key side_2))
        ≡ some r)
      × (bs
          ≡ map (missing missing_side_2) (keys_without (by_key side_1) (by_key side_2))
            ++ (map (missing missing_side_1) (keys_without (by_key side_2) (by_key side_1)) ++ r))
unfolding reconcile
reconcile_parts side_1 side_2 bs h =
    let (l, m, first, rest, both) =
      +++-eq-some
        (some (map (missing missing_side_2) (keys_without (by_key side_1) (by_key side_2))))
        (some (map (missing missing_side_1) (keys_without (by_key side_2) (by_key side_1)))
          +++ compare_keys (by_key side_1) (by_key side_2)
              (keys_of_both (by_key side_1) (by_key side_2)))
        bs h in
    let (n, r, second, last, rest_of) =
      +++-eq-some
        (some (map (missing missing_side_1) (keys_without (by_key side_2) (by_key side_1))))
        (compare_keys (by_key side_1) (by_key side_2)
          (keys_of_both (by_key side_1) (by_key side_2)))
        m rest in
    (r, last, cc (some-injective _ l first, some-injective _ n second, both, rest_of))

keys_of_parts :
    (kind : BreakKind) (l m : List String) (r : List Break)
    → keys_of_kind kind r ≡ []
    → keys_of_kind kind (map (missing missing_side_2) l ++ (map (missing missing_side_1) m ++ r))
      ≡ keys_of_kind kind (map (missing missing_side_2) l)
        ++ (keys_of_kind kind (map (missing missing_side_1) m) ++ [])
keys_of_parts kind l m r h =
    keys_of_kind-append kind (map (missing missing_side_2) l) (map (missing missing_side_1) m ++ r)
    ∙ ap (λ x. keys_of_kind kind (map (missing missing_side_2) l) ++ x)
        (keys_of_kind-append kind (map (missing missing_side_1) m) r
          ∙ ap (λ x. keys_of_kind kind (map (missing missing_side_1) m) ++ x) h)

-- A key is reported as missing on a side exactly when it is that of a row of the other side, and of none of that.
pub reconcile-missing :
    (side_1 side_2 : List Row) (bs : List Break)
    → reconcile side_1 side_2 ≡ some bs
    → (k : String)
    → (contains (keys_of_kind missing_side_2 bs) k
        ≡ (contains (map key_of side_1) k && not (contains (map key_of side_2) k)))
      × (contains (keys_of_kind missing_side_1 bs) k
          ≡ (contains (map key_of side_2) k && not (contains (map key_of side_1) k)))
reconcile-missing side_1 side_2 bs h k =
    let (r, compared, parts) = reconcile_parts side_1 side_2 bs h in
    let left = by_key side_1 in
    let right = by_key side_2 in
    let l = keys_without left right in
    let m = keys_without right left in
    let both = keys_of_both left right in
    (
      ap (λ x. contains x k)
            (ap (keys_of_kind missing_side_2) parts
              ∙ keys_of_parts missing_side_2 l m r
                  (compare_keys-missing missing_side_2 refl left right both r compared)
              ∙ ap (λ x. x ++ (keys_of_kind missing_side_2 (map (missing missing_side_1) m) ++ []))
                  (missing_own missing_side_2 l refl)
              ∙ ap (λ x. l ++ (x ++ [])) (missing_other missing_side_2 missing_side_1 m refl)
              ∙ append-nil l)
          ∙ contains-keys_without side_1 side_2 k,
      ap (λ x. contains x k)
            (ap (keys_of_kind missing_side_1) parts
              ∙ keys_of_parts missing_side_1 l m r
                  (compare_keys-missing missing_side_1 refl left right both r compared)
              ∙ ap (λ x. x ++ (keys_of_kind missing_side_1 (map (missing missing_side_1) m) ++ []))
                  (missing_other missing_side_1 missing_side_2 l refl)
              ∙ ap (λ x. x ++ []) (missing_own missing_side_1 m refl)
              ∙ append-nil m)
          ∙ contains-keys_without side_2 side_1 k,
    )

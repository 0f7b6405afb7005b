-- ===== src/Reconstub/Total.antt =====
-- When `reconcile` raises nothing.
use harbormaster.Prelude.{
  ℕ, ◌+◌, ◌*◌, ◌<◌, Bool, ◌≡◌, refl, sym, ap, ◌∙◌, inl, inr, true, Option, none, some, List, [],
  ◌∷◌, ◌++◌, All, map, filter, String, string_eq, ◌==◌, contains, arith, Bool-cases,
}
use harbormaster.Prelude.Dict.{Dict, lookup, keys, from_pairs-values, lookup-nil}
use harbormaster.Mapping.Numbers.{Decimal, finite, infinity, nan}
use harbormaster.Prelude.Int.{ℤ}
use Prim.Native.Nat.{◌^◌}
use harbormaster.Reconstub.Digits.{
  InRange, scaled-small, overflows-small, distance-small, places-le, places-le',
}
use harbormaster.Reconstub.{
  max, places, shifted, distance, by_number, above_tolerance, exceeds_by, Row, Break,
  missing_side_1, missing_side_2, missing, as_decimal, exceeds, compared_fields, by_value, text_of,
  compare_rows, compare_keys, compare_values, value_of, by_key, keyed, keys_without, keys_of_both,
  reconcile, ◌+++◌, found_before, compare_found,
}
use harbormaster.Reconstub.Missing.{contains-sort, contains-filter}

-- No number, or one that is neither a NaN nor infinite, with 999999 digits in front of the point at most.
abbrev pub IsFinite : Option Decimal → Type 0
IsFinite none = Unit
IsFinite (some (finite _ c e)) = InRange c e
IsFinite (some (infinity _)) = ⊥
IsFinite (some nan) = ⊥

-- A row whose compared values are.
abbrev PlainAt : List String → Row → Type 0
PlainAt names row = All (λ name. IsFinite (as_decimal (value_of row name))) names

abbrev pub IsPlain : Row → Type 0
IsPlain row = PlainAt compared_fields row

-- The difference of two numbers in range does not overflow.
exceeds-total :
    (n m : Bool) (c d : ℕ) (e f : ℤ)
    → InRange c e
    → InRange d f
    → (far : Bool) × (exceeds (finite n c e) (finite m d f) ≡ some far)
unfolding exceeds exceeds_by
exceeds-total n m c d e f h g =
    let k = max 30 (max (places e) (places f)) in
    let x = c * 10 ^ shifted e k in
    let y = d * 10 ^ shifted f k in
    let small : distance n x m y < 2 * 10 ^ (999999 + k) =
      distance-small n m x y k (scaled-small c e k h (places-le e f))
        (scaled-small d f k g (places-le' e f)) in
    (above_tolerance k (distance n x m y), rw (overflows-small k (distance n x m y) small) refl)

by_value-total :
    (a b : Option Decimal) (s t : String)
    → IsFinite a
    → IsFinite b
    → (c : Option (String × String)) × (by_value a b s t ≡ some c)
unfolding exceeds
by_value-total none b s t h g = (_, refl)
by_value-total (some a) none s t h g = (_, refl)
by_value-total (some (finite n c e)) (some (finite m d f)) s t h g =
    let (far, compared) = exceeds-total n m c d e f h g in (_, ap (λ o. by_number o s t) compared)
by_value-total (some (finite n c e)) (some (infinity m)) s t h g = absurd g
by_value-total (some (finite n c e)) (some nan) s t h g = absurd g
by_value-total (some (infinity n)) (some b) s t h g = absurd h
by_value-total (some nan) (some b) s t h g = absurd h

compare_values-total :
    (a b : Option String)
    → IsFinite (as_decimal a)
    → IsFinite (as_decimal b)
    → (c : Option (String × String)) × (compare_values a b ≡ some c)
unfolding compare_values
compare_values-total none none h g = (none, refl)
compare_values-total (some s) b h g =
    by_value-total (as_decimal (some s)) (as_decimal b) s (text_of b) h g
compare_values-total none (some t) h g = by_value-total none (as_decimal (some t)) "" t tt g

found_before-total :
    (key name : String) (found : Option (String × String)) (bs : List Break)
    → (r : List Break) × (found_before key name (some found) (some bs) ≡ some r)
found_before-total key name none bs = (bs, refl)
found_before-total key name (some p) bs = (_, refl)

compare_rows-total :
    (key : String) (a b : Row) (names : List String)
    → PlainAt names a
    → PlainAt names b
    → (bs : List Break) × (compare_rows key a b names ≡ some bs)
unfolding compare_rows
compare_rows-total key a b [] h g = ([], refl)
compare_rows-total key a b (name ∷ names) (h, hs) (g, gs) =
    let (found, compared) = compare_values-total (value_of a name) (value_of b name) h g in
    let (bs, rest) = compare_rows-total key a b names hs gs in
    let (r, all_of) = found_before-total key name found bs in
    (
      r,
      ap (λ c. found_before key name c (compare_rows key a b names)) compared
          ∙ ap (λ m. found_before key name (some found) m) rest
          ∙ all_of,
    )

-- A key of a dict has a value.
found_key :
    (d : Dict String Row) (k : String)
    → contains (keys d) k ≡ true
    → (r : Row) × (lookup k d ≡ some r)
unfolding lookup
found_key [] k h = cc
found_key ((j, r) ∷ d) k h = elim (Bool-cases (k == j)) [
  | inl same ↦ rw same (r, refl)
  | inr other ↦ rw other (found_key d k (ground (arith, h, other)))
]

abbrev AllPlain : Dict String Row → Type 0
AllPlain d = (k : String) (r : Row) → lookup k d ≡ some r → IsPlain r

module _ (left right : Dict String Row) (plain_left : AllPlain left)
    (plain_right : AllPlain right) where
  compare_keys-total :
      (ks : List String)
      → ((k : String) → contains ks k ≡ true → contains (keys left) k ≡ true)
      → ((k : String) → contains ks k ≡ true → contains (keys right) k ≡ true)
      → (bs : List Break) × (compare_keys left right ks ≡ some bs)
  unfolding compare_keys
  compare_keys-total [] on_left on_right = ([], refl)
  compare_keys-total (k ∷ ks) on_left on_right =
      let own : contains (k ∷ ks) k ≡ true = rw ((string_eq.beq_iff k k).1 refl) refl in
      let (a, at_left) = found_key left k (on_left k own) in
      let (b, at_right) = found_key right k (on_right k own) in
      let (l, compared) =
        compare_rows-total k a b compared_fields (plain_left k a at_left)
          (plain_right k b at_right) in
      let (r, rest) =
        compare_keys-total ks (λ j h. on_left j (ground (arith, h)))
          (λ j h. on_right j (ground (arith, h))) in
      (
        l ++ r,
        ap (λ x. compare_found k x (lookup k right) +++ compare_keys left right ks) at_left
            ∙ ap (λ x. compare_found k (some a) x +++ compare_keys left right ks) at_right
            ∙ ap (λ x. x +++ compare_keys left right ks) compared
            ∙ ap (λ x. some l +++ x) rest,
      )

keyed-All :
    (rows : List Row) → All IsPlain rows → All (λ (p : String × Row). IsPlain p.1) (keyed rows)
keyed-All [] h = tt
keyed-All (r ∷ rows) (first, h) = (first, keyed-All rows h)

by_key-IsPlain : (rows : List Row) → All IsPlain rows → AllPlain (by_key rows)
unfolding by_key
by_key-IsPlain rows h =
    from_pairs-values IsPlain (keyed rows) [] (keyed-All rows h)
      (λ k r found. cc (sym (lookup-nil k) ∙ found))

both_sides :
    (left right : Dict String Row) (k : String)
    → contains (keys_of_both left right) k ≡ true
    → (contains (keys left) k ≡ true) × (contains (keys right) k ≡ true)
unfolding keys_of_both
both_sides left right k h = ground (
  arith,
  sym (
        contains-sort (filter (contains (keys right)) (keys left)) k
        ∙ contains-filter (contains (keys right)) (keys left) k)
      ∙ h,
)

-- Two sides whose compared values are neither NaNs nor infinite, and have no more than 999999 digits in front of the
-- point, are compared to the end.
pub reconcile_total :
    (side_1 side_2 : List Row)
    → All IsPlain side_1
    → All IsPlain side_2
    → (bs : List Break) × (reconcile side_1 side_2 ≡ some bs)
unfolding reconcile
reconcile_total side_1 side_2 h g =
    let left = by_key side_1 in
    let right = by_key side_2 in
    let (r, compared) =
      compare_keys-total left right (by_key-IsPlain side_1 h) (by_key-IsPlain side_2 g)
        (keys_of_both left right) (λ k m. (both_sides left right k m).0)
        (λ k m. (both_sides left right k m).1) in
    (
      _,
      ap
          (λ x.
            some (map (missing missing_side_2) (keys_without left right))
            +++ some (map (missing missing_side_1) (keys_without right left))
            +++ x)
          compared,
    )

-- ===== src/Prelude/Counter.antt =====
-- `collections.Counter`, in the order in which the keys were first seen, and its `most_common(1)`.
use Prim.Native.Nat.{ℕ, ◌+◌, ◌≤◌}
use mathlib.Core.Path.{◌≡◌}
use mathlib.Core.Logic.{inl, inr}
use mathlib.Core.Option.{Option, none, some}
use mathlib.Core.List.{List, [], ◌∷◌}
use native.Mathlib.Omega.{arith}
use harbormaster.Prelude.Tests.{ltb, if◌then◌else◌, Option-cases}
use harbormaster.Prelude.Equality.{Eq, ◌==◌}
use harbormaster.Prelude.Dict.{
  Dict, lookup, insert, NodupKeys, lookup-nil, lookup-insert, insert-NodupKeys,
}

abbrev pub or_zero : Option ℕ → ℕ
or_zero none = 0
or_zero (some n) = n

-- `max(c.items(), key=count)`: the first of the entries with the largest count
unfoldable pub most_common {ℓ} : {K : Type ℓ} → Dict K ℕ → Option (K × ℕ)
most_common [] = none
most_common ((d, n) ∷ c) = elim (most_common c) [
  | none ↦ some (d, n)
  | some (e, m) ↦ if ltb n m then some (e, m) else some (d, n)
]

module _ {ℓ} {K : Type ℓ} ⦃q : Eq K⦄ where
  unfoldable pub count_from : List K → Dict K ℕ → Dict K ℕ
  count_from [] c = c
  count_from (d ∷ ds) c = count_from ds (insert d (or_zero (lookup d c) + 1) c)

  -- `Counter(ds)`
  abbrev pub counter : List K → Dict K ℕ
  counter ds = count_from ds []

  -- How often a value occurs in a list.
  abbrev pub count : K → List K → ℕ
  count d [] = 0
  count d (e ∷ es) = if d == e then count d es + 1 else count d es

  count_from-count :
      (d : K) (ds : List K) (c : Dict K ℕ)
      → or_zero (lookup d (count_from ds c)) ≡ or_zero (lookup d c) + count d ds
  unfolding count_from
  count_from-count d [] c = omega arith
  count_from-count d (e ∷ ds) c = ground (
    arith,
    count_from-count d ds (insert e (or_zero (lookup e c) + 1) c),
    lookup-insert d e (or_zero (lookup e c) + 1) c,
    q.beq_iff d e,
  )

  -- The counter holds, for each value, how often it occurs.
  pub counter-count : (d : K) (ds : List K) → or_zero (lookup d (counter ds)) ≡ count d ds
  counter-count d ds = ground (arith, count_from-count d ds [], lookup-nil {V = ℕ} d)

  count_from-NodupKeys : (ds : List K) (c : Dict K ℕ) → NodupKeys c → NodupKeys (count_from ds c)
  unfolding count_from
  count_from-NodupKeys [] c h = h
  count_from-NodupKeys (d ∷ ds) c h = count_from-NodupKeys ds _ (insert-NodupKeys d _ c h)

  most_common-none : (c : Dict K ℕ) (e : K) → most_common c ≡ none → or_zero (lookup e c) ≤ 0
  unfolding most_common lookup
  most_common-none [] e h = omega arith
  most_common-none ((k, v) ∷ c) e h = ground arith

  most_common-max :
      (c : Dict K ℕ) (d : K) (n : ℕ)
      → most_common c ≡ some (d, n)
      → (e : K) → or_zero (lookup e c) ≤ n
  unfolding most_common lookup
  most_common-max [] d n h e = cc
  most_common-max ((k, v) ∷ c) d n h e = elim (Option-cases (most_common c)) [
    | inl nothing ↦ ground (arith, most_common-none c e nothing)
    | inr ((t, m), found) ↦ ground (arith, most_common-max c t m found e)
  ]

  most_common-lookup :
      (c : Dict K ℕ) (d : K) (n : ℕ)
      → NodupKeys c
      → most_common c ≡ some (d, n)
      → lookup d c ≡ some n
  unfolding most_common lookup
  most_common-lookup [] d n u h = cc
  most_common-lookup ((k, v) ∷ c) d n u h = elim (Option-cases (most_common c)) [
    | inl nothing ↦ ground (arith, q.beq_iff d k)
    | inr ((t, m), found) ↦
        ground (arith, q.beq_iff d k, q.beq_iff t k, most_common-lookup c t m u.1 found)
  ]

  -- The value returned occurs as often as the count says, and no value occurs more often.
  pub most_common-counter :
      (ds : List K) (d : K) (n : ℕ)
      → most_common (counter ds) ≡ some (d, n)
      → (count d ds ≡ n) × ((e : K) → count e ds ≤ n)
  most_common-counter ds d n h = (
    ground (
      arith,
      counter-count d ds,
      most_common-lookup (counter ds) d n (count_from-NodupKeys ds [] tt) h,
    ),
    λ e. omega (arith, counter-count e ds, most_common-max (counter ds) d n h e),
  )

  -- A counter of one value or more has a most common one.
  pub most_common-total :
      (d : K) (ds : List K) → (t : K × ℕ) × (most_common (counter (d ∷ ds)) ≡ some t)
  most_common-total d ds = elim (Option-cases (most_common (counter (d ∷ ds)))) [
    | inl nothing ↦ absurd (
        ground (
          arith,
          most_common-none (counter (d ∷ ds)) d nothing,
          counter-count d (d ∷ ds),
          q.beq_iff d d,
        ))
    | inr found ↦ found
  ]

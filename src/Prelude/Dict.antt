-- ===== src/Prelude/Dict.antt =====
-- A Python dict, in insertion order. Proofs elsewhere go by the laws.
use mathlib.Core.Path.{◌≡◌, refl, sym, ◌∙◌, subst}
use mathlib.Core.Logic.{inl, inr}
use mathlib.Core.Bool.{false}
use mathlib.Core.Option.{Option, none, some, some-injective}
use mathlib.Core.List.{List, [], ◌∷◌}
use native.Mathlib.Omega.{arith}
use harbormaster.Prelude.Tests.{if◌then◌else◌, if_true, if_false, Bool-cases}
use harbormaster.Prelude.Lists.{All}
use harbormaster.Prelude.Equality.{Eq, ◌==◌, contains}

abbrev pub Dict {ℓ κ} : Type ℓ → Type κ → Type (ℓ ⊔ κ)
Dict K V = List (K × V)

module _ {ℓ κ} {K : Type ℓ} {V : Type κ} where
  -- `d.keys()`, `d.values()`
  abbrev pub keys : Dict K V → List K
  keys [] = []
  keys ((k, v) ∷ d) = k ∷ keys d

  abbrev pub values : Dict K V → List V
  values [] = []
  values ((k, v) ∷ d) = v ∷ values d

module _ {ℓ κ} {K : Type ℓ} {V : Type κ} ⦃e : Eq K⦄ where
  -- `d.get(k)`
  unfoldable pub lookup : K → Dict K V → Option V
  lookup k [] = none
  lookup k ((j, v) ∷ d) = if k == j then some v else lookup k d

  -- `d[k] = v`: a key that is there keeps its place
  unfoldable pub insert : K → V → Dict K V → Dict K V
  insert k v [] = (k, v) ∷ []
  insert k v ((j, w) ∷ d) = if k == j then (j, v) ∷ d else (j, w) ∷ insert k v d

  -- `{k: v for k, v in pairs}`: the last value of a key counts
  unfoldable pub from_pairs : List (K × V) → Dict K V → Dict K V
  from_pairs [] d = d
  from_pairs ((k, v) ∷ r) d = from_pairs r (insert k v d)

  abbrev pub dict_of : List (K × V) → Dict K V
  dict_of l = from_pairs l []

  abbrev pub NodupKeys : Dict K V → Type κ
  NodupKeys [] = Unit
  NodupKeys ((k, _) ∷ d) = (lookup k d ≡ none) × NodupKeys d

  pub lookup-nil : (k : K) → lookup k [] ≡ none
  unfolding lookup
  lookup-nil k = refl

  pub lookup-cons :
      (j k : K) (v : V) (d : Dict K V)
      → lookup j ((k, v) ∷ d) ≡ (if j == k then some v else lookup j d)
  unfolding lookup
  lookup-cons j k v d = refl

  pub lookup-insert :
      (j k : K) (v : V) (d : Dict K V)
      → lookup j (insert k v d) ≡ (if j == k then some v else lookup j d)
  unfolding insert lookup
  lookup-insert j k v [] = refl
  lookup-insert j k v ((i, w) ∷ d) =
      ground (arith, lookup-insert j k v d, e.beq_iff j k, e.beq_iff k i, e.beq_iff j i)

  pub insert-NodupKeys : (k : K) (v : V) (d : Dict K V) → NodupKeys d → NodupKeys (insert k v d)
  unfolding insert
  insert-NodupKeys k v [] h = (lookup-nil k, tt)
  insert-NodupKeys k v ((j, w) ∷ d) (fresh, u) =
      ground (arith, insert-NodupKeys k v d u, lookup-insert j k v d, e.beq_iff k j, e.beq_iff j k)

  pub from_pairs-NodupKeys :
      (l : List (K × V)) (d : Dict K V) → NodupKeys d → NodupKeys (from_pairs l d)
  unfolding from_pairs
  from_pairs-NodupKeys [] d h = h
  from_pairs-NodupKeys ((k, v) ∷ r) d h =
      from_pairs-NodupKeys r (insert k v d) (insert-NodupKeys k v d h)

  pub contains-keys : (d : Dict K V) (k : K) → contains (keys d) k ≡ false → lookup k d ≡ none
  unfolding lookup
  contains-keys [] k h = refl
  contains-keys (_ ∷ d) k h = ground (arith, contains-keys d k)

  -- What holds of the values of the pairs and of the dict before holds of the values behind.
  pub from_pairs-values {μ} :
      (P : V → Type μ) (l : List (K × V)) (d : Dict K V)
      → All (λ p. P p.1) l
      → ((k : K) (v : V) → lookup k d ≡ some v → P v)
      → (k : K) (v : V) → lookup k (from_pairs l d) ≡ some v
      → P v
  unfolding from_pairs
  from_pairs-values P [] d all_of before = before
  from_pairs-values P ((j, w) ∷ l) d (first, others) before =
      from_pairs-values P l (insert j w d) others (λ k v found.
        let at_k = sym (lookup-insert k j w d) ∙ found in
        elim (Bool-cases (k == j)) [
          | inl same ↦
              subst P (some-injective w v (sym (if_true (k == j) w (lookup k d) same) ∙ at_k)) first
          | inr differ ↦ before k v (sym (if_false (k == j) w (lookup k d) differ) ∙ at_k)
        ])

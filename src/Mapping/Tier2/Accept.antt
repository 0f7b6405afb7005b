-- ===== src/Mapping/Tier2/Accept.antt =====
-- What the local matcher may answer.
use mathlib.Core.Path.{subst}
use mathlib.Core.Option.{some-injective}
use harbormaster.Prelude.{
  ℕ, min, All-get, All-filter, ◌*◌, ◌≤◌, ◌≡◌, refl, inl, inr, Bool, true, false, not, Option, none,
  some, List, filter, get_elem?, is_empty, String, string_eq, option_eq, ◌==◌, contains, ltb, leb,
  arith, Bool-cases,
}
use harbormaster.Prelude.Text.{round_div, is_blank}
use harbormaster.Canonical.{normalize_header}
use harbormaster.Mapping.Tier2.{
  Signals, LocalMatch, min_accept, max_confidence, best, pick, untaken, alias_corpus, chosen, fuzzy,
  accept, combine, drop_taken, match_local,
}

-- A match that names a field names one that is free, at a confidence between the two bounds.
abbrev pub IsSound : List String → LocalMatch → Type 0
IsSound taken m =
    (f : String)
    → m.canonical_field ≡ some f
    → (contains taken f ≡ false) × (720 ≤ m.confidence) × (m.confidence ≤ 880)

-- a field, if there is one, that is not taken
abbrev IsFree : List String → Option String → Type 0
IsFree taken field = (f : String) → field ≡ some f → contains taken f ≡ false

round-bounds :
    (n : ℕ) → 72000000 ≤ n → n ≤ 88000000 → (720 ≤ round_div n 100000) × (round_div n 100000 ≤ 880)
unfolding round_div
round-bounds n lo hi = ground arith

accept-IsSound :
    (taken : List String) (field : Option String) (combined : ℕ) (evidence refusal : String)
    (degraded : Bool)
    → IsFree taken field
    → combined ≤ max_confidence
    → IsSound taken (accept field combined evidence refusal degraded)
unfolding accept
accept-IsSound taken none combined evidence refusal degraded free le = λ f h. cc
accept-IsSound taken (some g) combined evidence refusal degraded free le =
    elim (Bool-cases (ltb combined min_accept)) [
      | inl weak ↦ rw weak (λ f h. cc)
      | inr strong ↦
          rw strong
            (λ f h. let (lo, hi) = round-bounds combined (ground arith) le in (free f h, lo, hi))
    ]

drop_taken-IsFree :
    (taken : List String) (b : Option String × ℕ) → IsFree taken (drop_taken taken b).0
unfolding drop_taken
drop_taken-IsFree taken (none, g) f h = cc
drop_taken-IsFree taken (some meant, g) f h = ground arith

untaken-get :
    (taken : List String) (pairs : List (String × String)) (place : ℕ) (e : String × String)
    → get_elem? (untaken taken pairs) place ≡ some e
    → contains taken e.1 ≡ false
unfolding filter
untaken-get taken pairs place e h =
    let free =
      All-get (λ x. not (contains taken x.1) ≡ true) (untaken taken pairs) place e
        (All-filter _ pairs) h in
    ground (arith, free)

chosen-IsFree :
    (taken : List String) (o : Option (String × String)) (n : ℕ)
    → ((e : String × String) → o ≡ some e → contains taken e.1 ≡ false)
    → IsFree taken (chosen o n).0
chosen-IsFree taken none n free f h = cc
chosen-IsFree taken (some (a, field)) n free f h =
    subst (λ g. contains taken g ≡ false) (some-injective field f h) (free (a, field) refl)

pick-IsFree :
    (taken : List String) (pairs : List (String × String)) (r : Option (ℕ × ℕ))
    → IsFree taken (pick (untaken taken pairs) r).0
unfolding pick
pick-IsFree taken pairs none = λ f h. cc
pick-IsFree taken pairs (some (n, place)) = chosen-IsFree taken _ n (untaken-get taken pairs place)

fuzzy-IsFree :
    (s : Signals) (header : String) (taken : List String) → IsFree taken (fuzzy s header taken).0
unfolding fuzzy
fuzzy-IsFree s header taken = elim (Bool-cases (is_blank (normalize_header header))) [
  | inl blank ↦ rw blank (λ f h. cc)
  | inr there ↦ rw there (elim (Bool-cases (is_empty (untaken taken alias_corpus))) [
    | inl used_up ↦ rw used_up (λ f h. cc)
    | inr left ↦ rw left (pick-IsFree taken alias_corpus _)
  ])
]

at_most : (n m : ℕ) → min n m ≤ m
at_most n m = ground arith

combine-IsSound :
    (taken : List String) (degraded : Bool) (a b : Option String × ℕ)
    → IsFree taken a.0
    → IsFree taken b.0
    → IsSound taken (combine degraded a b)
unfolding combine
combine-IsSound taken degraded (field, f) (none, g) free _ =
    accept-IsSound taken field _ _ _ degraded free (at_most (f * 92) max_confidence)
combine-IsSound taken degraded (field, f) (some meant, g) free free' =
    elim (Bool-cases (field == some meant)) [
      | inl agree ↦
          rw agree
            (accept-IsSound taken (some meant) _ _ _ degraded free' (at_most _ max_confidence))
      | inr differ ↦ rw differ (elim (Bool-cases (leb g f)) [
        | inl fuzzier ↦
            rw fuzzier
              (accept-IsSound taken field _ _ _ degraded free (at_most (f * 92) max_confidence))
        | inr nearer ↦ rw nearer (
            accept-IsSound taken (some meant) _ _ _ degraded free'
              (at_most (g * 92) max_confidence))
      ])
    ]

-- Whatever the libraries say, a field that the local matcher names is not one of those taken, and its
-- confidence is at least 0.72 and at most 0.88, below that of a header in the dictionary.
pub match_local-IsSound :
    (s : Signals) (header : String) (taken : List String)
    → IsSound taken (match_local s header taken)
unfolding match_local
match_local-IsSound s header taken =
    combine-IsSound taken (not s.available) (fuzzy s header taken)
      (drop_taken taken (best s header)) (fuzzy-IsFree s header taken)
      (drop_taken-IsFree taken (best s header))

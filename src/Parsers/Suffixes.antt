-- ===== src/Parsers/Suffixes.antt =====
-- The suffixes that `_dedupe` of parsers/delimited.py gives to repeated headers.
use harbormaster.Prelude.{
  ℕ, zero, suc, ◌+◌, ◌≡◌, refl, sym, ap, ◌∙◌, inl, inr, Option, none, some, List, [], ◌∷◌, String,
  string_eq, ◌==◌, arith, Bool-cases,
}
use harbormaster.Prelude.Dict.{Dict, lookup, insert, lookup-nil, lookup-insert}
use harbormaster.Prelude.Counter.{count}
use harbormaster.Parsers.{header_name, numbered, next_number, name_given, dedupe_from, dedupe}

-- A name behind `n` others of the same name.
abbrev pub suffixed : String → ℕ → String
suffixed name zero = name
suffixed name (suc n) = numbered name (suc n)

-- Each name with the number of its occurrences before it.
abbrev pub suffixed_from : ℕ → List String → List String → List String
suffixed_from i before [] = []
suffixed_from i before (h ∷ hs) =
    suffixed (header_name i h) (count (header_name i h) before)
    ∷ suffixed_from (i + 1) (header_name i h ∷ before) hs

-- What is seen of a name that occurred so often.
abbrev last_suffix : ℕ → Option ℕ
last_suffix zero = none
last_suffix (suc n) = some n

abbrev Counts : Dict String ℕ → List String → Type 0
Counts seen before = (name : String) → lookup name seen ≡ last_suffix (count name before)

suc_add : (n : ℕ) → suc n ≡ n + 1
suc_add n = omega arith

last_suffix_suc : (n : ℕ) → some n ≡ last_suffix (n + 1)
last_suffix_suc n = ap last_suffix (suc_add n)

insert-Counts :
    (seen : Dict String ℕ) (before : List String) (name : String)
    → Counts seen before
    → Counts (insert name (count name before) seen) (name ∷ before)
insert-Counts seen before name h other = elim (Bool-cases (other == name)) [
  | inl same ↦
      let one = ap (λ n. count n before) ((string_eq.beq_iff other name).0 same) in
      lookup-insert other name (count name before) seen
      ∙ rw same (ap some (sym one) ∙ last_suffix_suc (count other before))
  | inr differ ↦ lookup-insert other name (count name before) seen ∙ rw differ (h other)
]

-- What one round keeps and gives, by how often the name occurred.
next_number-last_suffix : (n : ℕ) → next_number (last_suffix n) ≡ n
next_number-last_suffix zero = refl
next_number-last_suffix (suc n) = sym (suc_add n)

name_given-last_suffix : (name : String) (n : ℕ) → name_given name (last_suffix n) ≡ suffixed name n
name_given-last_suffix name zero = refl
name_given-last_suffix name (suc n) = ap (numbered name) (sym (suc_add n))

dedupe_from-suffixed :
    (i : ℕ) (seen : Dict String ℕ) (before hs : List String)
    → Counts seen before
    → dedupe_from i seen hs ≡ suffixed_from i before hs
unfolding dedupe_from
dedupe_from-suffixed i seen before [] h = refl
dedupe_from-suffixed i seen before (x ∷ hs) h =
    let name = header_name i x in
    let n = count name before in
    let kept : next_number (lookup name seen) ≡ n =
      ap next_number (h name) ∙ next_number-last_suffix n in
    let given : name_given name (lookup name seen) ≡ suffixed name n =
      ap (name_given name) (h name) ∙ name_given-last_suffix name n in
    let rest =
      dedupe_from-suffixed (i + 1) (insert name n seen) (name ∷ before) hs
        (insert-Counts seen before name h) in
    ap (λ l. l ∷ dedupe_from (i + 1) (insert name (next_number (lookup name seen)) seen) hs) given
    ∙ ap (λ k. suffixed name n ∷ dedupe_from (i + 1) (insert name k seen) hs) kept
    ∙ ap (λ l. suffixed name n ∷ l) rest

-- Every header keeps its name with the number of its occurrences before it as a suffix, and none if it is the
-- first; a blank header is named by its column.
pub dedupe-suffixed : (hs : List String) → dedupe hs ≡ suffixed_from 0 [] hs
unfolding dedupe
dedupe-suffixed hs = dedupe_from-suffixed 0 [] [] hs lookup-nil

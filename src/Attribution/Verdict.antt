-- ===== src/Attribution/Verdict.antt =====
-- The decision table of `attribute`: agreement raises the confidence, disagreement lowers it, and a file
-- that names two clients in its contents is nobody's.
use mathlib.Core.Path.{subst}
use harbormaster.Prelude.{
  ℕ, suc, ◌≤◌, ◌≡◌, refl, sym, ap, ◌∙◌, ◌++◌, any, filter, ◌⊎◌, inl, inr, Bool, true, false, Option,
  none, some, List, [], ◌∷◌, length, String, string_eq, ◌==◌, ltb, if◌then◌else◌, arith, Bool-cases,
}
use harbormaster.Prelude.Dict.{Dict, keys}
use harbormaster.Prelude.Counter.{counter, count_from, most_common}
use harbormaster.Registry.{Registry, all_account_ids}
use harbormaster.ValueDate.Columns.{Row}
use harbormaster.Attribution.Accounts.{find_account_ids}
use harbormaster.Prelude.Text.{is_blank}
use harbormaster.Attribution.Evidence.{
  filename_client, account_owners, match_filename-owner, owners-map, differ, named_in, list_of,
  counter-one, counter-more, differ-evidence, named_in-blank,
}
use harbormaster.Attribution.{
  Attribution, Findings, FilenameHit, build, mixed, nothing_found, decide, named, owner_name,
  top_client, owners, match_filename, attribute_with, attribute, conf_account_match,
  conf_filename_match, conf_both_agree, conf_conflict, conf_none,
}

-- What the caller routes by: the client, the confidence, and whether the evidence conflicts.
pub record Verdict : Type 0 where
  pub client_id : Option String
  pub confidence : ℕ
  pub conflict : Bool

abbrev pub verdict_of : Attribution → Verdict
verdict_of a = record { client_id = a.client_id; confidence = a.confidence; conflict = a.conflict }

abbrev pub first : List String → Option String
first [] = none
first (c ∷ cs) = some c

abbrev pub say : Option String → ℕ → Bool → Verdict
say c n b = record { client_id = c; confidence = n; conflict = b }

-- The table: the client that the filename names against the one client of the contents.
abbrev pub table : Option String → Option String → Verdict
table none none = say none conf_none false
table (some n) none = say (some n) conf_filename_match false
table none (some a) = say (some a) conf_account_match false
table (some n) (some a) =
    if a == n then say (some a) conf_both_agree false else say (some a) conf_conflict true

-- And for contents of any number of clients.
abbrev pub verdict : Option String → List String → Verdict
verdict n [] = table n none
verdict n (a ∷ []) = table n (named (some a))
verdict n (a ∷ b ∷ cs) = say none conf_conflict true

decide-table :
    (r : Registry) (f : Findings) (a n : Option String) → verdict_of (decide r f a n) ≡ table n a
unfolding decide build nothing_found
decide-table r f none none = refl
decide-table r f none (some n) = refl
decide-table r f (some a) none = refl
decide-table r f (some a) (some n) = elim (Bool-cases (a == n)) [
  | inl same ↦ rw same
  | inr differ ↦ rw differ
]

two_or_more : (n : ℕ) → ltb 1 (suc (suc n)) ≡ true
two_or_more n = ground arith

by_count :
    (r : Registry) (f g : Findings) (n : Option String) (c : Dict String ℕ)
    → verdict_of (if ltb 1 (length c) then mixed g else decide r f (named (top_client c)) n)
      ≡ verdict n (keys c)
unfolding mixed most_common
by_count r f g n [] = decide-table r f none n
by_count r f g n (e ∷ []) = decide-table r f (named (some e.0)) n
by_count r f g n (e ∷ e' ∷ c) = rw (two_or_more (length c))

attribute_with-verdict :
    (r : Registry) (hit : FilenameHit) (ids cs : List String)
    → verdict_of (attribute_with r hit ids cs)
      ≡ verdict (named (owner_name hit)) (keys (counter cs))
unfolding attribute_with
attribute_with-verdict r hit ids cs = by_count r _ _ (named (owner_name hit)) (counter cs)

-- The clients that the accounts found in a file belong to, each once.
abbrev pub clients_in : List String → List Row → Registry → List String
clients_in headers rows r =
    keys (counter (owners (all_account_ids r) (find_account_ids headers rows (all_account_ids r))))

attribute-table :
    (filename : String) (headers : List String) (rows : List Row) (r : Registry)
    → verdict_of (attribute filename headers rows r)
      ≡ verdict (named (owner_name (match_filename filename r))) (clients_in headers rows r)
unfolding attribute
attribute-table filename headers rows r = attribute_with-verdict r (match_filename filename r) _ _

-- The confidence of evidence that does not conflict, by where it comes from: the accounts, and the filename.
abbrev pub confidence_of : List String → List String → ℕ
confidence_of [] [] = 0
confidence_of [] (n ∷ ns) = 800
confidence_of (a ∷ as') [] = 950
confidence_of (a ∷ as') (n ∷ ns) = 990

-- The verdict on the clients that the accounts and the filename name: none where the accounts alone differ, and else the
-- first of all; a conflict where any two of them differ.
abbrev pub judged_on : Bool → List String → List String → Verdict
judged_on apart os ns =
    if apart
    then say none 450 true
    else if differ (os ++ ns)
    then say (first (os ++ ns)) 450 true
    else say (first (os ++ ns)) (confidence_of os ns) false

abbrev pub judged : Option String → List String → Verdict
judged n os = judged_on (differ os) (named_in os) (named_in (list_of n))

named-cases :
    (n : Option String)
    → ((named n ≡ none) × (named_in (list_of n) ≡ []))
      ⊎ ((m : String) × (named n ≡ some m) × (named_in (list_of n) ≡ m ∷ []))
unfolding filter
named-cases none = inl (refl, refl)
named-cases (some m) = elim (Bool-cases (is_blank m)) [
  | inl blank ↦ rw blank (inl (refl, refl))
  | inr there ↦ rw there (inr (m, refl, refl))
]

-- The filename alone, and accounts of one client.
filename_only :
    (n : Option String) → table (named n) none ≡ judged_on false [] (named_in (list_of n))
unfolding any
filename_only n = elim (named-cases n) [
  | inl (nobody, empty) ↦ rw (nobody, empty) refl
  | inr (m, somebody, alone) ↦ rw (somebody, alone) refl
]

accounts_of_one :
    (n : Option String) (a : String) (os : List String)
    → differ (a ∷ os) ≡ false
    → table (named n) (some a) ≡ judged_on false (a ∷ named_in os) (named_in (list_of n))
unfolding any
accounts_of_one n a os alike =
    rw (differ-evidence a os (named_in (list_of n)) alike) (elim (named-cases n) [
      | inl (nobody, empty) ↦ rw (nobody, empty) refl
      | inr (m, somebody, alone) ↦ elim (Bool-cases (a == m)) [
        | inl same ↦ rw (somebody, alone, same) refl
        | inr other ↦ rw (somebody, alone, other) refl
      ]
    ])

table-judged :
    (n : Option String) (a : String) (os : List String)
    → differ (a ∷ os) ≡ false
    → table (named n) (named (some a)) ≡ judged_on false (named_in (a ∷ os)) (named_in (list_of n))
unfolding filter
table-judged n a os alike = elim (Bool-cases (is_blank a)) [
  | inl blank ↦ rw (blank, named_in-blank a os blank alike) (filename_only n)
  | inr there ↦ rw there (accounts_of_one n a os alike)
]

verdict-mixed :
    (n : Option String) (c : Dict String ℕ)
    → ltb 1 (length c) ≡ true
    → verdict n (keys c) ≡ say none 450 true
verdict-mixed n [] h = cc
verdict-mixed n (e ∷ []) h = cc
verdict-mixed n (e ∷ e' ∷ c) h = refl

verdict-judged :
    (n : Option String) (os : List String) → verdict (named n) (keys (counter os)) ≡ judged n os
unfolding filter count_from
verdict-judged n [] = filename_only n
verdict-judged n (a ∷ os) = elim (Bool-cases (differ (a ∷ os))) [
  | inl apart ↦ rw apart (verdict-mixed (named n) (counter (a ∷ os)) (counter-more a os apart))
  | inr alike ↦
      let (k, one) = counter-one a os alike in
      rw alike (ap (λ c. verdict (named n) (keys c)) one ∙ table-judged n a os alike)
]

-- Conflicting evidence, and a client that is not known, leave a low confidence.
abbrev IsCautious : Verdict → Type 0
IsCautious v =
    (v.conflict ≡ true → v.confidence ≡ conf_conflict)
    × (v.client_id ≡ none → v.confidence ≤ conf_conflict)
    × (v.confidence ≤ conf_both_agree)

table-IsCautious : (n a : Option String) → IsCautious (table n a)
table-IsCautious none none = (λ h. cc, λ h. omega arith, omega arith)
table-IsCautious (some n) none = (λ h. cc, λ h. cc, omega arith)
table-IsCautious none (some a) = (λ h. cc, λ h. cc, omega arith)
table-IsCautious (some n) (some a) = elim (Bool-cases (a == n)) [
  | inl same ↦ rw same (λ h. cc, λ h. cc, omega arith)
  | inr differ ↦ rw differ (λ h. refl, λ h. cc, omega arith)
]

verdict-IsCautious : (n : Option String) (cs : List String) → IsCautious (verdict n cs)
verdict-IsCautious n [] = table-IsCautious n none
verdict-IsCautious n (a ∷ []) = table-IsCautious n (named (some a))
verdict-IsCautious n (a ∷ b ∷ cs) = (λ h. refl, λ h. omega arith, omega arith)

-- An attribution with conflicting evidence has confidence 0.45, one with no client at most that, and
-- none has more than 0.99.
pub attribute-IsCautious :
    (filename : String) (headers : List String) (rows : List Row) (r : Registry)
    → let a = attribute filename headers rows r in
      (a.conflict ≡ true → a.confidence ≡ conf_conflict)
      × (a.client_id ≡ none → a.confidence ≤ conf_conflict)
      × (a.confidence ≤ conf_both_agree)
attribute-IsCautious filename headers rows r =
    subst IsCautious (sym (attribute-table filename headers rows r)) (
      verdict-IsCautious (named (owner_name (match_filename filename r)))
        (clients_in headers rows r))

-- The client, the confidence and the conflict of an attribution follow from the client of the first pattern, in the
-- order of the registry, that matches the filename, and the owners of the accounts that are found. The file is in
-- conflict exactly if two of these differ, and its confidence is then 0.45; it has no client exactly if the owners
-- differ, or there is no evidence, and else the owners' client, or that of the filename. Without conflict the confidence
-- is 0.99 for both kinds of evidence, 0.95 for accounts only, 0.80 for the filename only, and 0 for none.
pub attribute-verdict :
    (filename : String) (headers : List String) (rows : List Row) (r : Registry)
    → verdict_of (attribute filename headers rows r)
      ≡ judged (filename_client filename r) (account_owners headers rows r)
attribute-verdict filename headers rows r =
    attribute-table filename headers rows r
    ∙ ap (λ n. verdict (named n) (clients_in headers rows r)) (match_filename-owner filename r)
    ∙ ap (λ os. verdict (named (filename_client filename r)) (keys (counter os)))
        (owners-map (all_account_ids r) (find_account_ids headers rows (all_account_ids r)))
    ∙ verdict-judged (filename_client filename r) (account_owners headers rows r)

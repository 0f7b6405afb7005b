-- ===== src/Attribution/Evidence.antt =====
-- What python/src/inspector/attribution.py goes by: the client that the filename names, and the owners of the accounts.
use mathlib.Core.Path.{subst}
use harbormaster.Prelude.{
  ℕ, ◌+◌, ◌≤◌, ◌≡◌, refl, sym, ap, ◌∙◌, ◌⊎◌, inl, inr, Bool, true, false, not, ◌||◌, Option, none,
  some, List, [], ◌∷◌, ◌++◌, map, length, filter, any, find, String, string_eq, ◌==◌, is_some, ltb,
  arith, Bool-cases, Option-cases,
}
use harbormaster.Prelude.Text.{is_blank}
use harbormaster.Prelude.Dict.{Dict, lookup, insert}
use harbormaster.Prelude.Counter.{count_from, counter, or_zero}
use harbormaster.Registry.{
  Registry, Client, FilenameHint, match_hint, clients, all_account_ids, or_text,
}
use harbormaster.ValueDate.Columns.{Row}
use harbormaster.Attribution.Accounts.{find_account_ids}
use harbormaster.Attribution.{
  FilenameHit, match_hints, match_clients, match_filename, owners, owner_name,
}

-- The first client, in the registry's order, with a pattern that matches the filename.
abbrev pub hinted : String → Client → Bool
hinted name c = any (λ h. is_some (match_hint h name)) c.filename_hints

abbrev pub id_of : Option Client → Option String
id_of none = none
id_of (some c) = some c.client_id

abbrev pub filename_client : String → Registry → Option String
filename_client name r = id_of (find (hinted name) (clients r))

-- The hints of a client give a hit if one matches, and the hit is the client's.
match_hints-owner :
    (c : Client) (hs : List FilenameHint) (name : String)
    → ((any (λ h. is_some (match_hint h name)) hs ≡ false) × (match_hints c hs name ≡ none))
      ⊎ ((any (λ h. is_some (match_hint h name)) hs ≡ true)
          × ((hit : FilenameHit) × (match_hints c hs name ≡ some hit) × (hit.owner ≡ some c)))
unfolding any match_hints
match_hints-owner c [] name = inl (refl, refl)
match_hints-owner c (h ∷ hs) name = elim (Option-cases (match_hint h name)) [
  | inl missed ↦ rw (missed, match_hints) (match_hints-owner c hs name)
  | inr (found, hit) ↦ rw (hit, match_hints) (inr (refl, (_, refl, refl)))
]

match_clients-owner :
    (cs : List Client) (name : String)
    → owner_name (match_clients cs name) ≡ id_of (find (hinted name) cs)
unfolding match_clients find
match_clients-owner [] name = refl
match_clients-owner (c ∷ cs) name = elim (match_hints-owner c c.filename_hints name) [
  | inl (missed, none_there) ↦ rw (missed, none_there, match_clients) (match_clients-owner cs name)
  | inr (hit, (found, there, own)) ↦ rw (hit, there, match_clients, own) refl
]

pub match_filename-owner :
    (name : String) (r : Registry) → owner_name (match_filename name r) ≡ filename_client name r
unfolding match_filename
match_filename-owner name r = match_clients-owner (clients r) name

-- The owner of each account that the file holds.
abbrev pub account_owners : List String → List Row → Registry → List String
account_owners headers rows r =
    map (λ a. or_text (lookup a (all_account_ids r)) "")
      (find_account_ids headers rows (all_account_ids r))

pub owners-map :
    (known : Dict String String) (ids : List String)
    → owners known ids ≡ map (λ a. or_text (lookup a known) "") ids
unfolding owners
owners-map known [] = refl
owners-map known (a ∷ ids) = ap (λ l. or_text (lookup a known) "" ∷ l) (owners-map known ids)

-- Whether a list names two different clients: whether one of them is not the first.
abbrev pub differ : List String → Bool
differ [] = false
differ (a ∷ as') = any (λ b. not (a == b)) as'

insert-longer : (k : String) (n : ℕ) (d : Dict String ℕ) → length d ≤ length (insert k n d)
unfolding insert
insert-longer k n [] = omega arith
insert-longer k n ((j, m) ∷ d) = elim (Bool-cases (k == j)) [
  | inl same ↦ rw same (omega arith)
  | inr other ↦ rw other (omega (arith, insert-longer k n d))
]

count_from-longer : (ds : List String) (c : Dict String ℕ) → length c ≤ length (count_from ds c)
unfolding count_from
count_from-longer [] c = omega arith
count_from-longer (d ∷ ds) c = omega (
  arith,
  insert-longer d (or_zero (lookup d c) + 1) c,
  count_from-longer ds (insert d (or_zero (lookup d c) + 1) c),
)

-- The counter of one client, and of more.
count_from-same :
    (a : String) (n : ℕ) (ds : List String)
    → any (λ b. not (a == b)) ds ≡ false
    → (k : ℕ) × (count_from ds ((a, n) ∷ []) ≡ (a, k) ∷ [])
unfolding count_from any insert lookup
count_from-same a n [] h = (n, refl)
count_from-same a n (d ∷ ds) h =
    let equal : a == d ≡ true = ground (arith, h) in
    let rest : any (λ b. not (a == b)) ds ≡ false = ground (arith, h) in
    let same : d ≡ a = sym ((string_eq.beq_iff a d).0 equal) in
    let own : a == a ≡ true = (string_eq.beq_iff a a).1 refl in
    subst (λ x. (k : ℕ) × (count_from (x ∷ ds) ((a, n) ∷ []) ≡ (a, k) ∷ [])) (sym same)
      (rw own (count_from-same a (n + 1) ds rest))

count_from-differ :
    (a : String) (n : ℕ) (ds : List String)
    → any (λ b. not (a == b)) ds ≡ true
    → ltb 1 (length (count_from ds ((a, n) ∷ []))) ≡ true
unfolding count_from any insert lookup
count_from-differ a n [] h = cc
count_from-differ a n (d ∷ ds) h = elim (Bool-cases (d == a)) [
  | inl same ↦
      let equal : a == d ≡ true =
        (string_eq.beq_iff a d).1 (sym ((string_eq.beq_iff d a).0 same)) in
      rw same (count_from-differ a (n + 1) ds (ground (arith, h)))
  | inr other ↦ rw other (ground (arith, count_from-longer ds ((a, n) ∷ (d, 1) ∷ [])))
]

-- The counter holds no client, one, or more than one.
pub counter-one :
    (a : String) (ds : List String)
    → differ (a ∷ ds) ≡ false
    → (k : ℕ) × (counter (a ∷ ds) ≡ (a, k) ∷ [])
unfolding count_from insert lookup
counter-one a ds h = count_from-same a 1 ds h

pub counter-more :
    (a : String) (ds : List String)
    → differ (a ∷ ds) ≡ true
    → ltb 1 (length (counter (a ∷ ds))) ≡ true
unfolding count_from insert lookup
counter-more a ds h = count_from-differ a 1 ds h

-- the ids that are not empty
abbrev pub named_in : List String → List String
named_in l = filter (λ s. not (is_blank s)) l

abbrev pub list_of : Option String → List String
list_of none = []
list_of (some n) = n ∷ []

any-append : (p : String → Bool) (xs ys : List String) → any p (xs ++ ys) ≡ (any p xs || any p ys)
unfolding any
any-append p [] ys = refl
any-append p (x ∷ xs) ys = ground (arith, any-append p xs ys)

any-filter :
    (p q : String → Bool) (xs : List String) → any p xs ≡ false → any p (filter q xs) ≡ false
unfolding any filter
any-filter p q [] h = refl
any-filter p q (x ∷ xs) h = ground (arith, h, any-filter p q xs)

-- Clients that are all one, and that has an id: the evidence of all is that of one.
pub differ-evidence :
    (a : String) (ds rest : List String)
    → differ (a ∷ ds) ≡ false
    → differ (a ∷ (named_in ds ++ rest)) ≡ differ (a ∷ rest)
differ-evidence a ds rest h =
    any-append (λ b. not (a == b)) (named_in ds) rest
    ∙ ap (λ x. x || any (λ b. not (a == b)) rest)
        (any-filter (λ b. not (a == b)) (λ s. not (is_blank s)) ds h)

-- And clients that are all one without an id are no evidence.
pub named_in-blank :
    (a : String) (ds : List String) → is_blank a ≡ true → differ (a ∷ ds) ≡ false → named_in ds ≡ []
unfolding filter any
named_in-blank a [] blank h = refl
named_in-blank a (d ∷ ds) blank h =
    let equal : a == d ≡ true = ground (arith, h) in
    let rest : differ (a ∷ ds) ≡ false = ground (arith, h) in
    let blank_d : is_blank d ≡ true =
      subst (λ x. is_blank x ≡ true) ((string_eq.beq_iff a d).0 equal) blank in
    rw blank_d (named_in-blank a ds blank rest)

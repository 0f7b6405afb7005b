-- ===== src/Registry/Owners.antt =====
-- A registry that `load` accepts knows the calendar of each client, and, while no two clients list one
-- account id, the two ways to find an account's client agree.
use harbormaster.Prelude.{
  ◌≡◌, refl, ap, ◌∙◌, true, Option, none, some, List, [], ◌∷◌, ◌++◌, String, string_eq, ◌==◌,
  is_some, find, if◌then◌else◌, arith,
}
use harbormaster.Prelude.Dict.{Dict, lookup, insert, from_pairs, lookup-insert, lookup-nil}
use harbormaster.Calendar.{Calendar}
use harbormaster.Registry.{
  Account, Client, Registry, clients, calendar_for, owner_among, account, ids_of, ids_of_clients,
  all_account_ids, ok, first_unknown, load,
}

-- Each client of the table has its calendar.
abbrev pub KnowsCalendars : Registry → Type 0
KnowsCalendars r =
    (id : String) (c : Client)
    → lookup id r.client_table ≡ some c
    → (cal : Calendar) × (calendar_for r id ≡ some cal)

first_unknown-lookup :
    (cals : Dict String Calendar) (table : Dict String Client) (id : String) (c : Client)
    → first_unknown cals table ≡ none
    → lookup id table ≡ some c
    → is_some (lookup c.calendar cals) ≡ true
unfolding first_unknown lookup
first_unknown-lookup cals [] id c h found = cc
first_unknown-lookup cals ((k, v) ∷ table) id c h found =
    ground (arith, first_unknown-lookup cals table id c)

is_some-some {ℓ} : {A : Type ℓ} (o : Option A) → is_some o ≡ true → (a : A) × (o ≡ some a)
is_some-some none h = cc
is_some-some (some a) h = (a, refl)

load-first_unknown :
    (cals : List Calendar) (cs : List Client) (r : Registry)
    → load cals cs ≡ ok r
    → first_unknown r.calendar_table r.client_table ≡ none
unfolding load
load-first_unknown cals cs r h = ground arith

-- What `load` accepts knows the calendar of every client, so that value dates can be resolved for each.
pub load-KnowsCalendars :
    (cals : List Calendar) (cs : List Client) (r : Registry)
    → load cals cs ≡ ok r
    → KnowsCalendars r
unfolding calendar_for
load-KnowsCalendars cals cs r h id c found =
    let (cal, is) = is_some-some (lookup c.calendar r.calendar_table) (
      first_unknown-lookup r.calendar_table r.client_table id c (load-first_unknown cals cs r h)
        found) in
    (cal, rw (found, calendar_for) is)

-- The client that `all_account_ids` names for an account is the one that `account_owner` finds.
abbrev owner_id : Option (Client × Account) → Option String
owner_id none = none
owner_id (some (c, _)) = some c.client_id

-- No account id is listed twice.
abbrev pub IsDistinct : List (String × String) → Type 0
IsDistinct [] = Unit
IsDistinct ((k, _) ∷ l) = (lookup k l ≡ none) × IsDistinct l

abbrev or_else : Option String → Option String → Option String
or_else none o = o
or_else (some a) _ = some a

from_pairs-lookup :
    (k : String) (l d : List (String × String))
    → IsDistinct l
    → lookup k (from_pairs l d) ≡ or_else (lookup k l) (lookup k d)
unfolding from_pairs lookup
from_pairs-lookup k [] d u = refl
from_pairs-lookup k ((j, v) ∷ l) d (fresh, u) =
    ground
      (arith, from_pairs-lookup k l (insert j v d) u, lookup-insert k j v d, string_eq.beq_iff k j)

lookup-append :
    (k : String) (l m : List (String × String))
    → lookup k (l ++ m) ≡ or_else (lookup k l) (lookup k m)
unfolding lookup
lookup-append k [] m = refl
lookup-append k ((j, v) ∷ l) m = ground (arith, lookup-append k l m)

lookup-ids_of :
    (k cid : String) (accounts : List Account)
    → lookup k (ids_of cid accounts)
      ≡ (if is_some (find (λ a. a.id == k) accounts) then some cid else none)
unfolding ids_of lookup find
lookup-ids_of k cid [] = refl
lookup-ids_of k cid (a ∷ accounts) =
    ground (arith, lookup-ids_of k cid accounts, string_eq.beq_iff k a.id, string_eq.beq_iff a.id k)

lookup-ids_of_clients :
    (k : String) (cs : List Client) → lookup k (ids_of_clients cs) ≡ owner_id (owner_among cs k)
unfolding ids_of_clients owner_among account
lookup-ids_of_clients k [] = unfold lookup in refl
lookup-ids_of_clients k (c ∷ cs) = ground (
  arith,
  lookup-append k (ids_of c.client_id c.accounts) (ids_of_clients cs),
  lookup-ids_of k c.client_id c.accounts,
  lookup-ids_of_clients k cs,
)

-- While no account id is listed twice, the dict of account ids names for each the client that
-- `account_owner` finds, and none where it finds none.
pub all_account_ids-owner :
    (r : Registry) (k : String)
    → IsDistinct (ids_of_clients (clients r))
    → lookup k (all_account_ids r) ≡ owner_id (owner_among (clients r) k)
unfolding all_account_ids
all_account_ids-owner r k u =
    from_pairs-lookup k (ids_of_clients (clients r)) [] u
    ∙ ap (λ o. or_else o (lookup {V = String} k [])) (lookup-ids_of_clients k (clients r))
    ∙ last (owner_id (owner_among (clients r) k))
  where
    last : (o : Option String) → or_else o (lookup {V = String} k []) ≡ o
    last none = lookup-nil k
    last (some a) = refl

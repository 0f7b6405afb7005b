-- ===== src/Inspector/Batches.antt =====
-- The classifications of one file.
use mathlib.Core.Path.{subst}
use harbormaster.Prelude.{
  suc, ◌+◌, ◌≤◌, ◌≡◌, refl, sym, ap, ◌∙◌, true, Option, none, some, List, [], ◌∷◌, map, length,
  is_some, String, string_eq, contains, arith, ℕ, inl, inr, Bool-cases, if◌then◌else◌,
}
use harbormaster.Prelude.Sort.{sort, sort-length}
use harbormaster.Prelude.Text.{is_blank}
use harbormaster.Registry.{Registry, Client, client, value_date_hints}
use harbormaster.Dates.{Date}
use harbormaster.Canonical.{Domain, domain_of, required_by_domain}
use harbormaster.ValueDate.Columns.{Row}
use harbormaster.ValueDate.Resolve.{Resolution, resolve}
use harbormaster.Mapping.{Table, parsed_table}
use harbormaster.ValueDate.Split.{split_by_value_date}
use harbormaster.Attribution.{Attribution, attribute}
use harbormaster.Mapping.CrossCheck.{cross_check_amount}
use harbormaster.Confidence.{Environment, dispatched, dispatch_threshold, compose}
use harbormaster.Confidence.Dispatch.{assigns, compose-dispatched}
use harbormaster.Inspector.{
  Result, ok, malformed, raised, ◌>>=◌, or_raise, or_malformed, Classification, Found,
  resolution_request, classified, classify_table, with_note, classify_groups, by_iso,
  classify_split, Inspector, Parser, sniff, client_of, calendar_of, hints_of, known_id, outcome_of,
  found_of, groups_of, classify_attributed, classify,
}

pub >>=-ok :
    {A B : Type 0} (first : Result A) (next : A → Result B) {out : B}
    → (first >>= next) ≡ ok out
    → (value : A) × (first ≡ ok value) × (next value ≡ ok out)
>>=-ok (ok value) next done = (value, refl, done)
>>=-ok malformed next done = cc
>>=-ok raised next done = cc

pub ok-injective : {A : Type 0} (a b : A) → ok a ≡ ok b → a ≡ b
ok-injective a b h = cc

pub or_raise-ok : {A : Type 0} (o : Option A) (a : A) → or_raise o ≡ ok a → o ≡ some a
or_raise-ok none a h = cc
or_raise-ok (some b) a h = ap some (ok-injective b a h)

or_malformed-ok : {A : Type 0} (o : Option A) (a : A) → or_malformed o ≡ ok a → o ≡ some a
or_malformed-ok none a h = cc
or_malformed-ok (some b) a h = ap some (ok-injective b a h)

-- An arrival that is dispatched has a client, a value date, a column for every field that its domain requires, and
-- the score of the threshold at least.
abbrev pub IsReady : Environment → Classification → Type 0
IsReady e c =
    (d : Domain)
    → domain_of c.domain ≡ some d
    → c.score.disposition ≡ dispatched
    → (is_some c.client_id ≡ true)
      × (is_some c.value_date.resolved ≡ true)
      × ((f : String) → contains (required_by_domain d) f ≡ true → assigns f c.mappings ≡ true)
      × (dispatch_threshold e ≤ c.score.overall)

-- What a file gives to each of its classifications: its arrival, the format of its parser, and its client.
pub record Origin : Type 0 where
  pub arrival_id : String
  pub source_format : String
  pub attribution : Attribution

abbrev pub origin : Found → Origin
origin f = record {
  arrival_id = f.arrival_id;
  source_format = f.source_format;
  attribution = f.attribution;
}

-- The part of a file with an index among so many.
pub record IsPart (e : Environment) (o : Origin) (headers : List String) (total index : ℕ)
    (c : Classification) : Type 0 where
  pub at_index : c.sub_batch_index ≡ index
  pub of_total : c.sub_batch_total ≡ total
  pub same_columns : c.table.headers ≡ headers
  pub counted : c.row_count ≡ length c.table.rows
  pub of_arrival : c.arrival_id ≡ o.arrival_id
  pub of_format : c.source_format ≡ o.source_format
  pub attributed : c.attribution ≡ o.attribution
  pub of_client : c.client_id ≡ o.attribution.client_id
  pub ready : IsReady e c

-- Parts with consecutive indices.
abbrev pub AreParts : Environment → Origin → List String → ℕ → ℕ → List Classification → Type 0
AreParts e o headers total index [] = Unit
AreParts e o headers total index (c ∷ cs) =
    IsPart e o headers total index c × AreParts e o headers total (index + 1) cs

abbrev pub rows_of : Classification → List Row
rows_of c = c.table.rows

classify_table-IsPart :
    (e : Environment) (today : Date) (f : Found) (t : Table) (index total : ℕ)
    (noted : Resolution → Resolution) (c : Classification)
    → classify_table e today f t index total noted ≡ ok c
    → IsPart e (origin f) t.headers total index c × (rows_of c ≡ t.rows)
unfolding classify_table
classify_table-IsPart e today f t index total noted c h =
    let (v, _, h1) = >>=-ok (or_raise (resolve (resolution_request today f t))) _ h in
    let (s, scored, made) =
      >>=-ok (or_raise (compose e f.attribution (noted v) f.mappings f.domain)) _ h1 in
    subst (λ x. IsPart e (origin f) t.headers total index x × (rows_of x ≡ t.rows))
      (ok-injective (classified f t index total (noted v) s) c made)
      (
        record {
          at_index = refl;
          of_total = refl;
          same_columns = refl;
          counted = refl;
          of_arrival = refl;
          of_format = refl;
          attributed = refl;
          of_client = refl;
          ready = λ d known sent.
              compose-dispatched e f.attribution (noted v) f.mappings f.domain d s known
                (or_raise-ok _ s scored) sent;
        },
        refl,
      )

parsed_table_parts :
    (headers : List String) (rows : List Row) (t : Table)
    → parsed_table headers rows ≡ some t
    → (t.headers ≡ headers) × (t.rows ≡ rows)
unfolding parsed_table
parsed_table_parts headers rows t h = ground arith

abbrev rows_in : List (String × List Row) → List (List Row)
rows_in [] = []
rows_in ((_, rows) ∷ groups) = rows ∷ rows_in groups

classify_groups-AreParts :
    (e : Environment) (today : Date) (f : Found) (headers : List String) (index total : ℕ)
    (groups : List (String × List Row)) (cs : List Classification)
    → classify_groups e today f headers index total groups ≡ ok cs
    → AreParts e (origin f) headers total index cs × (map rows_of cs ≡ rows_in groups)
unfolding classify_groups
classify_groups-AreParts e today f headers index total [] cs h =
    rw (sym (ok-injective [] cs h)) (tt, refl)
classify_groups-AreParts e today f headers index total ((iso, rows) ∷ groups) cs h =
    let (t, built, h1) = >>=-ok (or_malformed (parsed_table headers rows)) _ h in
    let (c, first, h2) =
      >>=-ok (classify_table e today f t index total (with_note index total)) _ h1 in
    let (rest, more, made) =
      >>=-ok (classify_groups e today f headers (index + 1) total groups) _ h2 in
    let (own_headers, own_rows) = parsed_table_parts headers rows t (or_malformed-ok _ t built) in
    let (part, holds) =
      classify_table-IsPart e today f t index total (with_note index total) c first in
    let (parts, all_rows) =
      classify_groups-AreParts e today f headers (index + 1) total groups rest more in
    subst
      (λ x. AreParts e (origin f) headers total index x × (map rows_of x ≡ rows ∷ rows_in groups))
      (ok-injective (c ∷ rest) cs made)
      (
        (subst (λ hs. IsPart e (origin f) hs total index c) own_headers part, parts),
        ap (λ r. r ∷ map rows_of rest) (holds ∙ own_rows) ∙ ap (λ l. rows ∷ l) all_rows,
      )

length-map_rows : (cs : List Classification) → length (map rows_of cs) ≡ length cs
length-map_rows [] = refl
length-map_rows (c ∷ cs) = ap suc (length-map_rows cs)

length-rows_in : (groups : List (String × List Row)) → length (rows_in groups) ≡ length groups
length-rows_in [] = refl
length-rows_in ((iso, rows) ∷ groups) = ap suc (length-rows_in groups)

-- The rows of a table that is not split, and those of its groups in the order of their dates.
abbrev pub split_rows : Table → List (String × List Row) → List (List Row)
split_rows t [] = t.rows ∷ []
split_rows t (g ∷ gs) = rows_in (sort by_iso (g ∷ gs))

pub classify_split-AreParts :
    (e : Environment) (today : Date) (f : Found) (t : Table) (groups : List (String × List Row))
    (cs : List Classification)
    → classify_split e today f t groups ≡ ok cs
    → AreParts e (origin f) t.headers (length cs) 0 cs × (map rows_of cs ≡ split_rows t groups)
unfolding classify_split
classify_split-AreParts e today f t [] cs h =
    let (c, first, made) = >>=-ok (classify_table e today f t 0 1 (λ v. v)) _ h in
    let (part, holds) = classify_table-IsPart e today f t 0 1 (λ v. v) c first in
    subst (λ x. AreParts e (origin f) t.headers (length x) 0 x × (map rows_of x ≡ t.rows ∷ []))
      (ok-injective (c ∷ []) cs made) ((part, tt), ap (λ r. r ∷ []) holds)
classify_split-AreParts e today f t (g ∷ gs) cs h =
    let (parts, all_rows) =
      classify_groups-AreParts e today f t.headers 0 (length (g ∷ gs)) (sort by_iso (g ∷ gs)) cs
        h in
    let as_many : length cs ≡ length (g ∷ gs) =
      sym (length-map_rows cs)
      ∙ ap length all_rows
      ∙ length-rows_in (sort by_iso (g ∷ gs))
      ∙ sort-length by_iso (g ∷ gs) in
    (subst (λ n. AreParts e (origin f) t.headers n 0 cs) (sym as_many) parts, all_rows)

-- The value-date hints of the client that a file is attributed to.
abbrev pub hints_for : Registry → Option String → List String
hints_for r none = []
hints_for r (some id) =
    if is_blank id then [] else elim (client r id) [ none ↦ [] | some c ↦ value_date_hints c ]

hints_for-client :
    (r : Registry) (a : Attribution) → hints_of (client_of r (known_id a)) ≡ hints_for r a.client_id
hints_for-client r a = by_id a.client_id
  where
    by_client :
        (c : Option Client) → hints_of c ≡ elim c [ none ↦ [] | some d ↦ value_date_hints d ]
    by_client none = refl
    by_client (some c) = refl

    by_id :
        (id : Option String)
        → hints_of
            (client_of r (elim id [ none ↦ none | some c ↦ if is_blank c then none else some c ]))
          ≡ hints_for r id
    by_id none = refl
    by_id (some id) = elim (Bool-cases (is_blank id)) [
      | inl blank ↦ rw blank refl
      | inr there ↦ rw there (by_client (client r id))
    ]

abbrev pub origin_of : String → Parser → Attribution → Origin
origin_of arrival_id p a = record {
  arrival_id = arrival_id;
  source_format = p.format_name;
  attribution = a;
}

classify_attributed-AreParts :
    (i j : Inspector) (arrival_id name : String) (p : Parser) (t : Table) (a : Attribution)
    (cs : List Classification)
    → classify_attributed i arrival_id name p t a ≡ ok (cs, j)
    → AreParts i.environment (origin_of arrival_id p a) t.headers (length cs) 0 cs
      × (map rows_of cs
          ≡ split_rows t (split_by_value_date t.rows t.headers (hints_for i.registry a.client_id)))
unfolding classify_attributed
classify_attributed-AreParts i j arrival_id name p t a cs h =
    let (cal, _, h1) = >>=-ok (or_raise (calendar_of i.registry (known_id a))) _ h in
    let (check, _, h2) =
      >>=-ok (or_raise (cross_check_amount t (outcome_of i a t).0.mappings)) _ h1 in
    let (ds, split, made) =
      >>=-ok
        (classify_split i.environment i.today (found_of i arrival_id name p t a cal check) t
          (groups_of i t a))
        _ h2 in
    let same : ds ≡ cs = ap (λ x. x.0) (ok-injective (ds, (outcome_of i a t).1) (cs, j) made) in
    let (parts, all_rows) =
      classify_split-AreParts i.environment i.today (found_of i arrival_id name p t a cal check) t
        (groups_of i t a) cs (split ∙ ap ok same) in
    (
      parts,
      all_rows
          ∙ ap (λ hints. split_rows t (split_by_value_date t.rows t.headers hints))
              (hints_for-client i.registry a),
    )

-- A file gives one classification, or one for each of its value dates in their order, each with the rows of its date and
-- the columns of the table: the table that the parser chosen for the content reads, split by the value-date hints of the
-- client that the file is attributed to. Each has the arrival, the format of that parser and that client; they are
-- numbered from 0 on and say how many there are; and one that is dispatched has a client, a value date, a column for
-- every field that its domain requires, and the score of the threshold.
pub classify-AreParts :
    (i j : Inspector) (arrival_id content name : String) (cs : List Classification)
    → classify i arrival_id content name ≡ ok (cs, j)
    → (p : Parser) × (score : ℕ) × (t : Table) × (sniff i.parsers content name ≡ ok (p, score))
      × (p.parse content ≡ some t)
      × (let a = attribute name t.headers t.rows i.registry in
          AreParts i.environment (origin_of arrival_id p a) t.headers (length cs) 0 cs
          × (map rows_of cs
              ≡ split_rows t
                  (split_by_value_date t.rows t.headers (hints_for i.registry a.client_id))))
unfolding classify
classify-AreParts i j arrival_id content name cs h =
    let (chosen, sniffed, h1) = >>=-ok (sniff i.parsers content name) _ h in
    let (t, read, h2) = >>=-ok (or_malformed (chosen.0.parse content)) _ h1 in
    (
      chosen.0,
      chosen.1,
      t,
      sniffed,
      or_malformed-ok (chosen.0.parse content) t read,
      classify_attributed-AreParts i j arrival_id name chosen.0 t
          (attribute name t.headers t.rows i.registry) cs h2,
    )

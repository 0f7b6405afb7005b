-- ===== src/Parsers/Flat/Headers.antt =====
-- The headers and rows of a table that is read from records.
use harbormaster.Prelude.{
  ℕ, suc, ◌≡◌, ◌≢◌, refl, sym, ap, ◌∙◌, inl, inr, true, false, ◌||◌, some, List, [], ◌∷◌, ◌++◌, All,
  map, length, is_some, String, string_eq, ◌==◌, contains, arith, Bool-cases,
}
use harbormaster.Prelude.Dict.{Dict, lookup, keys, lookup-insert}
use harbormaster.Mapping.{Table, has_duplicates, parsed_table}
use harbormaster.Mapping.Fields.{duplicates-append}
use harbormaster.Parsers.Rows.{IsFull}
use harbormaster.Parsers.Flat.{set_default, add_headers, fill_row, headers_of, table_of_flat}

add_headers-distinct :
    (headers ks : List String)
    → has_duplicates headers ≡ false
    → has_duplicates (add_headers headers ks) ≡ false
unfolding add_headers
add_headers-distinct headers [] h = h
add_headers-distinct headers (k ∷ ks) h = elim (Bool-cases (contains headers k)) [
  | inl seen ↦ rw seen (add_headers-distinct headers ks h)
  | inr new ↦ rw new (
      add_headers-distinct (headers ++ k ∷ []) ks (
        duplicates-append headers (k ∷ []) h refl (λ f has. elim (Bool-cases (f == k)) [
          | inl same ↦ cc (sym has ∙ ap (contains headers) ((string_eq.beq_iff f k).0 same) ∙ new)
          | inr other ↦ rw other refl
        ])))
]

headers_of-distinct :
    (headers : List String) (flats : List (Dict String String))
    → has_duplicates headers ≡ false
    → has_duplicates (headers_of headers flats) ≡ false
unfolding headers_of
headers_of-distinct headers [] h = h
headers_of-distinct headers (flat ∷ flats) h =
    headers_of-distinct (add_headers headers (keys flat)) flats
      (add_headers-distinct headers (keys flat) h)

-- A row has a value for a key that it had, or that is a default.
set_default-has :
    (k v j : String) (d : Dict String String)
    → (j == k || is_some (lookup j d)) ≡ true
    → is_some (lookup j (set_default k v d)) ≡ true
unfolding set_default
set_default-has k v j d h = elim (Bool-cases (is_some (lookup k d))) [
  | inl there ↦ rw there (elim (Bool-cases (j == k)) [
    | inl same ↦ ap (λ i. is_some (lookup i d)) ((string_eq.beq_iff j k).0 same) ∙ there
    | inr other ↦ ground (arith, h, other)
  ])
  | inr absent ↦ rw (absent, lookup-insert j k v d) (ground (arith, h))
]

fill_row-has :
    (ks : List String) (row : Dict String String) (j : String)
    → is_some (lookup j row) ≡ true
    → is_some (lookup j (fill_row ks row)) ≡ true
unfolding fill_row
fill_row-has [] row j h = h
fill_row-has (k ∷ ks) row j h =
    fill_row-has ks (set_default k "" row) j (set_default-has k "" j row (ground (arith, h)))

fill_row-IsFull : (ks : List String) (row : Dict String String) → IsFull ks (fill_row ks row)
unfolding fill_row
fill_row-IsFull [] row = tt
fill_row-IsFull (k ∷ ks) row = (
  fill_row-has ks (set_default k "" row) k
      (set_default-has k "" k row (rw ((string_eq.beq_iff k k).1 refl) refl)),
  fill_row-IsFull ks (set_default k "" row),
)

filled-IsFull :
    (headers : List String) (rows : List (Dict String String))
    → All (IsFull headers) (map (fill_row headers) rows)
filled-IsFull headers [] = tt
filled-IsFull headers (row ∷ rows) = (fill_row-IsFull headers row, filled-IsFull headers rows)

filled-length :
    (headers : List String) (rows : List (Dict String String))
    → length (map (fill_row headers) rows) ≡ length rows
filled-length headers [] = refl
filled-length headers (row ∷ rows) = ap suc (filled-length headers rows)

-- A table without duplicate headers, with so many rows, and in each a value for every header.
pub record IsTableOf (rows : ℕ) (t : Table) : Type 0 where
  pub distinct : has_duplicates t.headers ≡ false
  pub counted : length t.rows ≡ rows
  pub full : All (IsFull t.headers) t.rows

pub table_of_flat-IsTableOf :
    (flats : List (Dict String String))
    → flats ≢ []
    → (t : Table) × (table_of_flat flats ≡ some t) × IsTableOf (length flats) t
unfolding table_of_flat parsed_table
table_of_flat-IsTableOf [] there = absurd (there refl)
table_of_flat-IsTableOf (flat ∷ flats) there =
    let headers = headers_of [] (flat ∷ flats) in
    let once = headers_of-distinct [] (flat ∷ flats) refl in
    (
      record { headers = headers; rows = map (fill_row headers) (flat ∷ flats) },
      rw once refl,
      record {
        distinct = once;
        counted = filled-length headers (flat ∷ flats);
        full = filled-IsFull headers (flat ∷ flats);
      },
    )

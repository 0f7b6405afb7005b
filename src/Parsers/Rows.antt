-- ===== src/Parsers/Rows.antt =====
-- The rows that `parse` of parsers/delimited.py reads below the header.
use harbormaster.Prelude.{
  ◌+◌, ◌≡◌, refl, inl, inr, true, List, [], ◌∷◌, All, is_some, length, String, string_eq, ◌==◌,
  arith, Bool-cases,
}
use harbormaster.Prelude.Dict.{Dict, lookup, insert, from_pairs, lookup-insert}
use harbormaster.Parsers.{is_total_row, cells_of, read_rows}

abbrev Has : String → Dict String String → Type 0
Has h row = is_some (lookup h row) ≡ true

-- A row with a value for every header.
abbrev pub IsFull : List String → Dict String String → Type 0
IsFull headers row = All (λ h. is_some (lookup h row) ≡ true) headers

insert-Has : (k v h : String) (d : Dict String String) → Has h d → Has h (insert k v d)
insert-Has k v h d has = elim (Bool-cases (h == k)) [
  | inl same ↦ rw (lookup-insert h k v d, same) refl
  | inr differ ↦ rw (lookup-insert h k v d, differ) has
]

insert-own : (k v : String) (d : Dict String String) → Has k (insert k v d)
insert-own k v d = rw (lookup-insert k k v d, (string_eq.beq_iff k k).1 refl) refl

from_pairs-Has :
    (h : String) (l : List (String × String)) (d : Dict String String)
    → Has h d
    → Has h (from_pairs l d)
unfolding from_pairs
from_pairs-Has h [] d has = has
from_pairs-Has h ((k, v) ∷ l) d has = from_pairs-Has h l (insert k v d) (insert-Has k v h d has)

cells_of-IsFull :
    (headers cells : List String) (d : Dict String String)
    → IsFull headers (from_pairs (cells_of headers cells) d)
unfolding from_pairs cells_of
cells_of-IsFull [] cells d = tt
cells_of-IsFull (h ∷ hs) [] d =
    (from_pairs-Has h (cells_of hs []) (insert h "" d) (insert-own h "" d), cells_of-IsFull hs [] _)
cells_of-IsFull (h ∷ hs) (c ∷ cells) d =
    (from_pairs-Has h (cells_of hs cells) _ (insert-own h _ d), cells_of-IsFull hs cells _)

-- Every row below the header is either read or counted as a total, and each row that is read has a value for
-- every header, however many cells it has.
pub read_rows-IsFull :
    (headers : List String) (grid : List (List String))
    → (length (read_rows headers grid).0 + (read_rows headers grid).1 ≡ length grid)
      × All (IsFull headers) (read_rows headers grid).0
unfolding read_rows
read_rows-IsFull headers [] = (refl, tt)
read_rows-IsFull headers (cells ∷ grid) =
    let (counted, full) = read_rows-IsFull headers grid in
    elim (Bool-cases (is_total_row cells)) [
      | inl total ↦ rw total (omega (arith, counted), full)
      | inr data_row ↦
          rw data_row (omega (arith, counted), (cells_of-IsFull headers cells [], full))
    ]

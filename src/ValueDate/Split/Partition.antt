-- ===== src/ValueDate/Split/Partition.antt =====
-- The groups are a partition, by date, of the rows that carry a date.
use mathlib.Core.List.{append_assoc, append-nil}
use harbormaster.Prelude.{
  ℕ, ◌+◌, ◌≡◌, sym, ap, ◌∙◌, inl, inr, some, List, [], ◌∷◌, ◌++◌, length, length-append, String,
  string_eq, option_eq, ◌==◌, filter, is_some, if◌then◌else◌, arith, Option-cases, Bool-cases,
}
use harbormaster.Prelude.Dict.{
  lookup, insert, lookup-nil, lookup-insert, NodupKeys, insert-NodupKeys,
}
use harbormaster.ValueDate.Columns.{Row}
use harbormaster.ValueDate.Split.{Groups, row_iso, or_nil, append_row, group_rows}

-- The rows that carry one date, in file order.
abbrev pub rows_of : String → String → List Row → List Row
rows_of column iso rows = filter (λ row. row_iso column row == some iso) rows

-- How many rows the groups hold.
abbrev pub total : Groups → ℕ
total [] = 0
total ((iso, rows) ∷ g) = length rows + total g

append_row-lookup :
    (iso k : String) (row : Row) (g : Groups)
    → or_nil (lookup iso (append_row k row g))
      ≡ (if k == iso then or_nil (lookup iso g) ++ (row ∷ []) else or_nil (lookup iso g))
unfolding append_row
append_row-lookup iso k row g = ground (
  arith,
  lookup-insert iso k (or_nil (lookup k g) ++ (row ∷ [])) g,
  string_eq.beq_iff k iso,
  string_eq.beq_iff iso k,
)

module _ (column : String) where
  push :
      (iso k : String) (row : Row) (g : Groups) (l : List Row)
      → or_nil (lookup iso (append_row k row g)) ++ l
        ≡ or_nil (lookup iso g) ++ (if k == iso then row ∷ l else l)
  push iso k row g l = elim (Bool-cases (k == iso)) [
    | inl same ↦
        rw (append_row-lookup iso k row g)
          (rw same (append_assoc (or_nil (lookup iso g)) (row ∷ []) l))
    | inr differ ↦ rw (append_row-lookup iso k row g) (rw differ)
  ]

  -- Each date's group is what the dict held before, followed by the rows of that date.
  group_rows-lookup :
      (iso : String) (rows : List Row) (g : Groups)
      → or_nil (lookup iso (group_rows column rows g))
        ≡ or_nil (lookup iso g) ++ rows_of column iso rows
  unfolding group_rows filter
  group_rows-lookup iso [] g = sym (append-nil (or_nil (lookup iso g)))
  group_rows-lookup iso (row ∷ rows) g = elim (Option-cases (row_iso column row)) [
    | inl silent ↦ rw silent (group_rows-lookup iso rows g)
    | inr (k, dated) ↦ rw dated (
        group_rows-lookup iso rows (append_row k row g)
        ∙ push iso k row g (rows_of column iso rows))
  ]

  group_rows-NodupKeys :
      (rows : List Row) (g : Groups) → NodupKeys g → NodupKeys (group_rows column rows g)
  unfolding group_rows append_row
  group_rows-NodupKeys [] g u = u
  group_rows-NodupKeys (row ∷ rows) g u = elim (Option-cases (row_iso column row)) [
    | inl silent ↦ rw silent (group_rows-NodupKeys rows g u)
    | inr (k, dated) ↦ rw dated (group_rows-NodupKeys rows _ (insert-NodupKeys k _ g u))
  ]

  total-insert :
      (k : String) (l : List Row) (g : Groups)
      → total (insert k l g) + length (or_nil (lookup k g)) ≡ total g + length l
  unfolding insert lookup
  total-insert k l [] = omega arith
  total-insert k l ((j, m) ∷ g) = ground (arith, total-insert k l g)

  total-append_row :
      (k : String) (row : Row) (g : Groups) → total (append_row k row g) ≡ total g + 1
  unfolding append_row
  total-append_row k row g = omega (
    arith,
    total-insert k (or_nil (lookup k g) ++ (row ∷ [])) g,
    length-append (or_nil (lookup k g)) (row ∷ []),
  )

  total-group_rows :
      (rows : List Row) (g : Groups)
      → total (group_rows column rows g)
        ≡ total g + length (filter (λ row. is_some (row_iso column row)) rows)
  unfolding group_rows filter
  total-group_rows [] g = omega arith
  total-group_rows (row ∷ rows) g = elim (Option-cases (row_iso column row)) [
    | inl silent ↦ rw silent (total-group_rows rows g)
    | inr (k, dated) ↦
        rw dated
          (omega (arith, total-group_rows rows (append_row k row g), total-append_row k row g))
  ]

  -- The loop partitions the rows that carry a date: no date has two groups, the group of a date is the
  -- rows of that date in file order, and the groups hold as many rows as carry a date at all. A row
  -- whose cell is no date is in none of them.
  pub group_rows_partition :
      (rows : List Row)
      → let g = group_rows column rows [] in
        NodupKeys g
        × ((iso : String) → or_nil (lookup iso g) ≡ rows_of column iso rows)
        × (total g ≡ length (filter (λ row. is_some (row_iso column row)) rows))
  group_rows_partition rows = (
    group_rows-NodupKeys rows [] tt,
    λ iso.
        group_rows-lookup iso rows []
        ∙ ap (λ o. or_nil o ++ rows_of column iso rows) (lookup-nil iso),
    omega (arith, total-group_rows rows []),
  )

-- ===== src/ValueDate/Split.antt =====
-- `split_by_value_date` of python/src/inspector/valuedate.py.
pub mod Partition
use harbormaster.Prelude.{
  ℕ, ◌+◌, Bool, true, false, Option, none, some, List, [], ◌∷◌, ◌++◌, length, String, string_eq,
  ltb, if◌then◌else◌,
}
use harbormaster.Prelude.Text.{is_blank}
use harbormaster.Prelude.Dict.{Dict, lookup, insert}
use harbormaster.Dates.{isoformat}
use harbormaster.ValueDate.Parse.{parse_date}
use harbormaster.ValueDate.Columns.{Row, cell, find_value_date_column}

abbrev pub Groups : Type 0
Groups = Dict String (List Row)

-- The ISO text of the date that a row carries.
unfoldable pub row_iso : String → Row → Option String
row_iso column row = elim (parse_date (cell row column)) [
  | none ↦ none
  | some d ↦ some (isoformat d)
]

abbrev pub or_nil {ℓ} : {A : Type ℓ} → Option (List A) → List A
or_nil none = []
or_nil (some l) = l

-- `groups.setdefault(iso, []).append(row)`
unfoldable pub append_row : String → Row → Groups → Groups
append_row iso row g = insert iso (or_nil (lookup iso g) ++ (row ∷ [])) g

-- The loop; a row whose cell is no date is passed over.
unfoldable pub group_rows : String → List Row → Groups → Groups
group_rows column [] g = g
group_rows column (row ∷ rows) g =
    group_rows column rows
      (elim (row_iso column row) [ none ↦ g | some iso ↦ append_row iso row g ])

-- `groups if len(groups) > 1 else {}`
abbrev pub if_several : Groups → Groups
if_several g = if ltb 1 (length g) then g else []

unfoldable pub split_by_value_date : List Row → List String → List String → Groups
unfolding row_iso append_row lookup insert
split_by_value_date rows headers hints = elim (find_value_date_column headers hints) [
  | none ↦ []
  | some column ↦ if is_blank column then [] else if_several (group_rows column rows [])
]

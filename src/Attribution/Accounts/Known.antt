-- ===== src/Attribution/Accounts/Known.antt =====
-- The accounts found in a file are accounts of the registry, each once.
use harbormaster.Prelude.{
  ◌≡◌, refl, sym, ap, ◌∙◌, inl, inr, Bool, true, false, not, ◌&&◌, List, [], ◌∷◌, ◌++◌, All,
  is_some, take, String, string_eq, ◌==◌, contains, if◌then◌else◌, arith, Bool-cases,
}
use harbormaster.Prelude.Text.{is_blank, strip}
use harbormaster.Prelude.Dict.{Dict, lookup}
use harbormaster.ValueDate.Columns.{Row}
use harbormaster.Mapping.{has_duplicates}
use harbormaster.Mapping.Fields.{duplicates-append}
use harbormaster.Attribution.Accounts.{
  is_known, add_candidates, find_candidates, scan_cell, cell_or_blank, scan_row, scan_rows,
  find_account_ids, account_limit,
}

-- Accounts of the registry, none of them twice.
pub record IsFound (known : Dict String String) (found : List String) : Type 0 where
  pub of_registry : All (λ a. is_some (lookup a known) ≡ true) found
  pub distinct : has_duplicates found ≡ false

All-append {ℓ} : (P : String → Type ℓ) (l m : List String) → All P l → All P m → All P (l ++ m)
All-append P [] m _ h = h
All-append P (x ∷ l) m (first, rest) h = (first, All-append P l m rest h)

new_account : (a b : Bool) → (a && not b) ≡ true → (a ≡ true) × (b ≡ false)
new_account a b h = (ground arith, ground arith)

module _ (known : Dict String String) where
  add-IsFound :
      (found : List String) (a : String)
      → is_known known found a ≡ true
      → IsFound known found
      → IsFound known (found ++ a ∷ [])
  add-IsFound found a new h =
      let (there, fresh) = new_account (is_some (lookup a known)) (contains found a) new in
      record {
        of_registry = All-append _ found (a ∷ []) h.of_registry (there, tt);
        distinct = duplicates-append found (a ∷ []) h.distinct refl (λ f has.
            elim (Bool-cases (f == a)) [
              | inl same ↦
                  cc (sym has ∙ ap (contains found) ((string_eq.beq_iff f a).0 same) ∙ fresh)
              | inr differ ↦ rw differ refl
            ]);
      }

  add_candidates-IsFound :
      (found candidates : List String)
      → IsFound known found
      → IsFound known (add_candidates known found candidates)
  unfolding add_candidates
  add_candidates-IsFound found [] h = h
  add_candidates-IsFound found (a ∷ as') h = elim (Bool-cases (is_known known found a)) [
    | inl new ↦ rw new (add_candidates-IsFound (found ++ a ∷ []) as' (add-IsFound found a new h))
    | inr old ↦ rw old (add_candidates-IsFound found as' h)
  ]

  scan_cell-IsFound :
      (has_columns : Bool) (found : List String) (value : String)
      → IsFound known found
      → IsFound known (scan_cell known has_columns found value)
  unfolding scan_cell
  scan_cell-IsFound has_columns found value h = elim (Bool-cases (is_blank value)) [
    | inl blank ↦ rw blank h
    | inr there ↦ rw there (elim (Bool-cases (is_known known found value)) [
      | inl new ↦ rw new (add-IsFound found value new h)
      | inr old ↦ rw old (by_columns has_columns)
    ])
  ]
    where
      by_columns :
          (c : Bool)
          → IsFound known (if c then found else add_candidates known found (find_candidates value))
      by_columns true = h
      by_columns false = add_candidates-IsFound found (find_candidates value) h

  scan_row-IsFound :
      (has_columns : Bool) (columns found : List String) (row : Row)
      → IsFound known found
      → IsFound known (scan_row known has_columns columns found row)
  unfolding scan_row
  scan_row-IsFound c [] found row h = h
  scan_row-IsFound c (x ∷ columns) found row h =
      scan_row-IsFound c columns _ row (scan_cell-IsFound c found (strip (cell_or_blank row x)) h)

  scan_rows-IsFound :
      (has_columns : Bool) (columns found : List String) (rows : List Row)
      → IsFound known found
      → IsFound known (scan_rows known has_columns columns found rows)
  unfolding scan_rows
  scan_rows-IsFound c columns found [] h = h
  scan_rows-IsFound c columns found (row ∷ rows) h =
      scan_rows-IsFound c columns (scan_row known c columns found row) rows
        (scan_row-IsFound c columns found row h)

  -- Every account found is one that the registry knows, and none is found twice.
  pub find_account_ids-IsFound :
      (headers : List String) (rows : List Row)
      → IsFound known (find_account_ids headers rows known)
  unfolding find_account_ids
  find_account_ids-IsFound headers rows =
      scan_rows-IsFound _ _ [] (take account_limit rows)
        (record { of_registry = tt; distinct = refl })

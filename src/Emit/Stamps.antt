-- ===== src/Emit/Stamps.antt =====
-- What the Inspector determined itself reaches the records as it is, whatever the columns say.
use harbormaster.Prelude.{
  suc, beq_refl, ◌≡◌, ◌≢◌, refl, sym, ap, ◌∙◌, inl, inr, Bool, true, false, Option, none, some,
  List, [], ◌∷◌, All, is_some, length, String, string_eq, ◌==◌, contains, if◌then◌else◌,
  Option-cases, Bool-cases, if_true, if_false,
}
use harbormaster.Prelude.Dict.{Dict, lookup, insert, lookup-insert}
use harbormaster.Canonical.{canonical_fields}
use harbormaster.Mapping.{Table, Mapping}
use harbormaster.Emit.{
  Cell, CanonicalRow, Stamp, stamped, by_field, raw_cell, cell_of, fill, name_account, build_record,
  build_rows, build_records,
}

-- An update of another field keeps what is there.
keep_other :
    (k f : String) (c d : Cell) (r : CanonicalRow)
    → lookup k r ≡ some c
    → k ≢ f
    → lookup k (insert f d r) ≡ some c
keep_other k f c d r there differ =
    lookup-insert k f d r
    ∙ if_false (k == f) d (lookup k r)
        (not_true (k == f) (λ e. differ ((string_eq.beq_iff k f).0 e)))
    ∙ there
  where
    not_true : (b : Bool) → b ≢ true → b ≡ false
    not_true true h = absurd (h refl)
    not_true false h = refl

module _ (columns row : Dict String String) where
  fill-keeps :
      (fs : List String) (k : String) (c : Cell) (r : CanonicalRow)
      → lookup k r ≡ some c
      → lookup k (fill columns row fs r) ≡ some c
  unfolding fill
  fill-keeps [] k c r there = there
  fill-keeps (f ∷ fs) k c r there = elim (Bool-cases (is_some (lookup f r))) [
    | inl old ↦ rw old (fill-keeps fs k c r there)
    | inr new ↦ rw new (
        fill-keeps fs k c _ (
          keep_other k f c _ r there
            (λ e. cc (new, ap (λ j. is_some (lookup j r)) e, ap is_some there))))
  ]

  fill_keeps_some :
      (fs : List String) (k : String) (r : CanonicalRow)
      → is_some (lookup k r) ≡ true
      → is_some (lookup k (fill columns row fs r)) ≡ true
  fill_keeps_some fs k r there = elim (Option-cases (lookup k r)) [
    | inl missing ↦ cc (sym (ap is_some missing) ∙ there)
    | inr (c, found) ↦ ap is_some (fill-keeps fs k c r found)
  ]

  -- Every field that the loop comes to is there behind it.
  fill_complete :
      (fs : List String) (f : String) (r : CanonicalRow)
      → contains fs f ≡ true
      → is_some (lookup f (fill columns row fs r)) ≡ true
  unfolding fill
  fill_complete [] f r has = cc
  fill_complete (g ∷ fs) f r has = elim (Bool-cases (f == g)) [
    | inr differ ↦ fill_complete fs f _ (rw differ at has)
    | inl same ↦ fill_keeps_some fs f _ (
        ap (λ k. is_some (lookup k (added g r))) ((string_eq.beq_iff f g).0 same) ∙ added_there g r)
  ]
    where
      added : String → CanonicalRow → CanonicalRow
      added k t =
          if is_some (lookup k t) then t else insert k (cell_of k (raw_cell columns row k)) t

      added_there : (k : String) (t : CanonicalRow) → is_some (lookup k (added k t)) ≡ true
      added_there k t = elim (Bool-cases (is_some (lookup k t))) [
        | inl old ↦ rw old old
        | inr new ↦ rw new (
            ap is_some (
              lookup-insert k k (cell_of k (raw_cell columns row k)) t
              ∙ if_true (k == k) (cell_of k (raw_cell columns row k)) (lookup k t) (beq_refl k)))
      ]

-- A record has the stamps as they are, and an entry for each canonical field.
abbrev pub IsStamped : Stamp → CanonicalRow → Type 0
IsStamped s r =
    ((k : String) (c : Cell) → lookup k (stamped s) ≡ some c → lookup k r ≡ some c)
    × ((f : String) → contains canonical_fields f ≡ true → is_some (lookup f r) ≡ true)

name_account-IsStamped :
    (s : Stamp) (names : Dict String String) (name account : Option String) (r : CanonicalRow)
    → IsStamped s r
    → IsStamped s (name_account names name account r)
unfolding name_account lookup
name_account-IsStamped s names (some name) account r h = h
name_account-IsStamped s names none none r h = h
name_account-IsStamped s names none (some account) r (stamps, complete) = (
  λ k c there.
      keep_other k "account_name" c _ r (stamps k c there)
        (λ e. cc (sym (ap (λ j. lookup j (stamped s)) e ∙ no_name s) ∙ there)),
  λ f has. elim (Bool-cases (f == "account_name")) [
    | inl same ↦
        ap is_some
          (lookup-insert f "account_name" _ r ∙ if_true (f == "account_name") _ (lookup f r) same)
    | inr differ ↦
        ap is_some (
          lookup-insert f "account_name" _ r ∙ if_false (f == "account_name") _ (lookup f r) differ)
        ∙ complete f has
  ],
)
  where
    no_name : (t : Stamp) → lookup "account_name" (stamped t) ≡ none
    no_name t = refl

build_record-IsStamped :
    (s : Stamp) (columns names row : Dict String String)
    → IsStamped s (build_record s columns names row)
unfolding build_record
build_record-IsStamped s columns names row =
    name_account-IsStamped s names _ _ (fill columns row canonical_fields (stamped s)) (
      λ k c there. fill-keeps columns row canonical_fields k c (stamped s) there,
      λ f has. fill_complete columns row canonical_fields f (stamped s) has,
    )

-- Each row gives one record. In each record the arrival, the client, the value date, the domain and the
-- source system are those that the Inspector determined, whatever the columns are mapped to, and there is
-- an entry for every canonical field.
pub build_records-IsStamped :
    (t : Table) (ms : List Mapping) (s : Stamp) (names : Dict String String)
    → (length (build_records t ms s names) ≡ length t.rows)
      × All (IsStamped s) (build_records t ms s names)
unfolding build_records build_rows
build_records-IsStamped t ms s names = each t.rows
  where
    each :
        (rows : List (Dict String String))
        → (length (build_rows s (by_field ms) names rows) ≡ length rows)
          × All (IsStamped s) (build_rows s (by_field ms) names rows)
    each [] = (refl, tt)
    each (row ∷ rows) =
        let (count, stamps) = each rows in
        (ap suc count, (build_record-IsStamped s (by_field ms) names row, stamps))

-- ===== src/Parsers/Delimited/Scores.antt =====
-- The scores of two rows, in the loop of `_find_header_row` of python/src/inspector/parsers/delimited.py.
use native.Mathlib.Nat.{mul-pos}
use mathlib.Core.Path.{subst}
use mathlib.Core.Option.{some-injective, none-ne-some}
use harbormaster.Prelude.{
  ℕ, suc, ◌+◌, ◌≤◌, ◌<◌, ◌≡◌, refl, ap, sym, inl, inr, Bool, true, false, ◌||◌, Option, none, some,
  List, length, is_empty, String, leb, arith, Bool-cases, length-filter-le, if◌then◌else◌,
}
use harbormaster.Mapping.Variation.{below}
use harbormaster.Mapping.Variation.Order.{below-asym, below-le, le-below, le-le}
use harbormaster.Parsers.Delimited.Grid.{Row, Scored, is_filled, filled_cells, points, score_row}

-- A row that scores no less than another, and more if it stands below it.
pub record Wins (s t : Scored) : Type 0 where
  pub no_less : below s.score t.score ≡ false
  pub ahead : (leb s.index t.index || below t.score s.score) ≡ true

pub Wins-refl : (s : Scored) → Wins s s
Wins-refl s = record { no_less = ground arith; ahead = ground arith }

pub Wins-better : (b t : Scored) → below b.score t.score ≡ true → Wins t b
Wins-better b t less = record {
  no_less = below-asym b.score t.score less;
  ahead = ground (arith, less);
}

pub Wins-kept : (b t : Scored) → below b.score t.score ≡ false → b.index ≤ t.index → Wins b t
Wins-kept b t le before = record { no_less = le; ahead = ground arith }

ahead_trans :
    (a b c : Scored)
    → 0 < a.score.den
    → 0 < c.score.den
    → Wins a b
    → Wins b c
    → (leb a.index c.index || below c.score a.score) ≡ true
ahead_trans a b c pa pc ab bc = elim (Bool-cases (below c.score b.score)) [
  | inl less ↦ ground (arith, below-le c.score b.score a.score pa less ab.no_less)
  | inr more ↦ elim (Bool-cases (below b.score a.score)) [
    | inl less ↦ ground (arith, le-below c.score b.score a.score pc bc.no_less less)
    | inr le ↦ ground (arith, ab.ahead, bc.ahead)
  ]
]

pub Wins-trans :
    (a b c : Scored)
    → 0 < a.score.den
    → 0 < b.score.den
    → 0 < c.score.den
    → Wins a b
    → Wins b c
    → Wins a c
Wins-trans a b c pa pb pc ab bc = record {
  no_less = le-le c.score b.score a.score pb bc.no_less ab.no_less;
  ahead = ahead_trans a b c pa pc ab bc;
}

-- what the loop has found before a row
unfoldable pub IsBefore : ℕ → Option Scored → Type 0
IsBefore index none = Unit
IsBefore index (some b) = (b.index < index) × (0 < b.score.den)

points-pos :
    (modal index : ℕ) (row : Row) (filled : List String)
    → 0 < length row
    → 0 < length filled
    → 0 < (points modal index row filled).den
unfolding points
points-pos modal index row filled there some_filled = omega (arith, mul-pos there some_filled)

-- a row that is scored has a filled cell
filled_of :
    (row : Row)
    → is_empty (filled_cells row) ≡ false
    → (0 < length (filled_cells row)) × (0 < length row)
unfolding filled_cells
filled_of row h = ground (arith, length-filter-le is_filled row)

scored_row : ℕ → ℕ → Row → Scored
scored_row modal index row = record {
  index = index;
  score = points modal index row (filled_cells row);
}

some_unless :
    (b : Bool) (made t : Scored)
    → (if b then none else some made) ≡ some t
    → (b ≡ false) × (made ≡ t)
some_unless true made t h = absurd (none-ne-some t h)
some_unless false made t h = (refl, some-injective made t h)

score_row-inv :
    (modal index : ℕ) (row : Row) (t : Scored)
    → score_row modal index row ≡ some t
    → (is_empty (filled_cells row) ≡ false) × (scored_row modal index row ≡ t)
unfolding score_row scored_row
score_row-inv modal index row t h =
    some_unless (is_empty (filled_cells row)) (scored_row modal index row) t h

pub score_row-Scored :
    (modal index : ℕ) (row : Row) (t : Scored)
    → score_row modal index row ≡ some t
    → (t.index ≡ index) × (0 < t.score.den)
unfolding scored_row
score_row-Scored modal index row t h =
    let (filled, made) = score_row-inv modal index row t h in
    let (some_filled, some_cell) = filled_of row filled in
    (
      sym (ap (λ s. s.index) made),
      subst (λ s. 0 < s.score.den) made
          (points-pos modal index row (filled_cells row) some_cell some_filled),
    )

pub index_zero : (index : ℕ) → index + 0 ≡ index
index_zero index = omega arith

pub zero_index : (j : ℕ) → 0 + j ≡ j
zero_index j = omega arith

pub index_suc : (index j : ℕ) → index + suc j ≡ index + 1 + j
index_suc index j = omega arith

-- what a round adds
unfoldable pub IsScored : ℕ → Option Scored → Type 0
IsScored index none = Unit
IsScored index (some t) = (t.index ≡ index) × (0 < t.score.den)

pub score_row-IsScored :
    (modal index : ℕ) (row : Row) (o : Option Scored)
    → score_row modal index row ≡ o
    → IsScored index o
unfolding IsScored
score_row-IsScored modal index row none h = tt
score_row-IsScored modal index row (some t) h = score_row-Scored modal index row t h

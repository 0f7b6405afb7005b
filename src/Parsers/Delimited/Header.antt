-- ===== src/Parsers/Delimited/Header.antt =====
-- The row that `_find_header_row` of python/src/inspector/parsers/delimited.py takes as the header, among the others.
use mathlib.Core.Path.{subst}
use mathlib.Core.Option.{some-injective, none-ne-some}
use harbormaster.Prelude.{
  ℕ, zero, suc, ◌+◌, ◌<◌, ◌≡◌, refl, ap, sym, ◌∙◌, ◌⊎◌, inl, inr, Option, none, some, List, [], ◌∷◌,
  take, get_elem?, arith, Bool-cases,
}
use harbormaster.Mapping.Variation.{below}
use harbormaster.Parsers.Delimited.Scores.{
  Wins, Wins-refl, Wins-better, Wins-kept, Wins-trans, score_row-Scored, IsBefore, IsScored,
  score_row-IsScored, index_zero, zero_index, index_suc,
}
use harbormaster.Parsers.Delimited.Grid.{
  Row, Scored, max_header_search_rows, score_row, best_of, header_from, modal_width, best_header,
  find_header_row, index_of,
}

-- The loop goes on with a row that wins over the one it had,
best_of-kept :
    (index : ℕ) (b : Scored) (o : Option Scored)
    → IsBefore index (some b)
    → IsScored index o
    → (c : Scored) × (best_of (some b) o ≡ some c) × IsBefore (index + 1) (some c) × Wins c b
unfolding IsBefore IsScored
best_of-kept index b none (earlier, there) scored = (b, refl, (omega arith, there), Wins-refl b)
best_of-kept index b (some t) (earlier, there) (here, pos) =
    elim (Bool-cases (below b.score t.score)) [
      | inl less ↦ (t, rw less refl, (omega arith, pos), Wins-better b t less)
      | inr le ↦ (b, rw le refl, (omega arith, there), Wins-refl b)
    ]

-- and over the one it comes to.
best_of-new :
    (index : ℕ) (best : Option Scored) (t : Scored)
    → IsBefore index best
    → IsScored index (some t)
    → (c : Scored) × (best_of best (some t) ≡ some c) × IsBefore (index + 1) (some c) × Wins c t
unfolding IsBefore IsScored
best_of-new index none t before (here, pos) = (t, refl, (omega arith, pos), Wins-refl t)
best_of-new index (some b) t (earlier, there) (here, pos) =
    elim (Bool-cases (below b.score t.score)) [
      | inl less ↦ (t, rw less refl, (omega arith, pos), Wins-refl t)
      | inr le ↦ (b, rw le refl, (omega arith, there), Wins-kept b t le (omega arith))
    ]

best_of-IsBefore :
    (index : ℕ) (best o : Option Scored)
    → IsBefore index best
    → IsScored index o
    → IsBefore (index + 1) (best_of best o)
unfolding IsBefore IsScored
best_of-IsBefore index none none before scored = tt
best_of-IsBefore index none (some t) before (here, pos) = (omega arith, pos)
best_of-IsBefore index (some b) o before scored =
    let (c, made, later, wins) = best_of-kept index b o before scored in rw made later

-- A row that wins over another, as the end of the loop.
EndsWith : ℕ → ℕ → Option Scored → List Row → Scored → Type 0
EndsWith modal index best rows t =
    (s : Scored) × (header_from modal index best rows ≡ some s) × (0 < s.score.den) × Wins s t

EndsWith-trans :
    (modal index : ℕ) (rows : List Row) (best : Option Scored) (c t : Scored)
    → best ≡ some c
    → 0 < c.score.den
    → 0 < t.score.den
    → EndsWith modal index (some c) rows c
    → Wins c t
    → EndsWith modal index best rows t
unfolding EndsWith
EndsWith-trans modal index rows best c t made pc pt (s, ends, ps, wins) ct =
    (s, rw made ends, ps, Wins-trans s c t ps pc pt wins ct)

header_from-kept :
    (modal index : ℕ) (rows : List Row) (b : Scored)
    → IsBefore index (some b)
    → EndsWith modal index (some b) rows b
unfolding header_from EndsWith IsBefore
header_from-kept modal index [] b before = (b, refl, before.1, Wins-refl b)
header_from-kept modal index (row ∷ rows) b before =
    let scored = score_row-IsScored modal index row _ refl in
    let (c, made, later, wins) = best_of-kept index b (score_row modal index row) before scored in
    EndsWith-trans modal (index + 1) rows _ c b made later.1 before.1
      (header_from-kept modal (index + 1) rows c later) wins

header_from-wins :
    (modal index : ℕ) (rows : List Row) (best : Option Scored) (j : ℕ) (row : Row) (t : Scored)
    → IsBefore index best
    → get_elem? rows j ≡ some row
    → score_row modal (index + j) row ≡ some t
    → EndsWith modal index best rows t
unfolding header_from IsBefore IsScored EndsWith
header_from-wins modal index [] best j row t before there scored = absurd (none-ne-some row there)
header_from-wins modal index (r ∷ rows) best zero row t before there scored =
    let here : score_row modal index r ≡ some t =
      subst (λ x. score_row modal index x ≡ some t) (sym (some-injective r row there))
        (subst (λ n. score_row modal n row ≡ some t) (index_zero index) scored) in
    let is = score_row-IsScored modal index r (some t) here in
    let (c, made, later, wins) = best_of-new index best t before is in
    EndsWith-trans modal (index + 1) rows _ c t (ap (best_of best) here ∙ made) later.1 is.1
      (header_from-kept modal (index + 1) rows c later) wins
header_from-wins modal index (r ∷ rows) best (suc j) row t before there scored =
    header_from-wins modal (index + 1) rows (best_of best (score_row modal index r)) j row t
      (best_of-IsBefore index best _ before (score_row-IsScored modal index r _ refl)) there
      (subst (λ n. score_row modal n row ≡ some t) (index_suc index j) scored)

-- A scored row, at a place from `index` on.
IsRow : ℕ → ℕ → List Row → Scored → Type 0
IsRow modal index rows s =
    (j : ℕ) × (row : Row) × (get_elem? rows j ≡ some row)
    × (score_row modal (index + j) row ≡ some s)

IsRow-next :
    (modal index : ℕ) (r : Row) (rows : List Row) (s : Scored)
    → IsRow modal (index + 1) rows s
    → IsRow modal index (r ∷ rows) s
unfolding IsRow
IsRow-next modal index r rows s (j, row, there, scored) = (
  suc j,
  row,
  there,
  subst (λ n. score_row modal n row ≡ some s) (sym (index_suc index j)) scored,
)

best_of-source :
    (best o : Option Scored) (s : Scored) → best_of best o ≡ some s → (best ≡ some s) ⊎ (o ≡ some s)
best_of-source best none s h = inl h
best_of-source none (some t) s h = inr h
best_of-source (some b) (some t) s h = elim (Bool-cases (below b.score t.score)) [
  | inl less ↦ inr (sym (rw less refl) ∙ h)
  | inr le ↦ inl (sym (rw le refl) ∙ h)
]

header_from-source :
    (modal index : ℕ) (rows : List Row) (best : Option Scored) (s : Scored)
    → header_from modal index best rows ≡ some s
    → (best ≡ some s) ⊎ IsRow modal index rows s
unfolding header_from IsRow
header_from-source modal index [] best s h = inl h
header_from-source modal index (row ∷ rows) best s h =
    elim (header_from-source modal (index + 1) rows _ s h) [
      | inr later ↦ inr (IsRow-next modal index row rows s later)
      | inl now ↦ elim (best_of-source best (score_row modal index row) s now) [
        | inl before ↦ inl before
        | inr scored ↦ inr (
          0,
          row,
          refl,
          subst (λ n. score_row modal n row ≡ some s) (sym (index_zero index)) scored,
        )
      ]
    ]

get_elem?-take :
    (n : ℕ) (rows : List Row) (j : ℕ) (row : Row)
    → get_elem? (take n rows) j ≡ some row
    → get_elem? rows j ≡ some row
get_elem?-take zero rows j row h = absurd (none-ne-some row h)
get_elem?-take (suc n) [] j row h = h
get_elem?-take (suc n) (r ∷ rows) zero row h = h
get_elem?-take (suc n) (r ∷ rows) (suc j) row h = get_elem?-take n rows j row h

-- The row that the search ends with is a row of the grid.
IsHeader : List Row → Scored → Type 0
IsHeader grid s =
    (header : Row) × (get_elem? grid (find_header_row grid) ≡ some header)
    × (score_row (modal_width grid) (find_header_row grid) header ≡ some s)

best_header-IsHeader : (grid : List Row) (s : Scored) → best_header grid ≡ some s → IsHeader grid s
unfolding IsHeader find_header_row best_header IsRow
best_header-IsHeader grid s h =
    elim (header_from-source (modal_width grid) 0 (take max_header_search_rows grid) none s h) [
      | inl nothing ↦ absurd (none-ne-some s nothing)
      | inr (j, row, there, scored) ↦
          let at_j =
            subst (λ n. score_row (modal_width grid) n row ≡ some s) (zero_index j) scored in
          let placed : j ≡ find_header_row grid =
            sym (ap index_of h ∙ (score_row-Scored (modal_width grid) j row s at_j).0) in
          (
            row,
            subst (λ n. get_elem? grid n ≡ some row) placed
                (get_elem?-take max_header_search_rows grid j row there),
            subst (λ n. score_row (modal_width grid) n row ≡ some s) placed at_j,
          )
    ]

-- If one of the first 25 rows of a grid has a filled cell, the header that is found is a row of the grid with a filled
-- cell, and it scores no less than that row, and more if it stands below it.
pub find_header_row-Wins :
    (grid : List Row) (j : ℕ) (row : Row) (t : Scored)
    → get_elem? (take max_header_search_rows grid) j ≡ some row
    → score_row (modal_width grid) j row ≡ some t
    → (header : Row) × (s : Scored) × (get_elem? grid (find_header_row grid) ≡ some header)
      × (score_row (modal_width grid) (find_header_row grid) header ≡ some s)
      × Wins s t
unfolding best_header EndsWith IsHeader IsBefore
find_header_row-Wins grid j row t there scored =
    let (s, ends, pos, wins) =
      header_from-wins (modal_width grid) 0 (take max_header_search_rows grid) none j row t tt there
        (subst (λ n. score_row (modal_width grid) n row ≡ some t) (sym (zero_index j)) scored) in
    let (header, at, scores) = best_header-IsHeader grid s ends in (header, s, at, scores, wins)

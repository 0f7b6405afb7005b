-- ===== src/Calendar/Roll.antt =====
-- Rolling a date onto a business day, and the searches forward and back as inverses.
use native.Mathlib.Nat.{zero-add, suc-add, add-zero}
use harbormaster.Prelude.{
  ℕ, zero, suc, ◌+◌, ◌-◌, ◌≤◌, ◌<◌, ◌≡◌, refl, sym, ap, ◌∙◌, inl, inr, true, false, arith,
  Bool-cases,
}
use harbormaster.Dates.{Date, IsValid, next_day, prev_day}
use harbormaster.Dates.Ordinal.{next_day-IsValid, year-next_day-le, prev_day-next_day}
use harbormaster.Calendar.{
  Calendar, is_business_day, max_calendar_step_days, previous_business_day, next_business_day,
  iterate, roll,
}
use harbormaster.Calendar.Search.{Closed, search_from-open, search_from-eq, next_business_day-cases}

module _ (c : Calendar) (d : Date) where
  roll_shut :
      (k : ℕ)
      → k ≤ max_calendar_step_days
      → is_business_day c (iterate prev_day k d) ≡ true
      → is_business_day c d ≡ false
      → (is_business_day c (previous_business_day c d) ≡ true)
        × (roll c (previous_business_day c d) "PRECEDING" ≡ previous_business_day c d)
  unfolding roll previous_business_day iterate
  roll_shut zero le h shut = cc
  roll_shut (suc k) le h shut =
      let found = search_from-open prev_day c max_calendar_step_days d k (omega arith) h in
      (found, rw found)

  -- A rolled date is a business day, and rolling it again changes nothing, whenever the date or one
  -- of the thirty days before it is a business day.
  pub roll-open :
      (k : ℕ)
      → k ≤ max_calendar_step_days
      → is_business_day c (iterate prev_day k d) ≡ true
      → (is_business_day c (roll c d "PRECEDING") ≡ true)
        × (roll c (roll c d "PRECEDING") "PRECEDING" ≡ roll c d "PRECEDING")
  unfolding roll previous_business_day iterate
  roll-open k le h = elim (Bool-cases (is_business_day c d)) [
    | inl opened ↦ rw opened (opened, rw opened)
    | inr shut ↦ rw shut (roll_shut k le h shut)
  ]

-- `n` steps forward keep a date valid and move its year by at most `n`.
iterate-IsValid :
    (n : ℕ) (t : Date)
    → IsValid t
    → t.year + n ≤ 9999
    → IsValid (iterate next_day n t) × ((iterate next_day n t).year ≤ t.year + n)
unfolding iterate
iterate-IsValid zero t v le = (v, omega arith)
iterate-IsValid (suc n) t v le =
    let near = year-next_day-le t in
    let (valid, year) =
      iterate-IsValid n (next_day t) (next_day-IsValid t v (omega arith)) (omega (arith, near)) in
    (valid, omega (arith, near))

iterate-suc :
    (step : Date → Date) (n : ℕ) (t : Date) → iterate step (suc n) t ≡ step (iterate step n t)
unfolding iterate
iterate-suc step zero t = refl
iterate-suc step (suc n) t = iterate-suc step n (step t)

iterate-zero : (step : Date → Date) (t : Date) → iterate step zero t ≡ t
unfolding iterate
iterate-zero step t = refl

-- `j` steps back undo the last `j` of `j + k` steps forward.
iterate-back :
    (j k : ℕ) (t : Date)
    → IsValid t
    → t.year + (j + k) ≤ 9999
    → iterate prev_day j (iterate next_day (j + k) t) ≡ iterate next_day k t
unfolding iterate
iterate-back zero k t v le = rw zero-add
iterate-back (suc j) k t v le =
    let before = iterate next_day (j + k) t in
    let stepped : iterate next_day (suc j + k) t ≡ next_day before =
      ap (λ n. iterate next_day n t) (suc-add j k) ∙ iterate-suc next_day (j + k) t in
    let undone : prev_day (next_day before) ≡ before =
      prev_day-next_day before (iterate-IsValid (j + k) t v (omega arith)).0 in
    ap (λ u. iterate prev_day j (prev_day u)) stepped
    ∙ ap (iterate prev_day j) undone
    ∙ iterate-back j k t v (omega arith)

module _ (c : Calendar) (d : Date) (v : IsValid d) (early : d.year ≤ 9900) where
  walk_back :
      (j k : ℕ)
      → j + k ≤ max_calendar_step_days
      → iterate prev_day j (iterate next_day (j + k) d) ≡ iterate next_day k d
  walk_back j k le = iterate-back j k d v (omega arith)

  Closed-back :
      (k : ℕ)
      → k < max_calendar_step_days
      → Closed next_day c d k
      → Closed prev_day c (iterate next_day (suc k) d) k
  Closed-back k lt closed j below =
      let split : suc k ≡ suc j + suc (k - suc j) = omega arith in
      let there = walk_back (suc j) (suc (k - suc j)) (omega arith) in
      ap (λ n. is_business_day c (iterate prev_day (suc j) (iterate next_day n d))) split
      ∙ ap (is_business_day c) there
      ∙ closed (k - suc j) (omega arith)

  -- From a business day, the business day before the next one is that day itself.
  pub previous_business_day-next_business_day :
      (k : ℕ)
      → k < max_calendar_step_days
      → is_business_day c d ≡ true
      → is_business_day c (iterate next_day (suc k) d) ≡ true
      → previous_business_day c (next_business_day c d) ≡ d
  unfolding previous_business_day
  previous_business_day-next_business_day k lt opened later = elim (next_business_day-cases c d) [
    | inl near ↦ rw near.there (
        search_from-eq prev_day c max_calendar_step_days _ near.skipped near.within
          (rw (back near.skipped near.within) opened)
          (Closed-back near.skipped near.within near.closed_before)
        ∙ back near.skipped near.within)
    | inr out ↦ cc (out.all_closed k lt)
  ]
    where
      back :
          (s : ℕ)
          → s < max_calendar_step_days
          → iterate prev_day (suc s) (iterate next_day (suc s) d) ≡ d
      back s below =
          ap (λ n. iterate prev_day (suc s) (iterate next_day n d)) (sym (add-zero (suc s)))
          ∙ walk_back (suc s) 0 (omega arith)
          ∙ iterate-zero next_day d

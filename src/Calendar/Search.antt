-- ===== src/Calendar/Search.antt =====
-- What the bounded searches for a business day find.
use harbormaster.Prelude.{
  ℕ, zero, suc, ◌<◌, ◌≡◌, refl, ◌⊎◌, inl, inr, true, false, arith, Bool-cases,
}
use harbormaster.Dates.{Date, next_day, prev_day}
use harbormaster.Calendar.{
  Calendar, is_business_day, max_calendar_step_days, search_from, previous_business_day,
  next_business_day, iterate,
}

-- The days that the loop looks at, from the nearest on.
abbrev pub Closed : (Date → Date) → Calendar → Date → ℕ → Type 0
Closed step c d n = (j : ℕ) → j < n → is_business_day c (iterate step (suc j) d) ≡ false

-- `r` is the nearest business day beyond `d`, `k` steps away, within the bound of the loop.
pub record IsNearest (step : Date → Date) (c : Calendar) (n : ℕ) (d r : Date) : Type 0 where
  pub skipped : ℕ
  pub within : skipped < n
  pub there : r ≡ iterate step (suc skipped) d
  pub open_day : is_business_day c r ≡ true
  pub closed_before : Closed step c d skipped

-- Or the loop ran out on a stretch of closed days.
pub record IsExhausted (step : Date → Date) (c : Calendar) (n : ℕ) (d r : Date) : Type 0 where
  pub at_bound : r ≡ iterate step n d
  pub all_closed : Closed step c d n

module _ (step : Date → Date) (c : Calendar) where
  Closed-suc :
      (d : Date) (n : ℕ)
      → is_business_day c (step d) ≡ false
      → Closed step c (step d) n
      → Closed step c d (suc n)
  unfolding iterate
  Closed-suc d n h rest zero lt = h
  Closed-suc d n h rest (suc j) lt = rest j (omega arith)

  pub search_from-cases :
      (n : ℕ) (d : Date)
      → IsNearest step c n d (search_from step c n d)
        ⊎ IsExhausted step c n d (search_from step c n d)
  unfolding search_from iterate
  search_from-cases zero d =
      inr (record { at_bound = refl; all_closed = λ j lt. absurd (omega arith) })
  search_from-cases (suc n) d = elim (Bool-cases (is_business_day c (step d))) [
    | inl opened ↦ rw opened (
        inl (record {
          skipped = 0;
          within = omega arith;
          there = refl;
          open_day = opened;
          closed_before = λ j lt. absurd (omega arith);
        }))
    | inr shut ↦ rw shut (elim (search_from-cases n (step d)) [
      | inl near ↦ inl (record {
        skipped = suc near.skipped;
        within = omega (arith, near.within);
        there = near.there;
        open_day = near.open_day;
        closed_before = Closed-suc d near.skipped shut near.closed_before;
      })
      | inr out ↦
          inr (record { at_bound = out.at_bound; all_closed = Closed-suc d n shut out.all_closed })
    ])
  ]

  -- A search is the first business day of the walk, if one lies within the bound.
  pub search_from-open :
      (n : ℕ) (d : Date) (k : ℕ)
      → k < n
      → is_business_day c (iterate step (suc k) d) ≡ true
      → is_business_day c (search_from step c n d) ≡ true
  unfolding search_from iterate
  search_from-open zero d k lt h = absurd (omega arith)
  search_from-open (suc n) d zero lt h = rw h h
  search_from-open (suc n) d (suc k) lt h = elim (Bool-cases (is_business_day c (step d))) [
    | inl opened ↦ rw opened opened
    | inr shut ↦ rw shut (search_from-open n (step d) k (omega arith) h)
  ]

  pub search_from-eq :
      (n : ℕ) (d : Date) (k : ℕ)
      → k < n
      → is_business_day c (iterate step (suc k) d) ≡ true
      → Closed step c d k
      → search_from step c n d ≡ iterate step (suc k) d
  unfolding search_from iterate
  search_from-eq zero d k lt h closed = absurd (omega arith)
  search_from-eq (suc n) d zero lt h closed = rw h
  search_from-eq (suc n) d (suc k) lt h closed =
      rw (closed 0 (omega arith))
        (search_from-eq n (step d) k (omega arith) h (λ j below. closed (suc j) (omega arith)))

-- `previous_business_day` is the nearest business day before `d` if one of the thirty days before `d`
-- is open, and the thirtieth of them otherwise.
pub previous_business_day-cases :
    (c : Calendar) (d : Date)
    → IsNearest prev_day c max_calendar_step_days d (previous_business_day c d)
      ⊎ IsExhausted prev_day c max_calendar_step_days d (previous_business_day c d)
unfolding previous_business_day
previous_business_day-cases c d = search_from-cases prev_day c max_calendar_step_days d

-- `next_business_day` is the nearest business day after `d` if one of the thirty days after `d` is open, and
-- the thirtieth of them otherwise.
pub next_business_day-cases :
    (c : Calendar) (d : Date)
    → IsNearest next_day c max_calendar_step_days d (next_business_day c d)
      ⊎ IsExhausted next_day c max_calendar_step_days d (next_business_day c d)
unfolding next_business_day
next_business_day-cases c d = search_from-cases next_day c max_calendar_step_days d

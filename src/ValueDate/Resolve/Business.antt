-- ===== src/ValueDate/Resolve/Business.antt =====
-- A resolved date is a business day, and its confidence stays below that of its source.
use harbormaster.Prelude.{
  All, sym, ◌==◌, ℕ, ◌*◌, ◌≤◌, ◌≡◌, Bool, true, not, Option, none, some, List, [], ◌∷◌, arith,
  Bool-cases, length, ltb, Option-cases, inl, inr,
}
use harbormaster.Prelude.Text.{round_div}
use mathlib.Core.Path.{subst}
use harbormaster.Prelude.Counter.{counter, count, most_common}
use harbormaster.Dates.{Date, date_eq, date_beq_iff, prev_day}
use harbormaster.Calendar.{Calendar, is_business_day, max_calendar_step_days, iterate, roll}
use harbormaster.Calendar.Roll.{roll-open}
use harbormaster.ValueDate.Parse.{date_from_filename}
use harbormaster.ValueDate.Resolve.{
  Method, content_explicit, content_inferred, filename, arrival_minus_calendar, llm_adjudicated,
  human, conf_content_explicit, conf_content_inferred, conf_filename, conf_arrival, Resolution,
  Findings, Request, finish, finish_with, choose, resolve, explicit_dates, trade_dates,
  finish_confidence, ten_thousandths, sorted_set,
}
use harbormaster.ValueDate.Resolve.Flags.{Reports, Sourced, resolved-Sourced}

-- The day is a business day, or one of the thirty days before it is.
abbrev pub OpensBack : Calendar → Date → Type 0
OpensBack c d =
    (k : ℕ) × (k ≤ max_calendar_step_days) × (is_business_day c (iterate prev_day k d) ≡ true)

-- The dates that `resolve` counts: those of the source that decides.
abbrev pub candidates : Request → List Date
candidates q =
    (choose q (explicit_dates q) (trade_dates q) (date_from_filename q.filename)).candidates

-- The constant of each source, in thousandths; the two methods that `resolve` never returns have none.
abbrev pub conf_of : Method → ℕ
conf_of content_explicit = conf_content_explicit
conf_of content_inferred = conf_content_inferred
conf_of filename = conf_filename
conf_of arrival_minus_calendar = conf_arrival
conf_of llm_adjudicated = 0
conf_of human = 0

round_div-le : (n b : ℕ) → n ≤ b * 10 → round_div n 10 ≤ b
unfolding round_div
round_div-le n b h = ground arith

ten_thousandths-le :
    (base : ℕ) (several rolled : Bool) → ten_thousandths base several rolled ≤ base * 10
unfolding ten_thousandths
ten_thousandths-le base several rolled = ground arith

finish_confidence-le :
    (base : ℕ) (several rolled : Bool) → finish_confidence base several rolled ≤ base
unfolding finish_confidence
finish_confidence-le base several rolled =
    round_div-le (ten_thousandths base several rolled) base (ten_thousandths-le base several rolled)

finish-confidence :
    (f : Findings) (r : Resolution)
    → finish f ≡ some r
    → (r.confidence ≤ f.base_confidence) × (r.method ≡ f.method)
unfolding finish finish_with
finish-confidence f r h = elim (Option-cases (most_common (counter f.candidates))) [
  | inl nothing ↦ absurd (ground arith)
  | inr (top, found) ↦ ground (
    arith,
    finish_confidence-le f.base_confidence (ltb 1 (length (sorted_set f.candidates)))
        (not (roll f.calendar top.0 "PRECEDING" == top.0)),
  )
]

choose-confidence :
    (q : Request) (es ts : List Date) (named : Option Date) (r : Resolution)
    → finish (choose q es ts named) ≡ some r
    → r.confidence ≤ conf_of r.method
unfolding choose
choose-confidence q (d ∷ ds) ts named r h =
    let (le, by) = finish-confidence (choose q (d ∷ ds) ts named) r h in rw by le
choose-confidence q [] (t ∷ ts) named r h =
    let (le, by) = finish-confidence (choose q [] (t ∷ ts) named) r h in rw by le
choose-confidence q [] [] (some d) r h =
    let (le, by) = finish-confidence (choose q [] [] (some d)) r h in rw by le
choose-confidence q [] [] none r h =
    let (le, by) = finish-confidence (choose q [] [] none) r h in rw by le

-- A resolution is never surer than the constant of the source that it names.
pub resolve-confidence :
    (q : Request) (r : Resolution) → resolve q ≡ some r → r.confidence ≤ conf_of r.method
unfolding resolve
resolve-confidence q r h =
    choose-confidence q (explicit_dates q) (trade_dates q) (date_from_filename q.filename) r h

All-count {ℓ} : (P : Date → Type ℓ) (d : Date) (ds : List Date) → All P ds → 1 ≤ count d ds → P d
All-count P d [] h le = absurd (omega arith)
All-count P d (e ∷ ds) (first, others) le = elim (Bool-cases (d == e)) [
  | inl same ↦ subst P (sym ((date_beq_iff d e).0 same)) first
  | inr differ ↦ All-count P d ds others (rw differ at le)
]

Reports-open :
    (c : Calendar) (m : Method) (ds : List Date) (named : Option Date) (r : Resolution)
    → All (OpensBack c) ds
    → Reports c m ds named r
    → (w : Date) × (r.resolved ≡ some w) × (is_business_day c w ≡ true)
Reports-open c m ds named r open_days h =
    let (k, le, found) = All-count (OpensBack c) h.mode ds open_days h.dominant.occurs in
    (roll c h.mode "PRECEDING", h.rolled, (roll-open c h.mode k le found).0)

Sourced-open :
    (q : Request) (es ts : List Date) (named : Option Date) (r : Resolution)
    → All (OpensBack q.calendar) (choose q es ts named).candidates
    → Sourced q es ts named r
    → (w : Date) × (r.resolved ≡ some w) × (is_business_day q.calendar w ≡ true)
unfolding choose
Sourced-open q (d ∷ ds) ts named r = Reports-open _ _ _ _ r
Sourced-open q [] (t ∷ ts) named r = Reports-open _ _ _ _ r
Sourced-open q [] [] (some d) r = Reports-open _ _ _ _ r
Sourced-open q [] [] none r = Reports-open _ _ _ _ r

-- The answer is a business day of the calendar, if each date that the deciding source gave is a business
-- day or has one among the thirty days before it.
pub resolve-open :
    (q : Request) (r : Resolution)
    → All (OpensBack q.calendar) (candidates q)
    → resolve q ≡ some r
    → (w : Date) × (r.resolved ≡ some w) × (is_business_day q.calendar w ≡ true)
resolve-open q r open_days h =
    Sourced-open q (explicit_dates q) (trade_dates q) (date_from_filename q.filename) r open_days
      (resolved-Sourced q r h)

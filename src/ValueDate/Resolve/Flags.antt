-- ===== src/ValueDate/Resolve/Flags.antt =====
-- What `resolve` returns on each of its branches: it always returns, the strongest source that is not
-- silent decides, and a filename that disagrees is always flagged.
use harbormaster.Prelude.{
  ℕ, ◌≤◌, ◌≡◌, ◌≢◌, ◌↔◌, refl, sym, ap, ◌∙◌, inl, inr, true, not, Option, none, some, List, [], ◌∷◌,
  arith, ◌==◌, Bool-cases,
}
use mathlib.Core.Path.{subst}
use mathlib.Core.Option.{some-injective}
use harbormaster.Prelude.Counter.{
  counter, count, most_common, most_common-total, most_common-counter,
}
use harbormaster.Dates.{Date, date_eq, date_beq_iff}
use harbormaster.Calendar.{Calendar, roll, previous_business_day}
use harbormaster.ValueDate.Parse.{date_from_filename}
use harbormaster.ValueDate.Resolve.{
  Method, content_explicit, content_inferred, filename, arrival_minus_calendar, Resolution,
  Findings, Request, finish, finish_with, choose, resolve, explicit_dates, trade_dates, disagrees,
  sorted_set, settle,
}

-- `d` occurs in the list, and no date occurs more often.
pub record IsDominant (d : Date) (ds : List Date) : Type 0 where
  pub occurs : 1 ≤ count d ds
  pub no_more : (e : Date) → count e ds ≤ count d ds

-- What a resolution says of the candidates that it was made from: the dominant date, rolled onto a
-- business day, is the answer; the distinct dates are kept; and the filename's date is flagged just when
-- it is there and is not the answer.
pub record Reports (c : Calendar) (m : Method) (ds : List Date) (named : Option Date)
    (r : Resolution) : Type 0 where
  pub mode : Date
  pub dominant : IsDominant mode ds
  pub rolled : r.resolved ≡ some (roll c mode "PRECEDING")
  pub by_method : r.method ≡ m
  pub names : r.from_filename ≡ named
  pub content : r.from_content ≡ sorted_set ds
  pub flagged : r.mismatch_flagged ≡ disagrees named (roll c mode "PRECEDING")

abbrev FinishReports : Findings → Type 0
FinishReports f =
    (r : Resolution) × (finish f ≡ some r)
    × Reports f.calendar f.method f.candidates f.filename_date r

finish_top :
    (f : Findings) (m : Date) (n : ℕ)
    → most_common (counter f.candidates) ≡ some (m, n)
    → IsDominant m f.candidates
    → FinishReports f
unfolding finish finish_with
finish_top f m n top dominant = (
  finish_with f (m, n),
  rw (top, finish),
  record {
    mode = m;
    dominant = dominant;
    rolled = refl;
    by_method = refl;
    names = refl;
    content = refl;
    flagged = refl;
  },
)

count_head : (d : Date) (ds : List Date) → 1 ≤ count d (d ∷ ds)
count_head d ds = rw ((date_beq_iff d d).1 refl) (omega arith)

top-IsDominant :
    (d : Date) (ds : List Date) (m : Date) (n : ℕ)
    → most_common (counter (d ∷ ds)) ≡ some (m, n)
    → IsDominant m (d ∷ ds)
top-IsDominant d ds m n top =
    let (is, no_more) = most_common-counter (d ∷ ds) m n top in
    record {
      occurs = omega (arith, is, no_more d, count_head d ds);
      no_more = λ e. omega (arith, is, no_more e);
    }

finish-Reports :
    (f : Findings) (d : Date) (ds : List Date) → f.candidates ≡ d ∷ ds → FinishReports f
finish-Reports f d ds e =
    let ((m, n), top) = most_common-total d ds in
    finish_top f m n (ap (λ l. most_common (counter l)) e ∙ top)
      (subst (IsDominant m) (sym e) (top-IsDominant d ds m n top))

-- Which source decides: the first that is not silent of a value date in the contents, a trade date moved
-- by the settlement offset, the filename, and the arrival day.
abbrev pub Sourced : Request → List Date → List Date → Option Date → Resolution → Type 0
Sourced q (d ∷ ds) trades named = Reports q.calendar content_explicit (d ∷ ds) named
Sourced q [] (t ∷ ts) named =
    Reports q.calendar content_inferred (settle q.calendar q.settlement_offset_days (t ∷ ts)) named
Sourced q [] [] (some d) = Reports q.calendar filename (d ∷ []) (some d)
Sourced q [] [] none =
    Reports q.calendar arrival_minus_calendar (previous_business_day q.calendar q.arrival_day ∷ [])
      none

choose-Sourced :
    (q : Request) (es ts : List Date) (named : Option Date)
    → (r : Resolution) × (finish (choose q es ts named) ≡ some r) × Sourced q es ts named r
unfolding choose settle
choose-Sourced q (d ∷ ds) ts named = finish-Reports (choose q (d ∷ ds) ts named) d ds refl
choose-Sourced q [] (t ∷ ts) named = finish-Reports (choose q [] (t ∷ ts) named) _ _ refl
choose-Sourced q [] [] (some d) = finish-Reports (choose q [] [] (some d)) d [] refl
choose-Sourced q [] [] none = finish-Reports (choose q [] [] none) _ [] refl

-- A resolution is always returned, and it reports the strongest source that is not silent.
pub resolve-Sourced :
    (q : Request)
    → (r : Resolution) × (resolve q ≡ some r)
      × Sourced q (explicit_dates q) (trade_dates q) (date_from_filename q.filename) r
unfolding resolve
resolve-Sourced q =
    choose-Sourced q (explicit_dates q) (trade_dates q) (date_from_filename q.filename)

disagrees_iff :
    (named : Option Date) (w : Date)
    → (disagrees named w ≡ true) ↔ ((f : Date) × (named ≡ some f) × (w ≢ f))
disagrees_iff none w = (λ h. cc, λ h. cc (h.1))
disagrees_iff (some f) w = (
  λ h. (f, refl, λ e. cc (sym ((date_beq_iff f w).1 (sym e)), h)),
  λ h. elim (Bool-cases (f == w)) [
    | inl same ↦ absurd (h.2 (sym ((date_beq_iff f w).0 same) ∙ some-injective f h.0 h.1))
    | inr differ ↦ ap not differ
  ],
)

Sourced-named :
    (q : Request) (es ts : List Date) (named : Option Date) (r : Resolution)
    → Sourced q es ts named r
    → (w : Date) × (r.resolved ≡ some w)
      × (r.from_filename ≡ named)
      × (r.mismatch_flagged ≡ disagrees named w)
Sourced-named q (d ∷ ds) ts named r s = (_, s.rolled, s.names, s.flagged)
Sourced-named q [] (t ∷ ts) named r s = (_, s.rolled, s.names, s.flagged)
Sourced-named q [] [] (some d) r s = (_, s.rolled, s.names, s.flagged)
Sourced-named q [] [] none r s = (_, s.rolled, s.names, s.flagged)

-- What a call returned is what the sources report.
pub resolved-Sourced :
    (q : Request) (r : Resolution)
    → resolve q ≡ some r
    → Sourced q (explicit_dates q) (trade_dates q) (date_from_filename q.filename) r
resolved-Sourced q r h =
    let (s, is, sourced) = resolve-Sourced q in
    subst (Sourced q (explicit_dates q) (trade_dates q) (date_from_filename q.filename))
      (some-injective s r (sym is ∙ h)) sourced

-- The date in the filename is reported, and it is flagged exactly when it is not the answer.
pub resolve_flags :
    (q : Request) (r : Resolution)
    → resolve q ≡ some r
    → (r.from_filename ≡ date_from_filename q.filename)
      × ((r.mismatch_flagged ≡ true)
          ↔ ((f : Date) × (r.from_filename ≡ some f) × (r.resolved ≢ some f)))
resolve_flags q r h =
    let (w, is, names, flagged) =
      Sourced-named q (explicit_dates q) (trade_dates q) (date_from_filename q.filename) r
        (resolved-Sourced q r h) in
    let iff = disagrees_iff (date_from_filename q.filename) w in
    (
      names,
      (
        λ raised.
            let (f, named, differ) = iff.0 (sym flagged ∙ raised) in
            (f, names ∙ named, λ e. differ (some-injective w f (sym is ∙ e))),
        λ (f, named, differ). flagged ∙ iff.1 (f, sym names ∙ named, λ e. differ (is ∙ ap some e)),
      ),
    )

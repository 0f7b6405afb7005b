-- ===== src/ValueDate/Resolve.antt =====
-- `resolve` and `_finish` of python/src/inspector/valuedate.py. Confidences are whole thousandths: the
-- code's two-decimal constants, a factor of 0.9, a penalty of 0.10 and a rounding to three decimals
-- stay on that grid, so that the float result is the number written here.
pub mod Flags
pub mod Business
use harbormaster.Prelude.{
  ℕ, zero, suc, ◌+◌, ◌-◌, ◌*◌, min, Bool, true, false, not, ◌&&◌, ◌||◌, Option, none, some, List,
  [], ◌∷◌, ◌++◌, map, length, String, ◌<>◌, Eq, nat_eq, string_eq, ◌==◌, ltb, if◌then◌else◌,
  is_empty,
}
use harbormaster.Prelude.Int.{ℤ, pos, negsuc}
use harbormaster.Prelude.Text.{is_blank, repr, round_div, percent, join, str_of_nat}
use harbormaster.Prelude.Counter.{counter, most_common}
use harbormaster.Dates.{Date, date_eq, date_lt, isoformat}
use harbormaster.Calendar.{Calendar, add_business_days, holiday_name, previous_business_day, roll}
use harbormaster.ValueDate.Parse.{date_from_filename}
use harbormaster.ValueDate.Columns.{Row, find_value_date_column, find_trade_date_column, dates_of}

pub data Method : Type 0 where
  content_explicit content_inferred filename arrival_minus_calendar llm_adjudicated human : Method

-- `CONF_CONTENT_EXPLICIT` and the others, `ROLL_PENALTY`
abbrev pub conf_content_explicit : ℕ
conf_content_explicit = 970

abbrev pub conf_content_inferred : ℕ
conf_content_inferred = 850

abbrev pub conf_filename : ℕ
conf_filename = 700

abbrev pub conf_arrival : ℕ
conf_arrival = 550

abbrev pub roll_penalty : ℕ
roll_penalty = 100

pub record Resolution : Type 0 where
  pub resolved : Option Date
  pub method : Method
  pub confidence : ℕ
  pub from_filename : Option Date
  pub from_content : List Date
  pub from_arrival : Option Date
  pub mismatch_flagged : Bool
  pub calendar_id : String
  pub notes : String

abbrev pub resolved_iso : Resolution → String
resolved_iso r = elim r.resolved [ none ↦ "" | some d ↦ isoformat d ]

-- `sorted(set(candidates))`
unfoldable pub insert_date : Date → List Date → List Date
insert_date d [] = d ∷ []
insert_date d (e ∷ es) =
    if d == e then e ∷ es else if date_lt d e then d ∷ e ∷ es else e ∷ insert_date d es

unfoldable pub sorted_set : List Date → List Date
sorted_set [] = []
sorted_set (d ∷ ds) = insert_date d (sorted_set ds)

-- `candidates`, `method`, `base_confidence`, `filename_date`, `arrival_day`, `calendar`, `note`
pub record Findings : Type 0 where
  pub candidates : List Date
  pub method : Method
  pub base_confidence : ℕ
  pub filename_date : Option Date
  pub arrival_day : Date
  pub calendar : Calendar
  pub note : String

-- The confidence in ten thousandths, clamped to the unit interval, and its rounding to three decimals.
unfoldable pub ten_thousandths : ℕ → Bool → Bool → ℕ
ten_thousandths base several rolled =
    let shared = if several then base * 9 else base * 10 in
    let less = if rolled then shared - roll_penalty * 10 else shared in min less 10000

unfoldable pub finish_confidence : ℕ → Bool → Bool → ℕ
finish_confidence base several rolled = round_div (ten_thousandths base several rolled) 10

abbrev pub disagrees : Option Date → Date → Bool
disagrees none winner = false
disagrees (some f) winner = not (f == winner)

span_note : ℕ → ℕ → ℕ → Date → String
unfolding str_of_nat isoformat percent
span_note several count total winner =
    "contents span "
    <> (str_of_nat several
        <> (" value dates; "
            <> (isoformat winner <> (" covers " <> (percent count total <> " of rows")))))

roll_note : Calendar → Date → Date → String
unfolding isoformat holiday_name
roll_note c winner rolled =
    let name = holiday_name c winner in
    isoformat winner
    <> (" was not a business day ("
        <> ((if is_blank name then "a weekend" else name)
            <> ("); rolled back to " <> isoformat rolled)))

mismatch_note : Option Date → Date → List String
unfolding isoformat
mismatch_note none winner = []
mismatch_note (some f) winner =
    if f == winner
    then []
    else ("filename says "
        <> (isoformat f <> (" but the contents resolve to " <> isoformat winner)))
      ∷ []

unfoldable pub notes_of : Findings → Date → ℕ → String
unfolding span_note roll_note mismatch_note roll join sorted_set insert_date
notes_of f mode count =
    let several = length (sorted_set f.candidates) in
    let rolled = roll f.calendar mode "PRECEDING" in
    join "; " (
      (f.note ∷ [])
      ++ ((if ltb 1 several then span_note several count (length f.candidates) mode ∷ [] else [])
          ++ ((if rolled == mode then [] else roll_note f.calendar mode rolled ∷ [])
              ++ mismatch_note f.filename_date rolled)))

-- `_finish` once the dominant date is known
unfoldable pub finish_with : Findings → Date × ℕ → Resolution
finish_with f (mode, count) =
    let distinct = sorted_set f.candidates in
    let winner = roll f.calendar mode "PRECEDING" in
    record {
      resolved = some winner;
      method = f.method;
      confidence =
          finish_confidence f.base_confidence (ltb 1 (length distinct)) (not (winner == mode));
      from_filename = f.filename_date;
      from_content = distinct;
      from_arrival = some f.arrival_day;
      mismatch_flagged = disagrees f.filename_date winner;
      calendar_id = f.calendar.calendar_id;
      notes = notes_of f mode count;
    }

-- `_finish`; `none` for the IndexError that an empty list of candidates would raise
unfoldable pub finish : Findings → Option Resolution
finish f = elim (most_common (counter f.candidates)) [
  | none ↦ none
  | some top ↦ some (finish_with f top)
]

-- What `resolve` is called with.
pub record Request : Type 0 where
  pub headers : List String
  pub rows : List Row
  pub filename : String
  pub arrival_day : Date
  pub calendar : Calendar
  pub hints : List String
  pub settlement_offset_days : ℤ

abbrev pub or_unnamed : Option String → String
or_unnamed none = ""
or_unnamed (some s) = s

offset_text : ℤ → String
unfolding str_of_nat
offset_text (pos n) = str_of_nat n
offset_text (negsuc n) = "-" <> str_of_nat (n + 1)

explicit_note : Option String → String
unfolding repr
explicit_note column = "value date read from column " <> repr (or_unnamed column)

inferred_note : Option String → ℤ → String
unfolding repr offset_text
inferred_note column offset =
    "no value-date column; inferred from "
    <> (repr (or_unnamed column)
        <> (" plus T+" <> (offset_text offset <> " on this client's calendar")))

abbrev pub explicit_dates : Request → List Date
explicit_dates q = dates_of q.rows (find_value_date_column q.headers q.hints)

abbrev pub trade_dates : Request → List Date
trade_dates q = dates_of q.rows (find_trade_date_column q.headers)

unfoldable pub settle : Calendar → ℤ → List Date → List Date
settle c n [] = []
settle c n (d ∷ ds) = add_business_days c d n ∷ settle c n ds

abbrev found : Request → List Date → Method → ℕ → Option Date → String → Findings
found q ds m conf named note = record {
  candidates = ds;
  method = m;
  base_confidence = conf;
  filename_date = named;
  arrival_day = q.arrival_day;
  calendar = q.calendar;
  note = note;
}

-- The arguments of `_finish` on each branch of `resolve`, from the explicit dates, the trade dates and
-- the date in the filename: the patterns are the tests of the code.
unfoldable pub choose : Request → List Date → List Date → Option Date → Findings
unfolding explicit_note inferred_note
choose q (d ∷ ds) trades named =
    found q (d ∷ ds) content_explicit conf_content_explicit named
      (explicit_note (find_value_date_column q.headers q.hints))
choose q [] (t ∷ ts) named =
    found q (settle q.calendar q.settlement_offset_days (t ∷ ts)) content_inferred
      conf_content_inferred named
      (inferred_note (find_trade_date_column q.headers) q.settlement_offset_days)
choose q [] [] (some d) =
    found q (d ∷ []) filename conf_filename (some d)
      "file contents carried no date; fell back to the filename"
choose q [] [] none =
    found q (previous_business_day q.calendar q.arrival_day ∷ []) arrival_minus_calendar
      conf_arrival none "no date found in the filename or the contents"

unfoldable pub resolve : Request → Option Resolution
unfolding choose
resolve q = finish (choose q (explicit_dates q) (trade_dates q) (date_from_filename q.filename))

-- ===== src/ValueDate/Parse/Laws.antt =====
-- What `parse_date` can return, and the months that it cannot read.
use Prim.Native.Char.{Char, code}
use text.Mathlib.TextEquality.{Char-path}
use harbormaster.Prelude.{
  ℕ, ◌+◌, ◌-◌, ◌≤◌, ◌<◌, ◌≡◌, refl, true, false, not, ◌||◌, Option, none, some, List, [], ◌∷◌,
  String, ◌==◌, nat_eq, arith, is_some, all_under, all_under_at, Option-cases, inl, inr,
}
use harbormaster.Prelude.Text.{is_digit, is_space, digit_char, strip, lstrip, rstrip, char_eq}
use harbormaster.Dates.{Date, date, IsValid}
use harbormaster.ValueDate.Parse.{
  Directive, Step, accept, strptime, scan, try_formats, date_formats, before_time, parse_date,
  date_from_filename, readers,
}

-- A day that the services may read: a day of the calendar, in the years 1990 to 2100.
pub record IsReadable (t : Date) : Type 0 where
  pub valid : IsValid t
  pub years : (1990 ≤ t.year) × (t.year ≤ 2100)

accept-IsValid : (r : Step) (t : Date) → accept r ≡ some t → IsValid t
unfolding accept
accept-IsValid [] t h = cc
accept-IsValid ((u, s) ∷ r) t h = ground arith

try_formats-IsReadable :
    (fs : List (List Directive)) (raw : String) (t : Date)
    → try_formats fs raw ≡ some t
    → IsReadable t
unfolding try_formats
try_formats-IsReadable [] raw t h = cc
try_formats-IsReadable (f ∷ fs) raw t h = elim (Option-cases (strptime f raw)) [
  | inl failed ↦ try_formats-IsReadable fs raw t (rw (failed, try_formats) at h)
  | inr (u, found) ↦ ground (
    arith,
    try_formats-IsReadable fs raw t,
    accept-IsValid (scan f (date 1900 1 1) raw) u (unfold strptime in found),
  )
]

-- Every date that is read from a text is a day of the calendar, in the years 1990 to 2100.
pub parse_date-IsReadable : (text : String) (t : Date) → parse_date text ≡ some t → IsReadable t
unfolding parse_date
parse_date-IsReadable text t h =
    ground (arith, try_formats-IsReadable date_formats (strip (before_time (strip text))) t)

digit_codes : all_under (λ n. code (digit_char n) == n + 48) 10 ≡ true
unfolding all_under digit_char
digit_codes = refl

digit_under : (n : ℕ) → n < 10 → (code (digit_char n) == n + 48) ≡ true
digit_under n small = all_under_at _ 10 n small digit_codes

digit-digit_char : (c : Char) → is_digit c ≡ true → c ≡ digit_char (code c - 48)
digit-digit_char c h = Char-path c _ (ground (arith, digit_under (code c - 48)))

october_table :
    all_under
      (λ i.
        all_under
          (λ j. not (
            is_some (
              try_formats date_formats
                (String.◌∷◌ (digit_char i) (String.◌∷◌ (digit_char j) "OC")))))
          10)
      10
    ≡ true
unfolding all_under digit_char try_formats strptime
october_table = refl

not-is_some {ℓ} : {A : Type ℓ} (o : Option A) → not (is_some o) ≡ true → o ≡ none
not-is_some none h = refl
not-is_some (some a) h = cc

october_unreadable_at :
    (i j : ℕ)
    → i < 10
    → j < 10
    → try_formats date_formats (String.◌∷◌ (digit_char i) (String.◌∷◌ (digit_char j) "OC")) ≡ none
october_unreadable_at i j hi hj =
    not-is_some _ (all_under_at _ 10 j hj (all_under_at _ 10 i hi october_table))

digit_not_space :
    (c : Char)
    → is_digit c ≡ true
    → (is_space c ≡ false) × ((char_eq c "T" || char_eq c " ") ≡ false)
digit_not_space c h = (ground arith, ground arith)

module _ (a b : Char) (ha : is_digit a ≡ true) (hb : is_digit b ≡ true) where
  strip_day :
      (s : String)
      → strip (String.◌∷◌ a (String.◌∷◌ b (String.◌∷◌ "O" (String.◌∷◌ "C" s))))
        ≡ String.◌∷◌ a (String.◌∷◌ b (String.◌∷◌ "O" (String.◌∷◌ "C" (rstrip s))))
  unfolding strip lstrip rstrip
  strip_day s = simp ((digit_not_space a ha).0, (digit_not_space b hb).0)

  before_time_day :
      (s : String)
      → before_time
          (String.◌∷◌ a (String.◌∷◌ b (String.◌∷◌ "O" (String.◌∷◌ "C" (String.◌∷◌ "T" s)))))
        ≡ String.◌∷◌ a (String.◌∷◌ b "OC")
  unfolding before_time
  before_time_day s = simp ((digit_not_space a ha).1, (digit_not_space b hb).1)

  strip_short : strip (String.◌∷◌ a (String.◌∷◌ b "OC")) ≡ String.◌∷◌ a (String.◌∷◌ b "OC")
  unfolding strip lstrip rstrip
  strip_short = simp ((digit_not_space a ha).0, (digit_not_space b hb).0)

  october_unreadable : try_formats date_formats (String.◌∷◌ a (String.◌∷◌ b "OC")) ≡ none
  october_unreadable =
      rw (digit-digit_char a ha, digit-digit_char b hb)
        (october_unreadable_at (code a - 48) (code b - 48) (ground arith) (ground arith))

-- A day in October that writes its month in capitals is not read, whatever follows: the `T` of `OCT`
-- is taken for the mark between a date and a time.
pub parse_date-oct :
    (a b : Char) (rest : String)
    → is_digit a ≡ true
    → is_digit b ≡ true
    → parse_date
        (String.◌∷◌ a (String.◌∷◌ b (String.◌∷◌ "O" (String.◌∷◌ "C" (String.◌∷◌ "T" rest)))))
      ≡ none
unfolding parse_date rstrip
parse_date-oct a b rest ha hb = simp (
  strip_day a b ha hb,
  before_time_day a b ha hb,
  strip_short a b ha hb,
  october_unreadable a b ha hb,
)

reads :
    (parse_date " 2026-08-31T17:30:00Z " ≡ some (date 2026 8 31))
    × (parse_date "31/08/2026" ≡ some (date 2026 8 31))
    × (parse_date "08/31/2026" ≡ some (date 2026 8 31))
    × (parse_date "31AUG2026" ≡ some (date 2026 8 31))
    × (parse_date "31OCT2026" ≡ none)
    × (parse_date "202611" ≡ some (date 2026 1 1))
    × (parse_date "29/02/2026" ≡ none)
    × (date_from_filename "MCP_TRD_20260831.csv" ≡ some (date 2026 8 31))
    × (date_from_filename "MCP_TRD_120260831.csv" ≡ none)
    × (date_from_filename "x 31AUG2026" ≡ some (date 2026 8 31))
unfolding readers
reads = (refl, refl, refl, refl, refl, refl, refl, refl, refl, refl)

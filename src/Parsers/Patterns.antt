-- ===== src/Parsers/Patterns.antt =====
-- Regular expressions as `re` matches them: a pattern goes through its ways in the order of their preference, and a
-- search takes the first place that matches.
use Prim.Native.Char.{Char}
use harbormaster.Prelude.{
  ℕ, zero, suc, ◌-◌, Bool, true, false, not, ◌||◌, Option, none, some, List, [], ◌∷◌, ◌++◌, String,
  nat_eq, if◌then◌else◌,
}
use harbormaster.Prelude.Text.{char_eq, is_alnum, size, take_chars, drop_chars, starts_with}

-- What is ahead, and whether a letter, a digit or an underscore is behind.
pub record Place : Type 0 where
  pub after_word : Bool
  pub ahead : String

abbrev pub place : Bool → String → Place
place w s = record { after_word = w; ahead = s }

abbrev pub Ways : Type 0
Ways = Place → List Place

abbrev pub is_word : Char → Bool
is_word c = is_alnum c || char_eq c "_"

unfoldable each : Ways → List Place → List Place
each f [] = []
each f (p ∷ ps) = f p ++ each f ps

-- one character
abbrev next_char : (Char → Bool) → String → List Place
next_char test String.[] = []
next_char test (String.◌∷◌ c s) = if test c then place (is_word c) s ∷ [] else []

abbrev pub char : (Char → Bool) → Ways
char test p = next_char test p.ahead

-- one pattern behind another, and one or the other
unfoldable pub both : Ways → Ways → Ways
unfolding each
both f g p = each g (f p)

abbrev pub either : Ways → Ways → Ways
either f g p = f p ++ g p

abbrev pub optional : Ways → Ways
optional f p = f p ++ p ∷ []

-- from `lo` to `hi` times, as often as it can be
unfoldable pub times : ℕ → ℕ → Ways → Ways
unfolding each
times zero zero f p = p ∷ []
times (suc lo) zero f p = []
times zero (suc hi) f p = each (times zero hi f) (f p) ++ p ∷ []
times (suc lo) (suc hi) f p = each (times lo hi f) (f p)

-- `*` and `+`, for a pattern that takes a character at least: no more rounds than there are characters
abbrev pub any_times : Ways → Ways
unfolding times
any_times f p = times 0 (size p.ahead) f p

abbrev pub some_times : Ways → Ways
unfolding times
some_times f p = times 1 (size p.ahead) f p

-- a text as it stands
abbrev last_word : Bool → String → Bool
last_word w String.[] = w
last_word w (String.◌∷◌ c s) = last_word (is_word c) s

abbrev pub literal : String → Ways
unfolding starts_with drop_chars
literal t p =
    if starts_with p.ahead t
    then place (last_word p.after_word t) (drop_chars (size t) p.ahead) ∷ []
    else []

abbrev starts_word : String → Bool
starts_word String.[] = false
starts_word (String.◌∷◌ c s) = is_word c

-- `\b`
abbrev same : Bool → Bool → Bool
same true b = b
same false b = not b

abbrev pub boundary : Ways
boundary p = if same p.after_word (starts_word p.ahead) then [] else p ∷ []

abbrev starts_as : (Char → Bool) → String → Bool
starts_as test String.[] = false
starts_as test (String.◌∷◌ c s) = test c

-- `(?!…)` of one character
abbrev pub not_before : (Char → Bool) → Ways
not_before test p = if starts_as test p.ahead then [] else p ∷ []

-- the text between two places
unfoldable pub between_places : Place → Place → String
unfolding take_chars
between_places p q = take_chars (size p.ahead - size q.ahead) p.ahead

abbrev first_text : Place → List Place → Option String
unfolding between_places
first_text p [] = none
first_text p (q ∷ qs) = some (between_places p q)

unfoldable search_from : Ways → Bool → String → Option String
unfolding between_places
search_from f w String.[] = first_text (place w String.[]) (f (place w String.[]))
search_from f w (String.◌∷◌ c s) =
    elim (first_text (place w (String.◌∷◌ c s)) (f (place w (String.◌∷◌ c s)))) [
      | none ↦ search_from f (is_word c) s
      | some t ↦ some t
    ]

-- `pattern.search(text)`: what it matches
unfoldable pub search : Ways → String → Option String
unfolding search_from
search f text = search_from f false text

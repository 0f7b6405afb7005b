-- ===== src/Mapping/Tier2.antt =====
-- python/src/inspector/mapping/tier2.py: local matching of the headers that the dictionary does not know.
-- The embedding model and the fuzzy matcher are libraries: what they return is a parameter, and the model
-- is there for the whole of a run or not at all. Scores are
-- millionths; a confidence is worked out in hundred-millionths and rounded to thousandths.
pub mod Accept
use Prim.Native.Char.{Char}
use harbormaster.Prelude.{
  ℕ, zero, suc, ◌+◌, ◌-◌, ◌*◌, min, Bool, true, false, not, ◌&&◌, ◌||◌, Option, none, some, List,
  [], ◌∷◌, ◌++◌, filter, get_elem?, is_empty, String, ◌<>◌, Eq, string_eq, option_eq, ◌==◌,
  contains, ltb, leb, if◌then◌else◌,
}
use harbormaster.Prelude.Text.{
  char_eq, is_upper, is_blank, lower, strip, join, round_div, fixed_two,
}
use harbormaster.Prelude.Dict.{Dict}
use harbormaster.Canonical.{mappable_fields, normalize_header}
use harbormaster.Canonical.Aliases.{field_aliases}

abbrev pub field_descriptions : Dict String String
field_descriptions =
    ("account_id", "the client account or portfolio identifier the record belongs to")
    ∷ ("account_name", "the human readable name of the account or fund")
    ∷ ("trade_id", "the unique reference identifying this trade or transaction")
    ∷ ("instrument_id", "the security identifier, ticker, ISIN, CUSIP or contract code")
    ∷ ("instrument_type", "the asset class or product type of the security")
    ∷ ("trade_date", "the date the trade was executed or booked")
    ∷ ("quantity", "the number of shares, units, contracts or nominal amount")
    ∷ ("trade_price", "the price at which the trade was executed")
    ∷ ("settlement_price", "the official closing, settlement or mark to market price")
    ∷ ("gross_amount", "the gross consideration or principal before fees")
    ∷ ("net_amount", "the net cash amount, proceeds or settlement value")
    ∷ ("market_value", "the current market or fair value of the position")
    ∷ ("currency", "the ISO currency code the amounts are denominated in")
    ∷ ("side", "whether the transaction is a buy or a sell, long or short")
    ∷ ("source_system", "the venue, exchange or system the record originated from")
    ∷ []

-- `MIN_ACCEPT`, `_MAX_CONFIDENCE`, `_AGREEMENT_BONUS`, in hundred-millionths
abbrev pub min_accept : ℕ
min_accept = 72000000

abbrev pub max_confidence : ℕ
max_confidence = 88000000

abbrev pub agreement_bonus : ℕ
agreement_bonus = 6000000

-- What the libraries tell: whether the model is there, one more than the cosine of a text and a
-- description, and the best of some texts for a text, with its score and its place.
pub record Signals : Type 0 where
  pub available : Bool
  pub nearness : String → String → ℕ
  pub extract_one : String → List String → Option (ℕ × ℕ)

pub record LocalMatch : Type 0 where
  pub canonical_field : Option String
  pub confidence : ℕ
  pub evidence : String
  pub degraded : Bool

abbrev is_separator : Char → Bool
is_separator c =
    char_eq c "_"
    || (char_eq c "-" || (char_eq c "." || (char_eq c "/" || (char_eq c "\\" || char_eq c "|"))))

-- `if buffer: out.append(buffer)`
abbrev flush : List String → String → List String
flush out buffer = if is_blank buffer then out else out ++ buffer ∷ []

-- The loop of `_readable`, with whether the last character of the buffer is a capital.
split_words : List String → String → Bool → String → List String
split_words out buffer capital String.[] = flush out buffer
split_words out buffer capital (String.◌∷◌ c s) =
    if is_separator c
    then split_words (flush out buffer) "" false s
    else if is_upper c && (not (is_blank buffer) && not capital)
    then split_words (out ++ buffer ∷ []) (String.◌∷◌ c "") true s
    else split_words out (buffer <> String.◌∷◌ c "") (is_upper c) s

lower_all : List String → List String
lower_all [] = []
lower_all (s ∷ r) = lower s ∷ lower_all r

unfoldable pub readable : String → String
unfolding split_words lower_all join strip lower
readable header =
    let words = strip (join " " (lower_all (split_words [] "" false header))) in
    if is_blank words then lower header else words

-- `EmbeddingMatcher.best`: the loop keeps the first of the largest; its score is the cosine, or 0.
best_from : Signals → String → Option String × ℕ → Dict String String → Option String × ℕ
best_from s text best [] = best
best_from s text best ((field, description) ∷ r) =
    best_from s text
      (if is_better best.0 best.1 (s.nearness text description)
        then (some field, s.nearness text description)
        else best)
      r
  where
    is_better : Option String → ℕ → ℕ → Bool
    is_better none old new = true
    is_better (some _) old new = ltb old new

unfoldable pub best : Signals → String → Option String × ℕ
unfolding best_from readable
best s header =
    let (field, n) = best_from s (readable header) (none, 0) field_descriptions in
    if s.available then (field, n - 1000000) else (none, 0)

-- `_alias_corpus`
with_field : String → List String → List (String × String)
with_field field [] = []
with_field field (a ∷ as') = (a, field) ∷ with_field field as'

corpus_of : Dict String (List String) → List (String × String)
unfolding with_field
corpus_of [] = []
corpus_of ((field, aliases) ∷ r) =
    let rest = corpus_of r in
    if contains mappable_fields field
    then (field, field) ∷ (with_field field aliases ++ rest)
    else rest

unfoldable pub alias_corpus : List (String × String)
unfolding corpus_of
alias_corpus = corpus_of field_aliases

texts_of : List (String × String) → List String
texts_of [] = []
texts_of ((a, field) ∷ r) = a ∷ texts_of r

abbrev pub chosen : Option (String × String) → ℕ → Option String × ℕ
chosen none n = (none, 0)
chosen (some (a, field)) n = (some field, n)

-- what `extractOne` points at; a place that is not in the list counts as no answer
unfoldable pub pick : List (String × String) → Option (ℕ × ℕ) → Option String × ℕ
pick candidates none = (none, 0)
pick candidates (some (n, place)) = chosen (get_elem? candidates place) n

abbrev pub untaken : List String → List (String × String) → List (String × String)
untaken taken pairs = filter (λ e. not (contains taken e.1)) pairs

-- `_fuzzy`
unfoldable pub fuzzy : Signals → String → List String → Option String × ℕ
unfolding texts_of
fuzzy s header taken =
    let normalized = normalize_header header in
    let candidates = untaken taken alias_corpus in
    if is_blank normalized
    then (none, 0)
    else if is_empty candidates
    then (none, 0)
    else pick candidates (s.extract_one normalized (texts_of candidates))

-- `f"{score:.2f}"`
abbrev pub shown : ℕ → String
shown score = fixed_two score 1000000

abbrev pub or_none : Option String → String
or_none none = "None"
or_none (some f) = f

abbrev pub declined : String → Bool → LocalMatch
declined evidence degraded = record {
  canonical_field = none;
  confidence = 0;
  evidence = evidence;
  degraded = degraded;
}

abbrev pub matched : String → ℕ → String → Bool → LocalMatch
matched field combined evidence degraded = record {
  canonical_field = some field;
  confidence = round_div combined 100000;
  evidence = evidence;
  degraded = degraded;
}

-- a field if its score is high enough
unfoldable pub accept : Option String → ℕ → String → String → Bool → LocalMatch
accept none combined evidence refusal degraded = declined refusal degraded
accept (some field) combined evidence refusal degraded =
    if ltb combined min_accept
    then declined refusal degraded
    else matched field combined evidence degraded

-- One signal alone is discounted.
abbrev pub discounted : ℕ → ℕ
discounted score = min (score * 92) max_confidence

abbrev pub corroborated : ℕ → ℕ → ℕ
corroborated fuzzy_score semantic_score =
    min (fuzzy_score * 55 + semantic_score * 45 + agreement_bonus) max_confidence

abbrev below_threshold : String → ℕ → String
below_threshold field combined =
    "best local candidate "
    <> (field <> (" scored " <> (fixed_two combined 100000000 <> ", below the 0.72 threshold")))

abbrev scores_note : ℕ → ℕ → String
scores_note f g = "(fuzzy " <> (shown f <> (", semantic " <> (shown g <> ")")))

-- The decision of `match` on the two signals; a semantic field that is taken has been dropped.
unfoldable pub combine : Bool → Option String × ℕ → Option String × ℕ → LocalMatch
combine degraded (field, f) (none, g) =
    accept field (discounted f)
      ("fuzzy match to alias vocabulary at "
        <> (shown f <> (if degraded then " (semantic matcher unavailable)" else "")))
      ("no local match above 0.72 (best fuzzy "
        <> (shown f <> ((if degraded then ", semantic matcher unavailable" else "") <> ")")))
      degraded
combine degraded (field, f) (some meant, g) =
    if field == some meant
    then accept (some meant) (corroborated f g)
        ("fuzzy and semantic agree on " <> (meant <> (" " <> scores_note f g)))
        (below_threshold meant (corroborated f g)) degraded
    else if leb g f
    then accept field (discounted f)
        ("fuzzy match at "
          <> (shown f <> ("; semantic preferred " <> (meant <> (" at " <> shown g)))))
        "fuzzy and semantic disagree below threshold" degraded
    else accept (some meant) (discounted g)
        ("semantic match at "
          <> (shown g <> ("; fuzzy preferred " <> (or_none field <> (" at " <> shown f)))))
        (below_threshold meant (discounted g)) degraded

-- `if semantic_field in taken: semantic_field, semantic_score = None, 0.0`
unfoldable pub drop_taken : List String → Option String × ℕ → Option String × ℕ
drop_taken taken (none, g) = (none, g)
drop_taken taken (some meant, g) = if contains taken meant then (none, 0) else (some meant, g)

-- `Tier2Matcher.match`
unfoldable pub match_local : Signals → String → List String → LocalMatch
match_local s header taken =
    combine (not s.available) (fuzzy s header taken) (drop_taken taken (best s header))

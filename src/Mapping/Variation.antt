-- ===== src/Mapping/Variation.antt =====
-- `variation_ratio`, `_settlement_preference`, `_trade_preference` and `_price_conf` of
-- python/src/inspector/mapping/tier1.py. A ratio is the fraction that the code divides out; the code's
-- comparisons are made crosswise.
pub mod Order
use harbormaster.Prelude.{
  ℕ, ◌+◌, ◌-◌, ◌*◌, ◌≡◌, refl, min, Bool, not, ◌||◌, Option, none, some, List, [], ◌∷◌, ◌++◌, map,
  length, filter, any, is_empty, String, nat_eq, string_eq, ◌==◌, contains, ltb, leb, if◌then◌else◌,
}
use harbormaster.Prelude.Text.{is_blank, strip, has_infix, round_div, fixed_two}
use harbormaster.Prelude.Dict.{Dict, lookup, insert}
use harbormaster.Prelude.Counter.{or_zero}
use harbormaster.Canonical.{normalize_header}

-- `num / den`
pub record Ratio : Type 0 where
  pub num : ℕ
  pub den : ℕ

abbrev pub ratio : ℕ → ℕ → Ratio
ratio n d = record { num = n; den = d }

-- `r >= 0.5`, and `r < q`
abbrev pub at_least_half : Ratio → Bool
at_least_half r = leb r.den (2 * r.num)

abbrev pub below : Ratio → Ratio → Bool
below r q = ltb (r.num * q.den) (q.num * r.den)

-- `f"{ratio:.2f}"`
abbrev pub shown : Ratio → String
shown r = fixed_two r.num r.den

-- `set.add`
abbrev pub add_to_set : String → List String → List String
add_to_set v s = if contains s v then s else s ++ v ∷ []

-- `{v for v in values if v}`
unfoldable pub distinct : List String → List String
distinct [] = []
distinct (v ∷ vs) =
    let rest = distinct vs in if is_blank v || contains rest v then rest else v ∷ rest

abbrev non_blank : List String → List String
non_blank vs = filter (λ v. not (is_blank v)) vs

-- distinct values over values that are there
unfoldable pub overall : List String → Ratio
unfolding distinct filter
overall cleaned =
    if is_empty (non_blank cleaned)
    then ratio 0 1
    else ratio (length (distinct cleaned)) (length (non_blank cleaned))

-- `groups` and `sizes`
pub record Grouping : Type 0 where
  pub groups : Dict String (List String)
  pub sizes : Dict String ℕ

abbrev or_nil : Option (List String) → List String
or_nil none = []
or_nil (some l) = l

-- the loop over the keys and values; it stops at the end of either
unfoldable pub group_values : List String → List String → Grouping → Grouping
unfolding lookup insert
group_values (k ∷ ks) (v ∷ vs) g = group_values ks vs (
    if is_blank v then g else record {
      groups = insert k (add_to_set v (or_nil (lookup k g.groups))) g.groups;
      sizes = insert k (or_zero (lookup k g.sizes) + 1) g.sizes;
    })
group_values _ _ g = g

-- The groups of more than one row, and those of them with more than one value.
abbrev informative : Grouping → List (String × List String)
informative g = filter (λ e. ltb 1 (or_zero (lookup e.0 g.sizes))) g.groups

abbrev varying : Grouping → List (String × List String)
varying g = filter (λ e. ltb 1 (length e.1)) (informative g)

unfoldable pub within_groups : Grouping → List String → Ratio
unfolding overall filter lookup
within_groups g cleaned =
    if is_empty (informative g)
    then overall cleaned
    else ratio (length (varying g)) (length (informative g))

-- `not group_by or len(group_by) != len(cleaned)`
abbrev is_ungrouped : List String → List String → Bool
is_ungrouped keys cleaned = is_empty keys || not (length keys == length cleaned)

-- The grouping column is empty for `None`.
unfoldable pub variation_ratio : List String → List String → Ratio
unfolding overall within_groups strip group_values
variation_ratio values group_by =
    let cleaned = map strip values in
    if is_empty cleaned
    then ratio 0 1
    else if is_ungrouped group_by cleaned
    then overall cleaned
    else within_groups (group_values group_by cleaned (record { groups = []; sizes = [] })) cleaned

-- `_has(header, tokens)`
unfoldable pub has_token : List String → String → Bool
unfolding any has_infix normalize_header
has_token tokens header = any (has_infix (normalize_header header)) tokens

abbrev pub settlement_tokens : List String
settlement_tokens =
    "settle" ∷ "sett" ∷ "close" ∷ "closing" ∷ "mtm" ∷ "marktomarket" ∷ "official" ∷ "eod" ∷ "dcc"
    ∷ "valuation" ∷ "mark" ∷ []

abbrev pub trade_tokens : List String
trade_tokens = "exec" ∷ "fill" ∷ "deal" ∷ "traded" ∷ "tradeprice" ∷ "last" ∷ "avg" ∷ "average" ∷ []

-- Preferences are tenths.
unfoldable pub settlement_preference : String → ℕ
unfolding has_token
settlement_preference header =
    10
    + (if has_token ("official" ∷ []) header then 5 else 0)
    + (if has_token ("settlement" ∷ "settle" ∷ []) header then 3 else 0)
    - (if has_token ("prior" ∷ "previous" ∷ "yesterday" ∷ "prev" ∷ "open" ∷ []) header
        then 8
        else 0)

unfoldable pub trade_preference : String → ℕ
unfolding has_token
trade_preference header =
    10
    + (if has_token ("exec" ∷ "fill" ∷ "traded" ∷ "tradeprice" ∷ []) header then 5 else 0)
    - (if has_token ("avg" ∷ "average" ∷ []) header then 2 else 0)

-- `_price_conf(r)` and `_price_conf(1 - r)`, in thousandths: 0.55 and 0.35 of the strength, at most 0.90
unfoldable pub price_conf : Ratio → ℕ
price_conf r = min (round_div (550 * r.den + 350 * r.num) r.den) 900

unfoldable pub price_conf_rest : Ratio → ℕ
price_conf_rest r = min (round_div (900 * r.den - 350 * r.num) r.den) 900

varies :
    (variation_ratio ("1" ∷ "1" ∷ "2" ∷ "2" ∷ []) ("A" ∷ "A" ∷ "B" ∷ "B" ∷ []) ≡ ratio 0 2)
    × (variation_ratio ("1" ∷ "3" ∷ "2" ∷ "2" ∷ []) ("A" ∷ "A" ∷ "B" ∷ "B" ∷ []) ≡ ratio 1 2)
    × (variation_ratio ("1" ∷ "3" ∷ "" ∷ []) [] ≡ ratio 2 2)
    × (settlement_preference "Prior Settlement Price" ≡ 5)
unfolding variation_ratio settlement_preference
varies = (refl, refl, refl, refl)

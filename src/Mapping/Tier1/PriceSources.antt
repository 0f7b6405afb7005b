-- ===== src/Mapping/Tier1/PriceSources.antt =====
-- Each column of prices gets a mapping.
use harbormaster.Prelude.{
  ℕ, ◌≡◌, refl, sym, ap, ◌∙◌, Bool, not, ◌&&◌, ◌||◌, List, [], ◌∷◌, ◌++◌, map, filter, String,
  string_eq, ◌==◌, contains, arith, ltb,
}
use harbormaster.Prelude.Sort.{sort, insert_sorted}
use harbormaster.Mapping.Fields.{has_source-append}
use harbormaster.Mapping.{Table, Mapping, sources_of}
use harbormaster.Mapping.Variation.{Ratio, below, settlement_tokens, trade_tokens}
use harbormaster.Mapping.Tier1.{
  surplus, names_only, undecided, role_results, by_preference, structure, score, by_ratio,
  resolve_prices,
}

map-same : (hs : List String) → map (λ h. h) hs ≡ hs
map-same [] = refl
map-same (h ∷ hs) = ap (λ r. h ∷ r) (map-same hs)

module _ {ℓ} {A : Type ℓ} (less : A → A → Bool) (name : A → String) where
  contains-insert_sorted :
      (x : A) (ys : List A) (h : String)
      → contains (map name (insert_sorted less x ys)) h ≡ (h == name x || contains (map name ys) h)
  unfolding insert_sorted
  contains-insert_sorted x [] h = refl
  contains-insert_sorted x (y ∷ ys) h = ground (arith, contains-insert_sorted x ys h)

  contains-sort :
      (xs : List A) (h : String) → contains (map name (sort less xs)) h ≡ contains (map name xs) h
  unfolding sort
  contains-sort [] h = refl
  contains-sort (x ∷ xs) h =
      ground (arith, contains-insert_sorted x (sort less xs) h, contains-sort xs h)

contains-filter :
    (p : String → Bool) (hs : List String) (h : String)
    → contains (filter p hs) h ≡ (contains hs h && p h)
unfolding filter
contains-filter p [] h = refl
contains-filter p (x ∷ hs) h = ground (arith, contains-filter p hs h, string_eq.beq_iff h x)

surplus-sources :
    (field winner : String) (hs : List String) → sources_of (map (surplus field winner) hs) ≡ hs
surplus-sources field winner [] = refl
surplus-sources field winner (h ∷ hs) = ap (λ r. h ∷ r) (surplus-sources field winner hs)

role_results-sources :
    (field reason : String) (hs : List String) → sources_of (role_results field reason hs) ≡ hs
unfolding role_results
role_results-sources field reason [] = refl
role_results-sources field reason (x ∷ hs) = ap (λ r. x ∷ r) (surplus-sources field x hs)

structure-sources :
    (basis : String) (taken : List String) (scored : List (String × Ratio))
    → sources_of (structure basis taken scored) ≡ map (λ e. e.0) scored
unfolding structure
structure-sources basis taken [] = refl
structure-sources basis taken ((h, r) ∷ scored) = ground (
  arith,
  structure-sources basis ("trade_price" ∷ taken) scored,
  structure-sources basis ("settlement_price" ∷ taken) scored,
  structure-sources basis taken scored,
)

score-names : (t : Table) (group hs : List String) → map (λ e. e.0) (score t group hs) ≡ hs
unfolding score
score-names t group [] = refl
score-names t group (h ∷ hs) = ap (λ r. h ∷ r) (score-names t group hs)

module _ (hs : List String) (h : String) where
  contains-preferred :
      (f : String → ℕ) (p : String → Bool)
      → contains (by_preference f (filter p hs)) h ≡ (contains hs h && p h)
  contains-preferred f p =
      ap (λ l. contains l h) (sym (map-same (by_preference f (filter p hs))))
      ∙ contains-sort (λ a b. ltb (f b) (f a)) (λ x. x) (filter p hs) h
      ∙ ap (λ l. contains l h) (map-same (filter p hs))
      ∙ contains-filter p hs h

  contains-by_ratio :
      (t : Table) (group : List String)
      → contains (map (λ e. e.0) (by_ratio (score t group hs))) h ≡ contains hs h
  contains-by_ratio t group =
      contains-sort (λ a b. below b.1 a.1) (λ e. e.0) (score t group hs) h
      ∙ ap (λ l. contains l h) (score-names t group hs)

  role_results-contains :
      (field reason : String) (f : String → ℕ) (p : String → Bool)
      → contains (sources_of (role_results field reason (by_preference f (filter p hs)))) h
        ≡ (contains hs h && p h)
  role_results-contains field reason f p =
      ap (λ l. contains l h) (role_results-sources field reason (by_preference f (filter p hs)))
      ∙ contains-preferred f p

structure-contains :
    (t : Table) (group hs taken : List String) (basis h : String)
    → contains (sources_of (structure basis taken (by_ratio (score t group hs)))) h ≡ contains hs h
structure-contains t group hs taken basis h =
    ap (λ l. contains l h) (structure-sources basis taken (by_ratio (score t group hs)))
    ∙ contains-by_ratio hs h t group

has_source-three :
    (a b c : List Mapping) (h : String) (x y z : Bool)
    → contains (sources_of a) h ≡ x
    → contains (sources_of b) h ≡ y
    → contains (sources_of c) h ≡ z
    → contains (sources_of (a ++ (b ++ c))) h ≡ (x || (y || z))
has_source-three a b c h x y z ha hb hc =
    ground (arith, has_source-append a (b ++ c) h, has_source-append b c h)

one_of_three : (x s t : Bool) → ((x && s) || ((x && t) || (x && (not s && not t)))) ≡ x
one_of_three x s t = ground arith

pub resolve_prices-contains :
    (t : Table) (hs : List String) (settled : List Mapping) (h : String)
    → contains (sources_of (resolve_prices t hs settled)) h ≡ contains hs h
unfolding resolve_prices
resolve_prices-contains t hs settled h =
    has_source-three _ _ _ h _ _ _
      (role_results-contains hs h _ _ _ (names_only settlement_tokens trade_tokens))
      (role_results-contains hs h _ _ _ (names_only trade_tokens settlement_tokens))
      (structure-contains t _ (undecided hs) _ _ h ∙ contains-filter _ hs h)
    ∙ one_of_three (contains hs h) _ _

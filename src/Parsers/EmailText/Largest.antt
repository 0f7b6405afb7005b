-- ===== src/Parsers/EmailText/Largest.antt =====
-- The amount that is taken from a line, among the numbers in it: `_amount` of python/src/inspector/parsers/email_text.py.
use mathlib.Core.Path.{subst}
use mathlib.Core.Option.{some-injective, none-ne-some}
use harbormaster.Prelude.Rounding.{pow_pos}
use harbormaster.Prelude.{
  ℕ, zero, suc, ◌+◌, ◌*◌, ◌<◌, ◌≡◌, refl, sym, ap, ◌∙◌, ◌⊎◌, inl, inr, Bool, true, false, Option,
  none, some, List, [], ◌∷◌, String, get_elem?, arith, Bool-cases, if◌then◌else◌, ◌||◌,
}
use harbormaster.Prelude.Text.{char_eq, is_digit, digit_value}
use harbormaster.Mapping.Variation.{below}
use harbormaster.Mapping.Variation.Order.{below-asym, le-le}
use harbormaster.Parsers.EmailText.{
  Match, find_amounts, value_from, value_of, without_commas, is_money, larger, largest, amount,
  number_text,
}

value_from-pos : (point : Bool) (n places : ℕ) (s : String) → 0 < (value_from point n places s).den
unfolding value_from
value_from-pos point n places String.[] = pow_pos places
value_from-pos point n places (String.◌∷◌ c s) =
    value_from-pos (point || char_eq c ".") (if is_digit c then 10 * n + digit_value c else n)
      (if point then places + 1 else places) s

-- A number that is not below another.
Tops : Match → Match → Type 0
Tops b m = below (value_of b.number) (value_of m.number) ≡ false

Tops-refl : (m : Match) → Tops m m
unfolding Tops
Tops-refl m = ground arith

Tops-trans : (a b c : Match) → Tops a b → Tops b c → Tops a c
unfolding Tops value_of
Tops-trans a b c ab bc =
    le-le (value_of c.number) (value_of b.number) (value_of a.number)
      (value_from-pos false 0 0 (without_commas b.number)) bc ab

-- One round keeps a number that tops the one it had, and the one it comes to.
larger-Tops : (b m : Match) → (c : Match) × (larger (some b) m ≡ some c) × Tops c b × Tops c m
unfolding Tops larger
larger-Tops b m = elim (Bool-cases (below (value_of b.number) (value_of m.number))) [
  | inl less ↦
      (m, rw less refl, below-asym (value_of b.number) (value_of m.number) less, Tops-refl m)
  | inr le ↦ (b, rw le refl, Tops-refl b, le)
]

EndsAbove : Option Match → List Match → Match → Type 0
EndsAbove best ms m = (s : Match) × (largest best ms ≡ some s) × Tops s m

largest-kept : (ms : List Match) (b : Match) → EndsAbove (some b) ms b
unfolding EndsAbove largest
largest-kept [] b = (b, refl, Tops-refl b)
largest-kept (m ∷ ms) b = elim (Bool-cases (is_money m)) [
  | inr skipped ↦ rw skipped (largest-kept ms b)
  | inl money ↦
      let (c, made, over, _) = larger-Tops b m in
      let (s, ends, tops) = largest-kept ms c in
      (s, rw (money, made) ends, Tops-trans s c b tops over)
]

-- the loop ends above each amount that it comes to
largest-wins :
    (ms : List Match) (best : Option Match) (j : ℕ) (m : Match)
    → get_elem? ms j ≡ some m
    → is_money m ≡ true
    → EndsAbove best ms m
unfolding EndsAbove largest larger
largest-wins [] best j m there money = absurd (none-ne-some m there)
largest-wins (n ∷ ms) best (suc j) m there money = largest-wins ms _ j m there money
largest-wins (n ∷ ms) none zero m there money =
    let same : n ≡ m = some-injective n m there in
    let here : is_money n ≡ true = subst (λ x. is_money x ≡ true) (sym same) money in
    let (s, ends, tops) = largest-kept ms n in (s, rw here ends, subst (λ x. Tops s x) same tops)
largest-wins (n ∷ ms) (some b) zero m there money =
    let same : n ≡ m = some-injective n m there in
    let here : is_money n ≡ true = subst (λ x. is_money x ≡ true) (sym same) money in
    let (c, made, _, over) = larger-Tops b n in
    let (s, ends, tops) = largest-kept ms c in
    (s, rw (here, made) ends, subst (λ x. Tops s x) same (Tops-trans s c n tops over))

-- An amount among those found.
abbrev pub IsAmount : List Match → Match → Type 0
IsAmount ms s = (i : ℕ) × (get_elem? ms i ≡ some s) × (is_money s ≡ true)

IsAmount-next : (n : Match) (ms : List Match) (s : Match) → IsAmount ms s → IsAmount (n ∷ ms) s
IsAmount-next n ms s (i, there, money) = (suc i, there, money)

larger-source :
    (best : Option Match) (m s : Match) → larger best m ≡ some s → (best ≡ some s) ⊎ (m ≡ s)
unfolding larger
larger-source none m s h = inr (some-injective m s h)
larger-source (some b) m s h = elim (Bool-cases (below (value_of b.number) (value_of m.number))) [
  | inl less ↦ inr (some-injective m s (sym (rw less refl) ∙ h))
  | inr le ↦ inl (sym (rw le refl) ∙ h)
]

largest-source :
    (ms : List Match) (best : Option Match) (s : Match)
    → largest best ms ≡ some s
    → (best ≡ some s) ⊎ IsAmount ms s
unfolding largest
largest-source [] best s h = inl h
largest-source (m ∷ ms) best s h = elim (Bool-cases (is_money m)) [
  | inr skipped ↦ elim (largest-source ms best s (sym (rw skipped refl) ∙ h)) [
    | inl before ↦ inl before
    | inr later ↦ inr (IsAmount-next m ms s later)
  ]
  | inl money ↦ elim (largest-source ms (larger best m) s (sym (rw money refl) ∙ h)) [
    | inr later ↦ inr (IsAmount-next m ms s later)
    | inl now ↦ elim (larger-source best m s now) [
      | inl before ↦ inl before
      | inr same ↦ inr (0, ap (λ x. some x) same, subst (λ x. is_money x ≡ true) same money)
    ]
  ]
]

-- If a line holds a number that passes for an amount, the line has an amount: a number of the line that passes for one,
-- without its commas, and no number that passes for one is larger.
pub amount-IsLargest :
    (line : String) (j : ℕ) (m : Match)
    → get_elem? (find_amounts false 0 line) j ≡ some m
    → is_money m ≡ true
    → (s : Match) × (amount line ≡ some (without_commas s.number))
      × IsAmount (find_amounts false 0 line) s
      × (below (value_of s.number) (value_of m.number) ≡ false)
unfolding amount EndsAbove Tops number_text
amount-IsLargest line j m there money =
    let ms = find_amounts false 0 line in
    let (s, ends, tops) = largest-wins ms none j m there money in
    elim (largest-source ms none s ends) [
      | inl nothing ↦ absurd (none-ne-some s nothing)
      | inr found ↦ (s, rw ends refl, found, tops)
    ]

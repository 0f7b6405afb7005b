-- ===== src/Masking/Shown.antt =====
-- What a masked account number tells: its length, and its last four characters if it is longer than that.
use Prim.Native.Char.{Char}
use harbormaster.Prelude.{
  ℕ, zero, suc, ◌+◌, ◌-◌, ◌<◌, ◌≡◌, refl, sym, ap, ◌∙◌, inl, inr, true, false, String, leb,
  if◌then◌else◌, arith, Bool-cases,
}
use harbormaster.Prelude.Text.{size, drop_chars}
use harbormaster.Masking.{min_revealed, stars, account_number}

size-stars : (n : ℕ) (s : String) → size (stars n s) ≡ n + size s
unfolding stars
size-stars zero s = omega arith
size-stars (suc n) s = omega (arith, size-stars n s)

size-drop_chars : (n : ℕ) (s : String) → size (drop_chars n s) ≡ size s - n
unfolding drop_chars
size-drop_chars zero s = omega arith
size-drop_chars (suc n) String.[] = omega arith
size-drop_chars (suc n) (String.◌∷◌ c s) = omega (arith, size-drop_chars n s)

-- The mask of a number that is not empty.
masked :
    (c : Char) (s : String)
    → let v = String.◌∷◌ c s in
      account_number true v ≡ (
        if leb (size v) min_revealed
        then stars (size v) ""
        else stars (size v - min_revealed) (drop_chars (size v - min_revealed) v))
unfolding account_number
masked c s = refl

masked-size : (v : String) → size (account_number true v) ≡ size v
unfolding account_number
masked-size String.[] = refl
masked-size (String.◌∷◌ c s) = elim (Bool-cases (leb (suc (size s)) min_revealed)) [
  | inl short ↦ rw short (omega (arith, size-stars (suc (size s)) ""))
  | inr long ↦ rw long (
      omega (
        arith,
        size-stars (suc (size s) - min_revealed)
            (drop_chars (suc (size s) - min_revealed) (String.◌∷◌ c s)),
        size-drop_chars (suc (size s) - min_revealed) (String.◌∷◌ c s),
        longer (suc (size s)) long,
      ))
]
  where
    longer : (n : ℕ) → leb n min_revealed ≡ false → min_revealed < n
    longer n h = ground arith

-- The mask from the length and what is left of the number behind `n - 4` characters.
abbrev mask : ℕ → String → String
mask n end = if leb n min_revealed then stars n "" else stars (n - min_revealed) end

mask_same : (n : ℕ) (s t : String) → (min_revealed < n → s ≡ t) → mask n s ≡ mask n t
mask_same n s t same = elim (Bool-cases (leb n min_revealed)) [
  | inl short ↦ rw short refl
  | inr long ↦ rw long (ap (stars (n - min_revealed)) (same (ground arith)))
]

-- A masked number is as long as the number. Two numbers of one length have the same mask, if they end in
-- the same four characters or have no more than four: a mask shows nothing else.
pub account_number-hides :
    (v w : String)
    → size v ≡ size w
    → (min_revealed < size v
        → drop_chars (size v - min_revealed) v ≡ drop_chars (size w - min_revealed) w)
    → (size (account_number true v) ≡ size v) × (account_number true v ≡ account_number true w)
account_number-hides String.[] String.[] same tail = (masked-size String.[], refl)
account_number-hides String.[] (String.◌∷◌ d u) same tail = absurd (omega (arith, same))
account_number-hides (String.◌∷◌ c s) String.[] same tail = absurd (omega (arith, same))
account_number-hides (String.◌∷◌ c s) (String.◌∷◌ d u) same tail = (
  masked-size (String.◌∷◌ c s),
  masked c s
      ∙ mask_same (suc (size s)) _ _ tail
      ∙ ap (λ n. mask n (drop_chars (suc (size u) - min_revealed) (String.◌∷◌ d u))) same
      ∙ sym (masked d u),
)

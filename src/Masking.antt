-- ===== src/Masking.antt =====
-- python/src/inspector/masking.py: account numbers are shown by their last four characters. The switch that
-- the module keeps is an argument.
pub mod Shown
use harbormaster.Prelude.{
  ℕ, zero, suc, ◌+◌, ◌-◌, Bool, true, false, not, ◌||◌, List, [], ◌∷◌, String, ◌<>◌, Eq, string_eq,
  ◌==◌, leb, if◌then◌else◌,
}
use harbormaster.Prelude.Text.{is_blank, size, drop_chars, lower}

abbrev pub min_revealed : ℕ
min_revealed = 4

-- `os.environ.get("HM_MASK_ACCOUNTS", "").lower() != "false"`
unfoldable pub enabled_by : String → Bool
unfolding lower
enabled_by setting = not (lower setting == "false")

-- `"*" * n` in front of a text
unfoldable pub stars : ℕ → String → String
stars zero s = s
stars (suc n) s = String.◌∷◌ "*" (stars n s)

unfoldable pub account_number : Bool → String → String
account_number enabled value =
    if not enabled || is_blank value
    then value
    else if leb (size value) min_revealed
    then stars (size value) ""
    else stars (size value - min_revealed) (drop_chars (size value - min_revealed) value)

unfoldable pub account_numbers : Bool → List String → List String
account_numbers enabled [] = []
account_numbers enabled (v ∷ vs) = account_number enabled v ∷ account_numbers enabled vs

abbrev pub account_name : String → String
account_name value = value

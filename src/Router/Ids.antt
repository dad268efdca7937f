-- ===== src/Router/Ids.antt =====
-- Ids in targets: `ParseProductId` and `ParseRecipeId` of src/server/Router.cpp, with
-- `std::from_chars` at `int64_t`.
pub mod Numerals
pub mod Targets
use recipes_core.Prelude.{
  ℕ, ◌+◌, ◌-◌, ◌*◌, ◌^◌, ℤ, pos, negsuc, Text, text, eq_text, starts_with, Bool, false, not, ◌&&◌,
  ◌||◌, ◌≡◌, refl, Option, none, some, [], ◌∷◌, length, drop, leb, ◌==◌, if◌then◌else◌,
}

unfoldable pub is_digit : ℕ → Bool
is_digit c = leb b'0' c && leb c b'9'

-- The number that the leading digits show, and the bytes behind them.
unfoldable pub scan_digits : ℕ → Text → ℕ × Text
unfolding is_digit
scan_digits acc [] = (acc, [])
scan_digits acc (c ∷ s) =
    let rest = scan_digits (acc * 10 + (c - b'0')) s in if is_digit c then rest else (acc, c ∷ s)

abbrev pub starts_with_digit : Text → Bool
unfolding is_digit
starts_with_digit [] = false
starts_with_digit (c ∷ s) = is_digit c

abbrev pub int64_max : ℕ
int64_max = 2 ^ 63 - 1

-- A magnitude that fits, with the bytes that were not read; `none` is errc::result_out_of_range.
abbrev pub in_range : ℕ → (ℕ → ℤ) → ℕ × Text → Option (ℤ × Text)
in_range most sign (n, rest) = if leb n most then some (sign n, rest) else none

abbrev pub negated : ℕ → ℤ
negated n = if n == 0 then pos 0 else negsuc (n - 1)

-- `none` is an error code: no digits, or a value that does not fit.
unfoldable pub from_chars : Text → Option (ℤ × Text)
unfolding scan_digits
from_chars [] = none
from_chars (c ∷ s) =
    if c == b'-'
    then (if starts_with_digit s then in_range (int64_max + 1) negated (scan_digits 0 s) else none)
    else if starts_with_digit (c ∷ s)
    then in_range int64_max pos (scan_digits 0 (c ∷ s))
    else none

-- `error != errc{} || end != id_text.end() || id <= 0` ends with `nullopt`.
abbrev pub accept_id : Option (ℤ × Text) → Option ℕ
accept_id none = none
accept_id (some (pos n, [])) = if n == 0 then none else some n
accept_id (some (negsuc n, [])) = none
accept_id (some (v, b ∷ rest)) = none

abbrev pub products_prefix : Text
products_prefix = text "/v1/products/"

abbrev pub recipes_prefix : Text
recipes_prefix = text "/v1/recipes/"

unfoldable pub parse_product_id : Text → Option ℕ
parse_product_id target =
    if not (starts_with target products_prefix) || length target == length products_prefix
    then none
    else accept_id (from_chars (drop (length products_prefix) target))

unfoldable pub parse_recipe_id : Text → Option ℕ
parse_recipe_id target =
    if not (starts_with target recipes_prefix)
      || length target == length recipes_prefix
      || eq_text target (text "/v1/recipes/cookable")
    then none
    else accept_id (from_chars (drop (length recipes_prefix) target))

parse_product_id_examples :
    (parse_product_id (text "/v1/products/42") ≡ some 42)
    × (parse_product_id (text "/v1/products/") ≡ none)
    × (parse_product_id (text "/v1/products/0") ≡ none)
    × (parse_product_id (text "/v1/products/-3") ≡ none)
    × (parse_product_id (text "/v1/products/4x") ≡ none)
    × (parse_product_id (text "/v1/products/9223372036854775807") ≡ some 9223372036854775807)
    × (parse_product_id (text "/v1/products/9223372036854775808") ≡ none)
    × (parse_recipe_id (text "/v1/recipes/cookable") ≡ none)
    × (parse_recipe_id (text "/v1/recipes/007") ≡ some 7)
unfolding parse_product_id parse_recipe_id from_chars eq_text starts_with
parse_product_id_examples = (refl, refl, refl, refl, refl, refl, refl, refl, refl)

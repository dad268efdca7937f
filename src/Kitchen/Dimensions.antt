-- ===== src/Kitchen/Dimensions.antt =====
-- `types::Dimension` and its two texts: `Product::GetDimensionInString` of
-- include/types/kitchen/Types.hpp and `ParseDimension` of src/server/Router.cpp.
pub mod Names
use recipes_core.Prelude.{ℕ, zero, suc, Text, text, eq_text, Option, none, some, if◌then◌else◌}

-- `unnamed k` is a value of the underlying `uint8_t` that has no enumerator (k is 5 or more): a
-- cast from a column can produce it.
pub data Dimension : Type 0 where
  gramm kilogramm milliliter liter piece : Dimension
  unnamed : ℕ → Dimension

-- static_cast<uint8_t>(dimension)
unfoldable pub to_uint8 : Dimension → ℕ
to_uint8 gramm = 0
to_uint8 kilogramm = 1
to_uint8 milliliter = 2
to_uint8 liter = 3
to_uint8 piece = 4
to_uint8 (unnamed k) = k

unfoldable pub of_uint8 : ℕ → Dimension
of_uint8 zero = gramm
of_uint8 (suc zero) = kilogramm
of_uint8 (suc (suc zero)) = milliliter
of_uint8 (suc (suc (suc zero))) = liter
of_uint8 (suc (suc (suc (suc zero)))) = piece
of_uint8 (suc (suc (suc (suc (suc k))))) = unnamed (suc (suc (suc (suc (suc k)))))

unfoldable pub get_dimension_in_string : Dimension → Text
get_dimension_in_string gramm = text "gr"
get_dimension_in_string kilogramm = text "kg"
get_dimension_in_string milliliter = text "ml"
get_dimension_in_string liter = text "l"
get_dimension_in_string piece = text "pc"
get_dimension_in_string (unnamed k) = text ""

unfoldable pub parse_dimension : Text → Option Dimension
parse_dimension dimension =
    if eq_text dimension (text "gr")
    then some gramm
    else if eq_text dimension (text "kg")
    then some kilogramm
    else if eq_text dimension (text "ml")
    then some milliliter
    else if eq_text dimension (text "l")
    then some liter
    else if eq_text dimension (text "pc")
    then some piece
    else none

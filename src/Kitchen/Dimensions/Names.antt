-- ===== src/Kitchen/Dimensions/Names.antt =====
-- The texts of dimensions, both ways: `GetDimensionInString` and `ParseDimension`; and the cast of
-- a column's value.
use recipes_core.Prelude.{Text, text, eq_text, eq_text_iff, ◌≡◌, refl, subst, ◌↔◌, some, arith}
use recipes_core.Kitchen.Dimensions.{
  Dimension, gramm, kilogramm, milliliter, liter, piece, unnamed, get_dimension_in_string,
  parse_dimension, to_uint8, of_uint8,
}

-- The five enumerators.
abbrev pub IsNamed : Dimension → Type 0
IsNamed (unnamed k) = ⊥
IsNamed _ = Unit

parse_dimension_complete :
    (d : Dimension) → IsNamed d → parse_dimension (get_dimension_in_string d) ≡ some d
unfolding get_dimension_in_string parse_dimension eq_text
parse_dimension_complete (unnamed k) h = absurd h
parse_dimension_complete gramm h = refl
parse_dimension_complete _ h = refl

parse_dimension_sound :
    (t : Text) (d : Dimension)
    → parse_dimension t ≡ some d
    → IsNamed d × (get_dimension_in_string d ≡ t)
unfolding get_dimension_in_string parse_dimension
parse_dimension_sound t gramm h = (tt, ground (arith, eq_text_iff t (text "gr")))
parse_dimension_sound t kilogramm h = (tt, ground (arith, eq_text_iff t (text "kg")))
parse_dimension_sound t milliliter h = (tt, ground (arith, eq_text_iff t (text "ml")))
parse_dimension_sound t liter h = (tt, ground (arith, eq_text_iff t (text "l")))
parse_dimension_sound t piece h = (tt, ground (arith, eq_text_iff t (text "pc")))
parse_dimension_sound t (unnamed k) h = ground arith

-- A text is read as a dimension exactly when it is the text that the dimension is written as, and
-- no text is read as a value without an enumerator.
pub parse_dimension_iff :
    (t : Text) (d : Dimension)
    → (parse_dimension t ≡ some d) ↔ (IsNamed d × (get_dimension_in_string d ≡ t))
parse_dimension_iff t d = (
  parse_dimension_sound t d,
  λ h. subst (λ u. parse_dimension u ≡ some d) h.1 (parse_dimension_complete d h.0),
)

-- The cast of a value back from its column gives the dimension, for every value of the type.
of_uint8-to_uint8_named : (d : Dimension) → IsNamed d → of_uint8 (to_uint8 d) ≡ d
unfolding of_uint8 to_uint8
of_uint8-to_uint8_named (unnamed k) h = absurd h
of_uint8-to_uint8_named gramm h = refl
of_uint8-to_uint8_named _ h = refl

pub to_uint8-injective : (d e : Dimension) → IsNamed d → IsNamed e → to_uint8 d ≡ to_uint8 e → d ≡ e
to_uint8-injective d e hd he h = cc (of_uint8-to_uint8_named d hd, of_uint8-to_uint8_named e he)

-- ===== src/Units/Sums.antt =====
-- Sums of quantities in different units: operator+ of include/unites/Types.hpp.
use recipes_core.Prelude.{◌≡◌, refl, ◌∙◌, ap}
use recipes_core.Units.{
  UnitTag, gram, kilogram, milliliter, liter, dimension_of, smaller_unit, ratio_num, Arithmetic,
  Unites, as_unit, add,
}

smaller_unit_comm :
    (l r : UnitTag) → dimension_of l ≡ dimension_of r → smaller_unit l r ≡ smaller_unit r l
unfolding dimension_of smaller_unit ratio_num
smaller_unit_comm gram gram h = refl
smaller_unit_comm gram kilogram h = refl
smaller_unit_comm kilogram gram h = refl
smaller_unit_comm kilogram kilogram h = refl
smaller_unit_comm milliliter milliliter h = refl
smaller_unit_comm milliliter liter h = refl
smaller_unit_comm liter milliliter h = refl
smaller_unit_comm liter liter h = refl
smaller_unit_comm gram milliliter h = cc
smaller_unit_comm gram liter h = cc
smaller_unit_comm kilogram milliliter h = cc
smaller_unit_comm kilogram liter h = cc
smaller_unit_comm milliliter gram h = cc
smaller_unit_comm milliliter kilogram h = cc
smaller_unit_comm liter gram h = cc
smaller_unit_comm liter kilogram h = cc

-- The order of the summands decides neither the unit nor the value, where plus on double does not
-- depend on its order.
add_comm :
    {D : Type 0} (double : Arithmetic D)
    → ((x y : D) → double.plus x y ≡ double.plus y x)
    → (a b : Unites D) → dimension_of a.unit ≡ dimension_of b.unit
    → add double a b ≡ add double b a
unfolding add
add_comm double comm a b h =
    ap (λ u. record { unit = u; value = double.plus (as_unit double u a) (as_unit double u b) })
      (smaller_unit_comm a.unit b.unit h)
    ∙ ap (λ v. record { unit = smaller_unit b.unit a.unit; value = v }) (comm _ _)

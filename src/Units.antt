-- ===== src/Units.antt =====
-- include/unites/Types.hpp: units, their ratios, and quantities. The arithmetic of double is the
-- parameter `Arithmetic`; the constraint SameDimension on the templates is a hypothesis of theorems.
pub mod Sums
use recipes_core.Prelude.{ℕ, Bool, ltb, if◌then◌else◌}

pub data UnitDimension : Type 0 where
  mass_dimension volume_dimension : UnitDimension

pub data UnitTag : Type 0 where
  gram kilogram milliliter liter : UnitTag

unfoldable pub dimension_of : UnitTag → UnitDimension
dimension_of gram = mass_dimension
dimension_of kilogram = mass_dimension
dimension_of milliliter = volume_dimension
dimension_of liter = volume_dimension

-- `ratio::num`; every `ratio::den` is 1.
unfoldable pub ratio_num : UnitTag → ℕ
ratio_num gram = 1
ratio_num kilogram = 1000
ratio_num milliliter = 1
ratio_num liter = 1000

-- `std::conditional_t<std::ratio_less_v<…>, …>`
unfoldable pub smaller_unit : UnitTag → UnitTag → UnitTag
unfolding ratio_num
smaller_unit left right = if ltb (ratio_num left) (ratio_num right) then left else right

-- The operations on double; `of_nat` is the conversion of an integer.
pub record Arithmetic (D : Type 0) : Type 0 where
  pub of_nat : ℕ → D
  pub plus : D → D → D
  pub minus : D → D → D
  pub times : D → D → D
  pub over : D → D → D

pub record Unites (D : Type 0) : Type 0 where
  pub unit : UnitTag
  pub value : D

module _ {D : Type 0} (double : Arithmetic D) where
  -- `As`, with the multiplications and divisions in the order of the code.
  unfoldable pub as_unit : UnitTag → Unites D → D
  unfolding ratio_num
  as_unit target u =
      let base_value =
        double.over (double.times u.value (double.of_nat (ratio_num u.unit))) (double.of_nat 1) in
      double.over (double.times base_value (double.of_nat 1)) (double.of_nat (ratio_num target))

  -- The converting constructor.
  unfoldable pub convert : UnitTag → Unites D → Unites D
  unfolding as_unit
  convert unit other = record { unit = unit; value = as_unit unit other }

  unfoldable pub add : Unites D → Unites D → Unites D
  unfolding smaller_unit as_unit
  add a b =
      let unit = smaller_unit a.unit b.unit in
      record { unit = unit; value = double.plus (as_unit unit a) (as_unit unit b) }

  unfoldable pub subtract : Unites D → Unites D → Unites D
  unfolding smaller_unit as_unit
  subtract a b =
      let unit = smaller_unit a.unit b.unit in
      record { unit = unit; value = double.minus (as_unit unit a) (as_unit unit b) }

  unfoldable pub scale : D → Unites D → Unites D
  scale scalar u = record { unit = u.unit; value = double.times u.value scalar }

  unfoldable pub divide : Unites D → D → Unites D
  divide u scalar = record { unit = u.unit; value = double.over u.value scalar }

-- The literals `_ml`, `_l`, `_g` and `_kg`, of a value that is a double already.
unfoldable pub literal : {D : Type 0} → UnitTag → D → Unites D
literal unit value = record { unit = unit; value = value }

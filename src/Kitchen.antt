-- ===== src/Kitchen.antt =====
-- Domain types: include/types/kitchen/Types.hpp. Amounts are `int`, so ℤ; row ids are the positive
-- numbers that the storage assigns. A `sys_days` is kept as its civil date (`year_month_day`), for
-- years from 0 on.
pub mod Dimensions
pub mod Products
pub mod Recipes
use recipes_core.Prelude.{
  ℕ, ℤ, Text, Bool, true, Option, none, some, List, [], ◌∷◌, ◌++◌, ltb, leb, ◌==◌, ◌&&◌, ◌||◌,
}
use Dimensions.{Dimension}

pub record SysDays : Type 0 where
  pub year : ℕ
  pub month : ℕ
  pub day : ℕ

-- operator<= on days
unfoldable pub on_or_before : SysDays → SysDays → Bool
on_or_before a b =
    ltb a.year b.year
    || (a.year == b.year && (ltb a.month b.month || (a.month == b.month && leb a.day b.day)))

pub record Dates : Type 0 where
  pub manufacture : Option SysDays
  pub expiration : Option SysDays

abbrev pub no_dates : Dates
no_dates = record { manufacture = none; expiration = none }

pub record Product : Type 0 where
  pub id : Option ℕ
  pub name : Text
  pub amount : ℤ
  pub dimension : Dimension
  pub dates : Dates

-- The constructor with its default arguments: no dates, no id.
abbrev pub new_product : Text → ℤ → Dimension → Product
new_product name amount dimension = record {
  id = none;
  name = name;
  amount = amount;
  dimension = dimension;
  dates = no_dates;
}

-- `today` is the clock's day, which the method reads itself.
unfoldable pub is_fresh : SysDays → Product → Bool
unfolding on_or_before
is_fresh today product = elim product.dates.expiration [
  | none ↦ true
  | some day ↦ on_or_before today day
]

pub record Recipe : Type 0 where
  pub id : Option ℕ
  pub name : Text
  pub ingredients : List Product

unfoldable pub add_ingredient : Recipe → Product → Recipe
add_ingredient recipe ingredient = record recipe {
  ingredients = recipe.ingredients ++ ingredient ∷ [];
}

-- ===== src/Reports/Views.antt =====
-- What src/io/json/Report.cpp and src/io/yaml/Report.cpp hand to Glaze: `ProductView` and
-- `RecipeView`. The two files declare them in the same words.
pub mod Fields
pub mod Reading
pub mod Yaml
use mathlib.Core.Option
use recipes_core.Prelude.{ℤ, Text, Option, List, [], ◌∷◌}
use recipes_core.Calendar.{to_date_string}
use recipes_core.Kitchen.{SysDays, Product, Recipe}
use recipes_core.Kitchen.Dimensions.{get_dimension_in_string}

pub record ProductView : Type 0 where
  pub name : Text
  pub amount : ℤ
  pub dimension : Text
  pub manufacture : Option Text
  pub expiration : Option Text

pub record RecipeView : Type 0 where
  pub name : Text
  pub ingredients : List ProductView

-- `{:%F}` is `{:%Y-%m-%d}`: the year on four digits, for years below 10000.
unfoldable pub format_date : Option SysDays → Option Text
unfolding to_date_string
format_date date = Option.map to_date_string date

unfoldable pub to_product_view : Product → ProductView
unfolding format_date get_dimension_in_string
to_product_view product = record {
  name = product.name;
  amount = product.amount;
  dimension = get_dimension_in_string product.dimension;
  manufacture = format_date product.dates.manufacture;
  expiration = format_date product.dates.expiration;
}

unfoldable pub build_product_views : List Product → List ProductView
unfolding to_product_view
build_product_views [] = []
build_product_views (product ∷ products) = to_product_view product ∷ build_product_views products

unfoldable pub build_recipe_views : List Recipe → List RecipeView
unfolding build_product_views
build_recipe_views [] = []
build_recipe_views (recipe ∷ recipes) =
    (record { name = recipe.name; ingredients = build_product_views recipe.ingredients })
    ∷ build_recipe_views recipes

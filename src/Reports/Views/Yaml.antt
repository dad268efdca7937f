-- ===== src/Reports/Views/Yaml.antt =====
-- The same functions as src/io/yaml/Report.cpp has them for its own views, over the records of
-- Reports.Views: the two files declare these in the same words.
use recipes_core.Prelude.{Text, ◌≡◌, refl, Option, none, some, List, [], ◌∷◌}
use recipes_core.Calendar.{to_date_string}
use recipes_core.Kitchen.{SysDays, Product, Recipe}
use recipes_core.Kitchen.Dimensions.{get_dimension_in_string}
use recipes_core.Reports.Views
use recipes_core.Reports.Views.{ProductView, RecipeView}

unfoldable pub format_date : Option SysDays → Option Text
unfolding to_date_string
format_date none = none
format_date (some date) = some (to_date_string date)

unfoldable pub to_product_view : Product → ProductView
unfolding format_date get_dimension_in_string
to_product_view product = record {
  name = product.name;
  amount = product.amount;
  dimension = get_dimension_in_string product.dimension;
  manufacture = format_date product.dates.manufacture;
  expiration = format_date product.dates.expiration;
}

unfoldable pub build_product_views : List Product → List ProductView
unfolding to_product_view
build_product_views [] = []
build_product_views (product ∷ products) = to_product_view product ∷ build_product_views products

unfoldable pub build_recipe_views : List Recipe → List RecipeView
unfolding build_product_views
build_recipe_views [] = []
build_recipe_views (recipe ∷ recipes) =
    (record { name = recipe.name; ingredients = build_product_views recipe.ingredients })
    ∷ build_recipe_views recipes

format_date-agrees : (date : Option SysDays) → format_date date ≡ Views.format_date date
unfolding format_date Views.format_date
format_date-agrees none = refl
format_date-agrees (some date) = refl

pub build_product_views-agrees :
    (products : List Product) → build_product_views products ≡ Views.build_product_views products
unfolding build_product_views Views.build_product_views to_product_view Views.to_product_view
build_product_views-agrees [] = refl
build_product_views-agrees (product ∷ products) =
    rw
      (
        format_date-agrees product.dates.manufacture,
        format_date-agrees product.dates.expiration,
        build_product_views-agrees products,
      )
      refl

pub build_recipe_views-agrees :
    (recipes : List Recipe) → build_recipe_views recipes ≡ Views.build_recipe_views recipes
unfolding build_recipe_views Views.build_recipe_views
build_recipe_views-agrees [] = refl
build_recipe_views-agrees (recipe ∷ recipes) =
    rw (build_product_views-agrees recipe.ingredients, build_recipe_views-agrees recipes) refl

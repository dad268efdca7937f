-- ===== src/Reports/Views/Reading.antt =====
-- The views of src/io/json/Report.cpp and src/io/yaml/Report.cpp, read back with the readers that
-- the program has for dimensions and dates.
use mathlib.Core.Option
use recipes_core.Prelude.{
  ◌≡◌, refl, ap, ◌<◌, true, Option, none, some, List, [], ◌∷◌, map, All, ◌>>=◌,
}
use recipes_core.Calendar.{is_ok, from_date_string}
use recipes_core.Calendar.RoundTrip.{from_date_string-to_date_string}
use recipes_core.Kitchen.{SysDays, Product, Recipe}
use recipes_core.Kitchen.Dimensions.{parse_dimension}
use recipes_core.Kitchen.Dimensions.Names.{IsNamed, parse_dimension_iff}
use recipes_core.Reports.Views.{
  ProductView, RecipeView, format_date, to_product_view, build_product_views, build_recipe_views,
}

abbrev pub HasFourDigits : Option SysDays → Type 0
HasFourDigits none = Unit {0}
HasFourDigits (some date) = (is_ok date ≡ true) × (date.year < 10000)

pub record IsReportable (p : Product) : Type 0 where
  pub dimension : IsNamed p.dimension
  pub manufacture : HasFourDigits p.dates.manufacture
  pub expiration : HasFourDigits p.dates.expiration

abbrev pub without_id : Product → Product
without_id p = record p { id = none }

abbrev pub without_ids : Recipe → Recipe
without_ids r = record r { id = none; ingredients = map without_id r.ingredients }

unfoldable read_product_view : ProductView → Option Product
read_product_view view = do
  dimension ← parse_dimension view.dimension
  some (record {
    id = none;
    name = view.name;
    amount = view.amount;
    dimension = dimension;
    dates = record {
      manufacture = Option.map from_date_string view.manufacture;
      expiration = Option.map from_date_string view.expiration;
    };
  })

unfoldable read_product_views : List ProductView → Option (List Product)
unfolding read_product_view
read_product_views [] = some []
read_product_views (view ∷ views) = do
  product ← read_product_view view
  products ← read_product_views views
  some (product ∷ products)

unfoldable pub read_recipe_views : List RecipeView → Option (List Recipe)
unfolding read_product_views
read_recipe_views [] = some []
read_recipe_views (view ∷ views) = do
  ingredients ← read_product_views view.ingredients
  recipes ← read_recipe_views views
  some (record { id = none; name = view.name; ingredients = ingredients } ∷ recipes)

from_date_string-format_date :
    (date : Option SysDays)
    → HasFourDigits date
    → Option.map from_date_string (format_date date) ≡ date
unfolding format_date
from_date_string-format_date none h = refl
from_date_string-format_date (some date) h = ap some (from_date_string-to_date_string date h.0 h.1)

read_product_view-to_product_view :
    (p : Product) → IsReportable p → read_product_view (to_product_view p) ≡ some (without_id p)
unfolding read_product_view to_product_view
read_product_view-to_product_view p h =
    rw
      (
        (parse_dimension_iff _ p.dimension).1 (h.dimension, refl),
        from_date_string-format_date p.dates.manufacture h.manufacture,
        from_date_string-format_date p.dates.expiration h.expiration,
      )
      refl

read_product_views-build_product_views :
    (ps : List Product)
    → All IsReportable ps
    → read_product_views (build_product_views ps) ≡ some (map without_id ps)
unfolding read_product_views build_product_views
read_product_views-build_product_views [] h = refl
read_product_views-build_product_views (p ∷ ps) h =
    rw (read_product_view-to_product_view p h.0, read_product_views-build_product_views ps h.1) refl

-- The views of recipes lose only the ids: read back, with ParseDimension and FromDateString, they
-- are the recipes, in their order, with every ingredient. The condition is that dimensions are
-- enumerators and that dates are valid, of the years 0 to 9999.
pub read_recipe_views-build_recipe_views :
    (recipes : List Recipe)
    → All (λ recipe. All IsReportable recipe.ingredients) recipes
    → read_recipe_views (build_recipe_views recipes) ≡ some (map without_ids recipes)
unfolding read_recipe_views build_recipe_views
read_recipe_views-build_recipe_views [] h = refl
read_recipe_views-build_recipe_views (recipe ∷ recipes) h =
    rw
      (
        read_product_views-build_product_views recipe.ingredients h.0,
        read_recipe_views-build_recipe_views recipes h.1,
      )
      refl

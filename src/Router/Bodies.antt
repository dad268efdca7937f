-- ===== src/Router/Bodies.antt =====
-- The reading of request bodies: `ParseProduct` and `ParseRecipe` of src/server/Router.cpp. The
-- out-parameters for status and message are the fields of `rejected`.
pub mod Laws
use recipes_core.Prelude.{Text, text, Option, none, some, List, [], ◌∷◌}
use recipes_core.Kitchen.{Product, Recipe, new_product}
use recipes_core.Kitchen.Dimensions.{Dimension, parse_dimension}
use recipes_core.Api.{
  ProductRequest, RecipeRequest, value, error, Glaze, parse_product_request, parse_recipe_request,
}
use recipes_core.Http.{Status, bad_request, unprocessable_entity}

pub data Body (A : Type 0) : Type 0 where
  parsed : A → Body A
  rejected : Status → Text → Body A

abbrev pub product_of : ProductRequest → Option Dimension → Body Product
product_of request none = rejected unprocessable_entity (text "Invalid product dimension")
product_of request (some dimension) = parsed (new_product request.name request.amount dimension)

-- The loop over the ingredients of a recipe.
unfoldable pub parse_ingredients : List ProductRequest → Body (List Product)
parse_ingredients [] = parsed []
parse_ingredients (request ∷ rest) =
    let later = parse_ingredients rest in
    elim (parse_dimension request.dimension) [
      | none ↦ rejected unprocessable_entity (text "Invalid recipe ingredient dimension")
      | some dimension ↦ elim later [
        | rejected status message ↦ rejected status message
        | parsed products ↦ parsed (new_product request.name request.amount dimension ∷ products)
      ]
    ]

abbrev pub recipe_of : RecipeRequest → Body (List Product) → Body Recipe
recipe_of request (rejected status message) = rejected status message
recipe_of request (parsed ingredients) =
    parsed (record { id = none; name = request.name; ingredients = ingredients })

module _ (glaze : Glaze) where
  unfoldable pub parse_product : Text → Body Product
  parse_product body = elim (parse_product_request glaze body) [
    | error message ↦ rejected bad_request message
    | value request ↦ product_of request (parse_dimension request.dimension)
  ]

  unfoldable pub parse_recipe : Text → Body Recipe
  parse_recipe body = elim (parse_recipe_request glaze body) [
    | error message ↦ rejected bad_request message
    | value request ↦ recipe_of request (parse_ingredients request.ingredients)
  ]

-- ===== src/Service.antt =====
-- `app::RecipeService` (src/app/RecipeService.cpp, include/app/RecipeService.hpp) over any
-- repository. Each method is an action on the repository's state.
pub mod Validation
pub mod Effects
use recipes_core.Prelude.{
  ℕ, Text, text, Bool, true, false, Option, List, [], ◌∷◌, ltb_ℤ, pos, if◌then◌else◌,
}
use recipes_core.Kitchen.{Product, Recipe}
use recipes_core.App.{
  ErrorCode, Error, Expected, expected, unexpected, Action, RecipeRepository, validation, not_found,
}

-- `std::string::empty`
abbrev pub is_empty : Text → Bool
is_empty [] = true
is_empty (b ∷ bs) = false

abbrev pub failure : {A : Type 0} → ErrorCode → Text → Expected A
failure code message = unexpected (record { code = code; message = message })

unfoldable pub validate_product : Product → Expected (Unit {0})
validate_product product =
    if is_empty product.name
    then failure validation (text "Product name must not be empty")
    else if ltb_ℤ product.amount (pos 0)
    then failure validation (text "Product amount must not be negative")
    else expected tt

-- The loop over the ingredients; the first one that is refused ends it.
unfoldable pub validate_ingredients : List Product → Expected (Unit {0})
unfolding validate_product
validate_ingredients [] = expected tt
validate_ingredients (ingredient ∷ rest) =
    let later = validate_ingredients rest in
    elim (validate_product ingredient) [ unexpected error ↦ unexpected error | expected _ ↦ later ]

unfoldable pub validate_recipe : Recipe → Expected (Unit {0})
unfolding validate_ingredients
validate_recipe recipe =
    if is_empty recipe.name
    then failure validation (text "Recipe name must not be empty")
    else validate_ingredients recipe.ingredients

-- `if (!validation) return unexpected(validation.error())`, then the rest of the method.
abbrev pub checked : {S A : Type 0} → Expected (Unit {0}) → Action S A → Action S A
checked (unexpected error) rest s = (unexpected error, s)
checked (expected _) rest s = rest s

-- What `Update…` and `Delete…` make of the repository's answer.
abbrev pub require_found : {S : Type 0} → Text → Expected Bool × S → Expected (Unit {0}) × S
require_found message (unexpected error, s) = (unexpected error, s)
require_found message (expected true, s) = (expected tt, s)
require_found message (expected false, s) = (failure not_found message, s)

module _ {S : Type 0} (repository : RecipeRepository S) where
  unfoldable pub create_product : Product → Action S Product
  create_product product = checked (validate_product product) (repository.create_product product)

  unfoldable pub get_product : ℕ → Action S (Option Product)
  get_product product_id = repository.get_product product_id

  unfoldable pub get_products : Action S (List Product)
  get_products = repository.get_products

  unfoldable pub update_product : ℕ → Product → Action S (Unit {0})
  update_product product_id product = checked (validate_product product) λ s.
      require_found (text "Product was not found") (repository.update_product product_id product s)

  unfoldable pub delete_product : ℕ → Action S (Unit {0})
  delete_product product_id s =
      require_found (text "Product was not found") (repository.delete_product product_id s)

  unfoldable pub create_recipe : Recipe → Action S Recipe
  create_recipe recipe = checked (validate_recipe recipe) (repository.create_recipe recipe)

  unfoldable pub get_recipe : ℕ → Action S (Option Recipe)
  get_recipe recipe_id = repository.get_recipe recipe_id

  unfoldable pub get_recipes : Action S (List Recipe)
  get_recipes = repository.get_recipes

  unfoldable pub get_cookable_recipes : Action S (List Recipe)
  get_cookable_recipes = repository.get_cookable_recipes

  unfoldable pub update_recipe : ℕ → Recipe → Action S (Unit {0})
  update_recipe recipe_id recipe =
      checked (validate_recipe recipe) λ s.
        require_found (text "Recipe was not found") (repository.update_recipe recipe_id recipe s)

  unfoldable pub delete_recipe : ℕ → Action S (Unit {0})
  delete_recipe recipe_id s =
      require_found (text "Recipe was not found") (repository.delete_recipe recipe_id s)

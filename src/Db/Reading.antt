-- ===== src/Db/Reading.antt =====
-- `DBManager::FetchRecipes` of src/db/DBManager.cpp: the rows of a join, put together to recipes.
pub mod Groups
use recipes_core.Prelude.{
  ◌%◌, to_int, ℤ, pos, negsuc, eq_ℤ, Option, none, some, List, [], ◌∷◌, ◌++◌, if◌then◌else◌,
}
use recipes_core.Kitchen.{Product, Recipe, new_product, add_ingredient}
use recipes_core.Kitchen.Dimensions.{of_uint8}
use recipes_core.Sql.{IngredientRow, JoinedRow}

-- `Product{name, amount, static_cast<Dimension>(…)}`, with the lower 32 bits of the amount by
-- `getInt`.
unfoldable pub read_ingredient : IngredientRow → Product
unfolding to_int
read_ingredient row =
    new_product row.product_name (to_int row.required_amount_base) (of_uint8 (row.dimension % 256))

-- `recipes.back().AddIngredient(…)`
unfoldable pub add_to_back : Product → List Recipe → List Recipe
unfolding add_ingredient
add_to_back p [] = []
add_to_back p (r ∷ []) = add_ingredient r p ∷ []
add_to_back p (r ∷ s ∷ rs) = r ∷ add_to_back p (s ∷ rs)

abbrev pub started : JoinedRow → List Recipe → List Recipe
started row recipes = recipes ++ record { id = some row.id; name = row.name; ingredients = [] } ∷ []

abbrev pub with_part : Option IngredientRow → List Recipe → List Recipe
with_part none recipes = recipes
with_part (some part) recipes = add_to_back (read_ingredient part) recipes

-- The loop: `current_id` starts at -1, which is no row's id.
unfoldable pub fetch_loop : List JoinedRow → ℤ → List Recipe → List Recipe
fetch_loop [] current_id recipes = recipes
fetch_loop (row ∷ rows) current_id recipes = fetch_loop rows (pos row.id) (
    with_part row.ingredient
      (if eq_ℤ (pos row.id) current_id then recipes else started row recipes))

unfoldable pub fetch_recipes : List JoinedRow → List Recipe
unfolding fetch_loop add_to_back read_ingredient
fetch_recipes rows = fetch_loop rows (negsuc 0) []

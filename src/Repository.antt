-- ===== src/Repository.antt =====
-- `app::SqliteRecipeRepository` (src/app/SqliteRecipeRepository.cpp): the implementation of the
-- port App.RecipeRepository over `db::DBManager`, with every exception turned into a Storage error.
pub mod Repeats
pub mod Errors
pub mod Creation
pub mod RecipeCreation
pub mod Updates
pub mod Catalogue
use recipes_core.Prelude.{ℕ, Text, text, Bool, Option, none, some, List}
use recipes_core.Kitchen.{Product, Recipe}
use recipes_core.App.{Error, Expected, expected, unexpected, Action, RecipeRepository, storage}
use recipes_core.Sql.{Engine}
use recipes_core.Db.Connection.{Outcome, returned, thrown, Database, Db, pure, ◌>>=◌}
use recipes_core.Db.Products
use recipes_core.Db.Recipes

unfoldable pub storage_error : Text → Error
storage_error what = record { code = storage; message = what }

abbrev pub caught : {A : Type 0} → Outcome (Expected A) × Database → Expected A × Database
caught (returned result, db) = (result, db)
caught (thrown what, db) = (unexpected (storage_error what), db)

-- try { … } catch (const std::exception&) { return unexpected(StorageError(…)); }
unfoldable pub catching : {A : Type 0} → Db (Expected A) → Action Database A
unfolding storage_error
catching m db = caught (m db)

abbrev pub must_exist : {A : Type 0} → Text → Option A → Expected A
must_exist message none = unexpected (record { code = storage; message = message })
must_exist message (some a) = expected a

module _ (engine : Engine) where
  unfoldable pub create_product : Product → Action Database Product
  create_product product = catching (do
    product_id ← Products.create_product engine product
    created_product ← Products.get_product engine product_id
    pure (must_exist (text "Created product was not found") created_product))

  unfoldable pub get_product : ℕ → Action Database (Option Product)
  get_product product_id =
      catching (do found ← Products.get_product engine product_id; pure (expected found))

  unfoldable pub get_products : Action Database (List Product)
  get_products = catching (do products ← Products.get_all_products engine; pure (expected products))

  unfoldable pub update_product : ℕ → Product → Action Database Bool
  update_product product_id product =
      catching
        (do updated ← Products.update_product engine product_id product; pure (expected updated))

  unfoldable pub delete_product : ℕ → Action Database Bool
  delete_product product_id =
      catching (do deleted ← Products.delete_product engine product_id; pure (expected deleted))

  unfoldable pub create_recipe : Recipe → Action Database Recipe
  create_recipe recipe = catching (do
    recipe_id ← Recipes.create_recipe engine recipe
    created_recipe ← Recipes.get_recipe engine recipe_id
    pure (must_exist (text "Created recipe was not found") created_recipe))

  unfoldable pub get_recipe : ℕ → Action Database (Option Recipe)
  get_recipe recipe_id =
      catching (do found ← Recipes.get_recipe engine recipe_id; pure (expected found))

  unfoldable pub get_recipes : Action Database (List Recipe)
  get_recipes = catching (do recipes ← Recipes.get_all_recipes engine; pure (expected recipes))

  unfoldable pub get_cookable_recipes : Action Database (List Recipe)
  get_cookable_recipes =
      catching (do recipes ← Recipes.get_cookable_recipes engine; pure (expected recipes))

  unfoldable pub update_recipe : ℕ → Recipe → Action Database Bool
  update_recipe recipe_id recipe =
      catching (do updated ← Recipes.update_recipe engine recipe_id recipe; pure (expected updated))

  unfoldable pub delete_recipe : ℕ → Action Database Bool
  delete_recipe recipe_id =
      catching (do deleted ← Recipes.delete_recipe engine recipe_id; pure (expected deleted))

  abbrev pub sqlite_repository : RecipeRepository Database
  sqlite_repository = record {
    create_product = create_product;
    get_product = get_product;
    get_products = get_products;
    update_product = update_product;
    delete_product = delete_product;
    create_recipe = create_recipe;
    get_recipe = get_recipe;
    get_recipes = get_recipes;
    get_cookable_recipes = get_cookable_recipes;
    update_recipe = update_recipe;
    delete_recipe = delete_recipe;
  }

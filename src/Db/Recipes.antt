-- ===== src/Db/Recipes.antt =====
-- The recipe operations of src/db/DBManager.cpp: `InsertRecipe`, `InsertRecipes`, `CreateRecipe`,
-- `GetRecipe`, `UpdateRecipe`, `DeleteRecipe`, `ReplaceRecipeIngredients`, `GetRecipeIngredients`,
-- `GetAllRecipes`, `GetCookableRecipes`.
use mathlib.Core.Option
use recipes_core.Prelude.{
  ℕ, text, Bool, true, false, Option, none, some, List, [], ◌∷◌, map, any, keep, ◌==◌,
  if◌then◌else◌,
}
use recipes_core.Kitchen.{Product, Recipe}
use recipes_core.Kitchen.Dimensions.{to_uint8}
use recipes_core.Sql
use recipes_core.Sql.{IngredientRow, JoinedRow, Tables, Engine, Statement}
use recipes_core.Sql.Statements
use recipes_core.Sql.Statements.{
  is_recipe, part_of, left_join, by_part, by_name, ingredient_before, is_cookable,
}
use recipes_core.Db.Connection.{
  Db, pure, throw, ◌>>=◌, ◌>>◌, execute, query, update, insert, transaction,
}
use recipes_core.Db.Reading.{read_ingredient, fetch_recipes}

unfoldable pub bind_ingredient : ℕ → Product → IngredientRow
unfolding to_uint8
bind_ingredient recipe_id ingredient = record {
  recipe_id = recipe_id;
  product_name = ingredient.name;
  dimension = to_uint8 ingredient.dimension;
  required_amount_base = ingredient.amount;
}

module _ (engine : Engine) where
  abbrev pub new_recipe_id : Tables → ℕ
  new_recipe_id t = engine.next_rowid t.recipes_seq

  unfoldable pub insert_ingredient : IngredientRow → Db (Unit {0})
  insert_ingredient row =
      execute engine Sql.insert_recipe_ingredient
        λ db. Option.map (λ t. update t 1 db) (Statements.insert_recipe_ingredient row db.tables)

  unfoldable pub insert_ingredients : ℕ → List Product → Db (Unit {0})
  insert_ingredients recipe_id [] = pure tt
  insert_ingredients recipe_id (ingredient ∷ rest) = do
    insert_ingredient (bind_ingredient recipe_id ingredient)
    insert_ingredients recipe_id rest

  unfoldable pub replace_recipe_ingredients : ℕ → Recipe → Db (Unit {0})
  replace_recipe_ingredients recipe_id recipe = do
    execute engine Sql.delete_recipe_ingredients_by_recipe_id λ db. some (
        update (Statements.delete_recipe_ingredients_by_recipe_id recipe_id db.tables)
          (Statements.count (part_of recipe_id) db.tables.recipe_ingredients) db)
    insert_ingredients recipe_id recipe.ingredients

  abbrev pub found_id : Option ℕ → Db ℕ
  found_id none = throw (text "Failed to retrieve recipe id after insert")
  found_id (some id) = pure id

  -- The part that `InsertRecipe` and the loop of `InsertRecipes` share.
  unfoldable pub insert_one : Recipe → Db (Unit {0})
  insert_one recipe = do
    execute engine Sql.insert_recipe_if_absent λ db.
        let t =
          Statements.insert_recipe_if_absent (new_recipe_id db.tables) recipe.name db.tables in
        some (
          if any (Statements.named recipe.name) db.tables.recipes
          then update t 0 db
          else insert t (new_recipe_id db.tables))
    row ←
        execute engine Sql.select_recipe_id_by_name
          (query (λ t. Statements.select_recipe_id_by_name recipe.name t.recipes))
    recipe_id ← found_id row
    replace_recipe_ingredients recipe_id recipe

  unfoldable pub insert_recipe : Recipe → Db (Unit {0})
  insert_recipe recipe = transaction engine (do insert_one recipe; pure (true, tt))

  unfoldable pub insert_recipes_loop : List Recipe → Db (Unit {0})
  insert_recipes_loop [] = pure tt
  insert_recipes_loop (recipe ∷ rest) = do insert_one recipe; insert_recipes_loop rest

  unfoldable pub insert_recipes : List Recipe → Db (Unit {0})
  insert_recipes recipes = transaction engine (do insert_recipes_loop recipes; pure (true, tt))

  unfoldable pub create_recipe : Recipe → Db ℕ
  create_recipe recipe = transaction engine (do
    execute engine Sql.create_recipe λ db.
        Option.map (λ t. insert t (new_recipe_id db.tables))
          (Statements.create_recipe (new_recipe_id db.tables) recipe.name db.tables)
    recipe_id ← λ db. pure db.last_insert_rowid db
    replace_recipe_ingredients recipe_id recipe
    pure (true, recipe_id))

  abbrev pub first : List Recipe → Option Recipe
  first [] = none
  first (recipe ∷ rest) = some recipe

  unfoldable pub get_recipe : ℕ → Db (Option Recipe)
  get_recipe recipe_id = do
    rows ← execute engine Sql.select_recipe_by_id_with_ingredients (
        query (λ t.
          engine.order_joined by_part
            (left_join (keep (is_recipe recipe_id) t.recipes) t.recipe_ingredients)))
    pure (first (fetch_recipes rows))

  -- `if (db_.getChanges() != 1) return false;` leaves the transaction without a commit.
  abbrev pub replaced_if : Bool → ℕ → Recipe → Db (Bool × Bool)
  replaced_if false recipe_id recipe = pure (false, false)
  replaced_if true recipe_id recipe = do
    replace_recipe_ingredients recipe_id recipe
    pure (true, true)

  unfoldable pub update_recipe : ℕ → Recipe → Db Bool
  update_recipe recipe_id recipe = transaction engine (do
    execute engine Sql.update_recipe_name_by_id λ db.
        Option.map (λ t. update t (Statements.count (is_recipe recipe_id) db.tables.recipes) db)
          (Statements.update_recipe_name_by_id recipe_id recipe.name db.tables)
    changes ← λ db. pure db.changes db
    replaced_if (changes == 1) recipe_id recipe)

  unfoldable pub delete_recipe : ℕ → Db Bool
  delete_recipe recipe_id = do
    execute engine Sql.delete_recipe_by_id λ db. some (
        update (Statements.delete_recipe_by_id recipe_id db.tables)
          (Statements.count (is_recipe recipe_id) db.tables.recipes) db)
    λ db. pure (db.changes == 1) db

  unfoldable pub get_recipe_ingredients : ℕ → Db (List Product)
  get_recipe_ingredients recipe_id = do
    rows ← execute engine Sql.select_recipe_ingredients_by_recipe_id (
        query (λ t.
          engine.order_ingredients ingredient_before
            (keep (part_of recipe_id) t.recipe_ingredients)))
    pure (map read_ingredient rows)

  unfoldable pub get_all_recipes : Db (List Recipe)
  get_all_recipes = do
    rows ←
        execute engine Sql.select_all_recipes_with_ingredients
          (query (λ t. engine.order_joined by_name (left_join t.recipes t.recipe_ingredients)))
    pure (fetch_recipes rows)

  unfoldable pub get_cookable_recipes : Db (List Recipe)
  get_cookable_recipes = do
    rows ← execute engine Sql.select_cookable_recipes_with_ingredients (
        query (λ t.
          engine.order_joined by_name
            (left_join (keep (is_cookable t) t.recipes) t.recipe_ingredients)))
    pure (fetch_recipes rows)

-- ===== src/Db/Consistency/Calls.antt =====
-- Sequences of calls of the public operations of `db::DBManager` (src/db/DBManager.cpp), on a database
-- that was just opened.
use recipes_core.Prelude.{ℕ, ◌<◌, List, [], ◌∷◌}
use recipes_core.Kitchen.{Product, Recipe}
use recipes_core.Sql
use recipes_core.Sql.{Engine}
use recipes_core.Sql.Consistency.{IsConsistent, empty_tables-IsConsistent}
use recipes_core.Db.Connection.{Database, opened}
use recipes_core.Db.Products
use recipes_core.Db.Products.{get_product, get_all_products}
use recipes_core.Db.Recipes
use recipes_core.Db.Recipes.{
  get_recipe, get_recipe_ingredients, get_all_recipes, get_cookable_recipes,
}
use recipes_core.Db.Consistency.{
  read-Preserves, then_pure-Preserves, insert_product-Preserves, insert_products-Preserves,
  create_product-Preserves, update_product-Preserves, delete_product-Preserves,
}
use recipes_core.Db.Consistency.Recipes.{
  insert_recipe-Preserves, insert_recipes-Preserves, create_recipe-Preserves,
  update_recipe-Preserves, delete_recipe-Preserves,
}

-- A call with its arguments.
pub data Call : Type 0 where
  insert_product create_product : Product → Call
  insert_products : List Product → Call
  update_product : ℕ → Product → Call
  delete_product select_product : ℕ → Call
  insert_recipe create_recipe : Recipe → Call
  insert_recipes : List Recipe → Call
  update_recipe : ℕ → Recipe → Call
  delete_recipe select_recipe select_ingredients : ℕ → Call
  select_products select_recipes select_cookable : Call

module _ (engine : Engine) where
  -- The connection after a call, whether it returns or throws.
  unfoldable pub call : Call → Database → Database
  call (insert_product p) db = (Products.insert_product engine p db).1
  call (create_product p) db = (Products.create_product engine p db).1
  call (insert_products ps) db = (Products.insert_products engine ps db).1
  call (update_product id p) db = (Products.update_product engine id p db).1
  call (delete_product id) db = (Products.delete_product engine id db).1
  call (select_product id) db = (get_product engine id db).1
  call (insert_recipe r) db = (Recipes.insert_recipe engine r db).1
  call (create_recipe r) db = (Recipes.create_recipe engine r db).1
  call (insert_recipes rs) db = (Recipes.insert_recipes engine rs db).1
  call (update_recipe id r) db = (Recipes.update_recipe engine id r db).1
  call (delete_recipe id) db = (Recipes.delete_recipe engine id db).1
  call (select_recipe id) db = (get_recipe engine id db).1
  call (select_ingredients id) db = (get_recipe_ingredients engine id db).1
  call select_products db = (get_all_products engine db).1
  call select_recipes db = (get_all_recipes engine db).1
  call select_cookable db = (get_cookable_recipes engine db).1

  unfoldable pub calls : List Call → Database → Database
  unfolding call
  calls [] db = db
  calls (c ∷ cs) db = calls cs (call c db)

  module _ (grows : (n : ℕ) → n < engine.next_rowid n) where
    call-IsConsistent :
        (c : Call) (db : Database) → IsConsistent db.tables → IsConsistent (call c db).tables
    unfolding call get_product get_all_products get_recipe get_recipe_ingredients get_all_recipes
        get_cookable_recipes
    call-IsConsistent (insert_product p) db h = insert_product-Preserves engine grows p db h
    call-IsConsistent (create_product p) db h = create_product-Preserves engine grows p db h
    call-IsConsistent (insert_products ps) db h = insert_products-Preserves engine grows ps db h
    call-IsConsistent (update_product id p) db h = update_product-Preserves engine grows id p db h
    call-IsConsistent (delete_product id) db h = delete_product-Preserves engine grows id db h
    call-IsConsistent (select_product id) db h =
        then_pure-Preserves engine _ _ (read-Preserves engine Sql.select_product_by_id _) db h
    call-IsConsistent (insert_recipe r) db h = insert_recipe-Preserves engine grows r db h
    call-IsConsistent (create_recipe r) db h = create_recipe-Preserves engine grows r db h
    call-IsConsistent (insert_recipes rs) db h = insert_recipes-Preserves engine grows rs db h
    call-IsConsistent (update_recipe id r) db h = update_recipe-Preserves engine id r db h
    call-IsConsistent (delete_recipe id) db h = delete_recipe-Preserves engine id db h
    call-IsConsistent (select_recipe id) db h =
        then_pure-Preserves engine _ _
          (read-Preserves engine Sql.select_recipe_by_id_with_ingredients _) db h
    call-IsConsistent (select_ingredients id) db h =
        then_pure-Preserves engine _ _
          (read-Preserves engine Sql.select_recipe_ingredients_by_recipe_id _) db h
    call-IsConsistent select_products db h =
        then_pure-Preserves engine _ _ (read-Preserves engine Sql.select_all_products _) db h
    call-IsConsistent select_recipes db h =
        then_pure-Preserves engine _ _
          (read-Preserves engine Sql.select_all_recipes_with_ingredients _) db h
    call-IsConsistent select_cookable db h =
        then_pure-Preserves engine _ _
          (read-Preserves engine Sql.select_cookable_recipes_with_ingredients _) db h

    calls_kept :
        (cs : List Call) (db : Database)
        → IsConsistent db.tables
        → IsConsistent (calls cs db).tables
    unfolding calls
    calls_kept [] db h = h
    calls_kept (c ∷ cs) db h = calls_kept cs (call c db) (call-IsConsistent c db h)

    -- After any sequence of calls on a new database, whichever of them fail and however, the three
    -- tables meet every constraint: names and dimensions of products, names of recipes, ids and the
    -- keys of ingredients are unique, no amount is negative, every ingredient belongs to a recipe
    -- that is there, and no id is beyond its table's counter. The condition is that a new row id is
    -- larger than the counter.
    pub calls-IsConsistent : (cs : List Call) → IsConsistent (calls cs opened).tables
    unfolding opened
    calls-IsConsistent cs = calls_kept cs opened empty_tables-IsConsistent

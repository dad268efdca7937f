-- ===== src/Repository/Updates.antt =====
-- Updates through `app::RecipeService`, `app::SqliteRecipeRepository` and `db::DBManager` together.
use recipes_core.Prelude.{ℕ, ◌≡◌, refl, Bool, true, false}
use recipes_core.Kitchen.{Product, Recipe}
use recipes_core.App.{Expected, expected, unexpected}
use recipes_core.Service
use recipes_core.Service.{validate_product, validate_recipe, checked, require_found}
use recipes_core.Sql.{Engine, Tables}
use recipes_core.Db.Connection.{Outcome, returned, thrown, Database, ◌>>=◌, continue}
use recipes_core.Db.Refusals.{
  KeptUnlessTrue, update_product-KeptUnlessTrue, update_recipe-KeptUnlessTrue,
}
use recipes_core.Repository.{catching, update_product, update_recipe, sqlite_repository}

-- After an error the tables are as before.
abbrev pub KeptIfRefused : {A : Type 0} → Tables → Expected A × Database → Type 0
KeptIfRefused before (expected a, db) = Unit {0}
KeptIfRefused before (unexpected e, db) = db.tables ≡ before

caught-KeptIfRefused :
    (before : Tables) (message : _) (r : Outcome Bool × Database)
    → KeptUnlessTrue before r
    → KeptIfRefused before (
        require_found message
          (catching (λ _. continue r (λ b db. (returned (expected b), db))) (r.1)))
unfolding catching
caught-KeptIfRefused before message (returned true, db) h = tt
caught-KeptIfRefused before message (returned false, db) h = h
caught-KeptIfRefused before message (thrown what, db) h = h

checked-KeptIfRefused :
    (validation : Expected (Unit {0})) (rest : Database → Expected (Unit {0}) × Database)
    (db : Database)
    → KeptIfRefused db.tables (rest db)
    → KeptIfRefused db.tables (checked validation rest db)
checked-KeptIfRefused (expected _) rest db h = h
checked-KeptIfRefused (unexpected e) rest db h = refl

module _ (engine : Engine) where
  -- An update that the service reports as failed, whatever the reason (validation, no row of that
  -- id, a name that is taken, a bad ingredient, a fault of the storage at any statement), has left
  -- all tables as they were: a recipe is never left renamed with its old ingredients, or without.
  pub updates-KeptIfRefused :
      (product_id recipe_id : ℕ) (product : Product) (recipe : Recipe) (db : Database)
      → KeptIfRefused db.tables
          (Service.update_product (sqlite_repository engine) product_id product db)
        × KeptIfRefused db.tables
            (Service.update_recipe (sqlite_repository engine) recipe_id recipe db)
  unfolding Service.update_product Service.update_recipe update_product update_recipe catching ◌>>=◌
  updates-KeptIfRefused product_id recipe_id product recipe db = (
    checked-KeptIfRefused (validate_product product) _ db (
        caught-KeptIfRefused db.tables _ _
          (update_product-KeptUnlessTrue engine product_id product db)),
    checked-KeptIfRefused (validate_recipe recipe) _ db (
        caught-KeptIfRefused db.tables _ _
          (update_recipe-KeptUnlessTrue engine recipe_id recipe db)),
  )

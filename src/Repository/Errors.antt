-- ===== src/Repository/Errors.antt =====
-- The errors of src/app/SqliteRecipeRepository.cpp.
use recipes_core.Prelude.{ℕ, Text, ◌≡◌, refl, Option, none, some}
use recipes_core.Kitchen.{Product, Recipe}
use recipes_core.App.{Expected, expected, unexpected, storage}
use recipes_core.Sql.{Engine}
use recipes_core.Db.Connection.{Outcome, returned, thrown, Database, Db, ◌>>=◌, continue}
use recipes_core.Db.Products
use recipes_core.Db.Recipes
use recipes_core.Repository.{
  catching, must_exist, create_product, get_product, get_products, update_product, delete_product,
  create_recipe, get_recipe, get_recipes, get_cookable_recipes, update_recipe, delete_recipe,
}

-- An error, if it is one, is a Storage error.
abbrev pub IsStorage : {A : Type 0} → Expected A → Type 0
IsStorage (expected a) = Unit {0}
IsStorage (unexpected e) = e.code ≡ storage

abbrev ReturnsStorage : {A : Type 0} → Outcome (Expected A) × Database → Type 0
ReturnsStorage (returned result, db) = IsStorage result
ReturnsStorage (thrown what, db) = Unit {0}

continue-ReturnsStorage :
    {A B : Type 0} (f : A → Db (Expected B)) (r : Outcome A × Database)
    → ((a : A) (db : Database) → ReturnsStorage (f a db))
    → ReturnsStorage (continue r f)
continue-ReturnsStorage f (returned a, db) h = h a db
continue-ReturnsStorage f (thrown what, db) h = tt

catching-IsStorage :
    {A B : Type 0} (m : Db A) (f : A → Db (Expected B)) (db : Database)
    → ((a : A) (db : Database) → ReturnsStorage (f a db))
    → IsStorage (catching (m >>= f) db).0
unfolding catching ◌>>=◌
catching-IsStorage {B = B} m f db h = go (continue (m db) f) (continue-ReturnsStorage f (m db) h)
  where
    go :
        (r : Outcome (Expected B) × Database)
        → ReturnsStorage r
        → IsStorage (catching (λ _. r) db).0
    go (returned result, last) e = e
    go (thrown what, last) e = refl

read_back-ReturnsStorage :
    {A : Type 0} (message : Text) (found : Option A) (db : Database)
    → ReturnsStorage (returned (must_exist message found), db)
read_back-ReturnsStorage message none db = refl
read_back-ReturnsStorage message (some a) db = tt

read_back :
    {A : Type 0} (m : Db (Option A)) (message : Text) (db : Database)
    → ReturnsStorage ((m >>= λ found last. (returned (must_exist message found), last)) db)
unfolding ◌>>=◌
read_back m message db = continue-ReturnsStorage _ (m db) (read_back-ReturnsStorage message)

module _ (engine : Engine) where
  -- Whatever fails, the repository reports a Storage error: no method ever reports that a name is
  -- taken (Conflict), that something is missing (NotFound), Validation or Overloaded.
  pub errors-IsStorage :
      (product : Product) (recipe : Recipe) (id : ℕ) (db : Database)
      → IsStorage (create_product engine product db).0
        × IsStorage (get_product engine id db).0
        × IsStorage (get_products engine db).0
        × IsStorage (update_product engine id product db).0
        × IsStorage (delete_product engine id db).0
        × IsStorage (create_recipe engine recipe db).0
        × IsStorage (get_recipe engine id db).0
        × IsStorage (get_recipes engine db).0
        × IsStorage (get_cookable_recipes engine db).0
        × IsStorage (update_recipe engine id recipe db).0
        × IsStorage (delete_recipe engine id db).0
  unfolding create_product get_product get_products update_product delete_product create_recipe
      get_recipe get_recipes get_cookable_recipes update_recipe delete_recipe
  errors-IsStorage product recipe id db = (
    catching-IsStorage _ _ db (λ a. read_back (Products.get_product engine a) _),
    catching-IsStorage _ _ db (λ a d. tt),
    catching-IsStorage _ _ db (λ a d. tt),
    catching-IsStorage _ _ db (λ a d. tt),
    catching-IsStorage _ _ db (λ a d. tt),
    catching-IsStorage _ _ db (λ a. read_back (Recipes.get_recipe engine a) _),
    catching-IsStorage _ _ db (λ a d. tt),
    catching-IsStorage _ _ db (λ a d. tt),
    catching-IsStorage _ _ db (λ a d. tt),
    catching-IsStorage _ _ db (λ a d. tt),
    catching-IsStorage _ _ db (λ a d. tt),
  )

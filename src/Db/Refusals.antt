-- ===== src/Db/Refusals.antt =====
-- What `UpdateProduct` and `UpdateRecipe` of src/db/DBManager.cpp leave behind unless they return
-- true.
use mathlib.Core.Option
use recipes_core.Prelude.{
  ℕ, Text, ◌≡◌, refl, subst, Bool, true, false, Option, none, some, if◌then◌else◌, any, ◌==◌,
}
use recipes_core.Kitchen.{Product, Recipe}
use recipes_core.Sql
use recipes_core.Sql.{Tables, Statement, Engine}
use recipes_core.Sql.Statements
use recipes_core.Sql.Statements.{has_id}
use recipes_core.Db.Connection.{
  Outcome, returned, thrown, Database, Db, ◌>>=◌, continue, update, reset_statement, step,
  step_with, execute, transaction, committed,
}
use recipes_core.Db.Atomicity.{reset_failed-kept}
use recipes_core.Db.Products.{bind_product, update_product}
use recipes_core.Db.Recipes.{update_recipe, replaced_if, replace_recipe_ingredients}

-- The tables are as before, unless the operation returned true.
abbrev pub KeptUnlessTrue : Tables → Outcome Bool × Database → Type 0
KeptUnlessTrue before (returned true, db) = Unit {0}
KeptUnlessTrue before (returned false, db) = db.tables ≡ before
KeptUnlessTrue before (thrown what, db) = db.tables ≡ before

-- A transaction's body that returns what it commits.
abbrev Agrees : Outcome (Bool × Bool) × Database → Type 0
Agrees (returned (commits, result), db) = commits ≡ result
Agrees (thrown what, db) = Unit {0}

continue-Agrees :
    {A : Type 0} (f : A → Db (Bool × Bool)) (r : Outcome A × Database)
    → ((a : A) (db : Database) → Agrees (f a db))
    → Agrees (continue r f)
continue-Agrees f (returned a, db) h = h a db
continue-Agrees f (thrown what, db) h = tt

fault_cases :
    (before : Tables) (fault : Option Text) (r : Outcome Bool × Database) (db : Database)
    → KeptUnlessTrue before r
    → db.tables ≡ before
    → KeptUnlessTrue before (elim fault [ none ↦ r | some what ↦ (thrown what, db) ])
fault_cases before none r db h same = h
fault_cases before (some what) r db h same = same

module _ (engine : Engine) where
  committed-KeptUnlessTrue :
      (before : Tables) (r : Outcome (Bool × Bool) × Database)
      → Agrees r
      → KeptUnlessTrue before (committed engine before r)
  committed-KeptUnlessTrue before (thrown what, db) h = refl
  committed-KeptUnlessTrue before (returned (false, true), db) h = tt
  committed-KeptUnlessTrue before (returned (false, false), db) h = refl
  committed-KeptUnlessTrue before (returned (true, false), db) h = cc
  committed-KeptUnlessTrue before (returned (true, true), db) h =
      fault_cases before (engine.fault Sql.commit_transaction db.tables) (returned true, db)
        (record db { tables = before }) tt refl

  pub update_recipe-KeptUnlessTrue :
      (id : ℕ) (recipe : Recipe) (db : Database)
      → KeptUnlessTrue db.tables (update_recipe engine id recipe db)
  unfolding update_recipe transaction ◌>>=◌
  update_recipe-KeptUnlessTrue id recipe db =
      fault_cases db.tables (engine.fault Sql.begin_transaction db.tables) _ db
        (committed-KeptUnlessTrue db.tables _ (
          continue-Agrees _ (execute engine Sql.update_recipe_name_by_id _ db)
            (λ _ d. body (d.changes == 1) d)))
        refl
    where
      body : (found : Bool) (d : Database) → Agrees (replaced_if engine found id recipe d)
      body false d = refl
      body true d = continue-Agrees _ (replace_recipe_ingredients engine id recipe d) (λ _ _. refl)

  -- A statement that changes one row where `present`, and else nothing.
  stepped :
      (s : Statement) (fault : Option Text) (tables : Option Tables) (present : Bool)
      (db : Database)
      → (present ≡ false → tables ≡ some db.tables)
      → KeptUnlessTrue db.tables (
          continue
            (step_with engine s fault
              (Option.map (λ t. update t (if present then 1 else 0) db) tables)
              db)
            (λ _ last. (returned (last.changes == 1), last)))
  stepped s (some what) tables present db h = refl
  stepped s none none present db h = refl
  stepped s none (some t) true db h = tt
  stepped s none (some t) false db h = let same = h refl in cc

  reset_then-KeptUnlessTrue :
      {A : Type 0} (before : Tables) (f : Db A) (g : A → Db Bool)
      (r : Outcome (Unit {0}) × Database)
      → r.1.tables ≡ before
      → ((db : Database) → KeptUnlessTrue db.tables (continue (f db) g))
      → KeptUnlessTrue before (continue (continue r (λ _. f)) g)
  reset_then-KeptUnlessTrue before f g (thrown what, db) same h = same
  reset_then-KeptUnlessTrue before f g (returned _, db) same h =
      subst (λ t. KeptUnlessTrue t (continue (f db) g)) same (h db)

  absent_unchanged :
      (id : ℕ) (product : Product) (t : Tables)
      → any (has_id id) t.products ≡ false
      → Statements.update_product_by_id id (bind_product product) t ≡ some t
  unfolding Statements.update_product_by_id
  absent_unchanged id product t e = rw e refl

  pub update_product-KeptUnlessTrue :
      (id : ℕ) (product : Product) (db : Database)
      → KeptUnlessTrue db.tables (update_product engine id product db)
  unfolding update_product execute reset_statement step ◌>>=◌
  update_product-KeptUnlessTrue id product db =
      reset_then-KeptUnlessTrue db.tables _ _ (reset_statement engine Sql.update_product_by_id db)
        (reset_failed-kept engine Sql.update_product_by_id (db.failed Sql.update_product_by_id) db)
        λ d.
          stepped Sql.update_product_by_id (engine.fault Sql.update_product_by_id d.tables)
            (Statements.update_product_by_id id (bind_product product) d.tables)
            (any (has_id id) d.tables.products) d (absent_unchanged id product d.tables)

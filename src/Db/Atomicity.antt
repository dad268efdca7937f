-- ===== src/Db/Atomicity.antt =====
-- What the operations of src/db/DBManager.cpp leave behind when they throw.
use recipes_core.Prelude.{
  ℕ, Text, ◌≡◌, refl, subst, Bool, true, false, Option, none, some, Option-cases, inl, inr, List,
}
use recipes_core.Kitchen.{Product, Recipe}
use recipes_core.Sql
use recipes_core.Sql.{Tables, Statement, Engine}
use recipes_core.Db.Connection.{
  Outcome, returned, thrown, Database, Db, ◌>>=◌, continue, Effect, reset_statement, reset_failed,
  step, step_with, execute, transaction, committed,
}
use recipes_core.Db.Products.{
  insert_product, insert_products, create_product, update_product, delete_product,
}
use recipes_core.Db.Recipes.{
  insert_recipe, insert_recipes, create_recipe, update_recipe, delete_recipe,
}

abbrev pub KeptIfThrown : {A : Type 0} → Tables → Outcome A × Database → Type 0
KeptIfThrown before (returned a, db) = Unit {0}
KeptIfThrown before (thrown what, db) = db.tables ≡ before

-- Where the operation throws, the tables are as before it.
abbrev pub IsAtomic : {A : Type 0} → Db A → Type 0
IsAtomic m = (db : Database) → KeptIfThrown db.tables (m db)

continue-kept :
    {A B : Type 0} (before : Tables) (f : A → Db B) (r : Outcome A × Database)
    → r.1.tables ≡ before
    → ((a : A) → IsAtomic (f a))
    → KeptIfThrown before (continue r f)
continue-kept before f (returned a, db) same h = subst (λ t. KeptIfThrown t (f a db)) same (h a db)
continue-kept before f (thrown what, db) same h = same

continue-returns :
    {A B : Type 0} (before : Tables) (g : Database → B) (r : Outcome A × Database)
    → KeptIfThrown before r
    → KeptIfThrown before (continue r (λ _ db. (returned (g db), db)))
continue-returns before g (returned a, db) h = tt
continue-returns before g (thrown what, db) h = h

-- A read of the connection after an operation adds no exception.
then_read-IsAtomic :
    {A B : Type 0} (m : Db A) (g : Database → B)
    → IsAtomic m
    → IsAtomic (m >>= λ _ db. (returned (g db), db))
unfolding ◌>>=◌
then_read-IsAtomic m g h db = continue-returns db.tables g (m db) (h db)

-- With the result r, or a fault of the storage at the connection db.
fault_cases :
    {A : Type 0} (before : Tables) (fault : Option Text) (r : Outcome A × Database) (db : Database)
    → KeptIfThrown before r
    → db.tables ≡ before
    → KeptIfThrown {A = A} before (elim fault [ none ↦ r | some what ↦ (thrown what, db) ])
fault_cases before none r db h same = h
fault_cases before (some what) r db h same = same

module _ (engine : Engine) where
  pub reset_failed-kept :
      (s : Statement) (what : Option Text) (db : Database)
      → (reset_failed engine s what db).1.tables ≡ db.tables
  reset_failed-kept s none db = refl
  reset_failed-kept s (some what) db = elim (Option-cases (engine.reset_error what)) [
    | inl e ↦ rw (e, reset_failed) refl
    | inr (message, e) ↦ rw (e, reset_failed) refl
  ]

  step_with-kept :
      {A : Type 0} (s : Statement) (what : Option Text) (effect : Option (Effect A)) (db : Database)
      → KeptIfThrown db.tables (step_with engine s what effect db)
  step_with-kept s (some what) effect db = refl
  step_with-kept s none none db = refl
  step_with-kept s none (some effect) db = tt

  pub execute-IsAtomic :
      {A : Type 0} (s : Statement) (effect : Database → Option (Effect A))
      → IsAtomic (execute engine s effect)
  unfolding execute ◌>>=◌ reset_statement step
  execute-IsAtomic s effect db =
      continue-kept db.tables (λ _. step engine s effect) (reset_statement engine s db)
        (reset_failed-kept s (db.failed s) db)
        (λ a db'. step_with-kept s (engine.fault s db'.tables) (effect db') db')

  committed-kept :
      {A : Type 0} (before : Tables) (r : Outcome (Bool × A) × Database)
      → KeptIfThrown before (committed engine before r)
  committed-kept before (thrown what, db) = refl
  committed-kept before (returned (false, a), db) = tt
  committed-kept before (returned (true, a), db) =
      fault_cases before (engine.fault Sql.commit_transaction db.tables) (returned a, db)
        (record db { tables = before }) tt refl

  pub transaction-IsAtomic :
      {A : Type 0} (body : Db (Bool × A)) → IsAtomic (transaction engine body)
  unfolding transaction
  transaction-IsAtomic body db =
      fault_cases db.tables (engine.fault Sql.begin_transaction db.tables)
        (committed engine db.tables (body db)) db (committed-kept db.tables (body db)) refl

  -- Every operation that writes is atomic: where it throws, whether for a constraint, a fault of the
  -- storage at any of its statements or the repeated error of an earlier one, all three tables are
  -- as they were before it, also when it had already stored a part.
  pub writes-IsAtomic :
      (product : Product) (recipe : Recipe) (products : List Product) (recipes : List Recipe)
      (id : ℕ) (db : Database)
      → KeptIfThrown db.tables (insert_product engine product db)
        × KeptIfThrown db.tables (insert_products engine products db)
        × KeptIfThrown db.tables (create_product engine product db)
        × KeptIfThrown db.tables (update_product engine id product db)
        × KeptIfThrown db.tables (delete_product engine id db)
        × KeptIfThrown db.tables (insert_recipe engine recipe db)
        × KeptIfThrown db.tables (insert_recipes engine recipes db)
        × KeptIfThrown db.tables (create_recipe engine recipe db)
        × KeptIfThrown db.tables (update_recipe engine id recipe db)
        × KeptIfThrown db.tables (delete_recipe engine id db)
  unfolding insert_product insert_products create_product update_product delete_product
      insert_recipe insert_recipes create_recipe update_recipe delete_recipe
  writes-IsAtomic product recipe products recipes id db = (
    execute-IsAtomic _ _ db,
    transaction-IsAtomic _ db,
    then_read-IsAtomic _ _ (execute-IsAtomic _ _) db,
    then_read-IsAtomic _ _ (execute-IsAtomic _ _) db,
    then_read-IsAtomic _ _ (execute-IsAtomic _ _) db,
    transaction-IsAtomic _ db,
    transaction-IsAtomic _ db,
    transaction-IsAtomic _ db,
    transaction-IsAtomic _ db,
    then_read-IsAtomic _ _ (execute-IsAtomic _ _) db,
  )

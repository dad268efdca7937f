-- ===== src/Repository/Repeats.antt =====
-- `SqliteRecipeRepository::CreateProduct` after a product whose name and dimension are taken. The
-- documentation of sqlite3_reset says that it reports the error of the last step again, and
-- SQLiteCpp's `reset` throws it.
use mathlib.Core.Option
use recipes_core.Prelude.{
  Text, ℕ, ◌≡◌, ap, refl, true, Bool-cases, Option, none, some, inl, inr, any,
}
use recipes_core.Kitchen.{Product}
use recipes_core.Kitchen.Dimensions.{to_uint8}
use recipes_core.App.{unexpected}
use recipes_core.Sql
use recipes_core.Sql.{Engine, Statement, Tables}
use recipes_core.Sql.Statements
use recipes_core.Sql.Statements.{has_key, negative}
use recipes_core.Db.Connection.{
  thrown, returned, Database, ◌>>=◌, Effect, execute, reset_statement, reset_failed, step, mark,
  continue, insert,
}
use recipes_core.Db.Products
use recipes_core.Db.Products.{bind_product}
use recipes_core.Repository.{create_product, catching, storage_error}

taken_name :
    (id : ℕ) (p : Product) (t : Tables)
    → any (has_key p.name (to_uint8 p.dimension)) t.products ≡ true
    → Statements.create_product id (bind_product p) t ≡ none
unfolding Statements.create_product bind_product
taken_name id p t taken = elim (Bool-cases (negative p.amount)) [
  | inl e ↦ rw e refl
  | inr e ↦ rw (e, taken) refl
]

module _ (engine : Engine) where
  pub execute-refused :
      {A : Type 0} (s : Statement) (effect : Database → Option (Effect A)) (db : Database)
      → db.failed s ≡ none
      → engine.fault s db.tables ≡ none
      → effect db ≡ none
      → execute engine s effect db
        ≡ (thrown engine.constraint_failed, mark s (some engine.constraint_failed) db)
  unfolding execute ◌>>=◌ reset_statement step
  execute-refused s effect db clean sound refused = rw (clean, sound, refused) refl

  pub execute-repeats :
      {A : Type 0} (s : Statement) (effect : Database → Option (Effect A)) (db : Database)
      (what message : Text)
      → db.failed s ≡ some what
      → engine.reset_error what ≡ some message
      → execute engine s effect db ≡ (thrown message, mark s none db)
  unfolding execute ◌>>=◌ reset_statement
  execute-repeats s effect db what message failed again = rw (failed, again, reset_failed) refl

  -- The connection after a refused creation.
  abbrev pub refused_once : Database → Database
  refused_once db = mark Sql.create_product (some engine.constraint_failed) db

  creation : Product → Database → Option (Effect (Unit {0}))
  creation p db =
      let id = engine.next_rowid db.tables.products_seq in
      Option.map (λ t. insert t id) (Statements.create_product id (bind_product p) db.tables)

  pub refused_creation :
      (p : Product) (db : Database)
      → any (has_key p.name (to_uint8 p.dimension)) db.tables.products ≡ true
      → db.failed Sql.create_product ≡ none
      → engine.fault Sql.create_product db.tables ≡ none
      → Products.create_product engine p db ≡ (thrown engine.constraint_failed, refused_once db)
  unfolding Products.create_product ◌>>=◌ creation
  refused_creation p db taken clean sound =
      let id = engine.next_rowid db.tables.products_seq in
      ap (λ r. continue r (λ _ last. (returned last.last_insert_rowid, last)))
        (execute-refused Sql.create_product (creation p) db clean sound
          (ap (Option.map (λ t. insert t id)) (taken_name id p db.tables taken)))

  pub repeated_error :
      (q : Product) (what message : Text) (db : Database)
      → db.failed Sql.create_product ≡ some what
      → engine.reset_error what ≡ some message
      → Products.create_product engine q db ≡ (thrown message, mark Sql.create_product none db)
  unfolding Products.create_product ◌>>=◌ creation
  repeated_error q what message db failed again =
      ap (λ r. continue r (λ _ last. (returned last.last_insert_rowid, last)))
        (execute-repeats Sql.create_product (creation q) db what message failed again)

  -- A product whose name and dimension are taken is refused, and so is the next one, whatever it is:
  -- its creation only resets the statement, which repeats the old error. The one after that is free
  -- of it, and the tables are as they were.
  pub create_product-repeats :
      (p q : Product) (message : Text) (db : Database)
      → any (has_key p.name (to_uint8 p.dimension)) db.tables.products ≡ true
      → db.failed Sql.create_product ≡ none
      → engine.fault Sql.create_product db.tables ≡ none
      → engine.reset_error engine.constraint_failed ≡ some message
      → let second = create_product engine q (refused_once db) in
        (create_product engine p db
          ≡ (unexpected (storage_error engine.constraint_failed), refused_once db))
        × (second.0 ≡ unexpected (storage_error message))
        × (second.1.failed Sql.create_product ≡ none)
        × (second.1.tables ≡ db.tables)
  unfolding create_product catching ◌>>=◌ Products.create_product
  create_product-repeats p q message db taken clean sound again = (
    rw (refused_creation p db taken clean sound) refl,
    rw (repeated_error q engine.constraint_failed message (refused_once db) refl again) refl,
    rw (repeated_error q engine.constraint_failed message (refused_once db) refl again) refl,
    rw (repeated_error q engine.constraint_failed message (refused_once db) refl again) refl,
  )

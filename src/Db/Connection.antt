-- ===== src/Db/Connection.antt =====
-- The connection of `db::DBManager`, exceptions, the resetting and stepping of prepared statements
-- (`ResetStatement`, `exec`, `executeStep`) and transactions (`SQLite::Transaction`).
use recipes_core.Prelude.{ℕ, Text, Bool, true, false, Option, none, some, if◌then◌else◌, ◌==◌}
use recipes_core.Sql.{Tables, Engine, empty_tables}
use recipes_core.Sql
use recipes_core.Sql.{Statement}

pub data Outcome (A : Type 0) : Type 0 where
  returned : A → Outcome A
  thrown : Text → Outcome A

-- `failed` holds the message of a statement whose last step failed and that was not reset since.
pub record Database : Type 0 where
  pub tables : Tables
  pub last_insert_rowid : ℕ
  pub changes : ℕ
  pub failed : Statement → Option Text

abbrev pub Db : Type 0 → Type 0
Db A = Database → Outcome A × Database

abbrev pub pure : {A : Type 0} → A → Db A
pure a db = (returned a, db)

abbrev pub throw : {A : Type 0} → Text → Db A
throw what db = (thrown what, db)

abbrev pub continue : {A B : Type 0} → Outcome A × Database → (A → Db B) → Outcome B × Database
continue (returned a, db) f = f a db
continue (thrown what, db) f = (thrown what, db)

infixl 5 ◌>>=◌ ◌>>◌
unfoldable pub ◌>>=◌ : {A B : Type 0} → Db A → (A → Db B) → Db B
◌>>=◌ m f db = continue (m db) f

abbrev pub ◌>>◌ : {A B : Type 0} → Db A → Db B → Db B
m >> n = m >>= λ _. n

abbrev pub index : Statement → ℕ
index Sql.insert_product = 0
index Sql.create_product = 1
index Sql.select_all_products = 2
index Sql.select_product_by_id = 3
index Sql.update_product_by_id = 4
index Sql.delete_product_by_id = 5
index Sql.insert_recipe_if_absent = 6
index Sql.create_recipe = 7
index Sql.select_recipe_id_by_name = 8
index Sql.delete_recipe_ingredients_by_recipe_id = 9
index Sql.insert_recipe_ingredient = 10
index Sql.select_recipe_ingredients_by_recipe_id = 11
index Sql.select_all_recipes_with_ingredients = 12
index Sql.select_recipe_by_id_with_ingredients = 13
index Sql.update_recipe_name_by_id = 14
index Sql.delete_recipe_by_id = 15
index Sql.select_cookable_recipes_with_ingredients = 16
index Sql.begin_transaction = 17
index Sql.commit_transaction = 18

abbrev pub mark : Statement → Option Text → Database → Database
mark statement what db = record db {
  failed = λ s. if index s == index statement then what else db.failed s;
}

-- What an executed statement does: new tables and its `sqlite3_changes`, and a result.
pub record Effect (A : Type 0) : Type 0 where
  pub tables : Tables
  pub changes : ℕ
  pub rowid : ℕ
  pub result : A

abbrev pub apply_effect : {A : Type 0} → Effect A → Database → Outcome A × Database
apply_effect e db = (
  returned e.result,
  record db { tables = e.tables; changes = e.changes; last_insert_rowid = e.rowid },
)

-- The effect of a query.
abbrev pub query : {A : Type 0} → (Tables → A) → Database → Option (Effect A)
query read db = some (record {
  tables = db.tables;
  changes = db.changes;
  rowid = db.last_insert_rowid;
  result = read db.tables;
})

-- The effect of a statement that touches `changes` rows and inserts none.
abbrev pub update : Tables → ℕ → Database → Effect (Unit {0})
update tables changes db = record {
  tables = tables;
  changes = changes;
  rowid = db.last_insert_rowid;
  result = tt;
}

-- The effect of an insertion with a new row id.
abbrev pub insert : Tables → ℕ → Effect (Unit {0})
insert tables id = record { tables = tables; changes = 1; rowid = id; result = tt }

module _ (engine : Engine) where
  abbrev pub reset_failed : Statement → Option Text → Db (Unit {0})
  reset_failed statement none db = (returned tt, db)
  reset_failed statement (some what) db = elim (engine.reset_error what) [
    | none ↦ (returned tt, mark statement none db)
    | some message ↦ (thrown message, mark statement none db)
  ]

  -- `ResetStatement`: the statement is ready again, also when `reset` throws its old error.
  unfoldable pub reset_statement : Statement → Db (Unit {0})
  reset_statement statement db = reset_failed statement (db.failed statement) db

  abbrev pub step_with :
      {A : Type 0} → Statement → Option Text → Option (Effect A) → Database → Outcome A × Database
  step_with statement (some what) effect db = (thrown what, mark statement (some what) db)
  step_with statement none none db =
      (thrown engine.constraint_failed, mark statement (some engine.constraint_failed) db)
  step_with statement none (some effect) db = apply_effect effect db

  -- One execution of a bound statement. The effect is `none` where a constraint refuses it.
  unfoldable pub step : {A : Type 0} → Statement → (Database → Option (Effect A)) → Db A
  step statement effect db = step_with statement (engine.fault statement db.tables) (effect db) db

  -- `ResetStatement(s); s.bind(…); s.exec();`
  unfoldable pub execute : {A : Type 0} → Statement → (Database → Option (Effect A)) → Db A
  unfolding reset_statement step ◌>>=◌
  execute statement effect = reset_statement statement >>= λ _. step statement effect

  abbrev pub committed :
      {A : Type 0} → Tables → Outcome (Bool × A) × Database → Outcome A × Database
  committed before (thrown what, db) = (thrown what, record db { tables = before })
  committed before (returned (false, a), db) = (returned a, record db { tables = before })
  committed before (returned (true, a), db) = elim (engine.fault Sql.commit_transaction db.tables) [
    | none ↦ (returned a, db)
    | some what ↦ (thrown what, record db { tables = before })
  ]

  -- `Transaction transaction(db_); …; transaction.commit();`: the body says whether it reaches the
  -- commit; if not, or if anything throws, the destructor rolls the tables back.
  unfoldable pub transaction : {A : Type 0} → Db (Bool × A) → Db A
  transaction body db = elim (engine.fault Sql.begin_transaction db.tables) [
    | none ↦ committed db.tables (body db)
    | some what ↦ (thrown what, db)
  ]

unfoldable pub opened : Database
opened = record { tables = empty_tables; last_insert_rowid = 0; changes = 0; failed = λ _. none }

-- ===== src/Db/Opening.antt =====
-- `DBManager::InitDb` and the constructors of src/db/DBManager.cpp. What SQLite does by itself when it
-- opens a file, executes a command or compiles a statement is the parameter `Disk`; that a statement
-- over a missing table is not compiled is SQLite's documented behaviour.
pub mod Laws
pub mod Ready
use recipes_core.Prelude.{
  Text, text, Bool, true, false, Option, none, some, List, [], ◌∷◌, all, if◌then◌else◌,
}
use recipes_core.Sql
use recipes_core.Sql.{Tables, Statement}
use recipes_core.Db.Connection.{Outcome, returned, thrown, Database}

pub data Table : Type 0 where
  products recipes recipe_ingredients : Table

-- An open file: the tables that exist, their rows, and the connection's `PRAGMA foreign_keys`.
pub record Store : Type 0 where
  pub has : Table → Bool
  pub tables : Tables
  pub foreign_keys : Bool

-- The texts that `InitDb` executes.
pub data Command : Type 0 where
  enable_foreign_keys : Command
  create_table_if_not_exists : Table → Command

pub record Disk : Type 0 where
  pub open_file : Text → Outcome Store
  pub command_fault : Command → Store → Option Text
  pub prepare_fault : Statement → Store → Option Text
  pub no_such_table : Text

-- How the opening of a file ends: not opened; an exception, and what the file holds then; or done.
pub data Opening (A : Type 0) : Type 0 where
  unopened : Text → Opening A
  failed : Text → Store → Opening A
  made : A → Store → Opening A

unfoldable pub eq_table : Table → Table → Bool
eq_table products products = true
eq_table recipes recipes = true
eq_table recipe_ingredients recipe_ingredients = true
eq_table _ _ = false

-- A table that is created has no rows, and its counter starts at 0.
unfoldable pub emptied : Table → Tables → Tables
emptied products t = record t { products = []; products_seq = 0 }
emptied recipes t = record t { recipes = []; recipes_seq = 0 }
emptied recipe_ingredients t = record t { recipe_ingredients = [] }

unfoldable pub run_command : Command → Store → Store
unfolding eq_table emptied
run_command enable_foreign_keys store = record store { foreign_keys = true }
run_command (create_table_if_not_exists table) store =
    if store.has table then store else record store {
      has = λ other. if eq_table table other then true else store.has other;
      tables = emptied table store.tables;
    }

-- The tables that the text of a statement names.
unfoldable pub names : Statement → List Table
names Sql.insert_product = products ∷ []
names Sql.create_product = products ∷ []
names Sql.select_all_products = products ∷ []
names Sql.select_product_by_id = products ∷ []
names Sql.update_product_by_id = products ∷ []
names Sql.delete_product_by_id = products ∷ []
names Sql.insert_recipe_if_absent = recipes ∷ []
names Sql.create_recipe = recipes ∷ []
names Sql.select_recipe_id_by_name = recipes ∷ []
names Sql.delete_recipe_ingredients_by_recipe_id = recipe_ingredients ∷ []
names Sql.insert_recipe_ingredient = recipe_ingredients ∷ []
names Sql.select_recipe_ingredients_by_recipe_id = recipe_ingredients ∷ []
names Sql.select_all_recipes_with_ingredients = recipes ∷ recipe_ingredients ∷ []
names Sql.select_recipe_by_id_with_ingredients = recipes ∷ recipe_ingredients ∷ []
names Sql.update_recipe_name_by_id = recipes ∷ []
names Sql.delete_recipe_by_id = recipes ∷ []
names Sql.select_cookable_recipes_with_ingredients = recipes ∷ recipe_ingredients ∷ products ∷ []
names Sql.begin_transaction = []
names Sql.commit_transaction = []

-- The texts in the order of `InitDb`.
abbrev pub init_commands : List Command
init_commands =
    enable_foreign_keys
    ∷ create_table_if_not_exists products
    ∷ create_table_if_not_exists recipes
    ∷ create_table_if_not_exists recipe_ingredients
    ∷ []

-- The statements in the order of the constructor's initialisers.
abbrev pub prepared_statements : List Statement
prepared_statements =
    Sql.insert_product ∷ Sql.create_product ∷ Sql.select_all_products ∷ Sql.select_product_by_id
    ∷ Sql.update_product_by_id ∷ Sql.delete_product_by_id ∷ Sql.insert_recipe_if_absent
    ∷ Sql.create_recipe ∷ Sql.select_recipe_id_by_name ∷ Sql.delete_recipe_ingredients_by_recipe_id
    ∷ Sql.insert_recipe_ingredient ∷ Sql.select_recipe_ingredients_by_recipe_id
    ∷ Sql.select_all_recipes_with_ingredients ∷ Sql.select_recipe_by_id_with_ingredients
    ∷ Sql.update_recipe_name_by_id ∷ Sql.delete_recipe_by_id
    ∷ Sql.select_cookable_recipes_with_ingredients ∷ []

-- A new connection to a file's tables: no statement has failed.
abbrev pub connected : Tables → Database
connected tables = record {
  tables = tables;
  last_insert_rowid = 0;
  changes = 0;
  failed = λ s. none;
}

abbrev pub and_then : {A B : Type 0} → Opening A → (A → Store → Opening B) → Opening B
and_then (unopened what) rest = unopened what
and_then (failed what store) rest = failed what store
and_then (made a store) rest = rest a store

module _ (disk : Disk) where
  -- `db.exec(…)`, one text after the other; an exception ends the sequence.
  unfoldable pub exec_all : List Command → Store → Opening (Unit {0})
  unfolding run_command
  exec_all [] store = made tt store
  exec_all (command ∷ commands) store =
      let rest = exec_all commands (run_command command store) in
      elim (disk.command_fault command store) [ none ↦ rest | some what ↦ failed what store ]

  -- The members are initialised in order. Compiling a statement does not change the file.
  unfoldable pub prepare_all : List Statement → Store → Opening (Unit {0})
  unfolding names
  prepare_all [] store = made tt store
  prepare_all (statement ∷ statements) store =
      let rest = prepare_all statements store in
      elim (disk.prepare_fault statement store) [
        | some what ↦ failed what store
        | none ↦ if all store.has (names statement) then rest else failed disk.no_such_table store
      ]

  unfoldable pub init_db : Text → Opening (Unit {0})
  unfolding exec_all
  init_db db_path = elim (disk.open_file db_path) [
    | thrown what ↦ unopened what
    | returned store ↦ exec_all init_commands store
  ]

  -- The constructor with a path, which delegates to the one that prepares the statements.
  unfoldable pub construct : Text → Opening Database
  unfolding init_db prepare_all
  construct db_path = and_then (init_db db_path) λ _ store.
      and_then (prepare_all prepared_statements store)
        λ _ ready. made (connected ready.tables) ready

  -- The constructor without one.
  unfoldable pub construct_in_memory : Opening Database
  unfolding construct
  construct_in_memory = construct (text ":memory:")

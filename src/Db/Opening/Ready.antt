-- ===== src/Db/Opening/Ready.antt =====
-- The constructors of src/db/DBManager.cpp where nothing fails.
use recipes_core.Prelude.{
  Text, ◌≡◌, refl, ◌∙◌, true, none, List, [], ◌∷◌, all, if_cases, subst, if◌then◌else◌,
}
use recipes_core.Sql.{Statement}
use recipes_core.Db.Connection.{returned}
use recipes_core.Db.Opening.{
  Table, products, recipes, recipe_ingredients, Store, Command, enable_foreign_keys,
  create_table_if_not_exists, Disk, made, eq_table, run_command, names, init_commands,
  prepared_statements, connected, exec_all, prepare_all, init_db, construct,
}
use recipes_core.Db.Opening.Laws.{Keeps, KeepsRows, run_command-Keeps, construct-KeepsRows}

-- All tables, and foreign keys that are enforced.
pub record IsReady (s : Store) : Type 0 where
  pub tables : (table : Table) → s.has table ≡ true
  pub foreign_keys : s.foreign_keys ≡ true

run_all : List Command → Store → Store
run_all [] s = s
run_all (c ∷ cs) s = run_all cs (run_command c s)

created-has :
    (table : Table) (s : Store)
    → (run_command (create_table_if_not_exists table) s).has table ≡ true
unfolding run_command eq_table
created-has table s =
    if_cases (λ (t : Store). t.has table ≡ true) (s.has table) _ _ (λ e. e) λ _. itself table
  where
    itself : (t : Table) → (if eq_table t t then true else s.has t) ≡ true
    itself products = refl
    itself recipes = refl
    itself recipe_ingredients = refl

created-foreign_keys :
    (table : Table) (s : Store)
    → (run_command (create_table_if_not_exists table) s).foreign_keys ≡ s.foreign_keys
unfolding run_command
created-foreign_keys table s =
    if_cases (λ (t : Store). t.foreign_keys ≡ s.foreign_keys) (s.has table) _ _ (λ _. refl)
      (λ _. refl)

-- The commands after the pragma, from a store on.
module _ (s : Store) where
  abbrev with_products : Store
  with_products = run_command (create_table_if_not_exists products) s

  abbrev with_recipes : Store
  with_recipes = run_command (create_table_if_not_exists recipes) with_products

  abbrev with_all : Store
  with_all = run_command (create_table_if_not_exists recipe_ingredients) with_recipes

  with_all-has : (table : Table) → with_all.has table ≡ true
  with_all-has products =
      let there = created-has products s in
      let still =
        run_command-Keeps (create_table_if_not_exists recipes) with_products products there in
      (run_command-Keeps (create_table_if_not_exists recipe_ingredients) with_recipes products
        still.0).0
  with_all-has recipes =
      let there = created-has recipes with_products in
      (run_command-Keeps (create_table_if_not_exists recipe_ingredients) with_recipes recipes
        there).0
  with_all-has recipe_ingredients = created-has recipe_ingredients with_recipes

  with_all-foreign_keys : with_all.foreign_keys ≡ s.foreign_keys
  with_all-foreign_keys =
      created-foreign_keys recipe_ingredients with_recipes
      ∙ created-foreign_keys recipes with_products
      ∙ created-foreign_keys products s

init_commands-IsReady : (s : Store) → IsReady (run_all init_commands s)
unfolding run_all run_command
init_commands-IsReady s =
    let enforced = run_command enable_foreign_keys s in
    record { tables = with_all-has enforced; foreign_keys = with_all-foreign_keys enforced }

all_named : (s : Store) → IsReady s → (tables : List Table) → all s.has tables ≡ true
all_named s h [] = refl
all_named s h (table ∷ tables) = rw (h.tables table, all_named s h tables) refl

module _ (disk : Disk) where
  pub record IsFaultless : Type 0 where
    pub commands : (c : Command) (s : Store) → disk.command_fault c s ≡ none
    pub statements : (statement : Statement) (s : Store) → disk.prepare_fault statement s ≡ none

  module _ (faultless : IsFaultless) where
    exec_all-made : (cs : List Command) (s : Store) → exec_all disk cs s ≡ made tt (run_all cs s)
    unfolding exec_all run_all
    exec_all-made [] s = refl
    exec_all-made (c ∷ cs) s =
        rw (exec_all, faultless.commands c s) (exec_all-made cs (run_command c s))

    prepare_all-made :
        (ss : List Statement) (s : Store) → IsReady s → prepare_all disk ss s ≡ made tt s
    unfolding prepare_all
    prepare_all-made [] s h = refl
    prepare_all-made (statement ∷ ss) s h =
        rw (prepare_all, faultless.statements statement s, all_named s h (names statement))
          (prepare_all-made ss s h)

    -- Where nothing fails, the constructor succeeds on every file that can be opened, new or not:
    -- all seventeen statements are compiled, since the tables that they name have been created,
    -- foreign keys are enforced, and the connection has the file's tables, with every row that was
    -- there.
    pub construct-made :
        (db_path : Text) (s : Store)
        → disk.open_file db_path ≡ returned s
        → (after : Store) × (construct disk db_path ≡ made (connected after.tables) after)
          × IsReady after
          × Keeps s after
    unfolding construct init_db
    construct-made db_path s e =
        let after = run_all init_commands s in
        let ready = init_commands-IsReady s in
        let done : construct disk db_path ≡ made (connected after.tables) after =
          rw
            (
              construct,
              init_db,
              e,
              exec_all-made init_commands s,
              prepare_all-made prepared_statements after ready,
            )
            refl in
        (after, done, ready, subst (KeepsRows s) done (construct-KeepsRows disk db_path s e))

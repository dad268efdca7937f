-- ===== src/Sql.antt =====
-- The tables and the statements of include/types/SQL/Types.hpp. A table is the list of its rows in
-- the order of their row ids; each statement is the function of the tables that its text says.
-- What SQLite leaves open or decides by itself is the parameter `Engine`.
pub mod Statements
pub mod Cookable
pub mod Consistency
pub mod Selection
use recipes_core.Prelude.{ℕ, ℤ, Text, Option, List, Bool, [], ◌<◌}

pub record ProductRow : Type 0 where
  pub id : ℕ
  pub name : Text
  pub dimension : ℕ
  pub amount_base : ℤ
  pub manufacture_date : Option Text
  pub expiration_date : Option Text

pub record RecipeRow : Type 0 where
  pub id : ℕ
  pub name : Text

pub record IngredientRow : Type 0 where
  pub recipe_id : ℕ
  pub product_name : Text
  pub dimension : ℕ
  pub required_amount_base : ℤ

-- A row of `recipes LEFT JOIN recipe_ingredients`: no ingredient is the row of NULLs.
pub record JoinedRow : Type 0 where
  pub id : ℕ
  pub name : Text
  pub ingredient : Option IngredientRow

-- The tables, with the AUTOINCREMENT counters (the largest id that each table has ever had).
pub record Tables : Type 0 where
  pub products : List ProductRow
  pub recipes : List RecipeRow
  pub recipe_ingredients : List IngredientRow
  pub products_seq : ℕ
  pub recipes_seq : ℕ

-- The prepared statements, and the statements of a transaction.
pub data Statement : Type 0 where
  insert_product create_product select_all_products select_product_by_id : Statement
  update_product_by_id delete_product_by_id insert_recipe_if_absent create_recipe : Statement
  select_recipe_id_by_name delete_recipe_ingredients_by_recipe_id : Statement
  insert_recipe_ingredient select_recipe_ingredients_by_recipe_id : Statement
  select_all_recipes_with_ingredients select_recipe_by_id_with_ingredients : Statement
  update_recipe_name_by_id delete_recipe_by_id : Statement
  select_cookable_recipes_with_ingredients : Statement
  begin_transaction commit_transaction : Statement

-- SQLite and SQLiteCpp: the id after the largest one used, the order of rows by a given test, the
-- message of an exception for a cause outside the tables (disk, locks) or for a constraint, and what
-- `reset` throws for a statement whose last step had failed with a message.
pub record Engine : Type 0 where
  pub next_rowid : ℕ → ℕ
  pub order_products : (ProductRow → ProductRow → Bool) → List ProductRow → List ProductRow
  pub order_ingredients :
      (IngredientRow → IngredientRow → Bool) → List IngredientRow → List IngredientRow
  pub order_joined : (JoinedRow → JoinedRow → Bool) → List JoinedRow → List JoinedRow
  pub fault : Statement → Tables → Option Text
  pub constraint_failed : Text
  pub reset_error : Text → Option Text

abbrev pub empty_tables : Tables
empty_tables = record {
  products = [];
  recipes = [];
  recipe_ingredients = [];
  products_seq = 0;
  recipes_seq = 0;
}

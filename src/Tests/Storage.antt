-- ===== src/Tests/Storage.antt =====
-- The storage's theorems at concrete tables.
use mathlib.Core.List.{Perm}
use mathlib.Core.List.Perm
use recipes_core.Prelude.{
  any, ℕ, ◌<◌, Text, true, eq_text, ◌≡◌, refl, ◌↔◌, pos, text, none, some, List, [], ◌∷◌, map,
  arith,
}
use recipes_core.Kitchen.{SysDays, Product, Recipe}
use recipes_core.Kitchen.Dimensions.{liter, to_uint8}
use recipes_core.App.{expected, unexpected}
use recipes_core.Service
use recipes_core.Calendar.{to_date_string, from_date_string, is_ok}
use recipes_core.Calendar.RoundTrip.{from_date_string-to_date_string}
use recipes_core.Sql.{ProductRow, RecipeRow, IngredientRow}
use recipes_core.Sql.Statements.{is_cookable, has_key}
use recipes_core.Sql.Cookable.{UniqueKeys, IsCookable, is_cookable_iff}
use recipes_core.Db.Connection.{Database, opened}
use recipes_core.Db.Products
use recipes_core.Db.Recipes
use recipes_core.Db.Atomicity.{KeptIfThrown, writes-IsAtomic}
use recipes_core.Db.Consistency.Calls.{Call, calls, calls-IsConsistent}
use recipes_core.Sql.Consistency.{IsConsistent}
use recipes_core.Db.Reading.{fetch_recipes}
use recipes_core.Db.Reading.Groups.{Group, rows_of, recipe_in, fetch_recipes-rows_of}
use recipes_core.Repository
use recipes_core.Repository.{sqlite_repository, storage_error}
use recipes_core.Repository.Repeats.{refused_once, create_product-repeats}
use recipes_core.Sql
use recipes_core.Repository.Errors.{IsStorage, errors-IsStorage}
use recipes_core.Repository.Updates.{KeptIfRefused, updates-KeptIfRefused}
use recipes_core.Repository.RecipeCreation.Storing.{IsStorableRecipe, CanCreateRecipe, with_recipe}
use recipes_core.Repository.RecipeCreation.Stored.{Orders, as_ingredient, create_recipe-stores}
use recipes_core.Tests.Fixtures.{egg, omelette, plain_engine}

abbrev leap_day : SysDays
leap_day = record { year = 2024; month = 2; day = 29 }

leap_day-ok : is_ok leap_day ≡ true
unfolding is_ok
leap_day-ok = refl

from_date_string-to_date_string_example : from_date_string (to_date_string leap_day) ≡ leap_day
from_date_string-to_date_string_example =
    from_date_string-to_date_string leap_day leap_day-ok (omega arith)

abbrev milk : Product
milk = record egg {
  name = text "Milk";
  dimension = liter;
  dates = record { manufacture = none; expiration = some leap_day };
}

abbrev product_row : ℕ → Text → ℕ → ProductRow
product_row id name dimension = record {
  id = id;
  name = name;
  dimension = dimension;
  amount_base = pos 4;
  manufacture_date = none;
  expiration_date = none;
}

abbrev omelette_row : RecipeRow
omelette_row = record { id = 7; name = text "Omelette" }

abbrev eggs_row : IngredientRow
eggs_row = record {
  recipe_id = 7;
  product_name = text "Egg";
  dimension = 4;
  required_amount_base = pos 3;
}

-- Two products are stored, and a recipe that needs three of the four eggs.
abbrev kitchen : Database
kitchen = record opened {
  tables = record {
    products = product_row 1 (text "Egg") 4 ∷ product_row 2 (text "Salt") 0 ∷ [];
    recipes = omelette_row ∷ [];
    recipe_ingredients = eggs_row ∷ [];
    products_seq = 2;
    recipes_seq = 7;
  };
}

writes-IsAtomic_example :
    KeptIfThrown kitchen.tables (Products.insert_product plain_engine egg kitchen)
    × KeptIfThrown kitchen.tables (Products.insert_products plain_engine (egg ∷ milk ∷ []) kitchen)
    × KeptIfThrown kitchen.tables (Products.create_product plain_engine egg kitchen)
    × KeptIfThrown kitchen.tables (Products.update_product plain_engine 2 egg kitchen)
    × KeptIfThrown kitchen.tables (Products.delete_product plain_engine 2 kitchen)
    × KeptIfThrown kitchen.tables (Recipes.insert_recipe plain_engine omelette kitchen)
    × KeptIfThrown kitchen.tables (Recipes.insert_recipes plain_engine (omelette ∷ []) kitchen)
    × KeptIfThrown kitchen.tables (Recipes.create_recipe plain_engine omelette kitchen)
    × KeptIfThrown kitchen.tables (Recipes.update_recipe plain_engine 2 omelette kitchen)
    × KeptIfThrown kitchen.tables (Recipes.delete_recipe plain_engine 2 kitchen)
writes-IsAtomic_example =
    writes-IsAtomic plain_engine egg omelette (egg ∷ milk ∷ []) (omelette ∷ []) 2 kitchen

errors-IsStorage_example :
    IsStorage (Repository.create_product plain_engine egg kitchen).0
    × IsStorage (Repository.get_product plain_engine 1 kitchen).0
    × IsStorage (Repository.get_products plain_engine kitchen).0
    × IsStorage (Repository.update_product plain_engine 1 egg kitchen).0
    × IsStorage (Repository.delete_product plain_engine 1 kitchen).0
    × IsStorage (Repository.create_recipe plain_engine omelette kitchen).0
    × IsStorage (Repository.get_recipe plain_engine 1 kitchen).0
    × IsStorage (Repository.get_recipes plain_engine kitchen).0
    × IsStorage (Repository.get_cookable_recipes plain_engine kitchen).0
    × IsStorage (Repository.update_recipe plain_engine 1 omelette kitchen).0
    × IsStorage (Repository.delete_recipe plain_engine 1 kitchen).0
errors-IsStorage_example = errors-IsStorage plain_engine egg omelette 1 kitchen

updates-KeptIfRefused_example :
    KeptIfRefused kitchen.tables
      (Service.update_product (sqlite_repository plain_engine) 2 egg kitchen)
    × KeptIfRefused kitchen.tables
        (Service.update_recipe (sqlite_repository plain_engine) 9 omelette kitchen)
updates-KeptIfRefused_example = updates-KeptIfRefused plain_engine 2 9 egg omelette kitchen

kitchen-UniqueKeys : UniqueKeys kitchen.tables.products
unfolding eq_text
kitchen-UniqueKeys = (refl, (refl, tt))

is_cookable_iff_example :
    (is_cookable kitchen.tables omelette_row ≡ true) ↔ IsCookable kitchen.tables omelette_row
is_cookable_iff_example = is_cookable_iff kitchen.tables omelette_row kitchen-UniqueKeys

-- A recipe with an ingredient between two without.
abbrev groups : List Group
groups =
    record { recipe = record { id = 1; name = text "Bread" }; parts = [] }
    ∷ record { recipe = omelette_row; parts = eggs_row ∷ [] }
    ∷ record { recipe = record { id = 3; name = text "Water" }; parts = [] }
    ∷ []

fetch_recipes-rows_of_example : fetch_recipes (rows_of groups) ≡ map recipe_in groups
fetch_recipes-rows_of_example = fetch_recipes-rows_of groups (refl, (refl, (refl, tt)))

-- The message of a constraint, which `reset` throws again.
abbrev taken : Text
taken = text "UNIQUE constraint failed"

opened_clean : opened.failed Sql.create_product ≡ none
unfolding opened
opened_clean = refl

egg-taken : any (has_key egg.name (to_uint8 egg.dimension)) kitchen.tables.products ≡ true
unfolding eq_text to_uint8
egg-taken = refl

create_product-repeats_example :
    let second = Repository.create_product plain_engine milk (refused_once plain_engine kitchen) in
    (Repository.create_product plain_engine egg kitchen
      ≡ (unexpected (storage_error taken), refused_once plain_engine kitchen))
    × (second.0 ≡ unexpected (storage_error taken))
    × (second.1.failed Sql.create_product ≡ none)
    × (second.1.tables ≡ kitchen.tables)
create_product-repeats_example =
    create_product-repeats plain_engine egg milk taken kitchen egg-taken opened_clean refl refl

counts_up : (n : ℕ) → n < plain_engine.next_rowid n
counts_up n = omega arith

-- The second creation is refused for its name, and the last call finds no recipe.
abbrev some_calls : List Call
some_calls =
    Call.insert_products (egg ∷ milk ∷ [])
    ∷ Call.create_recipe omelette
    ∷ Call.create_recipe omelette
    ∷ Call.update_product 1 (record milk { name = text "Cream" })
    ∷ Call.delete_recipe 7
    ∷ []

calls-IsConsistent_example : IsConsistent (calls plain_engine some_calls opened).tables
calls-IsConsistent_example = calls-IsConsistent plain_engine counts_up some_calls

omelette-IsStorable : IsStorableRecipe omelette
omelette-IsStorable = record { amounts = (refl, tt); apart = (tt, tt) }

omelette-CanCreate : CanCreateRecipe plain_engine omelette opened
unfolding opened
omelette-CanCreate = record {
  sound = λ s t. refl;
  clean = λ s. refl;
  increasing = counts_up;
  known = tt;
  owned = tt;
  absent = refl;
}

in_order : Orders plain_engine omelette opened.tables omelette.ingredients
in_order = record {
  rows = refl;
  permutes = Perm.refl omelette.ingredients;
  readable = ((tt, omega arith), tt);
}

create_recipe-stores_example :
    let created = Repository.create_recipe plain_engine omelette opened in
    (answer : Recipe) × (created.0 ≡ expected answer)
    × (answer.id ≡ some 1)
    × (answer.name ≡ omelette.name)
    × (answer.ingredients ≡ map as_ingredient omelette.ingredients)
    × Perm answer.ingredients (map as_ingredient omelette.ingredients)
    × (created.1.tables ≡ with_recipe plain_engine omelette opened.tables)
unfolding opened
create_recipe-stores_example =
    create_recipe-stores plain_engine omelette opened omelette-IsStorable omelette-CanCreate
      omelette.ingredients in_order

-- ===== src/Repository/RecipeCreation/Storing.antt =====
-- `DBManager::CreateRecipe` (src/db/DBManager.cpp): what it returns and stores.
use mathlib.Core.Option
use recipes_core.Prelude.{
  ℕ, ◌<◌, ◌≤◌, ◌≡◌, ◌∙◌, ap, refl, true, false, none, some, [], ◌∷◌, ◌++◌, All, All-map, any, map,
  Pairs,
}
use recipes_core.Kitchen.{Recipe}
use recipes_core.Sql
use recipes_core.Sql.{RecipeRow, IngredientRow, JoinedRow, Engine, Statement, Tables}
use recipes_core.Sql.Statements
use recipes_core.Sql.Statements.{
  named, is_recipe, part_of, negative, joined_with, left_join, by_part, new_recipe,
}
use recipes_core.Db.Connection.{
  returned, insert, update, Database, Db, ◌>>=◌, apply_effect, execute, pure,
}
use recipes_core.Db.Recipes
use recipes_core.Db.Recipes.{
  bind_ingredient, insert_ingredients, replace_recipe_ingredients, get_recipe, first,
}
use recipes_core.Repository.Creation.{execute-returns}
use recipes_core.Repository.RecipeCreation.{
  Yields, then-Yields, execute-Yields, transaction-Yields, same_tables-Yields, AreDistinct,
  insert_ingredients-Yields,
}
use recipes_core.Repository.RecipeCreation.Rows.{keep-OlderParts, any-OlderParts, any-new_recipe}

-- Ingredients that a table can hold as they are, no two of the same name and dimension.
pub record IsStorableRecipe (r : Recipe) : Type 0 where
  pub amounts : All (λ p. negative p.amount ≡ false) r.ingredients
  pub apart : Pairs AreDistinct r.ingredients

module _ (engine : Engine) where
  abbrev pub next_recipe_id : Tables → ℕ
  next_recipe_id t = engine.next_rowid t.recipes_seq

  abbrev pub recipe_row : Recipe → Tables → RecipeRow
  recipe_row r t = record { id = next_recipe_id t; name = r.name }

  abbrev pub with_recipe : Recipe → Tables → Tables
  with_recipe r t = record t {
    recipes = t.recipes ++ recipe_row r t ∷ [];
    recipes_seq = next_recipe_id t;
    recipe_ingredients =
        t.recipe_ingredients ++ map (bind_ingredient (next_recipe_id t)) r.ingredients;
  }

  -- A storage in which a new recipe can be created: no fault, no statement left in an error, new ids
  -- are larger than all used ones, and no recipe has the name.
  pub record CanCreateRecipe (r : Recipe) (db : Database) : Type 0 where
    pub sound : (s : Statement) (t : Tables) → engine.fault s t ≡ none
    pub clean : (s : Statement) → db.failed s ≡ none
    pub increasing : (n : ℕ) → n < engine.next_rowid n
    pub known : All (λ row. row.id ≤ db.tables.recipes_seq) db.tables.recipes
    pub owned : All (λ part. part.recipe_id ≤ db.tables.recipes_seq) db.tables.recipe_ingredients
    pub absent : any (named r.name) db.tables.recipes ≡ false

  module _ (r : Recipe) (db : Database) (storable : IsStorableRecipe r)
      (can : CanCreateRecipe r db) where
    abbrev id : ℕ
    id = next_recipe_id db.tables

    abbrev named_tables : Tables
    named_tables = new_recipe id r.name db.tables

    new_name : Statements.create_recipe id r.name db.tables ≡ some named_tables
    unfolding Statements.create_recipe
    new_name = rw can.absent refl

    abbrev seq : ℕ
    seq = db.tables.recipes_seq

    pub fresh : seq < id
    fresh = can.increasing seq

    no_old_rows : Statements.delete_recipe_ingredients_by_recipe_id id named_tables ≡ named_tables
    unfolding Statements.delete_recipe_ingredients_by_recipe_id
    no_old_rows =
        ap (λ parts. record named_tables { recipe_ingredients = parts })
          (keep-OlderParts seq id fresh db.tables.recipe_ingredients can.owned)

    -- The old rows of the new id, of which there are none, go first.
    replaced-Yields :
        (d : Database)
        → ((s : Statement) → d.failed s ≡ none)
        → d.tables ≡ named_tables
        → Yields (replace_recipe_ingredients engine id r) d tt (with_recipe r db.tables)
    unfolding replace_recipe_ingredients
    replaced-Yields d clean same =
        let cleared =
          same_tables-Yields _ d tt _ named_tables
            (execute-Yields engine can.sound Sql.delete_recipe_ingredients_by_recipe_id
              (λ d. some (
                update (Statements.delete_recipe_ingredients_by_recipe_id id d.tables)
                  (Statements.count (part_of id) d.tables.recipe_ingredients) d))
              (update (Statements.delete_recipe_ingredients_by_recipe_id id d.tables)
                (Statements.count (part_of id) d.tables.recipe_ingredients) d)
              d clean refl)
            (ap (Statements.delete_recipe_ingredients_by_recipe_id id) same ∙ no_old_rows) in
        then-Yields _ (λ _. insert_ingredients engine id r.ingredients) d tt tt named_tables
          (with_recipe r db.tables) cleared
          (insert_ingredients-Yields engine can.sound id r.ingredients cleared.last named_tables
            cleared.clean cleared.tables (any-new_recipe (recipe_row r db.tables) db.tables.recipes)
            storable.amounts storable.apart
            (All-map (λ p. negative p.amount ≡ false) _ r.ingredients
              (λ p _. any-OlderParts seq id fresh p db.tables.recipe_ingredients can.owned)
              storable.amounts))

    abbrev created : Database
    created = (apply_effect (insert named_tables id) db).1

    create_name : Db (Unit {0})
    create_name = execute engine Sql.create_recipe (λ d.
        Option.map (λ t. insert t (engine.next_rowid d.tables.recipes_seq))
          (Statements.create_recipe (engine.next_rowid d.tables.recipes_seq) r.name d.tables))

    name_created : create_name db ≡ (returned tt, created)
    unfolding create_name
    name_created =
        execute-returns engine Sql.create_recipe _ (insert named_tables id) db
          (can.clean Sql.create_recipe) (can.sound Sql.create_recipe db.tables)
          (ap (Option.map (λ t. insert t id)) new_name)

    pub stored : Yields (Recipes.create_recipe engine r) db id (with_recipe r db.tables)
    unfolding Recipes.create_recipe create_name
    stored =
        let parts = replaced-Yields created can.clean refl in
        let body : Yields (replace_recipe_ingredients engine id r >>= λ _. pure (true, id)) created
            (true, id) (with_recipe r db.tables) =
          then-Yields _ _ created tt (true, id) (with_recipe r db.tables) (with_recipe r db.tables)
            parts
            (record {
              last = parts.last;
              result = refl;
              tables = parts.tables;
              clean = parts.clean;
            }) in
        transaction-Yields engine can.sound _ db id (with_recipe r db.tables) (
          then-Yields create_name _ db tt (true, id) named_tables (with_recipe r db.tables)
            (record { last = created; result = name_created; tables = refl; clean = can.clean })
            (then-Yields (λ d. pure d.last_insert_rowid d) _ created id (true, id) named_tables
              (with_recipe r db.tables)
              (record { last = created; result = refl; tables = refl; clean = can.clean }) body))

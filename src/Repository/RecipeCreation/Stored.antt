-- ===== src/Repository/RecipeCreation/Stored.antt =====
-- What `SqliteRecipeRepository::CreateRecipe` (src/app/SqliteRecipeRepository.cpp) answers and leaves
-- in the tables.
use mathlib.Core.List.{append-nil, Perm}
use mathlib.Core.List.Perm
use recipes_core.Prelude.{
  ℕ, IsInt, to_int-IsInt, ◌≡◌, ◌∙◌, ap, refl, sym, none, some, List, [], ◌∷◌, ◌++◌, All, keep, map,
}
use recipes_core.Kitchen.{Product, Recipe, new_product}
use recipes_core.Kitchen.Dimensions.Names.{IsNamed}
use recipes_core.App.{expected}
use recipes_core.Sql
use recipes_core.Sql.{RecipeRow, IngredientRow, JoinedRow, Engine, Statement, Tables}
use recipes_core.Sql.Statements.{is_recipe, joined_with, left_join, by_part}
use recipes_core.Db.Connection.{query, Database}
use recipes_core.Db.Recipes
use recipes_core.Db.Recipes.{
  bind_ingredient, insert_ingredients, replace_recipe_ingredients, get_recipe, first,
}
use recipes_core.Db.Reading.{read_ingredient, fetch_recipes}
use recipes_core.Db.Reading.Groups.{fetch_recipes-rows_of}
use recipes_core.Repository.{create_recipe, catching, caught}
use recipes_core.Repository.Creation.{dimension_read}
use recipes_core.Repository.RecipeCreation.{
  Yields, then-Yields, execute-Yields, same_tables-Yields, same_result-Yields,
}
use recipes_core.Repository.RecipeCreation.Storing.{
  IsStorableRecipe, CanCreateRecipe, next_recipe_id, recipe_row, with_recipe, fresh, stored,
}
use recipes_core.Repository.RecipeCreation.Rows.{keep-own_parts, keep-new_recipe}

-- What the table of ingredients keeps of a product.
abbrev pub as_ingredient : Product → Product
as_ingredient p = new_product p.name p.amount p.dimension

abbrev pub recipe_read : Recipe → ℕ → List Product → Recipe
recipe_read r id ordered = record {
  id = some id;
  name = r.name;
  ingredients = map as_ingredient ordered;
}

ingredients_read :
    (id : ℕ) (is : List Product)
    → All (λ p. IsNamed p.dimension × IsInt p.amount) is
    → map read_ingredient (map (bind_ingredient id) is) ≡ map as_ingredient is
unfolding read_ingredient bind_ingredient
ingredients_read id [] h = refl
ingredients_read id (p ∷ ps) h =
    rw (dimension_read p.dimension h.0.0, to_int-IsInt p.amount h.0.1, ingredients_read id ps h.1)
      refl

module _ (engine : Engine) where
  -- `ordered` are the ingredients, each as often as in the recipe, in the order in which SQLite
  -- gives the rows of the join; their dimensions have names, and their amounts are ints, as their
  -- type says.
  pub record Orders (r : Recipe) (t : Tables) (ordered : List Product) : Type 0 where
    pub rows :
        engine.order_joined by_part (
          joined_with
            (recipe_row engine r t)
            (map (bind_ingredient (next_recipe_id engine t)) r.ingredients))
        ≡ joined_with
            (recipe_row engine r t)
            (map (bind_ingredient (next_recipe_id engine t)) ordered)
    pub permutes : Perm ordered r.ingredients
    pub readable : All (λ p. IsNamed p.dimension × IsInt p.amount) ordered

  module _ (r : Recipe) (db : Database) (storable : IsStorableRecipe r)
      (can : CanCreateRecipe engine r db) (ordered : List Product)
      (orders : Orders r db.tables ordered) where
    abbrev id : ℕ
    id = next_recipe_id engine db.tables

    abbrev seq : ℕ
    seq = db.tables.recipes_seq

    abbrev row : RecipeRow
    row = recipe_row engine r db.tables

    joined :
        engine.order_joined by_part (
          left_join
            (keep (is_recipe id) (with_recipe engine r db.tables).recipes)
            (with_recipe engine r db.tables).recipe_ingredients)
        ≡ joined_with row (map (bind_ingredient id) ordered)
    unfolding left_join
    joined =
        ap
          (λ rows.
            engine.order_joined by_part
              (left_join rows (with_recipe engine r db.tables).recipe_ingredients))
          (keep-new_recipe seq id (fresh engine r db storable can) row db.tables.recipes refl
            can.known)
        ∙ ap (λ parts. engine.order_joined by_part (joined_with row parts ++ []))
            (keep-own_parts seq id (fresh engine r db storable can) r.ingredients
              db.tables.recipe_ingredients can.owned)
        ∙ ap (engine.order_joined by_part)
            (append-nil (joined_with row (map (bind_ingredient id) r.ingredients)))
        ∙ orders.rows

    read_recipe :
        first engine (fetch_recipes (joined_with row (map (bind_ingredient id) ordered)))
        ≡ some (recipe_read r id ordered)
    read_recipe =
        ap (λ rows. first engine (fetch_recipes rows))
          (sym (append-nil (joined_with row (map (bind_ingredient id) ordered))))
        ∙ ap (first engine) (
            fetch_recipes-rows_of
              (record { recipe = row; parts = map (bind_ingredient id) ordered } ∷ []) (refl, tt))
        ∙ ap (λ is. some (record { id = some id; name = r.name; ingredients = is }))
            (ingredients_read id ordered orders.readable)

    found :
        (d : Database)
        → ((s : Statement) → d.failed s ≡ none)
        → d.tables ≡ with_recipe engine r db.tables
        → Yields
            (get_recipe engine id)
            d
            (some (recipe_read r id ordered))
            (with_recipe engine r db.tables)
    unfolding get_recipe
    found d clean same =
        let read : Tables → List JoinedRow = λ t.
          engine.order_joined by_part
            (left_join (keep (is_recipe id) t.recipes) t.recipe_ingredients) in
        let rows =
          same_tables-Yields _ d (read d.tables) d.tables (with_recipe engine r db.tables)
            (execute-Yields engine can.sound Sql.select_recipe_by_id_with_ingredients (query read)
              (record {
                tables = d.tables;
                changes = d.changes;
                rowid = d.last_insert_rowid;
                result = read d.tables;
              })
              d clean refl)
            same in
        same_result-Yields _ d (first engine (fetch_recipes (read d.tables))) _
          (with_recipe engine r db.tables)
          (then-Yields _ _ d (read d.tables) _ (with_recipe engine r db.tables)
            (with_recipe engine r db.tables) rows
            (record { last = rows.last; result = refl; tables = rows.tables; clean = rows.clean }))
          (ap (λ t. first engine (fetch_recipes (read t))) same
            ∙ ap (λ rows. first engine (fetch_recipes rows)) joined
            ∙ read_recipe)

    -- The creation of a recipe succeeds where its name is free, the amounts of its ingredients are
    -- ints that are not negative, their dimensions have names, no two of them have the same name
    -- and dimension, no statement has an error left, nothing fails, ids are drawn beyond the
    -- counter, which the rows there do not pass, and SQLite gives each row of the join once, in
    -- some order. The answer has the id of the new row, the name, and the ingredients of the
    -- recipe, all of them and no other, in that order and less their dates and ids, which the table
    -- does not keep; the tables have the recipe's row and its ingredients' rows behind the older
    -- ones, and are otherwise as before.
    pub create_recipe-stores :
        (answer : Recipe) × ((create_recipe engine r db).0 ≡ expected answer)
        × (answer.id ≡ some id)
        × (answer.name ≡ r.name)
        × (answer.ingredients ≡ map as_ingredient ordered)
        × Perm answer.ingredients (map as_ingredient r.ingredients)
        × ((create_recipe engine r db).1.tables ≡ with_recipe engine r db.tables)
    unfolding create_recipe catching
    create_recipe-stores =
        let later =
          found (stored engine r db storable can).last (stored engine r db storable can).clean
            (stored engine r db storable can).tables in
        let whole =
          then-Yields (Recipes.create_recipe engine r) _ db id (expected (recipe_read r id ordered))
            (with_recipe engine r db.tables) (with_recipe engine r db.tables)
            (stored engine r db storable can)
            (then-Yields (get_recipe engine id) _ (stored engine r db storable can).last
              (some (recipe_read r id ordered)) (expected (recipe_read r id ordered))
              (with_recipe engine r db.tables) (with_recipe engine r db.tables) later
              (record {
                last = later.last;
                result = refl;
                tables = later.tables;
                clean = later.clean;
              })) in
        (
          recipe_read r id ordered,
          ap (λ r. (caught r).0) whole.result,
          refl,
          refl,
          refl,
          Perm.map as_ingredient orders.permutes,
          ap (λ r. (caught r).1.tables) whole.result ∙ whole.tables,
        )

-- ===== src/Db/Consistency/Recipes.antt =====
-- The recipe operations of src/db/DBManager.cpp keep the constraints of all tables.
use recipes_core.Prelude.{
  ℕ, ◌<◌, refl, Bool, true, false, Option, none, some, List, [], ◌∷◌, any, if_cases, ◌==◌,
}
use recipes_core.Kitchen.{Product, Recipe}
use recipes_core.Sql
use recipes_core.Sql.{IngredientRow, Tables, Engine}
use recipes_core.Sql.Statements
use recipes_core.Sql.Consistency.{IsConsistent}
use recipes_core.Sql.Consistency.Recipes.{
  create_recipe-KeepsConsistent, insert_recipe_if_absent-IsConsistent,
  update_recipe_name_by_id-KeepsConsistent, delete_recipe_by_id-IsConsistent,
}
use recipes_core.Sql.Consistency.Parts.{
  delete_recipe_ingredients_by_recipe_id-IsConsistent, insert_recipe_ingredient-KeepsConsistent,
}
use recipes_core.Db.Connection.{Database, Effect}
use recipes_core.Db.Recipes.{
  insert_recipe, insert_recipes, create_recipe, update_recipe, delete_recipe, insert_ingredient,
  insert_ingredients, replace_recipe_ingredients, found_id, insert_one, insert_recipes_loop,
  replaced_if, bind_ingredient, new_recipe_id,
}
use recipes_core.Db.Consistency.{
  Preserves, bind-Preserves, execute-Preserves, transaction-Preserves, map-KeptEffect,
  read-Preserves, then_pure-Preserves,
}

module _ (engine : Engine) where
  insert_ingredient-Preserves : (row : IngredientRow) → Preserves (insert_ingredient engine row)
  unfolding insert_ingredient
  insert_ingredient-Preserves row = execute-Preserves engine Sql.insert_recipe_ingredient _ λ db h.
      map-KeptEffect engine _ _ (λ t. refl)
        (insert_recipe_ingredient-KeepsConsistent row db.tables h)

  insert_ingredients-Preserves :
      (id : ℕ) (ingredients : List Product) → Preserves (insert_ingredients engine id ingredients)
  unfolding insert_ingredients
  insert_ingredients-Preserves id [] db h = h
  insert_ingredients-Preserves id (i ∷ rest) db h =
      bind-Preserves (insert_ingredient engine (bind_ingredient id i)) _
        (insert_ingredient-Preserves (bind_ingredient id i))
        (λ _. insert_ingredients-Preserves id rest) db h

  replace_recipe_ingredients-Preserves :
      (id : ℕ) (r : Recipe) → Preserves (replace_recipe_ingredients engine id r)
  unfolding replace_recipe_ingredients
  replace_recipe_ingredients-Preserves id r =
      bind-Preserves _ _
        (execute-Preserves engine Sql.delete_recipe_ingredients_by_recipe_id _
          λ db h. delete_recipe_ingredients_by_recipe_id-IsConsistent id db.tables h)
        λ _. insert_ingredients-Preserves id r.ingredients

  found_id-Preserves : (row : Option ℕ) → Preserves (found_id engine row)
  found_id-Preserves none db h = h
  found_id-Preserves (some id) db h = h

  pub update_recipe-Preserves : (id : ℕ) (r : Recipe) → Preserves (update_recipe engine id r)
  unfolding update_recipe
  update_recipe-Preserves id r = transaction-Preserves engine _ (
      bind-Preserves _ _
        (execute-Preserves engine Sql.update_recipe_name_by_id _ λ db h.
          map-KeptEffect engine _ _ (λ t. refl)
            (update_recipe_name_by_id-KeepsConsistent id r.name db.tables h))
        λ _. bind-Preserves _ _ (λ db h. h) λ changes. by_changes (changes == 1))
    where
      by_changes : (b : Bool) → Preserves (replaced_if engine b id r)
      by_changes false db h = h
      by_changes true db h =
          then_pure-Preserves engine (replace_recipe_ingredients engine id r) _
            (replace_recipe_ingredients-Preserves id r) db h

  pub delete_recipe-Preserves : (id : ℕ) → Preserves (delete_recipe engine id)
  unfolding delete_recipe
  delete_recipe-Preserves id = then_pure-Preserves engine _ _ (
      execute-Preserves engine Sql.delete_recipe_by_id _
        λ db h. delete_recipe_by_id-IsConsistent id db.tables h)

  module _ (grows : (n : ℕ) → n < engine.next_rowid n) where
    insert_one-Preserves : (r : Recipe) → Preserves (insert_one engine r)
    unfolding insert_one
    insert_one-Preserves r =
        bind-Preserves _ _
          (execute-Preserves engine Sql.insert_recipe_if_absent _ λ db h.
            if_cases (λ (e : Effect (Unit {0})). IsConsistent e.tables)
              (any (Statements.named r.name) db.tables.recipes) _ _ (λ _. inserted db h)
              λ _. inserted db h)
          λ _. bind-Preserves _ _ (read-Preserves engine Sql.select_recipe_id_by_name _) λ row.
            bind-Preserves (found_id engine row) _ (found_id-Preserves row)
              λ id. replace_recipe_ingredients-Preserves id r
      where
        inserted :
            (db : Database)
            → IsConsistent db.tables
            → IsConsistent (
                Statements.insert_recipe_if_absent
                  (new_recipe_id engine db.tables)
                  r.name
                  db.tables)
        inserted db h =
            insert_recipe_if_absent-IsConsistent (new_recipe_id engine db.tables) r.name db.tables
              (grows db.tables.recipes_seq) h

    pub insert_recipe-Preserves : (r : Recipe) → Preserves (insert_recipe engine r)
    unfolding insert_recipe
    insert_recipe-Preserves r =
        transaction-Preserves engine _ (then_pure-Preserves engine _ _ (insert_one-Preserves r))

    pub insert_recipes-Preserves : (rs : List Recipe) → Preserves (insert_recipes engine rs)
    unfolding insert_recipes insert_recipes_loop
    insert_recipes-Preserves rs =
        transaction-Preserves engine _
          (then_pure-Preserves engine (insert_recipes_loop engine rs) _ (loop rs))
      where
        loop : (rs : List Recipe) → Preserves (insert_recipes_loop engine rs)
        loop [] db h = h
        loop (r ∷ rs) db h =
            bind-Preserves (insert_one engine r) _ (insert_one-Preserves r) (λ _. loop rs) db h

    pub create_recipe-Preserves : (r : Recipe) → Preserves (create_recipe engine r)
    unfolding create_recipe
    create_recipe-Preserves r = transaction-Preserves engine _ (
        bind-Preserves _ _
          (execute-Preserves engine Sql.create_recipe _ λ db h.
            map-KeptEffect engine _ _ (λ t. refl)
              (create_recipe-KeepsConsistent (new_recipe_id engine db.tables) r.name db.tables
                (grows db.tables.recipes_seq) h))
          λ _.
            bind-Preserves _ _ (λ db h. h)
              λ id. then_pure-Preserves engine _ _ (replace_recipe_ingredients-Preserves id r))

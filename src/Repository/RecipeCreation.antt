-- ===== src/Repository/RecipeCreation.antt =====
-- `SqliteRecipeRepository::CreateRecipe` through `db::DBManager`: the recipe that is stored and read
-- back.
pub mod Rows
pub mod Storing
pub mod Stored
use mathlib.Core.Option
use mathlib.Core.List.{append-nil, append_assoc}
use recipes_core.Prelude.{
  ℕ, ◌+◌, ◌<◌, ◌≤◌, ◌≡◌, ◌∙◌, ap, refl, sym, true, false, Bool, Bool-cases, Text, eq_text, not,
  ◌&&◌, Option, none, some, List, [], ◌∷◌, ◌++◌, All, All-map, All-both, any, any-append, keep, map,
  Pairs, inl, inr, ◌==◌, if◌then◌else◌, arith,
}
use recipes_core.Kitchen.{Product, Recipe}
use recipes_core.Kitchen.Dimensions.{to_uint8}
use recipes_core.App.{expected}
use recipes_core.Sql
use recipes_core.Sql.{RecipeRow, IngredientRow, JoinedRow, Engine, Statement, Tables}
use recipes_core.Sql.Statements
use recipes_core.Sql.Statements.{
  named, is_recipe, part_of, same_part, negative, joined_with, left_join, by_part,
}
use recipes_core.Db.Connection.{
  returned, Outcome, continue, insert, query, update, Database, Db, ◌>>=◌, Effect, apply_effect,
  execute, reset_statement, step, transaction, committed, pure,
}
use recipes_core.Db.Recipes
use recipes_core.Db.Recipes.{
  bind_ingredient, insert_ingredient, insert_ingredients, replace_recipe_ingredients,
}
use recipes_core.Db.Reading.{read_ingredient, fetch_recipes}
use recipes_core.Db.Reading.Groups.{fetch_recipes-rows_of}
use recipes_core.Repository.{create_recipe, catching}

-- The operation returns a and leaves the tables t, with no statement in an error.
record Yields {A : Type 0} (m : Db A) (db : Database) (a : A) (t : Tables) : Type 0 where
  last : Database
  result : m db ≡ (returned a, last)
  tables : last.tables ≡ t
  clean : (s : Statement) → last.failed s ≡ none

then-Yields :
    {A B : Type 0} (m : Db A) (f : A → Db B) (db : Database) (a : A) (b : B) (t u : Tables)
    → (first : Yields m db a t) → Yields (f a) first.last b u
    → Yields (m >>= f) db b u
unfolding ◌>>=◌
then-Yields m f db a b t u first second = record {
  last = second.last;
  result = ap (λ r. continue r f) first.result ∙ second.result;
  tables = second.tables;
  clean = second.clean;
}

same_tables-Yields :
    {A : Type 0} (m : Db A) (db : Database) (a : A) (t u : Tables)
    → Yields m db a t
    → t ≡ u
    → Yields m db a u
same_tables-Yields m db a t u h e = record {
  last = h.last;
  result = h.result;
  tables = h.tables ∙ e;
  clean = h.clean;
}

same_result-Yields :
    {A : Type 0} (m : Db A) (db : Database) (a b : A) (t : Tables)
    → Yields m db a t
    → a ≡ b
    → Yields m db b t
same_result-Yields m db a b t h e = record {
  last = h.last;
  result = h.result ∙ ap (λ c. (returned c, h.last)) e;
  tables = h.tables;
  clean = h.clean;
}

-- Two ingredients of a recipe with different names or dimensions.
abbrev pub AreDistinct : Product → Product → Type 0
AreDistinct a b = (eq_text a.name b.name && (to_uint8 a.dimension == to_uint8 b.dimension)) ≡ false

distinct_rows :
    (id : ℕ) (a b : Product)
    → AreDistinct a b
    → same_part (bind_ingredient id b) (bind_ingredient id a) ≡ false
unfolding bind_ingredient
distinct_rows id a b h = ground arith

abbrev with_rows : Tables → List IngredientRow → Tables
with_rows t rows = record t { recipe_ingredients = t.recipe_ingredients ++ rows }

new_part :
    (v : IngredientRow) (t : Tables)
    → negative v.required_amount_base ≡ false
    → any (is_recipe v.recipe_id) t.recipes ≡ true
    → any (same_part v) t.recipe_ingredients ≡ false
    → Statements.insert_recipe_ingredient v t ≡ some (with_rows t (v ∷ []))
unfolding Statements.insert_recipe_ingredient
new_part v t amount owner free = rw (amount, owner, free) refl

module _ (engine : Engine) (sound : (s : Statement) (t : Tables) → engine.fault s t ≡ none) where
  execute-Yields :
      {A : Type 0} (s : Statement) (effect : Database → Option (Effect A)) (e : Effect A)
      (db : Database)
      → ((s : Statement) → db.failed s ≡ none)
      → effect db ≡ some e
      → Yields (execute engine s effect) db e.result e.tables
  unfolding execute ◌>>=◌ reset_statement step
  execute-Yields s effect e db clean done = record {
    last = (apply_effect e db).1;
    result = rw (clean s, sound s db.tables, done) refl;
    tables = refl;
    clean = clean;
  }

  transaction-Yields :
      {A : Type 0} (body : Db (Bool × A)) (db : Database) (a : A) (t : Tables)
      → Yields body db (true, a) t
      → Yields (transaction engine body) db a t
  unfolding transaction
  transaction-Yields body db a t h = record {
    last = h.last;
    result =
        rw (transaction, sound Sql.begin_transaction db.tables)
          (ap (committed engine db.tables) h.result
            ∙ rw (committed, sound Sql.commit_transaction h.last.tables) refl);
    tables = h.tables;
    clean = h.clean;
  }

  insert_ingredient-Yields :
      (v : IngredientRow) (db : Database) (t : Tables)
      → ((s : Statement) → db.failed s ≡ none)
      → db.tables ≡ t
      → negative v.required_amount_base ≡ false
      → any (is_recipe v.recipe_id) t.recipes ≡ true
      → any (same_part v) t.recipe_ingredients ≡ false
      → Yields (insert_ingredient engine v) db tt (with_rows t (v ∷ []))
  unfolding insert_ingredient
  insert_ingredient-Yields v db t clean same amount owner free =
      execute-Yields Sql.insert_recipe_ingredient
        (λ d. Option.map (λ u. update u 1 d) (Statements.insert_recipe_ingredient v d.tables))
        (update (with_rows t (v ∷ [])) 1 db) db clean
        (ap (λ u. Option.map (λ w. update w 1 db) (Statements.insert_recipe_ingredient v u)) same
          ∙ ap (Option.map (λ w. update w 1 db)) (new_part v t amount owner free))

  -- Ingredients with free keys are all added, in their order.
  insert_ingredients-Yields :
      (id : ℕ) (is : List Product) (db : Database) (t : Tables)
      → ((s : Statement) → db.failed s ≡ none)
      → db.tables ≡ t
      → any (is_recipe id) t.recipes ≡ true
      → All (λ p. negative p.amount ≡ false) is
      → Pairs AreDistinct is
      → All (λ p. any (same_part (bind_ingredient id p)) t.recipe_ingredients ≡ false) is
      → Yields (insert_ingredients engine id is) db tt (with_rows t (map (bind_ingredient id) is))
  unfolding insert_ingredients bind_ingredient
  insert_ingredients-Yields id [] db t clean same owner amounts apart free = record {
    last = db;
    result = refl;
    tables =
        same
        ∙ ap (λ rows. record t { recipe_ingredients = rows })
            (sym (append-nil t.recipe_ingredients));
    clean = clean;
  }
  insert_ingredients-Yields id (p ∷ ps) db t clean same owner amounts apart free =
      let v = bind_ingredient id p in
      let added = with_rows t (v ∷ []) in
      let all_added = with_rows added (map (bind_ingredient id) ps) in
      let first = insert_ingredient-Yields v db t clean same amounts.0 owner free.0 in
      same_tables-Yields _ db tt all_added _
        (then-Yields (insert_ingredient engine v) (λ _. insert_ingredients engine id ps) db tt tt
          added all_added first
          (insert_ingredients-Yields id ps first.last added first.clean first.tables owner amounts.1
            apart.1
            (All-map _ _ ps
              (λ q h.
                rw
                  (
                    any-append (same_part (bind_ingredient id q)) t.recipe_ingredients (v ∷ []),
                    h.1,
                    distinct_rows id p q h.0,
                  )
                  refl)
              (All-both _ _ ps apart.0 free.1))))
        (ap (λ rows. record t { recipe_ingredients = rows })
          (append_assoc t.recipe_ingredients (v ∷ []) (map (bind_ingredient id) ps)))

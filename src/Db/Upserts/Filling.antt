-- ===== src/Db/Upserts/Filling.antt =====
-- The loop and the transaction of `InsertProducts` in src/db/DBManager.cpp.
use mathlib.Core.Option
use recipes_core.Prelude.{
  ◌≡◌, refl, sym, ap, ◌∙◌, subst, Bool, true, false, none, List, [], ◌∷◌, All, any, if_cases,
}
use recipes_core.Kitchen.{Product}
use recipes_core.Sql
use recipes_core.Sql.{ProductRow, Tables, Engine, Statement}
use recipes_core.Sql.Statements.{has_key, negative}
use recipes_core.Db.Connection.{
  Db, Database, returned, ◌>>=◌, continue, transaction, committed, Effect,
}
use recipes_core.Db.Products.{
  bind_product, insert_product, insert_products_loop, insert_products, inserted, new_product_id,
}
use recipes_core.Repository.Creation.{execute-returns}
use recipes_core.Db.Upserts.{
  values_at, last_or, SameRecipes, IsFilled, upserted, upserted-some, values_at-upserted,
  upserted-SameRecipes,
}

module _ (engine : Engine) (sound : (s : Statement) (t : Tables) → engine.fault s t ≡ none) where
  -- The connection after one insertion.
  insertion :
      (p : Product) (db : Database)
      → negative p.amount ≡ false
      → db.failed Sql.insert_product ≡ none
      → (after : Database) × (insert_product engine p db ≡ (returned tt, after))
        × (after.tables ≡ upserted (new_product_id engine db.tables) (bind_product p) db.tables)
        × (after.failed Sql.insert_product ≡ none)
  unfolding insert_product bind_product
  insertion p db amount ready =
      let v = bind_product p in
      let t = upserted (new_product_id engine db.tables) v db.tables in
      let e = inserted engine v db t in
      (
        record db { tables = e.tables; changes = e.changes; last_insert_rowid = e.rowid },
        execute-returns engine Sql.insert_product _ e db ready (sound Sql.insert_product db.tables)
            (ap (Option.map (inserted engine v db))
              (upserted-some (new_product_id engine db.tables) v db.tables amount)),
        if_cases (λ (e : Effect (Unit {0})). e.tables ≡ t)
            (any (has_key v.name v.dimension) db.tables.products) _ _ (λ _. refl) (λ _. refl),
        ready,
      )

  abbrev pub AreStocked : List Product → Type 0
  AreStocked ps = All (λ p. negative p.amount ≡ false) ps

  insertions :
      (ps : List Product) (db : Database)
      → AreStocked ps
      → db.failed Sql.insert_product ≡ none
      → (after : Database) × (insert_products_loop engine ps db ≡ (returned tt, after))
        × IsFilled ps db.tables after.tables
  unfolding insert_products_loop ◌>>=◌ last_or
  insertions [] db amounts ready =
      (db, refl, record { values = λ n d. refl; recipes = (refl, refl) })
  insertions (p ∷ ps) db amounts ready =
      let first = insertion p db amounts.0 ready in
      let later = insertions ps first.0 amounts.1 first.3 in
      let id = new_product_id engine db.tables in
      let v = bind_product p in
      let step = upserted-SameRecipes id v db.tables in
      let same : SameRecipes db.tables first.0.tables =
        subst (SameRecipes db.tables) (sym first.2) step in
      (
        later.0,
        rw first.1 later.1,
        record {
          values = λ n d.
              later.2.values n d
              ∙ ap (λ o. last_or o n d ps)
                  (ap (λ t. values_at n d t.products) first.2
                    ∙ values_at-upserted id v db.tables n d);
          recipes = (later.2.recipes.0 ∙ same.0, later.2.recipes.1 ∙ same.1);
        },
      )

  committing :
      {A : Type 0} (body : Db (Bool × A)) (a : A) (db after : Database)
      → body db ≡ (returned (true, a), after)
      → transaction engine body db ≡ (returned a, after)
  unfolding transaction
  committing body a db after e =
      rw
        (
          transaction,
          sound Sql.begin_transaction db.tables,
          e,
          committed,
          sound Sql.commit_transaction after.tables,
        )
        refl

  -- Without faults, and where the statement of the upsert has no error left from an earlier step,
  -- products whose amounts are not negative are inserted all together: every name and dimension then
  -- has the values of the last of them that has both, or the values that it had before, and the
  -- recipes are as they were.
  pub insert_products-IsFilled :
      (ps : List Product) (db : Database)
      → AreStocked ps
      → db.failed Sql.insert_product ≡ none
      → (after : Database) × (insert_products engine ps db ≡ (returned tt, after))
        × IsFilled ps db.tables after.tables
  unfolding insert_products ◌>>=◌
  insert_products-IsFilled ps db amounts ready =
      let done = insertions ps db amounts ready in
      (
        done.0,
        committing _ tt db done.0
            (ap (λ r. continue r (λ _ last. (returned (true, tt), last))) done.1),
        done.2,
      )

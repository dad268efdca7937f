-- ===== src/Repository/Catalogue/Deleting.antt =====
-- `GetProduct` and `DeleteProduct` of the service over the SQLite repository, as
-- steps of the catalogue.
use mathlib.Core.Option
use recipes_core.Prelude.{
  ℕ, ◌≡◌, refl, ap, ◌∙◌, Bool, true, false, Option-cases, some, none, inl, inr, All-keep, ◌==◌,
}
use recipes_core.App.{expected}
use recipes_core.Service
use recipes_core.Service.{validate_product, checked, failure, require_found}
use recipes_core.Sql
use recipes_core.Sql.{Engine, Statement, Tables, ProductRow}
use recipes_core.Sql.Statements
use recipes_core.Sql.Statements.{
  row_of, overwrite, update_rows, has_key, has_id, negative, count, select_product_by_id,
}
use recipes_core.Sql.Consistency.Products.{delete_product_by_id-IsConsistent}
use recipes_core.Sql.Selection.{
  count-select_product_by_id, select_product_by_id-deleted, select_product_by_id-kept,
}
use recipes_core.Db.Connection.{Database, Outcome, returned, thrown, ◌>>=◌, update, continue, query}
use recipes_core.Db.Products
use recipes_core.Db.Products.{bind_product, read_product}
use recipes_core.Repository
use recipes_core.Repository.{catching, sqlite_repository}
use recipes_core.Repository.Creation.{execute-returns}
use recipes_core.Repository.Catalogue.Settled.{
  HasDimension, IsSettled, IsReliable, change_reply, with_tables, Serves,
}
use recipes_core.Repository.Catalogue.{
  read, delete, Sets, catalogue, call, found, deleted, deletion_missing,
}

module _ (engine : Engine) where
  deleting :
      (id : ℕ) (db after : Database) (o : Outcome Bool)
      → Products.delete_product engine id db ≡ (o, after)
      → call engine (delete id) db ≡ (change_reply o, after)
  unfolding call Service.delete_product Repository.delete_product catching ◌>>=◌
  deleting id db after (returned true) e = rw e refl
  deleting id db after (returned false) e = rw e refl
  deleting id db after (thrown what) e = rw e refl

  module _ (reliable : IsReliable engine) where
    pub reading :
        (id : ℕ) (db : Database)
        → IsSettled db
        → Service.get_product (sqlite_repository engine) id db
          ≡ (expected ((catalogue db).find id), db)
    unfolding Service.get_product Repository.get_product catching Products.get_product ◌>>=◌
    reading id db h =
        rw
          (execute-returns engine Sql.select_product_by_id
            (query (λ t. select_product_by_id id t.products)) _ db h.reading
            (reliable.sound Sql.select_product_by_id db.tables) refl)
          refl

    pub read-Serves :
        (id : ℕ) (db : Database)
        → IsSettled db
        → Serves engine db (read id) (call engine (read id) db)
    unfolding call
    read-Serves id db h = rw (reading id db h) (found id, h)

    deletion :
        (id : ℕ) (db : Database)
        → IsSettled db
        → Products.delete_product engine id db ≡ (
          returned (count (has_id id) db.tables.products == 1),
          with_tables
              (Statements.delete_product_by_id id db.tables)
              (count (has_id id) db.tables.products)
              db,
        )
    unfolding Products.delete_product ◌>>=◌
    deletion id db h =
        ap (λ r. continue r (λ _ last. (returned (last.changes == 1), last)))
          (execute-returns engine Sql.delete_product_by_id
            (λ db. some (
              update (Statements.delete_product_by_id id db.tables)
                (count (has_id id) db.tables.products) db))
            _ db h.deleting (reliable.sound Sql.delete_product_by_id db.tables) refl)

    deleted-Sets :
        (id n : ℕ) (db : Database)
        → Sets
            (catalogue db)
            id
            none
            (catalogue (with_tables (Statements.delete_product_by_id id db.tables) n db))
    unfolding Statements.delete_product_by_id
    deleted-Sets id n db = record {
      at_id = ap (Option.map read_product) (select_product_by_id-deleted id db.tables.products);
      elsewhere = λ q other.
          ap (Option.map read_product) (select_product_by_id-kept id q db.tables.products other);
      creations = refl;
      updates = refl;
    }

    deleted-IsSettled :
        (id n : ℕ) (db : Database)
        → IsSettled db
        → IsSettled (with_tables (Statements.delete_product_by_id id db.tables) n db)
    unfolding Statements.delete_product_by_id
    deleted-IsSettled id n db h = record {
      consistent = delete_product_by_id-IsConsistent id db.tables h.consistent;
      dimensions = All-keep _ HasDimension db.tables.products h.dimensions;
      reading = h.reading;
      deleting = h.deleting;
    }

    pub delete-Serves :
        (id : ℕ) (db : Database)
        → IsSettled db
        → Serves engine db (delete id) (call engine (delete id) db)
    delete-Serves id db h =
        let rows = db.tables.products in
        let counted = count-select_product_by_id id rows h.consistent.products.ids in
        let n = count (has_id id) rows in
        let after = with_tables (Statements.delete_product_by_id id db.tables) n db in
        elim (Option-cases (select_product_by_id id rows)) [
          | inl e ↦
              let none_deleted : (count (has_id id) rows == 1) ≡ false = rw (counted, e) refl in
              rw
                (deleting id db after (returned false)
                  (deletion id db h ∙ ap (λ b. (returned b, after)) none_deleted))
                (
                  deletion_missing id _ (ap (Option.map read_product) e) (deleted-Sets id n db),
                  deleted-IsSettled id n db h,
                )
          | inr e ↦
              let one_deleted : (count (has_id id) rows == 1) ≡ true = rw (counted, e.1) refl in
              rw
                (deleting id db after (returned true)
                  (deletion id db h ∙ ap (λ b. (returned b, after)) one_deleted))
                (
                  deleted id (read_product e.0) _ (ap (Option.map read_product) e.1)
                      (deleted-Sets id n db),
                  deleted-IsSettled id n db h,
                )
        ]

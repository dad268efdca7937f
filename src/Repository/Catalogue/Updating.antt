-- ===== src/Repository/Catalogue/Updating.antt =====
-- `UpdateProduct` of the service over the SQLite repository, as a step of the catalogue.
use mathlib.Core.Option
use recipes_core.Prelude.{
  ℕ, Text, ◌≡◌, refl, ap, ◌∙◌, subst, Bool, true, false, Bool-cases, Option, Option-cases, some,
  none, inl, inr, if_cases, any, is_some, ◌==◌, arith, if◌then◌else◌,
}
use recipes_core.Kitchen.{Product}
use recipes_core.App.{validation, expected}
use recipes_core.Service
use recipes_core.Service.{validate_product, checked, failure, require_found}
use recipes_core.Service.Validation.{IsAcceptable}
use recipes_core.Sql
use recipes_core.Sql.{Engine, Statement, Tables, ProductRow}
use recipes_core.Sql.Statements
use recipes_core.Sql.Statements.{
  row_of, overwrite, update_rows, has_key, has_id, negative, count, select_product_by_id,
}
use recipes_core.Sql.Consistency.{KeepsConsistent, All-update_rows}
use recipes_core.Sql.Consistency.Products.{update_product_by_id-KeepsConsistent}
use recipes_core.Sql.Selection.{
  any-select_product_by_id, select_product_by_id-updated, select_product_by_id-others,
  select_product_by_id-id,
}
use recipes_core.Db.Connection.{
  Database, Effect, Outcome, returned, thrown, ◌>>=◌, mark, update, continue, execute,
}
use recipes_core.Db.Products
use recipes_core.Db.Products.{bind_product, read_product}
use recipes_core.Repository
use recipes_core.Repository.{catching}
use recipes_core.Repository.Creation.{IsStorable, execute-returns, read_product-bind_product}
use recipes_core.Repository.Repeats.{execute-repeats, execute-refused}
use recipes_core.Repository.Catalogue.Settled.{
  IsReadable, HasDimension, IsSettled, IsReliable, row_of-HasDimension, validate_product_cases,
  acceptable-IsStorable, change_reply, with_tables, holds_key, any-IsTaken, any-IsFree, Serves,
}
use recipes_core.Repository.Catalogue.{
  Call, refused, Sets, catalogue, call, only, updated, update_conflicts, update_repeats,
  update_missing, update_invalid,
}

-- The tables with the columns of p in the row of an id.
abbrev with_row : ℕ → Product → Tables → Tables
with_row id p t = record t {
  products = update_rows (has_id id) (overwrite (bind_product p)) t.products;
}

-- What the statement does: to no row, to a row whose new name is taken, and to one whose is not.
module _ (id : ℕ) (p : Product) (t : Tables) where
  update_absent :
      any (has_id id) t.products ≡ false
      → Statements.update_product_by_id id (bind_product p) t ≡ some t
  unfolding Statements.update_product_by_id
  update_absent absent = rw absent refl

  update_taken :
      any (has_id id) t.products ≡ true
      → any (holds_key (only id) p) t.products ≡ true
      → Statements.update_product_by_id id (bind_product p) t ≡ none
  unfolding Statements.update_product_by_id bind_product
  update_taken there taken = elim (Bool-cases (negative p.amount)) [
    | inl e ↦ rw (there, e) refl
    | inr e ↦ rw (there, e, taken) refl
  ]

  update_free :
      any (has_id id) t.products ≡ true
      → any (holds_key (only id) p) t.products ≡ false
      → negative p.amount ≡ false
      → Statements.update_product_by_id id (bind_product p) t ≡ some (with_row id p t)
  unfolding Statements.update_product_by_id bind_product
  update_free there free amount = rw (there, amount, free) refl

module _ (engine : Engine) where
  updating :
      (id : ℕ) (p : Product) (db after : Database) (o : Outcome Bool)
      → validate_product p ≡ expected tt
      → Products.update_product engine id p db ≡ (o, after)
      → call engine (Call.update id p) db ≡ (change_reply o, after)
  unfolding call Service.update_product Repository.update_product catching ◌>>=◌
  updating id p db after (returned true) valid e = rw (valid, e) refl
  updating id p db after (returned false) valid e = rw (valid, e) refl
  updating id p db after (thrown what) valid e = rw (valid, e) refl

  rejected :
      (id : ℕ) (p : Product) (db : Database) (message : _)
      → validate_product p ≡ failure validation message
      → call engine (Call.update id p) db ≡ (refused validation, db)
  unfolding call Service.update_product
  rejected id p db message e = rw e refl

  marked-IsSettled :
      (what : _) (db : Database) → IsSettled db → IsSettled (mark Sql.update_product_by_id what db)
  marked-IsSettled what db h = record {
    consistent = h.consistent;
    dimensions = h.dimensions;
    reading = h.reading;
    deleting = h.deleting;
  }

  change : ℕ → Product → Database → Option (Effect (Unit {0}))
  change id p db =
      Option.map (λ t. update t (if any (has_id id) db.tables.products then 1 else 0) db)
        (Statements.update_product_by_id id (bind_product p) db.tables)

  updates :
      (id : ℕ) (p : Product) (db : Database)
      → Products.update_product engine id p db
        ≡ continue
            (execute engine Sql.update_product_by_id (change id p) db)
            (λ _ last. (returned (last.changes == 1), last))
  unfolding Products.update_product ◌>>=◌ change
  updates id p db = refl

  module _ (reliable : IsReliable engine) (id : ℕ) (p : Product) where
    repeated :
        (db : Database) (what : _)
        → IsAcceptable p
        → validate_product p ≡ expected tt
        → db.failed Sql.update_product_by_id ≡ some what
        → IsSettled db
        → Serves engine db (Call.update id p) (call engine (Call.update id p) db)
    repeated db what ok valid again h = elim (Option-cases (engine.reset_error what)) [
      | inl e ↦ ground (arith, reliable.repeats what)
      | inr e ↦
          rw
            (updating id p db (mark Sql.update_product_by_id none db) (thrown e.0) valid (
              updates id p db
              ∙ ap (λ r. continue r (λ _ last. (returned (last.changes == 1), last)))
                  (execute-repeats engine Sql.update_product_by_id (change id p) db what e.0 again
                    e.1)))
            (update_repeats id p ok (ap is_some again), marked-IsSettled none db h)
    ]

    -- What a ready statement does.
    changing :
        (db : Database) (t : Tables)
        → validate_product p ≡ expected tt
        → db.failed Sql.update_product_by_id ≡ none
        → Statements.update_product_by_id id (bind_product p) db.tables ≡ some t
        → let n : ℕ = if any (has_id id) db.tables.products then 1 else 0 in
          call engine (Call.update id p) db ≡ (change_reply (returned (n == 1)), with_tables t n db)
    unfolding change
    changing db t valid ready e =
        let n : ℕ = if any (has_id id) db.tables.products then 1 else 0 in
        updating id p db (with_tables t n db) (returned (n == 1)) valid (
          updates id p db
          ∙ ap (λ r. continue r (λ _ last. (returned (last.changes == 1), last)))
              (execute-returns engine Sql.update_product_by_id (change id p) (update t n db) db
                ready (reliable.sound Sql.update_product_by_id db.tables)
                (ap (Option.map (λ t. update t n db)) e)))

    conflicting :
        (db : Database) (old : Product)
        → IsAcceptable p
        → validate_product p ≡ expected tt
        → db.failed Sql.update_product_by_id ≡ none
        → (catalogue db).find id ≡ some old
        → any (has_id id) db.tables.products ≡ true
        → any (holds_key (only id) p) db.tables.products ≡ true
        → IsSettled db
        → Serves engine db (Call.update id p) (call engine (Call.update id p) db)
    unfolding change
    conflicting db old ok valid ready here there taken h =
        let message : Text = engine.constraint_failed in
        rw
          (updating id p db (mark Sql.update_product_by_id (some message) db) (thrown message) valid
            (updates id p db
              ∙ ap (λ r. continue r (λ _ last. (returned (last.changes == 1), last)))
                  (execute-refused engine Sql.update_product_by_id (change id p) db ready
                    (reliable.sound Sql.update_product_by_id db.tables)
                    (ap (Option.map _) (update_taken id p db.tables there taken)))))
          (
            update_conflicts id p old ok (ap is_some ready) here
                (any-IsTaken (only id) p db h taken),
            marked-IsSettled (some message) db h,
          )

    with_row-Sets :
        (n : ℕ) (db : Database) (row : ProductRow)
        → IsStorable p
        → select_product_by_id id db.tables.products ≡ some row
        → Sets
            (catalogue db)
            id
            (some (record p { id = some id }))
            (catalogue (with_tables (with_row id p db.tables) n db))
    with_row-Sets n db row storable e =
        let rows = db.tables.products in
        let v = bind_product p in
        record {
          at_id =
              ap (Option.map read_product)
                (select_product_by_id-updated id v rows ∙ ap (Option.map (overwrite v)) e)
              ∙ ap (λ q. some (read_product (row_of q v))) (select_product_by_id-id id rows row e)
              ∙ ap some (read_product-bind_product id p storable);
          elsewhere = λ q other.
              ap (Option.map read_product) (select_product_by_id-others id v q rows other);
          creations = refl;
          updates = refl;
        }

    with_row-IsSettled :
        (n : ℕ) (db : Database)
        → IsStorable p
        → Statements.update_product_by_id id (bind_product p) db.tables
          ≡ some (with_row id p db.tables)
        → IsSettled db
        → IsSettled (with_tables (with_row id p db.tables) n db)
    with_row-IsSettled n db storable e h = record {
      consistent =
          subst KeepsConsistent e
            (update_product_by_id-KeepsConsistent id (bind_product p) db.tables h.consistent);
      dimensions =
          All-update_rows (has_id id) (overwrite (bind_product p)) HasDimension HasDimension
            db.tables.products
            (λ row known.
              if_cases HasDimension (has_id id row) _ _
                (λ _. row_of-HasDimension row.id p storable.dimension) (λ _. known))
            h.dimensions;
      reading = h.reading;
      deleting = h.deleting;
    }

    storing :
        (db : Database) (row : ProductRow)
        → IsAcceptable p
        → validate_product p ≡ expected tt
        → IsReadable p
        → db.failed Sql.update_product_by_id ≡ none
        → select_product_by_id id db.tables.products ≡ some row
        → any (has_id id) db.tables.products ≡ true
        → any (holds_key (only id) p) db.tables.products ≡ false
        → IsSettled db
        → Serves engine db (Call.update id p) (call engine (Call.update id p) db)
    storing db row ok valid readable ready e there free h =
        let storable = acceptable-IsStorable p ok readable in
        let stored = update_free id p db.tables there free storable.amount in
        rw (changing db (with_row id p db.tables) valid ready stored, there)
          (
            updated id p (read_product row) _ ok (ap is_some ready) (ap (Option.map read_product) e)
                (any-IsFree (only id) p db h free) (with_row-Sets 1 db row storable e),
            with_row-IsSettled 1 db storable stored h,
          )

    absent :
        (db : Database)
        → IsAcceptable p
        → validate_product p ≡ expected tt
        → db.failed Sql.update_product_by_id ≡ none
        → select_product_by_id id db.tables.products ≡ none
        → any (has_id id) db.tables.products ≡ false
        → IsSettled db
        → Serves engine db (Call.update id p) (call engine (Call.update id p) db)
    absent db ok valid ready e there h =
        rw (changing db db.tables valid ready (update_absent id p db.tables there), there)
          (
            update_missing id p ok (ap is_some ready) (ap (Option.map read_product) e),
            record {
              consistent = h.consistent;
              dimensions = h.dimensions;
              reading = h.reading;
              deleting = h.deleting;
            },
          )

    ready-Serves :
        (db : Database)
        → IsAcceptable p
        → validate_product p ≡ expected tt
        → IsReadable p
        → db.failed Sql.update_product_by_id ≡ none
        → IsSettled db
        → Serves engine db (Call.update id p) (call engine (Call.update id p) db)
    ready-Serves db ok valid readable ready h =
        let rows = db.tables.products in
        let there = any-select_product_by_id id rows in
        elim (Option-cases (select_product_by_id id rows)) [
          | inl e ↦ absent db ok valid ready e (there ∙ ap is_some e) h
          | inr e ↦ elim (Bool-cases (any (holds_key (only id) p) rows)) [
            | inl taken ↦
                conflicting db (read_product e.0) ok valid ready (ap (Option.map read_product) e.1)
                  (there ∙ ap is_some e.1) taken h
            | inr free ↦ storing db e.0 ok valid readable ready e.1 (there ∙ ap is_some e.1) free h
          ]
        ]

    pub update-Serves :
        (db : Database)
        → IsReadable p
        → IsSettled db
        → Serves engine db (Call.update id p) (call engine (Call.update id p) db)
    update-Serves db readable h = elim (validate_product_cases p) [
      | inr bad ↦ rw (rejected id p db bad.0 bad.1) (update_invalid id p bad.2, h)
      | inl ok ↦ elim (Option-cases (db.failed Sql.update_product_by_id)) [
        | inr again ↦ repeated db again.0 ok.1 ok.0 again.1 h
        | inl ready ↦ ready-Serves db ok.1 ok.0 readable ready h
      ]
    ]

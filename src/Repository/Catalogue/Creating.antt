-- ===== src/Repository/Catalogue/Creating.antt =====
-- `CreateProduct` of the service over the SQLite repository, as a step of the catalogue.
use mathlib.Core.Option
use recipes_core.Prelude.{
  ◌≡◌, refl, ap, ◌∙◌, true, false, Bool-cases, Option-cases, some, none, inl, inr, All-append, any,
  is_some, arith,
}
use recipes_core.Kitchen.{Product}
use recipes_core.Kitchen.Dimensions.{to_uint8}
use recipes_core.App.{validation, storage, Expected, expected, unexpected}
use recipes_core.Service
use recipes_core.Service.{validate_product, checked, failure, is_empty}
use recipes_core.Service.Validation.{IsAcceptable}
use recipes_core.Sql
use recipes_core.Sql.{Engine, Statement, Tables, ProductRow}
use recipes_core.Sql.Statements.{row_of, has_key, select_product_by_id}
use recipes_core.Sql.Consistency.Products.{append-IsConsistent}
use recipes_core.Sql.Selection.{
  select_product_by_id-append, select_product_by_id-appended, select_product_by_id-fresh,
}
use recipes_core.Db.Connection.{Database, mark, thrown, ◌>>=◌}
use recipes_core.Db.Products
use recipes_core.Db.Products.{bind_product, read_product}
use recipes_core.Repository
use recipes_core.Repository.{catching, storage_error}
use recipes_core.Repository.Creation.{
  IsStorable, CanCreate, with_product, read_product-bind_product, create_product-stores,
}
use recipes_core.Repository.Repeats.{repeated_error, refused_once, refused_creation}
use recipes_core.Repository.Catalogue.Settled.{
  IsReadable, HasDimension, IsSettled, IsReliable, row_of-HasDimension, validate_product_cases,
  acceptable-IsStorable, any-IsTaken, any-IsFree, Serves,
}
use recipes_core.Repository.Catalogue.{
  create, product, refused, Sets, catalogue, answer, call, nobody, created, creation_conflicts,
  creation_repeats, creation_invalid,
}

module _ (engine : Engine) where
  accepted :
      (p : Product) (db : Database) (r : Expected Product × Database)
      → validate_product p ≡ expected tt
      → Repository.create_product engine p db ≡ r
      → call engine (create p) db ≡ answer (λ q. product (some q)) r
  unfolding call Service.create_product
  accepted p db r valid done = rw (valid, done) refl

  thrown_creation :
      (p : Product) (db after : Database) (what : _)
      → validate_product p ≡ expected tt
      → Products.create_product engine p db ≡ (thrown what, after)
      → call engine (create p) db ≡ (refused storage, after)
  unfolding Repository.create_product catching ◌>>=◌
  thrown_creation p db after what valid failed =
      accepted p db (unexpected (storage_error what), after) valid (rw failed refl)

  marked-IsSettled :
      (what : _) (db : Database) → IsSettled db → IsSettled (mark Sql.create_product what db)
  marked-IsSettled what db h = record {
    consistent = h.consistent;
    dimensions = h.dimensions;
    reading = h.reading;
    deleting = h.deleting;
  }

  rejected :
      (p : Product) (db : Database) (message : _)
      → validate_product p ≡ failure validation message
      → call engine (create p) db ≡ (refused validation, db)
  unfolding call Service.create_product
  rejected p db message e = rw e refl

  module _ (reliable : IsReliable engine) where
    repeated :
        (p : Product) (db : Database) (what : _)
        → IsAcceptable p
        → validate_product p ≡ expected tt
        → db.failed Sql.create_product ≡ some what
        → IsSettled db
        → Serves engine db (create p) (call engine (create p) db)
    repeated p db what ok valid again h = elim (Option-cases (engine.reset_error what)) [
      | inl e ↦ ground (arith, reliable.repeats what)
      | inr e ↦
          rw
            (thrown_creation p db (mark Sql.create_product none db) e.0 valid
              (repeated_error engine p what e.0 db again e.1))
            (creation_repeats p ok (ap is_some again), marked-IsSettled none db h)
    ]

    conflicting :
        (p : Product) (db : Database)
        → IsAcceptable p
        → validate_product p ≡ expected tt
        → db.failed Sql.create_product ≡ none
        → any (has_key p.name (to_uint8 p.dimension)) db.tables.products ≡ true
        → IsSettled db
        → Serves engine db (create p) (call engine (create p) db)
    conflicting p db ok valid ready taken h =
        rw
          (thrown_creation p db (refused_once engine db) engine.constraint_failed valid (
            refused_creation engine p db taken ready (reliable.sound Sql.create_product db.tables)))
          (
            creation_conflicts p ok (ap is_some ready) (any-IsTaken nobody p db h taken),
            marked-IsSettled (some engine.constraint_failed) db h,
          )

    new_id :
        (db : Database)
        → IsSettled db
        → select_product_by_id (engine.next_rowid db.tables.products_seq) db.tables.products ≡ none
    new_id db h =
        let seq = db.tables.products_seq in
        select_product_by_id-fresh (engine.next_rowid seq) seq db.tables.products
          (reliable.increasing seq) h.consistent.products.known

    with_product-Sets :
        (p : Product) (db : Database)
        → IsStorable p
        → IsSettled db
        → let id = engine.next_rowid db.tables.products_seq in
          Sets
            (catalogue db)
            id
            (some (record p { id = some id }))
            (catalogue (with_product engine p db))
    with_product-Sets p db storable h =
        let id = engine.next_rowid db.tables.products_seq in
        let rows = db.tables.products in
        let row = row_of id (bind_product p) in
        record {
          at_id =
              ap (Option.map read_product)
                (select_product_by_id-appended id row rows (ground arith) (new_id db h))
              ∙ ap some (read_product-bind_product id p storable);
          elsewhere = λ q other.
              ap (Option.map read_product) (select_product_by_id-append q row rows (ground arith));
          creations = refl;
          updates = refl;
        }

    with_product-IsSettled :
        (p : Product) (db : Database)
        → IsStorable p
        → any (has_key p.name (to_uint8 p.dimension)) db.tables.products ≡ false
        → IsSettled db
        → IsSettled (with_product engine p db)
    unfolding bind_product
    with_product-IsSettled p db storable free h =
        let id = engine.next_rowid db.tables.products_seq in
        record {
          consistent =
              append-IsConsistent id (bind_product p) db.tables
                (reliable.increasing db.tables.products_seq) storable.amount free h.consistent;
          dimensions =
              All-append HasDimension db.tables.products _ h.dimensions
                (row_of-HasDimension id p storable.dimension, tt);
          reading = h.reading;
          deleting = h.deleting;
        }

    storing :
        (p : Product) (db : Database)
        → IsAcceptable p
        → validate_product p ≡ expected tt
        → IsReadable p
        → db.failed Sql.create_product ≡ none
        → any (has_key p.name (to_uint8 p.dimension)) db.tables.products ≡ false
        → IsSettled db
        → Serves engine db (create p) (call engine (create p) db)
    storing p db ok valid readable ready free h =
        let storable = acceptable-IsStorable p ok readable in
        let id = engine.next_rowid db.tables.products_seq in
        let can : CanCreate engine p db = record {
          sound = reliable.sound;
          creating = ready;
          reading = h.reading;
          increasing = reliable.increasing;
          known = h.consistent.products.known;
          absent = free;
        } in
        rw (accepted p db _ valid (create_product-stores engine p db storable can)) (
          created p id _ ok (ap is_some ready) (any-IsFree nobody p db h free)
              (ap (Option.map read_product) (new_id db h)) (with_product-Sets p db storable h),
          with_product-IsSettled p db storable free h,
        )

    pub create-Serves :
        (p : Product) (db : Database)
        → IsReadable p
        → IsSettled db
        → Serves engine db (create p) (call engine (create p) db)
    create-Serves p db readable h = elim (validate_product_cases p) [
      | inr bad ↦ rw (rejected p db bad.0 bad.1) (creation_invalid p bad.2, h)
      | inl ok ↦ elim (Option-cases (db.failed Sql.create_product)) [
        | inr again ↦ repeated p db again.0 ok.1 ok.0 again.1 h
        | inl ready ↦
            elim (Bool-cases (any (has_key p.name (to_uint8 p.dimension)) db.tables.products)) [
              | inl taken ↦ conflicting p db ok.1 ok.0 ready taken h
              | inr free ↦ storing p db ok.1 ok.0 readable ready free h
            ]
      ]
    ]

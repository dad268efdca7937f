-- ===== src/Repository/Creation.antt =====
-- `SqliteRecipeRepository::CreateProduct` through `db::DBManager`: the product that is stored and
-- read back.
use mathlib.Core.Option
use recipes_core.Prelude.{
  ℕ, IsInt, to_int-IsInt, ◌%◌, ◌<◌, ◌≤◌, ◌≡◌, ◌∙◌, ap, refl, true, false, Option, none, some, List,
  [], ◌∷◌, ◌++◌, All, any, arith,
}
use recipes_core.Calendar.{is_ok, to_date_string, from_date_string}
use recipes_core.Calendar.RoundTrip.{from_date_string-to_date_string}
use recipes_core.Kitchen.{SysDays, Product}
use recipes_core.Kitchen.Dimensions.{Dimension, gramm, unnamed, to_uint8, of_uint8}
use recipes_core.Kitchen.Dimensions.Names.{IsNamed}
use recipes_core.App.{expected}
use recipes_core.Sql
use recipes_core.Sql.{ProductRow, Engine, Statement, Tables}
use recipes_core.Sql.Statements
use recipes_core.Sql.Statements.{row_of, has_id, has_key, negative, select_product_by_id}
use recipes_core.Db.Connection.{
  returned, continue, insert, query, Database, ◌>>=◌, Effect, apply_effect, execute,
  reset_statement, step,
}
use recipes_core.Db.Products
use recipes_core.Db.Products.{bind_product, read_product}
use recipes_core.Repository.{create_product, catching}

-- A date that a column can hold, or none.
abbrev pub IsStorableDate : Option SysDays → Type 0
IsStorableDate none = Unit {0}
IsStorableDate (some date) = (is_ok date ≡ true) × (date.year < 10000)

pub record IsStorable (p : Product) : Type 0 where
  pub amount : negative p.amount ≡ false
  pub range : IsInt p.amount
  pub dimension : IsNamed p.dimension
  pub manufacture : IsStorableDate p.dates.manufacture
  pub expiration : IsStorableDate p.dates.expiration

pub dimension_read : (d : Dimension) → IsNamed d → of_uint8 (to_uint8 d % 256) ≡ d
unfolding of_uint8 to_uint8
dimension_read (unnamed k) h = absurd h
dimension_read gramm h = refl
dimension_read _ h = refl

date_read :
    (date : Option SysDays)
    → IsStorableDate date
    → Option.map from_date_string (Option.map to_date_string date) ≡ date
date_read none h = refl
date_read (some date) h = ap some (from_date_string-to_date_string date h.0 h.1)

-- A product that is bound and read again is the same, with the id of its row.
pub read_product-bind_product :
    (id : ℕ) (p : Product)
    → IsStorable p
    → read_product (row_of id (bind_product p)) ≡ record p { id = some id }
unfolding read_product bind_product
read_product-bind_product id p h =
    rw
      (
        to_int-IsInt p.amount h.range,
        dimension_read p.dimension h.dimension,
        date_read p.dates.manufacture h.manufacture,
        date_read p.dates.expiration h.expiration,
      )
      refl

select_new :
    (id : ℕ) (row : ProductRow) (rows : List ProductRow)
    → row.id ≡ id
    → All (λ r. r.id < id) rows
    → select_product_by_id id (rows ++ row ∷ []) ≡ some row
unfolding select_product_by_id
select_new id row [] e h = ground arith
select_new id row (r ∷ rows) e h = let found = select_new id row rows e h.1 in ground arith

module _ (engine : Engine) where
  pub execute-returns :
      {A : Type 0} (s : Statement) (effect : Database → Option (Effect A)) (e : Effect A)
      (db : Database)
      → db.failed s ≡ none
      → engine.fault s db.tables ≡ none
      → effect db ≡ some e
      → execute engine s effect db ≡ apply_effect e db
  unfolding execute ◌>>=◌ reset_statement step
  execute-returns s effect e db clean sound done = rw (clean, sound, done) refl

  -- The connection after p was stored as a new row.
  abbrev pub with_product : Product → Database → Database
  with_product p db =
      let id = engine.next_rowid db.tables.products_seq in
      record db {
        tables = record db.tables {
          products = db.tables.products ++ row_of id (bind_product p) ∷ [];
          products_seq = id;
        };
        changes = 1;
        last_insert_rowid = id;
      }

  -- A storage in which a new product can be created: no fault, neither statement left in an error, new
  -- ids are larger than all used ones, and no row has the product's name and dimension.
  pub record CanCreate (p : Product) (db : Database) : Type 0 where
    pub sound : (s : Statement) (t : Tables) → engine.fault s t ≡ none
    pub creating : db.failed Sql.create_product ≡ none
    pub reading : db.failed Sql.select_product_by_id ≡ none
    pub increasing : (n : ℕ) → n < engine.next_rowid n
    pub known : All (λ row. row.id ≤ db.tables.products_seq) db.tables.products
    pub absent : any (has_key p.name (to_uint8 p.dimension)) db.tables.products ≡ false

  new_row :
      (id : ℕ) (p : Product) (t : Tables)
      → negative p.amount ≡ false
      → any (has_key p.name (to_uint8 p.dimension)) t.products ≡ false
      → Statements.create_product id (bind_product p) t
        ≡ some (record t {
          products = t.products ++ row_of id (bind_product p) ∷ [];
          products_seq = id;
        })
  unfolding Statements.create_product bind_product
  new_row id p t amount absent = rw (amount, absent) refl

  stored :
      (p : Product) (db : Database)
      → IsStorable p
      → CanCreate p db
      → Products.create_product engine p db
        ≡ (returned (engine.next_rowid db.tables.products_seq), with_product p db)
  unfolding Products.create_product ◌>>=◌
  stored p db hp h =
      let id = engine.next_rowid db.tables.products_seq in
      ap (λ r. continue r (λ _ last. (returned last.last_insert_rowid, last)))
        (execute-returns Sql.create_product
          (λ d.
            Option.map (λ t. insert t (engine.next_rowid d.tables.products_seq))
              (Statements.create_product (engine.next_rowid d.tables.products_seq) (bind_product p)
                d.tables))
          (insert (with_product p db).tables id) db h.creating
          (h.sound Sql.create_product db.tables)
          (ap (Option.map (λ t. insert t id)) (new_row id p db.tables hp.amount h.absent)))

  older :
      (id seq : ℕ) (rows : List ProductRow)
      → seq < id
      → All (λ row. row.id ≤ seq) rows
      → All (λ row. row.id < id) rows
  older id seq [] lt h = tt
  older id seq (row ∷ rows) lt h = (omega (arith, h.0), older id seq rows lt h.1)

  read_back :
      (p : Product) (db : Database)
      → IsStorable p
      → CanCreate p db
      → Products.get_product engine (engine.next_rowid db.tables.products_seq) (with_product p db)
        ≡ (
          returned (some (record p { id = some (engine.next_rowid db.tables.products_seq) })),
          with_product p db,
        )
  unfolding Products.get_product ◌>>=◌
  read_back p db hp h =
      let seq = db.tables.products_seq in
      let id = engine.next_rowid seq in
      let last = with_product p db in
      ap (λ r. continue r (λ row d. (returned (Option.map read_product row), d)))
        (execute-returns Sql.select_product_by_id (query (λ t. select_product_by_id id t.products))
          (record {
            tables = last.tables;
            changes = 1;
            rowid = id;
            result = select_product_by_id id last.tables.products;
          })
          last h.reading (h.sound Sql.select_product_by_id last.tables) refl)
      ∙ ap (λ row. (returned (Option.map read_product row), last))
          (select_new id (row_of id (bind_product p)) db.tables.products refl
            (older id seq db.tables.products (h.increasing seq) h.known))
      ∙ ap (λ q. (returned (some q), last)) (read_product-bind_product id p hp)

  -- Where a product can be stored and created, the creation succeeds: it answers with the product
  -- as given and the id of its new row, and the row is added behind all others.
  pub create_product-stores :
      (p : Product) (db : Database)
      → IsStorable p
      → CanCreate p db
      → create_product engine p db ≡ (
        expected (record p { id = some (engine.next_rowid db.tables.products_seq) }),
        with_product p db,
      )
  unfolding create_product catching ◌>>=◌
  create_product-stores p db hp h = rw (stored p db hp h, read_back p db hp h) refl

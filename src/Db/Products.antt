-- ===== src/Db/Products.antt =====
-- The product operations of src/db/DBManager.cpp: `BindProduct`, `ReadProduct`, `InsertProduct`,
-- `InsertProducts`, `CreateProduct`, `GetProduct`, `UpdateProduct`, `DeleteProduct`,
-- `GetAllProducts`.
use mathlib.Core.Option
use recipes_core.Prelude.{
  ℕ, ◌%◌, to_int, Bool, true, Option, some, List, [], ◌∷◌, map, any, ◌==◌, if◌then◌else◌,
}
use recipes_core.Kitchen.{Product}
use recipes_core.Kitchen.Dimensions.{to_uint8, of_uint8}
use recipes_core.Calendar.{to_date_string, from_date_string}
use recipes_core.Sql
use recipes_core.Sql.{ProductRow, Tables, Engine}
use recipes_core.Sql.Statements
use recipes_core.Sql.Statements.{ProductValues, has_id, by_amount}
use recipes_core.Db.Connection.{
  Db, Database, Effect, pure, ◌>>=◌, ◌>>◌, execute, query, update, insert, transaction,
}

unfoldable pub bind_product : Product → ProductValues
unfolding to_uint8
bind_product product = record {
  name = product.name;
  dimension = to_uint8 product.dimension;
  amount_base = product.amount;
  manufacture_date = Option.map to_date_string product.dates.manufacture;
  expiration_date = Option.map to_date_string product.dates.expiration;
}

-- `getInt` keeps the lower 32 bits of an amount.
unfoldable pub read_product : ProductRow → Product
unfolding to_int
read_product row = record {
  id = some row.id;
  name = row.name;
  amount = to_int row.amount_base;
  dimension = of_uint8 (row.dimension % 256);
  dates = record {
    manufacture = Option.map from_date_string row.manufacture_date;
    expiration = Option.map from_date_string row.expiration_date;
  };
}

module _ (engine : Engine) where
  abbrev pub new_product_id : Tables → ℕ
  new_product_id t = engine.next_rowid t.products_seq

  -- An upsert that finds its key inserts no row.
  abbrev pub inserted : ProductValues → Database → Tables → Effect (Unit {0})
  inserted v db t =
      if any (Statements.has_key v.name v.dimension) db.tables.products
      then update t 1 db
      else insert t (new_product_id db.tables)

  unfoldable pub insert_product : Product → Db (Unit {0})
  insert_product product =
      let v = bind_product product in
      execute engine Sql.insert_product λ db.
        Option.map (inserted v db)
          (Statements.insert_product (new_product_id db.tables) v db.tables)

  unfoldable pub insert_products_loop : List Product → Db (Unit {0})
  insert_products_loop [] = pure tt
  insert_products_loop (product ∷ rest) = do insert_product product; insert_products_loop rest

  unfoldable pub insert_products : List Product → Db (Unit {0})
  insert_products products = transaction engine (do insert_products_loop products; pure (true, tt))

  unfoldable pub create_product : Product → Db ℕ
  create_product product = do
    execute engine Sql.create_product λ db.
        Option.map (λ t. insert t (new_product_id db.tables))
          (Statements.create_product (new_product_id db.tables) (bind_product product) db.tables)
    λ db. pure db.last_insert_rowid db

  unfoldable pub get_product : ℕ → Db (Option Product)
  get_product product_id = do
    row ←
        execute engine Sql.select_product_by_id
          (query (λ t. Statements.select_product_by_id product_id t.products))
    pure (Option.map read_product row)

  unfoldable pub update_product : ℕ → Product → Db Bool
  update_product product_id product = do
    execute engine Sql.update_product_by_id λ db.
        Option.map (λ t. update t (if any (has_id product_id) db.tables.products then 1 else 0) db)
          (Statements.update_product_by_id product_id (bind_product product) db.tables)
    λ db. pure (db.changes == 1) db

  unfoldable pub delete_product : ℕ → Db Bool
  delete_product product_id = do
    execute engine Sql.delete_product_by_id λ db. some (
        update (Statements.delete_product_by_id product_id db.tables)
          (Statements.count (has_id product_id) db.tables.products) db)
    λ db. pure (db.changes == 1) db

  unfoldable pub get_all_products : Db (List Product)
  get_all_products = do
    rows ←
        execute engine Sql.select_all_products
          (query (λ t. engine.order_products by_amount t.products))
    pure (map read_product rows)

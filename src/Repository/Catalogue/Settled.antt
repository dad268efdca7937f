-- ===== src/Repository/Catalogue/Settled.antt =====
-- Connections whose products are a catalogue, and what the other products' names mean for it.
use mathlib.Core.Option
use recipes_core.Prelude.{
  IsInt, ℕ, ◌≡◌, not, ◌<◌, ◌%◌, refl, sym, ap, ◌∙◌, subst, Bool, true, false, Bool-cases, Option,
  Option-cases, some, none, inl, inr, ◌⊎◌, List, All, any, is_some, ◌&&◌, arith, pos, ltb_ℤ, text,
}
use recipes_core.Kitchen.{Product}
use recipes_core.Kitchen.Dimensions.{to_uint8, of_uint8}
use recipes_core.Kitchen.Dimensions.Names.{IsNamed}
use recipes_core.App.{validation, not_found, storage, expected}
use recipes_core.Service.{validate_product, failure, is_empty}
use recipes_core.Service.Validation.{IsAcceptable, validate_product_iff}
use recipes_core.Sql
use recipes_core.Sql.{Engine, Statement, Tables, ProductRow}
use recipes_core.Sql.Statements.{row_of, has_key, select_product_by_id}
use recipes_core.Sql.Consistency.{IsConsistent}
use recipes_core.Sql.Selection.{
  select_product_by_id-untested, any-Tested, select_product_by_id-All, select_product_by_id-id,
}
use recipes_core.Db.Connection.{Database, Outcome, returned, thrown}
use recipes_core.Db.Products.{bind_product, read_product}
use recipes_core.Repository.Creation.{IsStorableDate, IsStorable, dimension_read}
use recipes_core.Repository.Catalogue.{
  Call, Reply, done, refused, same_key, Step, catalogue, IsTaken, IsFree,
}

-- A product whose columns can be read again.
pub record IsReadable (p : Product) : Type 0 where
  pub range : IsInt p.amount
  pub dimension : IsNamed p.dimension
  pub manufacture : IsStorableDate p.dates.manufacture
  pub expiration : IsStorableDate p.dates.expiration

-- A row whose dimension is one of the enumerators.
abbrev pub HasDimension : ProductRow → Type 0
HasDimension row = to_uint8 (of_uint8 (row.dimension % 256)) ≡ row.dimension

-- A connection whose reading and deleting statements are ready.
pub record IsSettled (db : Database) : Type 0 where
  pub consistent : IsConsistent db.tables
  pub dimensions : All HasDimension db.tables.products
  pub reading : db.failed Sql.select_product_by_id ≡ none
  pub deleting : db.failed Sql.delete_product_by_id ≡ none

-- An SQLite without faults, whose new row ids are larger than the counter, and whose `reset` throws
-- the error of a failed step again.
pub record IsReliable (engine : Engine) : Type 0 where
  pub sound : (s : Statement) (t : Tables) → engine.fault s t ≡ none
  pub increasing : (n : ℕ) → n < engine.next_rowid n
  pub repeats : (what : _) → is_some (engine.reset_error what) ≡ true

pub row_of-HasDimension :
    (id : ℕ) (p : Product) → IsNamed p.dimension → HasDimension (row_of id (bind_product p))
unfolding bind_product
row_of-HasDimension id p h = ap to_uint8 (dimension_read p.dimension h)

pub validate_product_cases :
    (p : Product)
    → ((validate_product p ≡ expected tt) × IsAcceptable p)
      ⊎ ((message : _) × (validate_product p ≡ failure validation message) × ¬ IsAcceptable p)
unfolding validate_product
validate_product_cases p = elim (Bool-cases (is_empty p.name)) [
  | inl e ↦ inr (
    text "Product name must not be empty",
    rw e refl,
    λ ok. ground (arith, (validate_product_iff p).1 ok),
  )
  | inr e ↦ elim (Bool-cases (ltb_ℤ p.amount (pos 0))) [
    | inl n ↦ inr (
      text "Product amount must not be negative",
      rw (e, n) refl,
      λ ok. ground (arith, (validate_product_iff p).1 ok),
    )
    | inr n ↦ inl (rw (e, n) refl, (validate_product_iff p).0 (rw (e, n) refl))
  ]
]

-- An acceptable product that can be read again can be stored.
pub acceptable-IsStorable : (p : Product) → IsAcceptable p → IsReadable p → IsStorable p
acceptable-IsStorable p ok h = record {
  amount = ground (arith, ok.stocked);
  range = h.range;
  dimension = h.dimension;
  manufacture = h.manufacture;
  expiration = h.expiration;
}

-- The row's key is the key of the product read from it.
pub has_key-same_key :
    (p : Product) (row : ProductRow)
    → HasDimension row
    → same_key p (read_product row) ≡ has_key p.name (to_uint8 p.dimension) row
unfolding read_product
has_key-same_key p row h = rw h refl

-- The catalogue of some rows.
abbrev pub find_in : List ProductRow → ℕ → Option Product
find_in rows id = Option.map read_product (select_product_by_id id rows)

-- The rows beside some that have the key of p.
abbrev pub holds_key : (ℕ → Bool) → Product → ProductRow → Bool
holds_key own p row = not (own row.id) && has_key p.name (to_uint8 p.dimension) row

pub any-IsTaken :
    (own : ℕ → Bool) (p : Product) (db : Database)
    → IsSettled db
    → any (holds_key own p) db.tables.products ≡ true
    → IsTaken own (catalogue db) p
any-IsTaken own p db h taken =
    let rows = db.tables.products in
    let holder = any-Tested (holds_key own p) rows h.consistent.products.ids taken in
    let row = holder.0 in
    let key =
      has_key-same_key p row
        (select_product_by_id-All HasDimension row.id rows row h.dimensions holder.1) in
    record {
      holder = row.id;
      held = read_product row;
      other = ground (arith, holder.2);
      found = ap (Option.map read_product) holder.1;
      same = key ∙ ground (arith, holder.2);
    }

pub any-IsFree :
    (own : ℕ → Bool) (p : Product) (db : Database)
    → IsSettled db
    → any (holds_key own p) db.tables.products ≡ false
    → IsFree own (catalogue db) p
any-IsFree own p db h free q r other found =
    elim (Option-cases (select_product_by_id q db.tables.products)) [
      | inl e ↦
          let hit : none ≡ some r = ap (Option.map read_product) (sym e) ∙ found in ground arith
      | inr e ↦
          let rows = db.tables.products in
          let row = e.0 in
          let hit : some (read_product row) ≡ some r =
            ap (Option.map read_product) (sym e.1) ∙ found in
          let read : read_product row ≡ r = ground arith in
          let here : own row.id ≡ false = ap own (select_product_by_id-id q rows row e.1) ∙ other in
          let untested = select_product_by_id-untested (holds_key own p) q rows row free e.1 in
          let key =
            has_key-same_key p row
              (select_product_by_id-All HasDimension q rows row h.dimensions e.1) in
          subst (λ r. same_key p r ≡ false) read (key ∙ ground arith)
    ]

-- What the service answers for the outcome of an update or a deletion.
abbrev pub change_reply : Outcome Bool → Reply
change_reply (returned true) = done
change_reply (returned false) = refused not_found
change_reply (thrown what) = refused storage

-- The connection after a statement has changed n rows.
abbrev pub with_tables : Tables → ℕ → Database → Database
with_tables t n db = record db { tables = t; changes = n }

module _ (engine : Engine) where
  -- What a call does is a step of the catalogue, after which the connection is settled.
  abbrev pub Serves : Database → Call → Reply × Database → Type 0
  Serves db c r = Step (catalogue db) c r.0 (catalogue r.1) × IsSettled r.1

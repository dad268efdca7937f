-- ===== src/Db/Upserts.antt =====
-- `InsertProducts` of src/db/DBManager.cpp against a description of the table by keys: the last of the
-- products with a name and a dimension wins.
pub mod Filling
use mathlib.Core.Option
use recipes_core.Prelude.{
  Text, ℕ, ◌≡◌, refl, sym, ap, ◌∙◌, subst, Bool, true, false, Bool-cases, Option, none, some, inl,
  inr, List, [], ◌∷◌, ◌++◌, All, any, eq_text, eq_text_iff, eq_text-eq, &&-eq_true, ==_iff,
  if_cases, ◌==◌, ◌&&◌, arith, if◌then◌else◌,
}
use recipes_core.Kitchen.{Product}
use recipes_core.Sql
use recipes_core.Sql.{ProductRow, Tables, Engine, Statement}
use recipes_core.Sql.Statements
use recipes_core.Sql.Statements.{ProductValues, row_of, overwrite, has_key, negative, update_rows}
use recipes_core.Db.Connection.{
  Db, Database, returned, Outcome, ◌>>=◌, continue, transaction, committed, apply_effect, Effect,
  execute,
}
use recipes_core.Db.Products.{
  bind_product, insert_product, insert_products_loop, insert_products, inserted, new_product_id,
}
use recipes_core.Repository.Creation.{execute-returns}

abbrev pub values_of : ProductRow → ProductValues
values_of row = record {
  name = row.name;
  dimension = row.dimension;
  amount_base = row.amount_base;
  manufacture_date = row.manufacture_date;
  expiration_date = row.expiration_date;
}

-- The values of the row with a name and a dimension.
abbrev pub values_at : Text → ℕ → List ProductRow → Option ProductValues
values_at name dimension [] = none
values_at name dimension (row ∷ rows) =
    if has_key name dimension row then some (values_of row) else values_at name dimension rows

abbrev pub is_for : Text → ℕ → ProductValues → Bool
is_for name dimension v = eq_text v.name name && (v.dimension == dimension)

-- The last of some products with a name and a dimension, or what was there before.
unfoldable pub last_or : Option ProductValues → Text → ℕ → List Product → Option ProductValues
unfolding bind_product
last_or before name dimension [] = before
last_or before name dimension (p ∷ ps) =
    let v = bind_product p in
    last_or (if is_for name dimension v then some v else before) name dimension ps

module _ (v : ProductValues) where
  values_at-updated :
      (rows : List ProductRow)
      → any (has_key v.name v.dimension) rows ≡ true
      → values_at v.name v.dimension (update_rows (has_key v.name v.dimension) (overwrite v) rows)
        ≡ some v
  unfolding update_rows
  values_at-updated [] e = ground arith
  values_at-updated (row ∷ rows) e = elim (Bool-cases (has_key v.name v.dimension row)) [
    | inl here ↦
        let same : (eq_text v.name v.name && (v.dimension == v.dimension)) ≡ true =
          ground (arith, eq_text_iff v.name v.name) in
        rw (here, same) refl
    | inr other ↦ rw (other, other) (values_at-updated rows (ground arith))
  ]

  values_at-appended :
      (id : ℕ) (rows : List ProductRow)
      → any (has_key v.name v.dimension) rows ≡ false
      → values_at v.name v.dimension (rows ++ row_of id v ∷ []) ≡ some v
  values_at-appended id [] e =
      let same : (eq_text v.name v.name && (v.dimension == v.dimension)) ≡ true =
        ground (arith, eq_text_iff v.name v.name) in
      rw same refl
  values_at-appended id (row ∷ rows) e =
      let other : has_key v.name v.dimension row ≡ false = ground arith in
      rw other (values_at-appended id rows (ground arith))

  module _ (name : Text) (dimension : ℕ) (other : is_for name dimension v ≡ false) where
    values_at-updated_beside :
        (rows : List ProductRow)
        → values_at name dimension (update_rows (has_key v.name v.dimension) (overwrite v) rows)
          ≡ values_at name dimension rows
    unfolding update_rows
    values_at-updated_beside [] = refl
    values_at-updated_beside (row ∷ rows) = elim (Bool-cases (has_key v.name v.dimension row)) [
      | inl here ↦
          let apart : has_key name dimension row ≡ false =
            ground (arith, eq_text-eq row.name v.name) in
          rw (here, other, apart) (values_at-updated_beside rows)
      | inr there ↦ rw there (
          ap (λ found. if has_key name dimension row then some (values_of row) else found)
            (values_at-updated_beside rows))
    ]

    values_at-appended_beside :
        (id : ℕ) (rows : List ProductRow)
        → values_at name dimension (rows ++ row_of id v ∷ []) ≡ values_at name dimension rows
    values_at-appended_beside id [] = rw other refl
    values_at-appended_beside id (row ∷ rows) =
        ap (λ found. if has_key name dimension row then some (values_of row) else found)
          (values_at-appended_beside id rows)

-- The tables after an upsert that the CHECK accepts.
abbrev pub upserted : ℕ → ProductValues → Tables → Tables
upserted id v t =
    if any (has_key v.name v.dimension) t.products
    then record t {
      products = update_rows (has_key v.name v.dimension) (overwrite v) t.products;
      products_seq = id;
    }
    else record t { products = t.products ++ row_of id v ∷ []; products_seq = id }

pub upserted-some :
    (id : ℕ) (v : ProductValues) (t : Tables)
    → negative v.amount_base ≡ false
    → Statements.insert_product id v t ≡ some (upserted id v t)
unfolding Statements.insert_product
upserted-some id v t amount = elim (Bool-cases (any (has_key v.name v.dimension) t.products)) [
  | inl e ↦ rw (amount, e) refl
  | inr e ↦ rw (amount, e) refl
]

at_key :
    (v : ProductValues) (name : Text) (dimension : ℕ) (P : Text → ℕ → Type 0)
    → is_for name dimension v ≡ true
    → P v.name v.dimension
    → P name dimension
at_key v name dimension P e h =
    let both = &&-eq_true (eq_text v.name name) (v.dimension == dimension) e in
    subst (λ n. P n dimension) (eq_text-eq v.name name both.0)
      (subst (P v.name) ((==_iff v.dimension dimension).0 both.1) h)

pub values_at-upserted :
    (id : ℕ) (v : ProductValues) (t : Tables) (name : Text) (dimension : ℕ)
    → values_at name dimension (upserted id v t).products
      ≡ (if is_for name dimension v then some v else values_at name dimension t.products)
values_at-upserted id v t name dimension =
    elim (Bool-cases (any (has_key v.name v.dimension) t.products)) [
      | inl e ↦ elim (Bool-cases (is_for name dimension v)) [
        | inl mine ↦
            rw (e, mine)
              (at_key v name dimension
                (λ n d.
                  values_at n d (update_rows (has_key v.name v.dimension) (overwrite v) t.products)
                  ≡ some v)
                mine (values_at-updated v t.products e))
        | inr other ↦ rw (e, other) (values_at-updated_beside v name dimension other t.products)
      ]
      | inr e ↦ elim (Bool-cases (is_for name dimension v)) [
        | inl mine ↦
            rw (e, mine)
              (at_key v name dimension
                (λ n d. values_at n d (t.products ++ row_of id v ∷ []) ≡ some v) mine
                (values_at-appended v id t.products e))
        | inr other ↦ rw (e, other) (values_at-appended_beside v name dimension other id t.products)
      ]
    ]

-- The recipes and their ingredients are as before.
abbrev pub SameRecipes : Tables → Tables → Type 0
SameRecipes t u = (u.recipes ≡ t.recipes) × (u.recipe_ingredients ≡ t.recipe_ingredients)

-- The tables after products were inserted one after the other.
pub record IsFilled (ps : List Product) (t u : Tables) : Type 0 where
  pub values :
      (name : Text) (dimension : ℕ)
      → values_at name dimension u.products
        ≡ last_or (values_at name dimension t.products) name dimension ps
  pub recipes : SameRecipes t u

pub upserted-SameRecipes :
    (id : ℕ) (v : ProductValues) (t : Tables) → SameRecipes t (upserted id v t)
upserted-SameRecipes id v t = elim (Bool-cases (any (has_key v.name v.dimension) t.products)) [
  | inl e ↦ rw e (refl, refl)
  | inr e ↦ rw e (refl, refl)
]

-- ===== src/Sql/Statements.antt =====
-- The statements of include/types/SQL/Types.hpp, one function each. `none` is a constraint that the
-- statement would break: it then changes nothing.
use recipes_core.Prelude.{
  ℕ, ◌+◌, ℤ, pos, ltb_ℤ, Text, eq_text, Bool, true, false, not, ◌&&◌, ◌||◌, Option, none, some,
  List, [], ◌∷◌, ◌++◌, any, keep, map, ltb, leb, ◌==◌, if◌then◌else◌,
}
use recipes_core.Sql.{ProductRow, RecipeRow, IngredientRow, JoinedRow, Tables}

-- ORDER BY on TEXT: the collation BINARY compares bytes.
unfoldable pub lt_text : Text → Text → Bool
lt_text s [] = false
lt_text [] (b ∷ t) = true
lt_text (a ∷ s) (b ∷ t) = ltb a b || ((a == b) && lt_text s t)

abbrev pub has_key : Text → ℕ → ProductRow → Bool
has_key name dimension row = eq_text row.name name && (row.dimension == dimension)

abbrev pub has_id : ℕ → ProductRow → Bool
has_id id row = row.id == id

-- The bound values of the product statements.
pub record ProductValues : Type 0 where
  pub name : Text
  pub dimension : ℕ
  pub amount_base : ℤ
  pub manufacture_date : Option Text
  pub expiration_date : Option Text

abbrev pub row_of : ℕ → ProductValues → ProductRow
row_of id v = record {
  id = id;
  name = v.name;
  dimension = v.dimension;
  amount_base = v.amount_base;
  manufacture_date = v.manufacture_date;
  expiration_date = v.expiration_date;
}

-- CHECK (amount_base >= 0)
abbrev pub negative : ℤ → Bool
negative amount = ltb_ℤ amount (pos 0)

-- Rows that pass a test are replaced.
unfoldable pub update_rows {ℓ} : {A : Type ℓ} → (A → Bool) → (A → A) → List A → List A
update_rows test change [] = []
update_rows test change (row ∷ rows) =
    (if test row then change row else row) ∷ update_rows test change rows

-- `sqlite3_changes` of a deletion or an update: the rows that pass its WHERE.
abbrev pub count {ℓ} : {A : Type ℓ} → (A → Bool) → List A → ℕ
count test [] = 0
count test (row ∷ rows) = (if test row then 1 else 0) + count test rows

-- kCreateProduct; `id` is the new row id.
unfoldable pub create_product : ℕ → ProductValues → Tables → Option Tables
create_product id v t =
    if negative v.amount_base || any (has_key v.name v.dimension) t.products
    then none
    else some (record t { products = t.products ++ row_of id v ∷ []; products_seq = id })

-- `DO UPDATE SET`: all but the key and the id.
abbrev pub overwrite : ProductValues → ProductRow → ProductRow
overwrite v row = row_of row.id v

-- kInsertProduct: an upsert on (name, dimension). AUTOINCREMENT counts the row id that was drawn also
-- where the key is there.
unfoldable pub insert_product : ℕ → ProductValues → Tables → Option Tables
unfolding update_rows
insert_product id v t =
    if negative v.amount_base
    then none
    else if any (has_key v.name v.dimension) t.products
    then some (record t {
      products = update_rows (has_key v.name v.dimension) (overwrite v) t.products;
      products_seq = id;
    })
    else some (record t { products = t.products ++ row_of id v ∷ []; products_seq = id })

-- kSelectProductById
unfoldable pub select_product_by_id : ℕ → List ProductRow → Option ProductRow
select_product_by_id id [] = none
select_product_by_id id (row ∷ rows) =
    if has_id id row then some row else select_product_by_id id rows

-- kUpdateProductById: with no row of that id there is nothing to check.
unfoldable pub update_product_by_id : ℕ → ProductValues → Tables → Option Tables
unfolding update_rows
update_product_by_id id v t =
    if not (any (has_id id) t.products)
    then some t
    else if negative v.amount_base
        || any (λ row. not (has_id id row) && has_key v.name v.dimension row) t.products
    then none
    else some (record t { products = update_rows (has_id id) (overwrite v) t.products })

-- kDeleteProductById
unfoldable pub delete_product_by_id : ℕ → Tables → Tables
delete_product_by_id id t = record t { products = keep (λ row. not (has_id id row)) t.products }

abbrev pub named : Text → RecipeRow → Bool
named name row = eq_text row.name name

abbrev pub is_recipe : ℕ → RecipeRow → Bool
is_recipe id row = row.id == id

abbrev pub new_recipe : ℕ → Text → Tables → Tables
new_recipe id name t = record t {
  recipes = t.recipes ++ record { id = id; name = name } ∷ [];
  recipes_seq = id;
}

-- kCreateRecipe
unfoldable pub create_recipe : ℕ → Text → Tables → Option Tables
create_recipe id name t = if any (named name) t.recipes then none else some (new_recipe id name t)

-- kInsertRecipeIfAbsent: INSERT OR IGNORE, where AUTOINCREMENT counts the row id that was drawn
-- also for an ignored row.
unfoldable pub insert_recipe_if_absent : ℕ → Text → Tables → Tables
insert_recipe_if_absent id name t =
    if any (named name) t.recipes then record t { recipes_seq = id } else new_recipe id name t

-- kSelectRecipeIdByName
unfoldable pub select_recipe_id_by_name : Text → List RecipeRow → Option ℕ
select_recipe_id_by_name name [] = none
select_recipe_id_by_name name (row ∷ rows) =
    if named name row then some row.id else select_recipe_id_by_name name rows

abbrev pub part_of : ℕ → IngredientRow → Bool
part_of recipe_id row = row.recipe_id == recipe_id

-- kDeleteRecipeIngredientsByRecipeId
unfoldable pub delete_recipe_ingredients_by_recipe_id : ℕ → Tables → Tables
delete_recipe_ingredients_by_recipe_id recipe_id t = record t {
  recipe_ingredients = keep (λ row. not (part_of recipe_id row)) t.recipe_ingredients;
}

abbrev pub same_part : IngredientRow → IngredientRow → Bool
same_part v row =
    part_of v.recipe_id row
    && eq_text row.product_name v.product_name
    && (row.dimension == v.dimension)

-- kInsertRecipeIngredient: an upsert on the primary key, with the CHECK and the foreign key.
unfoldable pub insert_recipe_ingredient : IngredientRow → Tables → Option Tables
unfolding update_rows
insert_recipe_ingredient v t =
    if negative v.required_amount_base || not (any (is_recipe v.recipe_id) t.recipes)
    then none
    else if any (same_part v) t.recipe_ingredients
    then some
        (record t { recipe_ingredients = update_rows (same_part v) (λ _. v) t.recipe_ingredients })
    else some (record t { recipe_ingredients = t.recipe_ingredients ++ v ∷ [] })

-- ORDER BY product_name, dimension
unfoldable pub ingredient_before : IngredientRow → IngredientRow → Bool
unfolding lt_text
ingredient_before a b =
    lt_text a.product_name b.product_name
    || (eq_text a.product_name b.product_name && leb a.dimension b.dimension)

-- kUpdateRecipeNameById
unfoldable pub update_recipe_name_by_id : ℕ → Text → Tables → Option Tables
unfolding update_rows
update_recipe_name_by_id id name t =
    if any (λ row. not (is_recipe id row) && named name row) t.recipes
      && any (is_recipe id) t.recipes
    then none
    else some (record t {
      recipes = update_rows (is_recipe id) (λ row. record { id = row.id; name = name }) t.recipes;
    })

-- kDeleteRecipeById, with ON DELETE CASCADE.
unfoldable pub delete_recipe_by_id : ℕ → Tables → Tables
delete_recipe_by_id id t = record t {
  recipes = keep (λ row. not (is_recipe id row)) t.recipes;
  recipe_ingredients = keep (λ row. not (part_of id row)) t.recipe_ingredients;
}

-- recipes r LEFT JOIN recipe_ingredients ri ON ri.recipe_id = r.id, at one recipe.
abbrev pub joined_with : RecipeRow → List IngredientRow → List JoinedRow
joined_with r [] = record { id = r.id; name = r.name; ingredient = none } ∷ []
joined_with r (i ∷ is) =
    map (λ ri. record { id = r.id; name = r.name; ingredient = some ri }) (i ∷ is)

unfoldable pub left_join : List RecipeRow → List IngredientRow → List JoinedRow
left_join [] parts = []
left_join (r ∷ rs) parts = joined_with r (keep (part_of r.id) parts) ++ left_join rs parts

-- ORDER BY ri.product_name, ri.dimension: NULL comes first.
abbrev pub part_before : Option IngredientRow → Option IngredientRow → Bool
unfolding ingredient_before
part_before none b = true
part_before (some a) none = false
part_before (some a) (some b) = ingredient_before a b

unfoldable pub by_part : JoinedRow → JoinedRow → Bool
unfolding ingredient_before
by_part a b = part_before a.ingredient b.ingredient

-- ORDER BY r.name, ri.product_name, ri.dimension
unfoldable pub by_name : JoinedRow → JoinedRow → Bool
unfolding ingredient_before
by_name a b =
    lt_text a.name b.name || (eq_text a.name b.name && part_before a.ingredient b.ingredient)

-- ORDER BY amount_base
unfoldable pub by_amount : ProductRow → ProductRow → Bool
by_amount a b = not (ltb_ℤ b.amount_base a.amount_base)

-- The `p` that the LEFT JOIN finds for an ingredient: UNIQUE(name, dimension) leaves one at most.
-- `p.id IS NULL OR p.amount_base < ri2.required_amount_base`
unfoldable pub lacks : List ProductRow → IngredientRow → Bool
lacks products ri =
    not (any (has_key ri.product_name ri.dimension) products)
    || any
        (λ p. has_key ri.product_name ri.dimension p && ltb_ℤ p.amount_base ri.required_amount_base)
        products

-- WHERE NOT EXISTS (…)
unfoldable pub is_cookable : Tables → RecipeRow → Bool
unfolding lacks
is_cookable t r = not (any (λ ri. part_of r.id ri && lacks t.products ri) t.recipe_ingredients)

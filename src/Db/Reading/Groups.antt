-- ===== src/Db/Reading/Groups.antt =====
-- `DBManager::FetchRecipes` of src/db/DBManager.cpp on rows that stand recipe by recipe, as its
-- queries order them.
use mathlib.Core.List.{append-nil, append_assoc}
use recipes_core.Prelude.{
  ℕ, ℤ, pos, negsuc, eq_ℤ, ◌≡◌, ◌∙◌, ap, refl, Bool, true, false, some, List, [], ◌∷◌, ◌++◌, map,
  arith, if◌then◌else◌,
}
use recipes_core.Kitchen.{Product, Recipe, add_ingredient}
use recipes_core.Sql.{RecipeRow, IngredientRow, JoinedRow}
use recipes_core.Sql.Statements.{joined_with}
use recipes_core.Db.Reading.{read_ingredient, add_to_back, started, fetch_loop, fetch_recipes}

-- A recipe's row with the rows of its ingredients.
pub record Group : Type 0 where
  pub recipe : RecipeRow
  pub parts : List IngredientRow

abbrev pub rows_of : List Group → List JoinedRow
rows_of [] = []
rows_of (g ∷ gs) = joined_with g.recipe g.parts ++ rows_of gs

abbrev pub recipe_in : Group → Recipe
recipe_in g = record {
  id = some g.recipe.id;
  name = g.recipe.name;
  ingredients = map read_ingredient g.parts;
}

-- Neighbours are different recipes; the first is not `current_id`.
abbrev pub AreApart : ℤ → List Group → Type 0
AreApart current_id [] = Unit {0}
AreApart current_id (g ∷ gs) =
    (eq_ℤ (pos g.recipe.id) current_id ≡ false) × AreApart (pos g.recipe.id) gs

add_to_back_lem :
    (p : Product) (recipes : List Recipe) (r : Recipe)
    → add_to_back p (recipes ++ r ∷ []) ≡ recipes ++ add_ingredient r p ∷ []
unfolding add_to_back add_ingredient
add_to_back_lem p [] r = refl
add_to_back_lem p (q ∷ []) r = refl
add_to_back_lem p (q ∷ s ∷ recipes) r = ap (λ l. q ∷ l) (add_to_back_lem p (s ∷ recipes) r)

eq_ℤ_refl : (n : ℕ) → eq_ℤ (pos n) (pos n) ≡ true
eq_ℤ_refl n = ground arith

abbrev row_with : RecipeRow → IngredientRow → JoinedRow
row_with r part = record { id = r.id; name = r.name; ingredient = some part }

abbrev recipe_with : RecipeRow → List Product → Recipe
recipe_with r ingredients = record { id = some r.id; name = r.name; ingredients = ingredients }

-- The test of the current id, decided.
one_row :
    (test result : Bool) (rows : List JoinedRow) (id : ℤ) (p : Product) (same new : List Recipe)
    → test ≡ result
    → fetch_loop rows id (add_to_back p (if test then same else new))
      ≡ fetch_loop rows id (add_to_back p (if result then same else new))
one_row test result rows id p same new e =
    ap (λ b. fetch_loop rows id (add_to_back p (if b then same else new))) e

-- The rows of a recipe that was started go to its end.
fetch_parts :
    (r : RecipeRow) (parts : List IngredientRow) (rest : List JoinedRow) (recipes : List Recipe)
    (taken : List Product)
    → fetch_loop (map (row_with r) parts ++ rest) (pos r.id) (recipes ++ recipe_with r taken ∷ [])
      ≡ fetch_loop rest
          (pos r.id)
          (recipes ++ recipe_with r (taken ++ map read_ingredient parts) ∷ [])
unfolding fetch_loop add_ingredient
fetch_parts r [] rest recipes taken = rw (append-nil taken) refl
fetch_parts r (part ∷ parts) rest recipes taken =
    let p = read_ingredient part in
    let rows = map (row_with r) parts ++ rest in
    one_row (eq_ℤ (pos r.id) (pos r.id)) true rows (pos r.id) p
      (recipes ++ recipe_with r taken ∷ [])
      (started (row_with r part) (recipes ++ recipe_with r taken ∷ [])) (eq_ℤ_refl r.id)
    ∙ ap (fetch_loop rows (pos r.id)) (add_to_back_lem p recipes (recipe_with r taken))
    ∙ fetch_parts r parts rest recipes (taken ++ p ∷ [])
    ∙ ap (λ l. fetch_loop rest (pos r.id) (recipes ++ recipe_with r l ∷ []))
        (append_assoc taken (p ∷ []) (map read_ingredient parts))

-- The rows of a recipe that is not the current one add it, with all its ingredients.
fetch_group :
    (current_id : ℤ) (g : Group) (rest : List JoinedRow) (recipes : List Recipe)
    → eq_ℤ (pos g.recipe.id) current_id ≡ false
    → fetch_loop (joined_with g.recipe g.parts ++ rest) current_id recipes
      ≡ fetch_loop rest (pos g.recipe.id) (recipes ++ recipe_in g ∷ [])
unfolding fetch_loop add_ingredient
fetch_group current_id g rest recipes apart = by_parts g.parts
  where
    by_parts :
        (parts : List IngredientRow)
        → fetch_loop (joined_with g.recipe parts ++ rest) current_id recipes
          ≡ fetch_loop rest
              (pos g.recipe.id)
              (recipes ++ recipe_with g.recipe (map read_ingredient parts) ∷ [])
    by_parts [] = rw apart refl
    by_parts (part ∷ parts) =
        let p = read_ingredient part in
        let r = g.recipe in
        let rows = map (row_with r) parts ++ rest in
        one_row (eq_ℤ (pos r.id) current_id) false rows (pos r.id) p recipes
          (recipes ++ recipe_with r [] ∷ []) apart
        ∙ ap (fetch_loop rows (pos r.id)) (add_to_back_lem p recipes (recipe_with r []))
        ∙ fetch_parts r parts rest recipes (p ∷ [])

fetch_groups :
    (current_id : ℤ) (gs : List Group) (recipes : List Recipe)
    → AreApart current_id gs
    → fetch_loop (rows_of gs) current_id recipes ≡ recipes ++ map recipe_in gs
fetch_groups current_id [] recipes apart = unfold fetch_loop in rw (append-nil recipes) refl
fetch_groups current_id (g ∷ gs) recipes apart =
    fetch_group current_id g (rows_of gs) recipes apart.0
    ∙ fetch_groups (pos g.recipe.id) gs (recipes ++ recipe_in g ∷ []) apart.1
    ∙ append_assoc recipes (recipe_in g ∷ []) (map recipe_in gs)

-- Where the rows of a recipe stand together and neighbouring recipes differ, the loop puts together
-- exactly the recipes of the join, in their order, each with all its ingredients in their order; a
-- recipe without ingredients is among them.
pub fetch_recipes-rows_of :
    (gs : List Group) → AreApart (negsuc 0) gs → fetch_recipes (rows_of gs) ≡ map recipe_in gs
unfolding fetch_recipes
fetch_recipes-rows_of gs apart = fetch_groups (negsuc 0) gs [] apart

-- ===== src/Repository/RecipeCreation/Rows.antt =====
-- The rows of a new recipe among those of older ones, for src/db/DBManager.cpp.
use recipes_core.Prelude.{
  ℕ, ◌<◌, ◌≤◌, ◌≡◌, refl, true, false, not, List, [], ◌∷◌, ◌++◌, All, any, keep, map, ◌==◌, arith,
}
use recipes_core.Kitchen.{Product}
use recipes_core.Sql.{RecipeRow, IngredientRow}
use recipes_core.Sql.Statements.{is_recipe, part_of, same_part}
use recipes_core.Db.Recipes.{bind_ingredient}

module _ (seq id : ℕ) (fresh : seq < id) where
  abbrev pub OlderParts : List IngredientRow → Type 0
  OlderParts parts = All (λ i. i.recipe_id ≤ seq) parts

  pub keep-OlderParts :
      (parts : List IngredientRow) → OlderParts parts → keep (λ i. not (part_of id i)) parts ≡ parts
  keep-OlderParts [] h = refl
  keep-OlderParts (i ∷ parts) h =
      let rest = keep-OlderParts parts h.1 in
      let other : part_of id i ≡ false = ground (arith, h.0) in rw (other, rest) refl

  pub any-OlderParts :
      (p : Product) (parts : List IngredientRow)
      → OlderParts parts
      → any (same_part (bind_ingredient id p)) parts ≡ false
  unfolding bind_ingredient
  any-OlderParts p [] h = refl
  any-OlderParts p (i ∷ parts) h =
      let other : part_of id i ≡ false = ground (arith, h.0) in
      rw (other, any-OlderParts p parts h.1) refl

  own_parts :
      (is : List Product)
      → keep (part_of id) (map (bind_ingredient id) is) ≡ map (bind_ingredient id) is
  unfolding bind_ingredient
  own_parts [] = refl
  own_parts (p ∷ ps) = let same : (id == id) ≡ true = ground arith in rw (same, own_parts ps) refl

  pub keep-own_parts :
      (is : List Product) (parts : List IngredientRow)
      → OlderParts parts
      → keep (part_of id) (parts ++ map (bind_ingredient id) is) ≡ map (bind_ingredient id) is
  keep-own_parts is [] h = own_parts is
  keep-own_parts is (i ∷ parts) h =
      let other : part_of id i ≡ false = ground (arith, h.0) in
      rw (other, keep-own_parts is parts h.1) refl

  pub keep-new_recipe :
      (row : RecipeRow) (rows : List RecipeRow)
      → row.id ≡ id
      → All (λ r. r.id ≤ seq) rows
      → keep (is_recipe id) (rows ++ row ∷ []) ≡ row ∷ []
  keep-new_recipe row [] e h = let same : is_recipe id row ≡ true = ground arith in rw same refl
  keep-new_recipe row (r ∷ rows) e h =
      let other : is_recipe id r ≡ false = ground (arith, h.0) in
      rw (other, keep-new_recipe row rows e h.1) refl

pub any-new_recipe :
    (row : RecipeRow) (rows : List RecipeRow) → any (is_recipe row.id) (rows ++ row ∷ []) ≡ true
any-new_recipe row [] = ground arith
any-new_recipe row (r ∷ rows) = let found = any-new_recipe row rows in ground arith

-- ===== src/Sql/Consistency/Parts.antt =====
-- The statements on the table `recipe_ingredients` of include/types/SQL/Types.hpp keep all
-- constraints.
use recipes_core.Prelude.{
  ℕ, ◌≡◌, refl, sym, Bool, true, false, not, ◌&&◌, ◌||◌, List, [], ◌∷◌, ◌++◌, any, All-append,
  All-map, All-keep, Pairs-append_one, Pairs-keep, any-All, if_cases, eq_text, eq_text-eq, ==_iff,
  &&-eq_true, ◌==◌, arith,
}
use recipes_core.Sql.{RecipeRow, IngredientRow, Tables}
use recipes_core.Sql.Statements.{
  is_recipe, part_of, same_part, negative, update_rows, delete_recipe_ingredients_by_recipe_id,
  insert_recipe_ingredient,
}
use recipes_core.Sql.Consistency.{
  DifferentParts, AreParts, IsConsistent, KeepsConsistent, changed, All-update_rows,
  Pairs-update_rows, DifferentParts-sym,
}

pub delete_recipe_ingredients_by_recipe_id-IsConsistent :
    (id : ℕ) (t : Tables)
    → IsConsistent t
    → IsConsistent (delete_recipe_ingredients_by_recipe_id id t)
unfolding delete_recipe_ingredients_by_recipe_id
delete_recipe_ingredients_by_recipe_id-IsConsistent id t h =
    let kept : IngredientRow → Bool = λ row. not (part_of id row) in
    record {
      products = h.products;
      recipes = h.recipes;
      parts = record {
        keys = Pairs-keep kept DifferentParts t.recipe_ingredients h.parts.keys;
        required = All-keep kept _ t.recipe_ingredients h.parts.required;
        owned = All-keep kept _ t.recipe_ingredients h.parts.owned;
      };
    }

abbrev HasSamePart : IngredientRow → IngredientRow → Type 0
HasSamePart a b =
    (a.recipe_id ≡ b.recipe_id) × (a.product_name ≡ b.product_name) × (a.dimension ≡ b.dimension)

same_parts-DifferentParts :
    (a a' b b' : IngredientRow)
    → HasSamePart a' a
    → HasSamePart b' b
    → DifferentParts a b
    → DifferentParts a' b'
same_parts-DifferentParts a a' b b' ha hb d = rw (ha.0, ha.1, ha.2, hb.0, hb.1, hb.2) d

same_part-HasSamePart : (v a : IngredientRow) → same_part v a ≡ true → HasSamePart v a
same_part-HasSamePart v a e =
    let outer =
      &&-eq_true (part_of v.recipe_id a && eq_text a.product_name v.product_name)
        (a.dimension == v.dimension) e in
    let inner =
      &&-eq_true (part_of v.recipe_id a) (eq_text a.product_name v.product_name) outer.0 in
    (
      sym ((==_iff a.recipe_id v.recipe_id).0 inner.0),
      sym (eq_text-eq a.product_name v.product_name inner.1),
      sym ((==_iff a.dimension v.dimension).0 outer.1),
    )

-- The row v in the place of the rows with its key.
module _ (v : IngredientRow) where
  abbrev replaced : IngredientRow → IngredientRow
  replaced i = changed (same_part v) (λ _. v) i

  replaced-HasSamePart : (i : IngredientRow) → HasSamePart (replaced i) i
  replaced-HasSamePart i =
      if_cases (λ (r : IngredientRow). HasSamePart r i) (same_part v i) _ _
        (same_part-HasSamePart v i) λ _. (refl, refl, refl)

  replaced-AreParts :
      (rows : List IngredientRow) (recipes : List RecipeRow)
      → negative v.required_amount_base ≡ false
      → any (is_recipe v.recipe_id) recipes ≡ true
      → AreParts rows recipes
      → AreParts (update_rows (same_part v) (λ _. v) rows) recipes
  replaced-AreParts rows recipes amount owner h = record {
    keys =
        Pairs-update_rows (same_part v) (λ _. v) DifferentParts DifferentParts rows
          (λ a b.
            same_parts-DifferentParts a (replaced a) b (replaced b) (replaced-HasSamePart a)
              (replaced-HasSamePart b))
          h.keys;
    required =
        All-update_rows (same_part v) (λ _. v) (λ i. negative i.required_amount_base ≡ false)
          (λ i. negative i.required_amount_base ≡ false) rows
          (λ i k.
            if_cases (λ (r : IngredientRow). negative r.required_amount_base ≡ false)
              (same_part v i) _ _ (λ _. amount) (λ _. k))
          h.required;
    owned =
        All-update_rows (same_part v) (λ _. v) (λ i. any (is_recipe i.recipe_id) recipes ≡ true)
          (λ i. any (is_recipe i.recipe_id) recipes ≡ true) rows
          (λ i k.
            if_cases (λ (r : IngredientRow). any (is_recipe r.recipe_id) recipes ≡ true)
              (same_part v i) _ _ (λ _. owner) (λ _. k))
          h.owned;
  }

  added-AreParts :
      (rows : List IngredientRow) (recipes : List RecipeRow)
      → negative v.required_amount_base ≡ false
      → any (is_recipe v.recipe_id) recipes ≡ true
      → any (same_part v) rows ≡ false
      → AreParts rows recipes
      → AreParts (rows ++ v ∷ []) recipes
  added-AreParts rows recipes amount owner free h = record {
    keys =
        Pairs-append_one DifferentParts rows v
          (All-map (λ i. same_part v i ≡ false) _ rows (λ i. DifferentParts-sym v i)
            (any-All (same_part v) rows free))
          h.keys;
    required = All-append _ rows (v ∷ []) h.required (amount, tt);
    owned = All-append _ rows (v ∷ []) h.owned (owner, tt);
  }

  with_parts :
      (t : Tables) (rows : List IngredientRow)
      → IsConsistent t
      → AreParts rows t.recipes
      → IsConsistent (record t { recipe_ingredients = rows })
  with_parts t rows h parts = record { products = h.products; recipes = h.recipes; parts = parts }

  pub insert_recipe_ingredient-KeepsConsistent :
      (t : Tables) → IsConsistent t → KeepsConsistent (insert_recipe_ingredient v t)
  unfolding insert_recipe_ingredient
  insert_recipe_ingredient-KeepsConsistent t h =
      if_cases KeepsConsistent
        (negative v.required_amount_base || not (any (is_recipe v.recipe_id) t.recipes)) _ _
        (λ _. tt)
        λ ok.
          if_cases KeepsConsistent (any (same_part v) t.recipe_ingredients) _ _
            (λ _. with_parts t _ h (
              replaced-AreParts t.recipe_ingredients t.recipes (ground arith) (ground arith)
                h.parts))
            λ free. with_parts t _ h (
              added-AreParts t.recipe_ingredients t.recipes (ground arith) (ground arith) free
                h.parts)

-- ===== src/Kitchen/Recipes.antt =====
-- The methods of `types::Recipe` in include/types/kitchen/Types.hpp that change it.
use mathlib.Core.List.{append-nil, append_assoc}
use recipes_core.Prelude.{ℕ, ◌≡◌, ◌∙◌, sym, ap, Text, some, List, [], ◌∷◌, ◌++◌}
use recipes_core.Kitchen.{Product, Recipe, add_ingredient}

unfoldable set_id : ℕ → Recipe → Recipe
set_id id recipe = record recipe { id = some id }

unfoldable set_name : Text → Recipe → Recipe
set_name name recipe = record recipe { name = name }

-- Both overloads.
unfoldable add_ingredients : Recipe → List Product → Recipe
add_ingredients recipe ingredients = record recipe {
  ingredients = recipe.ingredients ++ ingredients;
}

unfoldable add_each : Recipe → List Product → Recipe
add_each recipe [] = recipe
add_each recipe (p ∷ ps) = add_each (add_ingredient recipe p) ps

-- Ingredients that are added together are those that are added one by one.
add_ingredients-add_each :
    (recipe : Recipe) (ps : List Product) → add_ingredients recipe ps ≡ add_each recipe ps
unfolding add_ingredients add_each add_ingredient
add_ingredients-add_each recipe [] =
    ap (λ is. record recipe { ingredients = is }) (append-nil recipe.ingredients)
add_ingredients-add_each recipe (p ∷ ps) =
    ap (λ is. record recipe { ingredients = is })
      (sym (append_assoc recipe.ingredients (p ∷ []) ps))
    ∙ add_ingredients-add_each (add_ingredient recipe p) ps

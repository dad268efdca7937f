-- ===== src/Service/Effects.antt =====
-- What the methods of `app::RecipeService` do to the storage, over any repository.
use recipes_core.Prelude.{ℕ, ◌≡◌}
use recipes_core.Kitchen.{Product, Recipe}
use recipes_core.App.{Error, unexpected, RecipeRepository}
use recipes_core.Service.{
  validate_product, validate_recipe, create_product, update_product, create_recipe, update_recipe,
}

module _ {S : Type 0} (repository : RecipeRepository S) where
  -- A product or recipe that the validation refuses is not handed to the repository, whatever the
  -- repository does: the four methods that store one return that error and leave the state alone.
  refused_untouched :
      (product_id : ℕ) (p : Product) (r : Recipe) (e f : Error) (s : S)
      → validate_product p ≡ unexpected e
      → validate_recipe r ≡ unexpected f
      → (create_product repository p s ≡ (unexpected e, s))
        × (update_product repository product_id p s ≡ (unexpected e, s))
        × (create_recipe repository r s ≡ (unexpected f, s))
        × (update_recipe repository product_id r s ≡ (unexpected f, s))
  unfolding create_product update_product create_recipe update_recipe
  refused_untouched product_id p r e f s hp hr = (rw hp, rw hp, rw hr, rw hr)

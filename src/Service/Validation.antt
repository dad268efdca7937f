-- ===== src/Service/Validation.antt =====
-- What `ValidateProduct` and `ValidateRecipe` of src/app/RecipeService.cpp accept, against a
-- description that does not mention the tests.
use recipes_core.Prelude.{◌≡◌, ◌≢◌, refl, ◌↔◌, List, [], ◌∷◌, ◌++◌, All, ◌≤ℤ◌, pos, arith}
use recipes_core.Kitchen.{Product, Recipe}
use recipes_core.App.{Error, expected, unexpected, validation}
use recipes_core.Service.{validate_product, validate_ingredients, validate_recipe}

pub record IsAcceptable (product : Product) : Type 0 where
  pub named : product.name ≢ []
  pub stocked : pos 0 ≤ℤ product.amount

pub record IsAcceptableRecipe (recipe : Recipe) : Type 0 where
  pub named : recipe.name ≢ []
  pub made_of : All IsAcceptable recipe.ingredients

validate_product_sound : (p : Product) → validate_product p ≡ expected tt → IsAcceptable p
unfolding validate_product
validate_product_sound p h = record { named = λ e. ground arith; stocked = ground arith }

validate_product_complete : (p : Product) → IsAcceptable p → validate_product p ≡ expected tt
unfolding validate_product
validate_product_complete p h = ground (arith, h.named)

validate_ingredients_sound :
    (ps : List Product) → validate_ingredients ps ≡ expected tt → All IsAcceptable ps
unfolding validate_ingredients
validate_ingredients_sound [] h = tt
validate_ingredients_sound (p ∷ ps) h =
    ground (arith, validate_product_sound p, validate_ingredients_sound ps)

validate_ingredients_complete :
    (ps : List Product) → All IsAcceptable ps → validate_ingredients ps ≡ expected tt
unfolding validate_ingredients
validate_ingredients_complete [] h = refl
validate_ingredients_complete (p ∷ ps) h =
    rw (validate_product_complete p h.0, validate_ingredients)
      (validate_ingredients_complete ps h.1)

-- A product is accepted exactly when its name is not empty and its amount is not negative.
pub validate_product_iff : (p : Product) → (validate_product p ≡ expected tt) ↔ IsAcceptable p
validate_product_iff p = (validate_product_sound p, validate_product_complete p)

-- A recipe is accepted exactly when its name is not empty and each of its ingredients would be
-- accepted as a product.
pub validate_recipe_iff : (r : Recipe) → (validate_recipe r ≡ expected tt) ↔ IsAcceptableRecipe r
unfolding validate_recipe
validate_recipe_iff r = (sound, complete)
  where
    sound : validate_recipe r ≡ expected tt → IsAcceptableRecipe r
    sound h = record {
      named = λ e. ground arith;
      made_of = validate_ingredients_sound r.ingredients (ground arith);
    }

    complete : IsAcceptableRecipe r → validate_recipe r ≡ expected tt
    complete h = ground (arith, h.named, validate_ingredients_complete r.ingredients h.made_of)

-- Where all ingredients before one are acceptable and that one is refused, the ingredients are
-- refused with its error, whatever comes after it.
validate_ingredients-first :
    (ps : List Product) (bad : Product) (rest : List Product) (error : Error)
    → All IsAcceptable ps
    → validate_product bad ≡ unexpected error
    → validate_ingredients (ps ++ bad ∷ rest) ≡ unexpected error
unfolding validate_ingredients
validate_ingredients-first [] bad rest error h e = rw (e, validate_ingredients)
validate_ingredients-first (p ∷ ps) bad rest error h e =
    rw (validate_product_complete p h.0, validate_ingredients)
      (validate_ingredients-first ps bad rest error h.1 e)

validate_product-code :
    (p : Product) (error : Error) → validate_product p ≡ unexpected error → error.code ≡ validation
unfolding validate_product
validate_product-code p error h = ground arith

pub validate_ingredients-code :
    (ps : List Product) (error : Error)
    → validate_ingredients ps ≡ unexpected error
    → error.code ≡ validation
unfolding validate_ingredients
validate_ingredients-code [] error h = cc
validate_ingredients-code (p ∷ ps) error h =
    ground (arith, validate_product-code p error, validate_ingredients-code ps error)

-- Whatever is refused is refused with the code `Validation`.
pub validate_recipe-code :
    (r : Recipe) (error : Error) → validate_recipe r ≡ unexpected error → error.code ≡ validation
unfolding validate_recipe
validate_recipe-code r error h = ground (arith, validate_ingredients-code r.ingredients error)

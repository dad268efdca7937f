-- ===== src/Router/Bodies/Laws.antt =====
-- What `ParseProduct` and `ParseRecipe` of src/server/Router.cpp accept and build.
use recipes_core.Prelude.{
  subst, Text, ◌≡◌, refl, ◌↔◌, Option, none, some, Option-cases, inl, inr, List, [], ◌∷◌, arith, ap,
  sym,
}
use recipes_core.Kitchen.{Product, Recipe, new_product, no_dates}
use recipes_core.Kitchen.Dimensions.{Dimension, parse_dimension, get_dimension_in_string}
use recipes_core.Kitchen.Dimensions.Names.{IsNamed, parse_dimension_iff}
use recipes_core.Api.{
  ProductRequest, RecipeRequest, Result, value, error, Glaze, parse_product_request,
  parse_recipe_request,
}
use recipes_core.Router.Bodies.{
  Body, parsed, rejected, product_of, recipe_of, parse_ingredients, parse_product, parse_recipe,
}

-- The product that a request describes: no id, no dates, and a dimension with an enumerator.
pub record Describes (request : ProductRequest) (p : Product) : Type 0 where
  pub id : p.id ≡ none
  pub name : p.name ≡ request.name
  pub amount : p.amount ≡ request.amount
  pub dates : p.dates ≡ no_dates
  pub named : IsNamed p.dimension
  pub dimension : get_dimension_in_string p.dimension ≡ request.dimension

-- The ingredients of a recipe, one product for each request, in order.
abbrev pub AllDescribe : List ProductRequest → List Product → Type 0
AllDescribe [] [] = Unit
AllDescribe (request ∷ rest) (p ∷ ps) = Describes request p × AllDescribe rest ps
AllDescribe _ _ = ⊥

Describes-new :
    (request : ProductRequest) (d : Dimension)
    → parse_dimension request.dimension ≡ some d
    → Describes request (new_product request.name request.amount d)
Describes-new request d e =
    let names = (parse_dimension_iff request.dimension d).0 e in
    record {
      id = refl;
      name = refl;
      amount = refl;
      dates = refl;
      named = names.0;
      dimension = names.1;
    }

Describes-eq :
    (request : ProductRequest) (p : Product)
    → Describes request p
    → p ≡ new_product request.name request.amount p.dimension
Describes-eq request p h = ground (arith, h.id, h.name, h.amount, h.dates)

Describes-dimension :
    (request : ProductRequest) (p : Product)
    → Describes request p
    → parse_dimension request.dimension ≡ some p.dimension
Describes-dimension request p h =
    (parse_dimension_iff request.dimension p.dimension).1 (h.named, h.dimension)

product_of_sound :
    (request : ProductRequest) (p : Product) (o : Option Dimension)
    → parse_dimension request.dimension ≡ o
    → product_of request o ≡ parsed p
    → Describes request p
product_of_sound request p none e h = cc
product_of_sound request p (some d) e h = subst (Describes request) (cc) (Describes-new request d e)

product_of_complete :
    (request : ProductRequest) (p : Product)
    → Describes request p
    → product_of request (parse_dimension request.dimension) ≡ parsed p
product_of_complete request p h =
    rw (Describes-dimension request p h) (ap parsed (sym (Describes-eq request p h)))

parse_ingredients_sound :
    (requests : List ProductRequest) (ps : List Product)
    → parse_ingredients requests ≡ parsed ps
    → AllDescribe requests ps
unfolding parse_ingredients
parse_ingredients_sound [] [] h = tt
parse_ingredients_sound [] (p ∷ ps) h = ground arith
parse_ingredients_sound (request ∷ rest) [] h = ground arith
parse_ingredients_sound (request ∷ rest) (p ∷ ps) h =
    elim (Option-cases (parse_dimension request.dimension)) [
      | inl e ↦ ground arith
      | inr (d, e) ↦ (
        subst (Describes request) (ground arith) (Describes-new request d e),
        parse_ingredients_sound rest ps (ground arith),
      )
    ]

parse_ingredients_complete :
    (requests : List ProductRequest) (ps : List Product)
    → AllDescribe requests ps
    → parse_ingredients requests ≡ parsed ps
unfolding parse_ingredients
parse_ingredients_complete [] [] h = refl
parse_ingredients_complete [] (p ∷ ps) h = absurd h
parse_ingredients_complete (request ∷ rest) [] h = absurd h
parse_ingredients_complete (request ∷ rest) (p ∷ ps) h =
    rw
      (Describes-dimension request p h.0, parse_ingredients, parse_ingredients_complete rest ps h.1)
      (ap (λ q. parsed (q ∷ ps)) (sym (Describes-eq request p h.0)))

-- What `ParseRecipe` makes of a request.
abbrev pub DescribesRecipe : RecipeRequest → Recipe → Type 0
DescribesRecipe request r =
    (r.id ≡ none) × (r.name ≡ request.name) × AllDescribe request.ingredients r.ingredients

recipe_of_sound :
    (request : RecipeRequest) (r : Recipe) (b : Body (List Product))
    → parse_ingredients request.ingredients ≡ b
    → recipe_of request b ≡ parsed r
    → DescribesRecipe request r
recipe_of_sound request r (rejected status message) e h = cc
recipe_of_sound request r (parsed ps) e h =
    subst (DescribesRecipe request) (cc)
      (refl, refl, parse_ingredients_sound request.ingredients ps e)

recipe_of_complete :
    (request : RecipeRequest) (r : Recipe)
    → DescribesRecipe request r
    → recipe_of request (parse_ingredients request.ingredients) ≡ parsed r
recipe_of_complete request r h =
    rw (parse_ingredients_complete request.ingredients r.ingredients h.2) (ground arith)

module _ (glaze : Glaze) where
  -- Whatever is parsed is described by the request that was read.
  pub parsed-Describes :
      (body : Text) (p : Product)
      → parse_product glaze body ≡ parsed p
      → (request : ProductRequest) × Describes request p
  unfolding parse_product
  parsed-Describes body p h = go (parse_product_request glaze body) refl
    where
      go :
          (r : Result ProductRequest)
          → parse_product_request glaze body ≡ r
          → (request : ProductRequest) × Describes request p
      go (error message) e = cc
      go (value request) e =
          let built : product_of request (parse_dimension request.dimension) ≡ parsed p = cc in
          (request, product_of_sound request p (parse_dimension request.dimension) refl built)

  -- A body that is read as a request is taken for a product exactly when the product is the one that
  -- the request describes: its name, amount and dimension, no id, and no dates, whatever dates the
  -- request has.
  pub parse_product_iff :
      (body : Text) (request : ProductRequest) (p : Product)
      → parse_product_request glaze body ≡ value request
      → (parse_product glaze body ≡ parsed p) ↔ Describes request p
  unfolding parse_product
  parse_product_iff body request p e =
      rw (e, parse_product)
        (
          product_of_sound request p (parse_dimension request.dimension) refl,
          product_of_complete request p,
        )

  -- A body that is read as a recipe request is taken for a recipe exactly when the recipe has the
  -- request's name, no id, and for each ingredient of the request, in order, the product that it
  -- describes; one unknown dimension refuses it all.
  pub parse_recipe_iff :
      (body : Text) (request : RecipeRequest) (r : Recipe)
      → parse_recipe_request glaze body ≡ value request
      → (parse_recipe glaze body ≡ parsed r) ↔ DescribesRecipe request r
  unfolding parse_recipe
  parse_recipe_iff body request r e =
      rw (e, parse_recipe)
        (
          recipe_of_sound request r (parse_ingredients request.ingredients) refl,
          recipe_of_complete request r,
        )

-- ===== src/Router/Dispatch/Refusals.antt =====
-- Requests of src/server/Router.cpp that write, with a body that cannot be used.
use recipes_core.Prelude.{◌≡◌, ◌∙◌, ap, refl, false, Bool-cases, ◌⊎◌, inl, inr, some}
use recipes_core.App.{RecipeRepository, DatabaseExecutor}
use recipes_core.Api.{Glaze}
use recipes_core.Http.{get, post, put, delete_, other, Verb, Request, Response}
use recipes_core.Router.Responses.{is_json_content_type}
use recipes_core.Router.Bodies.{Body, parsed, rejected, parse_product, parse_recipe}
use recipes_core.Router.Handlers.{on_json_body, on_parsed}
use recipes_core.Router.Products.{create_product, update_product}
use recipes_core.Router.Recipes.{create_recipe, update_recipe}
use recipes_core.Router.Dispatch.{handle_async}
use recipes_core.Router.Dispatch.Routes.{Route, products, recipes, product, recipe, route_of}
use recipes_core.Router.Dispatch.Table.{table, handle_async-table}

abbrev pub IsRejected : {A : Type 0} → Body A → Type 0
IsRejected (parsed a) = ⊥
IsRejected (rejected status message) = Unit {0}

-- The content type is not JSON, or the body is neither a product nor a recipe.
abbrev pub IsUnusable : Glaze → Request → Type 0
IsUnusable glaze request =
    (is_json_content_type request ≡ false)
    ⊎ (IsRejected (parse_product glaze request.body) × IsRejected (parse_recipe glaze request.body))

abbrev pub Writes : Verb → Type 0
Writes post = Unit {0}
Writes put = Unit {0}
Writes _ = ⊥

module _ (glaze : Glaze) (request : Request) where
  on_parsed-untouched :
      {A W : Type 0} (body : Body A) (rest : A → W → Response × W) (w : W)
      → IsRejected body
      → (on_parsed glaze request body rest w).1 ≡ w
  unfolding on_parsed
  on_parsed-untouched (parsed a) rest w h = absurd h
  on_parsed-untouched (rejected status message) rest w h = refl

  on_json_body-untouched :
      {A W : Type 0} (body : Body A) (rest : A → W → Response × W) (w : W)
      → (is_json_content_type request ≡ false) ⊎ IsRejected body
      → (on_json_body glaze request body rest w).1 ≡ w
  unfolding on_json_body
  on_json_body-untouched body rest w (inl e) = rw e refl
  on_json_body-untouched body rest w (inr h) = elim (Bool-cases (is_json_content_type request)) [
    | inl e ↦ rw e (on_parsed-untouched body rest w h)
    | inr e ↦ rw e refl
  ]

  as_product :
      IsUnusable glaze request
      → (is_json_content_type request ≡ false) ⊎ IsRejected (parse_product glaze request.body)
  as_product (inl e) = inl e
  as_product (inr h) = inr h.0

  as_recipe :
      IsUnusable glaze request
      → (is_json_content_type request ≡ false) ⊎ IsRejected (parse_recipe glaze request.body)
  as_recipe (inl e) = inl e
  as_recipe (inr h) = inr h.1

module _ (glaze : Glaze) {S W : Type 0} (repository : RecipeRepository S)
    (executor : DatabaseExecutor S W) (request : Request) where
  table-untouched :
      (route : Route) (method : Verb) (w : W)
      → Writes method
      → IsUnusable glaze request
      → (table glaze repository executor route method request w).1 ≡ w
  unfolding create_product update_product create_recipe update_recipe
  table-untouched products post w h u =
      on_json_body-untouched glaze request _ _ w (as_product glaze request u)
  table-untouched (product n) put w h u =
      on_json_body-untouched glaze request _ _ w (as_product glaze request u)
  table-untouched recipes post w h u =
      on_json_body-untouched glaze request _ _ w (as_recipe glaze request u)
  table-untouched (recipe n) put w h u =
      on_json_body-untouched glaze request _ _ w (as_recipe glaze request u)
  table-untouched route get w h u = absurd h
  table-untouched route delete_ w h u = absurd h
  table-untouched route (other verb) w h u = absurd h
  table-untouched route method w h u = refl

  -- A POST or PUT whose content type is not JSON, or whose body is neither a product nor a recipe,
  -- submits nothing, whatever its target: the world is as before it.
  pub handle_async-untouched :
      (w : W)
      → Writes request.method
      → IsUnusable glaze request
      → (handle_async glaze repository (some executor) request w).1 ≡ w
  handle_async-untouched w writes unusable =
      ap (λ r. r.1) (handle_async-table glaze repository executor request w)
      ∙ table-untouched (route_of request.target) request.method w writes unusable

-- ===== src/Router/Dispatch.antt =====
-- `Router::Handle`, `HandleProducts`, `HandleRecipes` and `HandleAsync` of src/server/Router.cpp.
-- `none` as the response of a coroutine is the exception `std::bad_optional_access`.
pub mod Routes
pub mod Table
pub mod Replies
pub mod Refusals
use recipes_core.Prelude.{
  ℕ, Text, text, eq_text, Bool, true, false, not, ◌&&◌, ◌||◌, Option, none, some, is_some,
  if◌then◌else◌,
}
use recipes_core.App.{RecipeRepository, DatabaseExecutor}
use recipes_core.Api.{Glaze}
use recipes_core.Http
use recipes_core.Http.{
  Verb, get, post, put, delete_, other, eq_verb, Request, Response, method_not_allowed,
  service_unavailable,
}
use recipes_core.Router.Ids.{parse_product_id, parse_recipe_id}
use recipes_core.Router.Responses.{
  error_reply, make_json_response, make_method_not_allowed_response,
}
use recipes_core.Router.Products
use recipes_core.Router.Recipes

module _ (glaze : Glaze) where
  unfoldable pub handle : Request → Response
  unfolding eq_verb
  handle request =
      let target = request.target in
      let method = request.method in
      if eq_text target (text "/healthz")
      then (if not (eq_verb method get)
          then error_reply glaze request method_not_allowed (text "method_not_allowed")
              (text "Only GET is supported for /healthz")
          else make_json_response Http.ok request.version request.keep_alive
              (text "{\"status\":\"ok\"}"))
      else if eq_text target (text "/v1/products")
          && not (eq_verb method get)
          && not (eq_verb method post)
      then make_method_not_allowed_response glaze request (text "GET, POST")
      else if eq_text target (text "/v1/recipes")
          && not (eq_verb method get)
          && not (eq_verb method post)
      then make_method_not_allowed_response glaze request (text "GET, POST")
      else if eq_text target (text "/v1/recipes/cookable") && not (eq_verb method get)
      then make_method_not_allowed_response glaze request (text "GET")
      else if is_some (parse_product_id target)
          && not (eq_verb method get)
          && not (eq_verb method put)
          && not (eq_verb method delete_)
      then make_method_not_allowed_response glaze request (text "GET, PUT, DELETE")
      else if is_some (parse_recipe_id target)
          && not (eq_verb method get)
          && not (eq_verb method put)
          && not (eq_verb method delete_)
      then make_method_not_allowed_response glaze request (text "GET, PUT, DELETE")
      else error_reply glaze request Http.not_found (text "not_found")
          (text "The requested resource was not found")

  abbrev pub unavailable : Request → Response
  unavailable request =
      error_reply glaze request service_unavailable (text "service_unavailable")
        (text "Database service is unavailable")

-- A response that was made; and `id.value()`, which throws where there is no id.
abbrev pub responded : {W : Type 0} → Response × W → Option Response × W
responded (response, w) = (some response, w)

abbrev pub at_id : {W : Type 0} → Option ℕ → (ℕ → W → Response × W) → W → Option Response × W
at_id none handler w = (none, w)
at_id (some id) handler w = responded (handler id w)

module _ (glaze : Glaze) {S W : Type 0} (repository : RecipeRepository S)
    (database_executor : Option (DatabaseExecutor S W)) where
  abbrev products_by_method :
      DatabaseExecutor S W → Verb → Request → Option ℕ → W → Option Response × W
  products_by_method executor post request product_id w =
      responded (Products.create_product glaze repository executor request w)
  products_by_method executor put request product_id w =
      at_id product_id (Products.update_product glaze repository executor request) w
  products_by_method executor delete_ request product_id w =
      at_id product_id (Products.delete_product glaze repository executor request) w
  products_by_method executor get request none w =
      responded (Products.list_products glaze repository executor request w)
  products_by_method executor get request (some id) w =
      responded (Products.get_product glaze repository executor request id w)
  products_by_method executor (other verb) request product_id w = (some (handle glaze request), w)

  unfoldable pub handle_products : Request → Option ℕ → W → Option Response × W
  handle_products request product_id w = elim database_executor [
    | none ↦ (some (unavailable glaze request), w)
    | some executor ↦ products_by_method executor request.method request product_id w
  ]

  unfoldable pub handle_recipes : Request → Bool → W → Response × W
  handle_recipes request cookable w = elim database_executor [
    | none ↦ (unavailable glaze request, w)
    | some executor ↦ Recipes.list_recipes glaze repository executor request cookable w
  ]

  -- The `switch` at the end; `default: break` goes on to `Handle`.
  abbrev recipe_by_method : DatabaseExecutor S W → Verb → Request → ℕ → W → Option Response × W
  recipe_by_method executor get request id w =
      responded (Recipes.get_recipe glaze repository executor request id w)
  recipe_by_method executor put request id w =
      responded (Recipes.update_recipe glaze repository executor request id w)
  recipe_by_method executor delete_ request id w =
      responded (Recipes.delete_recipe glaze repository executor request id w)
  recipe_by_method executor post request id w = (some (handle glaze request), w)
  recipe_by_method executor (other verb) request id w = (some (handle glaze request), w)

  abbrev recipe_item : Option ℕ → Request → W → Option Response × W
  recipe_item none request w = (some (handle glaze request), w)
  recipe_item (some id) request w = elim database_executor [
    | none ↦ (some (unavailable glaze request), w)
    | some executor ↦ recipe_by_method executor request.method request id w
  ]

  -- From `if (is_recipe_collection || is_cookable_recipes)` on.
  abbrev recipe_routes : Bool → Bool → Option ℕ → Request → W → Option Response × W
  recipe_routes is_collection is_cookable recipe_id request w =
      if is_collection || is_cookable
      then elim database_executor [
        | none ↦ (some (unavailable glaze request), w)
        | some executor ↦
            if is_collection && eq_verb request.method post
            then responded (Recipes.create_recipe glaze repository executor request w)
            else if eq_verb request.method get
            then responded (handle_recipes request is_cookable w)
            else recipe_item recipe_id request w
      ]
      else recipe_item recipe_id request w

  unfoldable pub handle_async : Request → W → Option Response × W
  unfolding handle_products handle_recipes eq_verb
  handle_async request w =
      let is_collection = eq_text request.target (text "/v1/products") in
      let product_id = parse_product_id request.target in
      let method = request.method in
      let later =
        recipe_routes (eq_text request.target (text "/v1/recipes"))
          (eq_text request.target (text "/v1/recipes/cookable")) (parse_recipe_id request.target)
          request w in
      if (is_collection && (eq_verb method get || eq_verb method post))
        || (is_some product_id
            && (eq_verb method get || eq_verb method put || eq_verb method delete_))
      then handle_products request product_id w
      else later

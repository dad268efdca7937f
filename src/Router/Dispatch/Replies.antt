-- ===== src/Router/Dispatch/Replies.antt =====
-- What every reply of src/server/Router.cpp has, on all branches of all handlers.
use recipes_core.Prelude.{ℕ, Text, ◌≡◌, refl, subst, Bool, Bool-cases, Option, none, some, inl, inr}
use recipes_core.App.{RecipeRepository, DatabaseExecutor, Expected, expected, unexpected, Error}
use recipes_core.Api.{Glaze, Result, value, error}
use recipes_core.Http.{Status, get, post, put, delete_, Verb, Request, Response}
use recipes_core.Router.Responses.{
  is_json_content_type, make_error_response, make_json_response, make_method_not_allowed_response,
  make_app_error_response, ErrorPayload,
}
use recipes_core.Router.Bodies.{Body, parsed, rejected}
use recipes_core.Router.Handlers.{
  on_result, on_parsed, on_json_body, found_or, no_content_reply, serialized,
}
use recipes_core.Router.Products.{
  get_product, list_products, create_product, update_product, delete_product,
}
use recipes_core.Router.Recipes.{
  get_recipe, list_recipes, create_recipe, update_recipe, delete_recipe,
}
use recipes_core.Router.Dispatch.{handle_async}
use recipes_core.Router.Dispatch.Routes.{
  Route, healthz, products, recipes, cookable, unknown, product, recipe, route_of,
}
use recipes_core.Router.Dispatch.Table.{
  table, offline, not_allowed, handle_async-table, handle_async-offline,
}

-- A reply has the version and the keep-alive setting of its request.
pub record Answers (request : Request) (response : Response) : Type 0 where
  pub version : response.version ≡ request.version
  pub keep_alive : response.keep_alive ≡ request.keep_alive

module _ (glaze : Glaze) (request : Request) where
  error-Answers :
      (status : Status) (payload : ErrorPayload) (allow : Option Text)
      → Answers request
          (make_error_response glaze status request.version request.keep_alive payload allow)
  unfolding make_error_response
  error-Answers status payload none = record { version = refl; keep_alive = refl }
  error-Answers status payload (some methods) = record { version = refl; keep_alive = refl }

  no_content-Answers : Answers request (no_content_reply request)
  no_content-Answers = record { version = refl; keep_alive = refl }

  not_allowed-Answers :
      (methods : Text) → Answers request (make_method_not_allowed_response glaze request methods)
  unfolding make_method_not_allowed_response
  not_allowed-Answers methods = record { version = refl; keep_alive = refl }

  app_error-Answers :
      (failure : Error)
      → Answers request (make_app_error_response glaze failure request.version request.keep_alive)
  unfolding make_app_error_response
  app_error-Answers failure = record { version = refl; keep_alive = refl }

  json-Answers :
      (status : Status) (body : Text)
      → Answers request (make_json_response status request.version request.keep_alive body)
  unfolding make_json_response
  json-Answers status body = record { version = refl; keep_alive = refl }

  serialized-Answers :
      (status : Status) (failure : Text) (body : Result Text)
      → Answers request (serialized glaze request status failure body)
  unfolding serialized
  serialized-Answers status failure (value body) = json-Answers status body
  serialized-Answers status failure (error message) = error-Answers _ _ none

  rejected-Answers : (route : Route) → Answers request (not_allowed glaze route request)
  rejected-Answers healthz = error-Answers _ _ none
  rejected-Answers unknown = error-Answers _ _ none
  rejected-Answers products = not_allowed-Answers _
  rejected-Answers _ = not_allowed-Answers _

  found-Answers :
      {A : Type 0} (message : Text) (reply : A → Response)
      → ((a : A) → Answers request (reply a))
      → (o : Option A) → Answers request (found_or glaze request message reply o)
  unfolding found_or
  found-Answers message reply h none = error-Answers _ _ none
  found-Answers message reply h (some a) = h a

  on_result-Answers :
      {A W : Type 0} (rest : A → W → Response × W)
      → ((a : A) (w : W) → Answers request (rest a w).0)
      → (result : Expected A × W) → Answers request (on_result glaze request result rest).0
  unfolding on_result
  on_result-Answers rest h (unexpected failure, w) = app_error-Answers failure
  on_result-Answers rest h (expected a, w) = h a w

  on_parsed-Answers :
      {A W : Type 0} (rest : A → W → Response × W)
      → ((a : A) (w : W) → Answers request (rest a w).0)
      → (body : Body A) (w : W) → Answers request (on_parsed glaze request body rest w).0
  unfolding on_parsed
  on_parsed-Answers rest h (rejected status message) w = error-Answers _ _ none
  on_parsed-Answers rest h (parsed a) w = h a w

  on_json_body-Answers :
      {A W : Type 0} (rest : A → W → Response × W)
      → ((a : A) (w : W) → Answers request (rest a w).0)
      → (body : Body A) (w : W) → Answers request (on_json_body glaze request body rest w).0
  unfolding on_json_body
  on_json_body-Answers rest h body w = elim (Bool-cases (is_json_content_type request)) [
    | inl e ↦ rw e (on_parsed-Answers rest h body w)
    | inr e ↦ rw e (error-Answers _ _ none)
  ]

ruleset reply_rules = (
  on_result-Answers, on_json_body-Answers, found-Answers, serialized-Answers, no_content-Answers,
  error-Answers, not_allowed-Answers, json-Answers,
)

module _ (glaze : Glaze) {S W : Type 0} (repository : RecipeRepository S)
    (executor : DatabaseExecutor S W) (request : Request) where
  get_product-Answers :
      (n : ℕ) (w : W) → Answers request (get_product glaze repository executor request n w).0
  unfolding get_product
  get_product-Answers n w = search reply_rules

  list_products-Answers :
      (w : W) → Answers request (list_products glaze repository executor request w).0
  unfolding list_products
  list_products-Answers w = search reply_rules

  create_product-Answers :
      (w : W) → Answers request (create_product glaze repository executor request w).0
  unfolding create_product
  create_product-Answers w = search reply_rules

  update_product-Answers :
      (n : ℕ) (w : W) → Answers request (update_product glaze repository executor request n w).0
  unfolding update_product
  update_product-Answers n w = search (reply_rules, get_product-Answers)

  delete_product-Answers :
      (n : ℕ) (w : W) → Answers request (delete_product glaze repository executor request n w).0
  unfolding delete_product
  delete_product-Answers n w = search reply_rules

  get_recipe-Answers :
      (n : ℕ) (w : W) → Answers request (get_recipe glaze repository executor request n w).0
  unfolding get_recipe
  get_recipe-Answers n w = search reply_rules

  list_recipes-Answers :
      (only : Bool) (w : W)
      → Answers request (list_recipes glaze repository executor request only w).0
  unfolding list_recipes
  list_recipes-Answers only w = search reply_rules

  create_recipe-Answers :
      (w : W) → Answers request (create_recipe glaze repository executor request w).0
  unfolding create_recipe
  create_recipe-Answers w = search reply_rules

  update_recipe-Answers :
      (n : ℕ) (w : W) → Answers request (update_recipe glaze repository executor request n w).0
  unfolding update_recipe
  update_recipe-Answers n w = search (reply_rules, get_recipe-Answers)

  delete_recipe-Answers :
      (n : ℕ) (w : W) → Answers request (delete_recipe glaze repository executor request n w).0
  unfolding delete_recipe
  delete_recipe-Answers n w = search reply_rules

ruleset entry_rules = (
  reply_rules, rejected-Answers, get_product-Answers, list_products-Answers, create_product-Answers,
  update_product-Answers, delete_product-Answers, get_recipe-Answers, list_recipes-Answers,
  create_recipe-Answers, update_recipe-Answers, delete_recipe-Answers,
)

module _ (glaze : Glaze) {S W : Type 0} (repository : RecipeRepository S)
    (executor : DatabaseExecutor S W) (request : Request) where
  table-Answers :
      (route : Route) (method : Verb) (w : W)
      → Answers request (table glaze repository executor route method request w).0
  table-Answers healthz get w = search entry_rules
  table-Answers products get w = search entry_rules
  table-Answers products post w = search entry_rules
  table-Answers (product n) get w = search entry_rules
  table-Answers (product n) put w = search entry_rules
  table-Answers (product n) delete_ w = search entry_rules
  table-Answers recipes get w = search entry_rules
  table-Answers recipes post w = search entry_rules
  table-Answers cookable get w = search entry_rules
  table-Answers (recipe n) get w = search entry_rules
  table-Answers (recipe n) put w = search entry_rules
  table-Answers (recipe n) delete_ w = search entry_rules
  table-Answers route method w = search entry_rules

module _ (glaze : Glaze) (request : Request) where
  offline-Answers :
      (route : Route) (method : Verb) → Answers request (offline glaze route method request)
  offline-Answers healthz get = search entry_rules
  offline-Answers products get = search entry_rules
  offline-Answers products post = search entry_rules
  offline-Answers (product n) get = search entry_rules
  offline-Answers (product n) put = search entry_rules
  offline-Answers (product n) delete_ = search entry_rules
  offline-Answers route method = search entry_rules

module _ (glaze : Glaze) {S W : Type 0} (repository : RecipeRepository S) (request : Request) where
  -- Every response, of every route and method and on every error path, with an executor and without
  -- one, has the version and the keep-alive setting of the request that it answers.
  pub handle_async-Answers :
      (executor : Option (DatabaseExecutor S W)) (w w' : W) (response : Response)
      → handle_async glaze repository executor request w ≡ (some response, w')
      → Answers request response
  handle_async-Answers (some executor) w w' response h =
      subst (Answers request) same
        (table-Answers glaze repository executor request (route_of request.target) request.method w)
    where
      same :
          (table glaze repository executor (route_of request.target) request.method request w).0
          ≡ response
      same = cc (handle_async-table glaze repository executor request w)
  handle_async-Answers none w w' response h =
      subst (Answers request) same
        (offline-Answers glaze request (route_of request.target) request.method)
    where
      same : offline glaze (route_of request.target) request.method request ≡ response
      same = cc (handle_async-offline glaze repository request w)

-- ===== src/Router/Dispatch/Table.antt =====
-- `Router::HandleAsync` of src/server/Router.cpp against a table of routes and methods.
use recipes_core.Prelude.{text, ◌≡◌, true, false, none, some, arith}
use recipes_core.App.{RecipeRepository, DatabaseExecutor}
use recipes_core.Api.{Glaze}
use recipes_core.Http
use recipes_core.Http.{
  Verb, get, post, put, delete_, other, eq_verb, Request, Response, method_not_allowed,
}
use recipes_core.Router.Responses.{
  error_reply, make_json_response, make_method_not_allowed_response,
}
use recipes_core.Router.Products
use recipes_core.Router.Recipes
use recipes_core.Router.Dispatch.{handle, unavailable, handle_async}
use recipes_core.Router.Dispatch.Routes.{
  Route, healthz, products, recipes, cookable, unknown, product, recipe, route_of, FactsOf,
  route_of-facts,
}

abbrev pub not_allowed : Glaze → Route → Request → Response
not_allowed glaze healthz request =
    error_reply glaze request method_not_allowed (text "method_not_allowed")
      (text "Only GET is supported for /healthz")
not_allowed glaze products request =
    make_method_not_allowed_response glaze request (text "GET, POST")
not_allowed glaze recipes request =
    make_method_not_allowed_response glaze request (text "GET, POST")
not_allowed glaze cookable request = make_method_not_allowed_response glaze request (text "GET")
not_allowed glaze (product n) request =
    make_method_not_allowed_response glaze request (text "GET, PUT, DELETE")
not_allowed glaze (recipe n) request =
    make_method_not_allowed_response glaze request (text "GET, PUT, DELETE")
not_allowed glaze unknown request =
    error_reply glaze request Http.not_found (text "not_found")
      (text "The requested resource was not found")

-- What is answered while there is no executor.
abbrev pub offline : Glaze → Route → Verb → Request → Response
offline glaze healthz get request =
    make_json_response Http.ok request.version request.keep_alive (text "{\"status\":\"ok\"}")
offline glaze products get request = unavailable glaze request
offline glaze products post request = unavailable glaze request
offline glaze (product n) get request = unavailable glaze request
offline glaze (product n) put request = unavailable glaze request
offline glaze (product n) delete_ request = unavailable glaze request
offline glaze recipes method request = unavailable glaze request
offline glaze cookable method request = unavailable glaze request
offline glaze (recipe n) method request = unavailable glaze request
offline glaze route method request = not_allowed glaze route request

module _ (glaze : Glaze) {S W : Type 0} (repository : RecipeRepository S) where
  module _ (executor : DatabaseExecutor S W) where
    -- What each route answers to each method.
    abbrev pub table : Route → Verb → Request → W → Response × W
    table healthz get request w = (
      make_json_response Http.ok request.version request.keep_alive (text "{\"status\":\"ok\"}"),
      w,
    )
    table products get request w = Products.list_products glaze repository executor request w
    table products post request w = Products.create_product glaze repository executor request w
    table (product n) get request w = Products.get_product glaze repository executor request n w
    table (product n) put request w = Products.update_product glaze repository executor request n w
    table (product n) delete_ request w =
        Products.delete_product glaze repository executor request n w
    table recipes get request w = Recipes.list_recipes glaze repository executor request false w
    table recipes post request w = Recipes.create_recipe glaze repository executor request w
    table cookable get request w = Recipes.list_recipes glaze repository executor request true w
    table (recipe n) get request w = Recipes.get_recipe glaze repository executor request n w
    table (recipe n) put request w = Recipes.update_recipe glaze repository executor request n w
    table (recipe n) delete_ request w = Recipes.delete_recipe glaze repository executor request n w
    table route method request w = (not_allowed glaze route request, w)

    by_route :
        (request : Request) (w : W) (route : Route)
        → FactsOf request.target route
        → handle_async glaze repository (some executor) request w ≡ (
          some (table route request.method request w).0,
          (table route request.method request w).1,
        )
    unfolding handle_async handle
    by_route request w healthz facts = ground arith
    by_route request w products facts = ground arith
    by_route request w _ facts = ground arith

    -- With an executor, every request is answered by the table's entry for its route and method: no
    -- exception leaves the coroutine, in particular none from an id that is not there.
    pub handle_async-table :
        (request : Request) (w : W)
        → let answer = table (route_of request.target) request.method request w in
          handle_async glaze repository (some executor) request w ≡ (some answer.0, answer.1)
    handle_async-table request w =
        by_route request w (route_of request.target) (route_of-facts request.target)

  by_route_offline :
      (request : Request) (w : W) (route : Route)
      → FactsOf request.target route
      → handle_async glaze repository none request w
        ≡ (some (offline glaze route request.method request), w)
  unfolding handle_async handle
  by_route_offline request w healthz facts = ground arith
  by_route_offline request w _ facts = ground arith

  -- Without an executor, the health check, unknown targets and wrong methods on products are answered
  -- as with one, all else on a resource is 503, and nothing is changed. On recipes a wrong method is
  -- 503 too.
  pub handle_async-offline :
      (request : Request) (w : W)
      → handle_async glaze repository none request w
        ≡ (some (offline glaze (route_of request.target) request.method request), w)
  handle_async-offline request w =
      by_route_offline request w (route_of request.target) (route_of-facts request.target)

-- ===== src/Composition.antt =====
-- Components put together as src/main.cpp does: requests for products that `Router::HandleAsync` of
-- src/server/Router.cpp answers with `RecipeService` over `SqliteRecipeRepository`, through an
-- executor.
pub mod Requests
pub mod Histories
pub mod Worker
use recipes_core.Prelude.{◌⊎◌, Text, ℕ, IsInt, text, ◌≡◌, true, Option, some, none, List, [], ◌∷◌}
use recipes_core.Kitchen.{Product}
use recipes_core.App.{Action, DatabaseExecutor}
use recipes_core.Api.{Glaze, value, error, serialize_product}
use recipes_core.Http
use recipes_core.Http.{Status, Request, Response, get, post, put, delete_}
use recipes_core.Router.Responses.{
  make_json_response, to_product_response, error_status, is_json_content_type,
}
use recipes_core.Router.Bodies.{parsed, parse_product}
use recipes_core.Router.Handlers.{serialized, no_content_reply}
use recipes_core.Router.Dispatch.{handle_async}
use recipes_core.Router.Dispatch.Routes.{Route, route_of}
use recipes_core.Sql.{Engine}
use recipes_core.Db.Connection.{Database}
use recipes_core.Repository.{sqlite_repository}
use recipes_core.Repository.Catalogue.{
  Call, create, read, update, delete, Reply, Catalogue, Steps, product, done, refused,
}

-- What a request sees of an executor that serves it at once, in a world W that holds the storage:
-- an operation is run on the storage as it is, and its result comes back.
pub record IsPrompt {S W : Type 0} (executor : DatabaseExecutor S W) (storage : W → S)
    (Serving : W → Type 0) : Type 1 where
  pub result :
      {A : Type 0} (operation : Action S A) (w : W)
      → Serving w
      → (executor.async_submit A operation w).0 ≡ (operation (storage w)).0
  pub stored :
      {A : Type 0} (operation : Action S A) (w : W)
      → Serving w
      → storage (executor.async_submit A operation w).1 ≡ (operation (storage w)).1
  pub serving :
      {A : Type 0} (operation : Action S A) (w : W)
      → Serving w
      → Serving (executor.async_submit A operation w).1

module _ (glaze : Glaze) where
  -- What a request asks of the catalogue, by its target, its method and its body, whose amount is an
  -- `int`.
  pub data Asks (request : Request) : Call → Type 0 where
    posts :
        (p : Product)
        → route_of request.target ≡ Route.products
        → request.method ≡ post
        → is_json_content_type request ≡ true
        → parse_product glaze request.body ≡ parsed p
        → IsInt p.amount
        → Asks request (create p)
    gets :
        (id : ℕ)
        → route_of request.target ≡ Route.product id
        → request.method ≡ get
        → Asks request (read id)
    puts :
        (id : ℕ) (p : Product)
        → route_of request.target ≡ Route.product id
        → request.method ≡ put
        → is_json_content_type request ≡ true
        → parse_product glaze request.body ≡ parsed p
        → IsInt p.amount
        → Asks request (update id p)
    deletes :
        (id : ℕ)
        → route_of request.target ≡ Route.product id
        → request.method ≡ delete_
        → Asks request (delete id)

  abbrev pub product_reply : Request → Status → Product → Response
  product_reply request status p =
      serialized glaze request status (text "Failed to serialize product")
        (serialize_product glaze (to_product_response p))

  -- The product as JSON under a status, or 500 where Glaze does not write it.
  abbrev pub Shows : Request → Status → Product → Response → Type 0
  Shows request status p response =
      ((body : Text) × (serialize_product glaze (to_product_response p) ≡ value body)
        × (response ≡ make_json_response status request.version request.keep_alive body))
      ⊎ ((message : Text) × (serialize_product glaze (to_product_response p) ≡ error message)
          × (response.status ≡ Http.internal_server_error))

  -- The response that a reply of the catalogue becomes; of an error, its status.
  abbrev pub Renders : Request → Call → Reply → Response → Type 0
  Renders request (create p) (product (some q)) response = Shows request Http.created q response
  Renders request (read id) (product (some q)) response = Shows request Http.ok q response
  Renders request (read id) (product none) response = response.status ≡ Http.not_found
  Renders request (update id p) done response =
      Shows request Http.ok (record p { id = some id }) response
  Renders request (delete id) done response = response ≡ no_content_reply request
  Renders request c (refused code) response = response.status ≡ (error_status code).0
  Renders request c reply response = ⊥

  -- Requests that ask for calls, one for one.
  abbrev pub AllAsk : List Request → List Call → Type 0
  AllAsk [] [] = Unit
  AllAsk (request ∷ requests) (c ∷ cs) = Asks request c × AllAsk requests cs
  AllAsk _ _ = ⊥

  -- Responses to requests that show the replies to their calls; none is missing.
  abbrev pub AllRender : List Request → List Call → List Reply → List (Option Response) → Type 0
  AllRender [] [] [] [] = Unit
  AllRender (request ∷ requests) (c ∷ cs) (reply ∷ replies) (some response ∷ responses) =
      Renders request c reply response × AllRender requests cs replies responses
  AllRender _ _ _ _ = ⊥

  -- The history of some requests: what the catalogue replied to each, and that its responses show.
  abbrev pub IsHistory :
      List Request → List Call → Catalogue → List (Option Response) → Catalogue → Type 0
  IsHistory requests cs before responses after =
      (replies : List Reply) × Steps before cs replies after
      × AllRender requests cs replies responses

  module _ (engine : Engine) {W : Type 0} (executor : DatabaseExecutor Database W) where
    unfoldable pub handled : Request → W → Option Response × W
    handled = handle_async glaze (sqlite_repository engine) (some executor)

    -- Requests that come one after the other.
    unfoldable pub handled_all : List Request → W → List (Option Response) × W
    unfolding handled
    handled_all [] w = ([], w)
    handled_all (request ∷ requests) w =
        let first = handled request w in
        let later = handled_all requests first.1 in (first.0 ∷ later.0, later.1)

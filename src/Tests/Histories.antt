-- ===== src/Tests/Histories.antt =====
-- Histories of products at concrete calls and requests.
use recipes_core.Prelude.{
  false, Text, text, true, refl, ◌≡◌, List, [], ◌∷◌, All, arith, starts_with, eq_text,
}
use recipes_core.Kitchen.{Product}
use recipes_core.Http
use recipes_core.Http.{Verb, Request, get, post, put, delete_}
use recipes_core.Api.{parse_product_request}
use recipes_core.Kitchen.Dimensions.{parse_dimension}
use recipes_core.Router.Responses.{is_json_content_type}
use recipes_core.Router.Bodies.{parsed, parse_product}
use recipes_core.Router.Ids.{parse_product_id, from_chars}
use recipes_core.Router.Dispatch.Routes.{Route, route_of}
use recipes_core.Db.Connection.{Database, opened}
use recipes_core.Repository.Catalogue.{Call, create, read, update, delete, Steps, catalogue, calls}
use recipes_core.Repository.Catalogue.Settled.{IsReadable, IsReliable}
use recipes_core.Repository.Catalogue.Refines.{IsReadableCall, opened-IsSettled, calls-Steps}
use recipes_core.Composition.{posts, gets, puts, deletes, AllAsk, IsHistory, handled_all}
use recipes_core.Composition.Histories.{handled_all-IsHistory}
use recipes_core.Composition.Worker.{Idle, IsServing, worker_executor, worker_executor-IsPrompt}
use recipes_core.Tests.Fixtures.{egg, plain_engine, plain_glaze, request_for}

plain_engine-IsReliable : IsReliable plain_engine
plain_engine-IsReliable = record {
  sound = λ s t. refl;
  increasing = λ n. omega arith;
  repeats = λ what. refl;
}

egg-IsReadable : IsReadable egg
egg-IsReadable = record { range = omega arith; dimension = tt; manufacture = tt; expiration = tt }

abbrev butter : Product
butter = record egg { name = text "Butter" }

butter-IsReadable : IsReadable butter
butter-IsReadable = record {
  range = omega arith;
  dimension = tt;
  manufacture = tt;
  expiration = tt;
}

-- The second creation is refused for its name, the third repeats the error, and the last two calls
-- find nothing.
abbrev egg_calls : List Call
egg_calls =
    create egg
    ∷ create egg
    ∷ create butter
    ∷ update 1 butter
    ∷ read 1
    ∷ delete 1
    ∷ update 1 egg
    ∷ read 1
    ∷ []

egg_calls-IsReadable : All IsReadableCall egg_calls
egg_calls-IsReadable = (
  egg-IsReadable,
  (
    egg-IsReadable,
    (butter-IsReadable, (butter-IsReadable, (tt, (tt, (egg-IsReadable, (tt, tt)))))),
  ),
)

calls-Steps_example :
    let end = calls plain_engine egg_calls opened in
    Steps (catalogue opened) egg_calls end.0 (catalogue end.1)
calls-Steps_example =
    calls-Steps plain_engine plain_engine-IsReliable egg_calls opened egg_calls-IsReadable
      opened-IsSettled

abbrev with_json : Request → Request
with_json request = record request { fields = (Http.content_type, text "application/json") ∷ [] }

abbrev egg_requests : List Request
egg_requests =
    with_json (request_for post (text "/v1/products"))
    ∷ with_json (request_for put (text "/v1/products/1"))
    ∷ request_for delete_ (text "/v1/products/1")
    ∷ request_for get (text "/v1/products/1")
    ∷ []

abbrev asked_calls : List Call
asked_calls = create egg ∷ update 1 egg ∷ delete 1 ∷ read 1 ∷ []

is_json :
    (method : Verb) (target : Text)
    → is_json_content_type (with_json (request_for method target)) ≡ true
unfolding is_json_content_type
is_json method target = refl

read_egg : parse_product plain_glaze (text "{}") ≡ parsed egg
unfolding parse_product parse_product_request parse_dimension eq_text
read_egg = refl

to_collection : route_of (text "/v1/products") ≡ Route.products
unfolding route_of eq_text
to_collection = refl

to_first : route_of (text "/v1/products/1") ≡ Route.product 1
unfolding route_of eq_text parse_product_id starts_with from_chars
to_first = refl

requests_ask : AllAsk plain_glaze egg_requests asked_calls
requests_ask = (
  posts egg to_collection refl (is_json post (text "/v1/products")) read_egg (omega arith),
  (
    puts 1 egg to_first refl (is_json put (text "/v1/products/1")) read_egg (omega arith),
    (deletes 1 to_first refl, (gets 1 to_first refl, tt)),
  ),
)

-- The executor as it was constructed, with a queue of one place.
abbrev idle : Idle Database
idle = record { service = opened; queue_capacity = 1; stopping = false }

handled_all-IsHistory_example :
    let all = handled_all plain_glaze plain_engine worker_executor egg_requests idle in
    IsHistory plain_glaze egg_requests asked_calls
      (catalogue idle.service)
      all.0
      (catalogue all.1.service)
handled_all-IsHistory_example =
    handled_all-IsHistory plain_glaze plain_engine plain_engine-IsReliable worker_executor
      (λ w. w.service) IsServing worker_executor-IsPrompt egg_requests asked_calls idle requests_ask
      opened-IsSettled (refl, omega arith)

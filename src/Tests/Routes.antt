-- ===== src/Tests/Routes.antt =====
-- The router's theorems at concrete requests.
use recipes_core.Prelude.{inl, false, ℕ, ◌≡◌, refl, ◌↔◌, text, Option, none, some}
use recipes_core.App.{DatabaseExecutor}
use recipes_core.Api.{value, parse_product_request, parse_recipe_request}
use recipes_core.Http.{post, delete_, Request}
use recipes_core.Router.Ids.{parse_product_id, products_prefix}
use recipes_core.Router.Ids.Targets.{Names, parse_product_id_iff}
use recipes_core.Router.Bodies.{parsed, parse_product, parse_recipe}
use recipes_core.Router.Bodies.Laws.{
  Describes, DescribesRecipe, parse_product_iff, parse_recipe_iff,
}
use recipes_core.Router.Dispatch.{handle_async}
use recipes_core.Router.Dispatch.Routes.{route_of}
use recipes_core.Router.Dispatch.Table.{table, offline, handle_async-table, handle_async-offline}
use recipes_core.Router.Dispatch.Replies.{Answers, handle_async-Answers}
use recipes_core.Router.Responses.{is_json_content_type}
use recipes_core.Router.Dispatch.Refusals.{handle_async-untouched}
use recipes_core.Tests.Fixtures.{
  egg, omelette, egg_request, omelette_request, plain_glaze, counting_repository, direct_executor,
  request_for,
}

parse_product_id_iff_example :
    (parse_product_id (text "/v1/products/42") ≡ some 42)
    ↔ Names products_prefix 42 (text "/v1/products/42")
parse_product_id_iff_example = parse_product_id_iff 42 (text "/v1/products/42")

read_egg : parse_product_request plain_glaze (text "{}") ≡ value egg_request
unfolding parse_product_request
read_egg = refl

read_omelette : parse_recipe_request plain_glaze (text "{}") ≡ value omelette_request
unfolding parse_recipe_request
read_omelette = refl

parse_product_iff_example :
    (parse_product plain_glaze (text "{}") ≡ parsed egg) ↔ Describes egg_request egg
parse_product_iff_example = parse_product_iff plain_glaze (text "{}") egg_request egg read_egg

parse_recipe_iff_example :
    (parse_recipe plain_glaze (text "{}") ≡ parsed omelette)
    ↔ DescribesRecipe omelette_request omelette
parse_recipe_iff_example =
    parse_recipe_iff plain_glaze (text "{}") omelette_request omelette read_omelette

abbrev deletion : Request
deletion = request_for delete_ (text "/v1/recipes/5")

handle_async-table_example :
    let answer =
      table plain_glaze counting_repository direct_executor
        (route_of deletion.target)
        delete_
        deletion
        0 in
    handle_async plain_glaze counting_repository (some direct_executor) deletion 0
    ≡ (some answer.0, answer.1)
handle_async-table_example =
    handle_async-table plain_glaze counting_repository direct_executor deletion 0

abbrev no_executor : Option (DatabaseExecutor ℕ ℕ)
no_executor = none

handle_async-offline_example :
    handle_async plain_glaze counting_repository no_executor deletion 0
    ≡ (some (offline plain_glaze (route_of deletion.target) delete_ deletion), 0)
handle_async-offline_example = handle_async-offline plain_glaze counting_repository deletion 0

handle_async-Answers_example :
    let answer =
      table plain_glaze counting_repository direct_executor
        (route_of deletion.target)
        delete_
        deletion
        0 in
    Answers deletion answer.0
handle_async-Answers_example =
    handle_async-Answers plain_glaze counting_repository deletion (some direct_executor) 0 _ _
      handle_async-table_example

abbrev untyped : Request
untyped = request_for post (text "/v1/products")

untyped-refused : is_json_content_type untyped ≡ false
unfolding is_json_content_type
untyped-refused = refl

handle_async-untouched_example :
    (handle_async plain_glaze counting_repository (some direct_executor) untyped 0).1 ≡ 0
handle_async-untouched_example =
    handle_async-untouched plain_glaze counting_repository direct_executor untyped 0 tt
      (inl untyped-refused)

-- ===== src/Router/Products.antt =====
-- The product handlers of `net::Router` in src/server/Router.cpp.
use recipes_core.Prelude.{ℕ, text, Option, List, map}
use recipes_core.Kitchen.{Product}
use recipes_core.App.{RecipeRepository, DatabaseExecutor}
use recipes_core.Service
use recipes_core.Api.{Glaze, serialize_product, serialize_products}
use recipes_core.Http
use recipes_core.Http.{Request, Response}
use recipes_core.Router.Responses.{to_product_response}
use recipes_core.Router.Bodies.{parse_product}
use recipes_core.Router.Handlers.{on_result, on_json_body, serialized, found_or, no_content_reply}

module _ (glaze : Glaze) {S W : Type 0} (repository : RecipeRepository S)
    (executor : DatabaseExecutor S W) where
  unfoldable pub get_product : Request → ℕ → W → Response × W
  get_product request product_id w =
      on_result glaze request
        (executor.async_submit (Option Product) (Service.get_product repository product_id) w)
        λ found w'. (
          found_or glaze request (text "Product was not found")
              (λ product.
                serialized glaze request Http.ok (text "Failed to serialize product")
                  (serialize_product glaze (to_product_response product)))
              found,
          w',
        )

  unfoldable pub list_products : Request → W → Response × W
  list_products request w =
      on_result glaze request
        (executor.async_submit (List Product) (Service.get_products repository) w)
        λ products w'. (
          serialized glaze request Http.ok (text "Failed to serialize products")
              (serialize_products glaze (map to_product_response products)),
          w',
        )

  unfoldable pub create_product : Request → W → Response × W
  create_product request w =
      on_json_body glaze request (parse_product glaze request.body)
        (λ product w.
          on_result glaze request
            (executor.async_submit Product (Service.create_product repository product) w)
            λ created w'. (
              serialized glaze request Http.created (text "Failed to serialize product")
                  (serialize_product glaze (to_product_response created)),
              w',
            ))
        w

  unfoldable pub update_product : Request → ℕ → W → Response × W
  update_product request product_id w =
      on_json_body glaze request (parse_product glaze request.body)
        (λ product w.
          on_result glaze request
            (executor.async_submit (Unit {0}) (Service.update_product repository product_id product)
              w)
            λ _ w'. get_product request product_id w')
        w

  unfoldable pub delete_product : Request → ℕ → W → Response × W
  delete_product request product_id w =
      on_result glaze request
        (executor.async_submit (Unit {0}) (Service.delete_product repository product_id) w)
        λ _ w'. (no_content_reply request, w')

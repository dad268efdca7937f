-- ===== src/Router/Recipes.antt =====
-- The recipe handlers of `net::Router` in src/server/Router.cpp.
use recipes_core.Prelude.{ℕ, text, Bool, Option, List, map, if◌then◌else◌}
use recipes_core.Kitchen.{Recipe}
use recipes_core.App.{RecipeRepository, DatabaseExecutor}
use recipes_core.Service
use recipes_core.Api.{Glaze, serialize_recipe, serialize_recipes}
use recipes_core.Http
use recipes_core.Http.{Request, Response}
use recipes_core.Router.Responses.{to_recipe_response}
use recipes_core.Router.Bodies.{parse_recipe}
use recipes_core.Router.Handlers.{on_result, on_json_body, serialized, found_or, no_content_reply}

module _ (glaze : Glaze) {S W : Type 0} (repository : RecipeRepository S)
    (executor : DatabaseExecutor S W) where
  unfoldable pub get_recipe : Request → ℕ → W → Response × W
  get_recipe request recipe_id w =
      on_result glaze request
        (executor.async_submit (Option Recipe) (Service.get_recipe repository recipe_id) w)
        λ found w'. (
          found_or glaze request (text "Recipe was not found")
              (λ recipe.
                serialized glaze request Http.ok (text "Failed to serialize recipe")
                  (serialize_recipe glaze (to_recipe_response recipe)))
              found,
          w',
        )

  -- Behind the test for a null executor, which is in Router.Dispatch.
  unfoldable pub list_recipes : Request → Bool → W → Response × W
  list_recipes request cookable w =
      on_result glaze request
        (executor.async_submit (List Recipe)
          (if cookable
            then Service.get_cookable_recipes repository
            else Service.get_recipes repository)
          w)
        λ recipes w'. (
          serialized glaze request Http.ok (text "Failed to serialize recipes")
              (serialize_recipes glaze (map to_recipe_response recipes)),
          w',
        )

  unfoldable pub create_recipe : Request → W → Response × W
  create_recipe request w =
      on_json_body glaze request (parse_recipe glaze request.body)
        (λ recipe w.
          on_result glaze request
            (executor.async_submit Recipe (Service.create_recipe repository recipe) w)
            λ created w'. (
              serialized glaze request Http.created (text "Failed to serialize recipe")
                  (serialize_recipe glaze (to_recipe_response created)),
              w',
            ))
        w

  unfoldable pub update_recipe : Request → ℕ → W → Response × W
  update_recipe request recipe_id w =
      on_json_body glaze request (parse_recipe glaze request.body)
        (λ recipe w.
          on_result glaze request
            (executor.async_submit (Unit {0}) (Service.update_recipe repository recipe_id recipe) w)
            λ _ w'. get_recipe request recipe_id w')
        w

  unfoldable pub delete_recipe : Request → ℕ → W → Response × W
  delete_recipe request recipe_id w =
      on_result glaze request
        (executor.async_submit (Unit {0}) (Service.delete_recipe repository recipe_id) w)
        λ _ w'. (no_content_reply request, w')

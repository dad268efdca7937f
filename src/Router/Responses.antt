-- ===== src/Router/Responses.antt =====
-- The building of responses in src/server/Router.cpp: from `MakeJsonResponse` to
-- `MakeMethodNotAllowedResponse`.
use recipes_core.Prelude.{ℕ, Text, text, starts_with, Bool, true, Option, none, some, [], map}
use recipes_core.Kitchen.{Product, Recipe}
use recipes_core.Kitchen.Dimensions.{get_dimension_in_string}
use recipes_core.App
use recipes_core.App.{Error, ErrorCode}
use recipes_core.Api.{
  ProductResponse, RecipeResponse, ErrorResponse, Result, value, error, Glaze, serialize_error,
}
use recipes_core.Http
use recipes_core.Http.{
  Status, Request, Response, set, value_of, content_type, x_content_type_options,
  method_not_allowed, internal_server_error, unprocessable_entity, service_unavailable,
}

unfoldable pub make_json_response : Status → ℕ → Bool → Text → Response
unfolding set
make_json_response status version keep_alive body = record {
  status = status;
  version = version;
  keep_alive = keep_alive;
  fields =
      set x_content_type_options (text "nosniff") (set content_type (text "application/json") []);
  body = body;
  prepared = true;
}

pub record ErrorPayload : Type 0 where
  pub code : Text
  pub message : Text

-- `value_or`
abbrev pub body_or : Text → Result Text → Text
body_or fallback (value body) = body
body_or fallback (error _) = fallback

abbrev pub with_allow : Option Text → Response → Response
with_allow none response = response
with_allow (some methods) response = record response {
  fields = set Http.allow methods response.fields;
}

abbrev pub id_or_zero : Option ℕ → ℕ
id_or_zero none = 0
id_or_zero (some id) = id

unfoldable pub to_product_response : Product → ProductResponse
to_product_response product = record {
  id = id_or_zero product.id;
  name = product.name;
  amount = product.amount;
  dimension = get_dimension_in_string product.dimension;
  manufacture = none;
  expiration = none;
}

unfoldable pub to_recipe_response : Recipe → RecipeResponse
unfolding to_product_response
to_recipe_response recipe = record {
  id = id_or_zero recipe.id;
  name = recipe.name;
  ingredients = map to_product_response recipe.ingredients;
}

-- The status and the code of the payload for each kind of error.
unfoldable pub error_status : ErrorCode → Status × Text
error_status App.validation = (unprocessable_entity, text "validation_error")
error_status App.not_found = (Http.not_found, text "not_found")
error_status App.conflict = (Http.conflict, text "conflict")
error_status App.overloaded = (service_unavailable, text "overloaded")
error_status App.storage = (internal_server_error, text "internal_error")

unfoldable pub public_message : ErrorCode → Text → Text
public_message App.storage message = text "Storage operation failed"
public_message _ message = message

unfoldable pub is_json_content_type : Request → Bool
unfolding value_of starts_with
is_json_content_type request =
    starts_with (value_of content_type request.fields) (text "application/json")

module _ (glaze : Glaze) where
  unfoldable pub make_error_response : Status → ℕ → Bool → ErrorPayload → Option Text → Response
  unfolding make_json_response
  make_error_response status version keep_alive payload allow =
      let document : ErrorResponse = record { code = payload.code; message = payload.message } in
      let body = body_or (text "{\"code\":\"internal_error\"}") (serialize_error glaze document) in
      with_allow allow (make_json_response status version keep_alive body)

  -- A reply to a request, which lends it version and keep-alive.
  abbrev pub error_reply : Request → Status → Text → Text → Response
  error_reply request status code message =
      make_error_response status request.version request.keep_alive
        (record { code = code; message = message }) none

  unfoldable pub make_app_error_response : Error → ℕ → Bool → Response
  unfolding make_error_response error_status public_message
  make_app_error_response failure version keep_alive =
      make_error_response (error_status failure.code).0 version keep_alive
        (record {
          code = (error_status failure.code).1;
          message = public_message failure.code failure.message;
        })
        none

  unfoldable pub make_method_not_allowed_response : Request → Text → Response
  unfolding make_error_response
  make_method_not_allowed_response request allow =
      make_error_response method_not_allowed request.version request.keep_alive
        (record { code = text "method_not_allowed"; message = text "HTTP method is not allowed" })
        (some allow)

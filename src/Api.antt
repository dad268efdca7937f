-- ===== src/Api.antt =====
-- The JSON payloads of the HTTP API (include/api/Types.hpp) and their reading and writing
-- (src/api/Json.cpp). Glaze, which does the work, is a parameter.
pub mod Fields
use recipes_core.Prelude.{ℕ, ℤ, Text, Option, List}

-- std::expected<A, std::string>
pub data Result (A : Type 0) : Type 0 where
  value : A → Result A
  error : Text → Result A

-- A call that returns, or throws an exception with a text.
pub data Attempt (A : Type 0) : Type 0 where
  returns : A → Attempt A
  throws : Text → Attempt A

pub record ProductRequest : Type 0 where
  pub name : Text
  pub amount : ℤ
  pub dimension : Text
  pub manufacture : Option Text
  pub expiration : Option Text

pub record ProductResponse : Type 0 where
  pub id : ℕ
  pub name : Text
  pub amount : ℤ
  pub dimension : Text
  pub manufacture : Option Text
  pub expiration : Option Text

pub record RecipeRequest : Type 0 where
  pub name : Text
  pub ingredients : List ProductRequest

pub record RecipeResponse : Type 0 where
  pub id : ℕ
  pub name : Text
  pub ingredients : List ProductResponse

pub record ErrorResponse : Type 0 where
  pub code : Text
  pub message : Text

-- `glz::read_json` and `glz::write_json` at each type: the value, or the error context, which
-- `glz::format_error` turns into a text beside a document. A writer that gives up leaves what it
-- has written.
pub data Read (A : Type 0) : Type 0 where
  done : A → Read A
  failed : ℕ → Read A

pub data Written : Type 0 where
  complete : Text → Written
  partial : ℕ → Text → Written

pub record Glaze : Type 0 where
  pub read_product_request : Text → Read ProductRequest
  pub read_recipe_request : Text → Read RecipeRequest
  pub write_product : ProductResponse → Written
  pub write_products : List ProductResponse → Written
  pub write_recipe : RecipeResponse → Written
  pub write_recipes : List RecipeResponse → Written
  pub write_error : ErrorResponse → Written
  pub format_error : ℕ → Text → Text

module _ (glaze : Glaze) where
  unfoldable pub parse_json : {A : Type 0} → (Text → Read A) → Text → Result A
  parse_json read json = elim (read json) [
    | done a ↦ value a
    | failed context ↦ error (glaze.format_error context json)
  ]

  unfoldable pub write_json : {A : Type 0} → (A → Written) → A → Result Text
  write_json write a = elim (write a) [
    | complete json ↦ value json
    | partial context json ↦ error (glaze.format_error context json)
  ]

  unfoldable pub parse_product_request : Text → Result ProductRequest
  unfolding parse_json
  parse_product_request json = parse_json glaze.read_product_request json

  unfoldable pub parse_recipe_request : Text → Result RecipeRequest
  unfolding parse_json
  parse_recipe_request json = parse_json glaze.read_recipe_request json

  unfoldable pub serialize_product : ProductResponse → Result Text
  unfolding write_json
  serialize_product response = write_json glaze.write_product response

  unfoldable pub serialize_products : List ProductResponse → Result Text
  unfolding write_json
  serialize_products responses = write_json glaze.write_products responses

  unfoldable pub serialize_recipe : RecipeResponse → Result Text
  unfolding write_json
  serialize_recipe response = write_json glaze.write_recipe response

  unfoldable pub serialize_recipes : List RecipeResponse → Result Text
  unfolding write_json
  serialize_recipes responses = write_json glaze.write_recipes responses

  unfoldable pub serialize_error : ErrorResponse → Result Text
  unfolding write_json
  serialize_error response = write_json glaze.write_error response

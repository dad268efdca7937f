-- ===== src/Tests/Fixtures.antt =====
-- Concrete values for the parameters of the development.
use recipes_core.Prelude.{ℕ, ◌+◌, pos, negsuc, Text, text, true, none, some, [], ◌∷◌}
use recipes_core.Kitchen.{Product, Recipe, new_product}
use recipes_core.Kitchen.Dimensions.{piece, liter}
use recipes_core.App.{expected, RecipeRepository, DatabaseExecutor}
use recipes_core.Api.{Glaze, ProductRequest, RecipeRequest, done, complete, partial}
use recipes_core.Sql.{Engine}
use recipes_core.Http.{Verb, Request}

abbrev pub egg : Product
egg = new_product (text "Egg") (pos 4) piece

abbrev pub nameless : Product
nameless = new_product [] (pos 4) piece

abbrev pub owed_milk : Product
owed_milk = new_product (text "Milk") (negsuc 1) liter

abbrev pub omelette : Recipe
omelette = record { id = none; name = text "Omelette"; ingredients = egg ∷ [] }

abbrev pub spoiled_omelette : Recipe
spoiled_omelette = record {
  id = none;
  name = text "Omelette";
  ingredients = egg ∷ nameless ∷ owed_milk ∷ [];
}

-- A repository that counts its calls and finds everything.
abbrev pub counting_repository : RecipeRepository ℕ
counting_repository = record {
  create_product = λ p n. (expected p, n + 1);
  get_product = λ id n. (expected (some egg), n + 1);
  get_products = λ n. (expected (egg ∷ []), n + 1);
  update_product = λ id p n. (expected true, n + 1);
  delete_product = λ id n. (expected true, n + 1);
  create_recipe = λ r n. (expected r, n + 1);
  get_recipe = λ id n. (expected (some omelette), n + 1);
  get_recipes = λ n. (expected (omelette ∷ []), n + 1);
  get_cookable_recipes = λ n. (expected [], n + 1);
  update_recipe = λ id r n. (expected true, n + 1);
  delete_recipe = λ id n. (expected true, n + 1);
}

-- An executor that runs every operation at once.
abbrev pub direct_executor : DatabaseExecutor ℕ ℕ
direct_executor = record { async_submit = λ A operation w. operation w }

abbrev pub egg_request : ProductRequest
egg_request = record {
  name = text "Egg";
  amount = pos 4;
  dimension = text "pc";
  manufacture = some (text "2024-01-01");
  expiration = none;
}

abbrev pub omelette_request : RecipeRequest
omelette_request = record { name = text "Omelette"; ingredients = egg_request ∷ [] }

-- A reader that takes every document for one request, and a writer that shows names.
abbrev pub plain_glaze : Glaze
plain_glaze = record {
  read_product_request = λ json. done egg_request;
  read_recipe_request = λ json. done omelette_request;
  write_product = λ response. complete response.name;
  write_products = λ responses. complete [];
  write_recipe = λ response. complete response.name;
  write_recipes = λ responses. partial 1 [];
  write_error = λ response. complete response.code;
  format_error = λ context json. json;
}

abbrev pub request_for : Verb → Text → Request
request_for method target = record {
  method = method;
  target = target;
  version = 11;
  keep_alive = true;
  fields = [];
  body = text "{}";
}

-- A storage without faults, whose ids count up and whose rows keep their order.
abbrev pub plain_engine : Engine
plain_engine = record {
  next_rowid = λ n. n + 1;
  order_products = λ before rows. rows;
  order_ingredients = λ before rows. rows;
  order_joined = λ before rows. rows;
  fault = λ s t. none;
  constraint_failed = text "UNIQUE constraint failed";
  reset_error = λ what. some what;
}

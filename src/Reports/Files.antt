-- ===== src/Reports/Files.antt =====
-- `WriteJsonPayload` of src/io/json/Report.cpp and `WriteYamlPayload` of src/io/yaml/Report.cpp with
-- the functions that call them. The file system, the output stream and Glaze's writers are
-- parameters.
use recipes_core.Prelude.{ℕ, Text, Bool, true, false, Option, none, some, List, if◌then◌else◌}
use recipes_core.Service.{is_empty}
use recipes_core.Kitchen.{Product, Recipe}
use recipes_core.Reports.Views.Yaml
use recipes_core.Reports.Views.{ProductView, RecipeView, build_product_views, build_recipe_views}

-- `std::error_code`; `other` is what the file system reports.
pub data ErrorCode : Type 0 where
  invalid_argument no_such_file_or_directory io_error : ErrorCode
  other : ℕ → ErrorCode

-- S is the state of the file system. `open_truncated` is `std::ios::out | std::ios::trunc` and says
-- whether the file is open; `put` writes bytes to the stream and says whether it has failed so far;
-- `close` is the stream's destructor, which flushes what the stream still holds and reports
-- nothing.
pub record FileSystem (S : Type 0) : Type 0 where
  pub parent_path : Text → Text
  pub create_directories : Text → S → Option ErrorCode × S
  pub open_truncated : Text → S → Bool × S
  pub put : Text → Text → S → Bool × S
  pub close : Text → S → S

-- What a writer of Glaze does with a value: the bytes that it has written when it ends, and whether
-- it ends with an error.
pub record Rendered : Type 0 where
  pub bytes : Text
  pub failed : Bool

pub record Writer : Type 0 where
  pub products : List ProductView → Rendered
  pub recipes : List RecipeView → Rendered

-- A span of products or of recipes.
pub data Items : Type 0 where
  of_products : List Product → Items
  of_recipes : List Recipe → Items

module _ {S : Type 0} (files : FileSystem S) where
  abbrev pub make_parent : Text → S → Option ErrorCode × S
  make_parent out_path s =
      if is_empty (files.parent_path out_path)
      then (none, s)
      else files.create_directories (files.parent_path out_path) s

  abbrev pub after_put : Rendered → Bool × S → Option ErrorCode × S
  after_put rendered (fail, s) =
      if rendered.failed
      then (some invalid_argument, s)
      else (if fail then (some io_error, s) else (none, s))

  -- `out` is destroyed when the function returns.
  abbrev pub leaving : Text → Option ErrorCode × S → Option ErrorCode × S
  leaving out_path (result, s) = (result, files.close out_path s)

  abbrev pub after_open : Rendered → Text → Bool × S → Option ErrorCode × S
  after_open rendered out_path (false, s) = (some no_such_file_or_directory, s)
  after_open rendered out_path (true, s) =
      leaving out_path (after_put rendered (files.put out_path rendered.bytes s))

  abbrev pub after_parent : Rendered → Text → Option ErrorCode × S → Option ErrorCode × S
  after_parent rendered out_path (some ec, s) = (some ec, s)
  after_parent rendered out_path (none, s) =
      after_open rendered out_path (files.open_truncated out_path s)

  unfoldable pub write_json_payload : Rendered → Text → S → Option ErrorCode × S
  write_json_payload rendered out_path s = after_parent rendered out_path (make_parent out_path s)

  unfoldable pub write_yaml_payload : Rendered → Text → S → Option ErrorCode × S
  write_yaml_payload rendered out_path s = after_parent rendered out_path (make_parent out_path s)

  unfoldable pub write_products_json : Writer → List Product → Text → S → Option ErrorCode × S
  unfolding build_product_views write_json_payload
  write_products_json writer products out_path s =
      if is_empty out_path
      then (some invalid_argument, s)
      else write_json_payload (writer.products (build_product_views products)) out_path s

  unfoldable pub write_recipes_json : Writer → List Recipe → Text → S → Option ErrorCode × S
  unfolding build_recipe_views write_json_payload
  write_recipes_json writer recipes out_path s =
      if is_empty out_path
      then (some invalid_argument, s)
      else write_json_payload (writer.recipes (build_recipe_views recipes)) out_path s

  unfoldable pub write_items_json : Writer → Items → Text → S → Option ErrorCode × S
  unfolding write_products_json write_recipes_json
  write_items_json writer (of_products products) out_path s =
      write_products_json writer products out_path s
  write_items_json writer (of_recipes recipes) out_path s =
      write_recipes_json writer recipes out_path s

  unfoldable pub write_products_yaml : Writer → List Product → Text → S → Option ErrorCode × S
  unfolding Yaml.build_product_views write_yaml_payload
  write_products_yaml writer products out_path s =
      if is_empty out_path
      then (some invalid_argument, s)
      else write_yaml_payload (writer.products (Yaml.build_product_views products)) out_path s

  unfoldable pub write_recipes_yaml : Writer → List Recipe → Text → S → Option ErrorCode × S
  unfolding Yaml.build_recipe_views write_yaml_payload
  write_recipes_yaml writer recipes out_path s =
      if is_empty out_path
      then (some invalid_argument, s)
      else write_yaml_payload (writer.recipes (Yaml.build_recipe_views recipes)) out_path s

  unfoldable pub write_items_yaml : Writer → Items → Text → S → Option ErrorCode × S
  unfolding write_products_yaml write_recipes_yaml
  write_items_yaml writer (of_products products) out_path s =
      write_products_yaml writer products out_path s
  write_items_yaml writer (of_recipes recipes) out_path s =
      write_recipes_yaml writer recipes out_path s

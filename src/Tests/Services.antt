-- ===== src/Tests/Services.antt =====
-- The service's theorems at concrete products and recipes.
use recipes_core.Prelude.{◌≡◌, ◌↔◌}
use recipes_core.App.{expected}
use recipes_core.Service.{validate_recipe}
use recipes_core.Service.Validation.{IsAcceptableRecipe, validate_recipe_iff}
use recipes_core.Tests.Fixtures.{omelette}

validate_recipe_iff_example : (validate_recipe omelette ≡ expected tt) ↔ IsAcceptableRecipe omelette
validate_recipe_iff_example = validate_recipe_iff omelette

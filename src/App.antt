-- ===== src/App.antt =====
-- The application's vocabulary: include/app/Error.hpp, std::expected, and the persistence port of
-- include/app/RecipeRepository.hpp as an interface over the state S of the storage.
use recipes_core.Prelude.{ℕ, Text, Bool, Option, List}
use recipes_core.Kitchen.{Product, Recipe}

pub data ErrorCode : Type 0 where
  validation not_found conflict storage overloaded : ErrorCode

pub record Error : Type 0 where
  pub code : ErrorCode
  pub message : Text

-- std::expected<A, app::Error>; `void` is `Unit`.
pub data Expected (A : Type 0) : Type 0 where
  expected : A → Expected A
  unexpected : Error → Expected A

-- A call that may change the storage.
abbrev pub Action : Type 0 → Type 0 → Type 0
Action S A = S → Expected A × S

-- The pure virtual methods; a sub-class is a value of this type.
pub record RecipeRepository (S : Type 0) : Type 0 where
  pub create_product : Product → Action S Product
  pub get_product : ℕ → Action S (Option Product)
  pub get_products : Action S (List Product)
  pub update_product : ℕ → Product → Action S Bool
  pub delete_product : ℕ → Action S Bool
  pub create_recipe : Recipe → Action S Recipe
  pub get_recipe : ℕ → Action S (Option Recipe)
  pub get_recipes : Action S (List Recipe)
  pub get_cookable_recipes : Action S (List Recipe)
  pub update_recipe : ℕ → Recipe → Action S Bool
  pub delete_recipe : ℕ → Action S Bool

-- What the router needs of `DatabaseExecutor::AsyncSubmit` (include/app/DatabaseExecutor.hpp): an
-- operation on the service's storage is handed over, and its result, or the executor's own error,
-- comes back. W is all that other requests and the worker may change meanwhile.
pub record DatabaseExecutor (S W : Type 0) : Type 1 where
  pub async_submit : (A : Type 0) → Action S A → W → Expected A × W

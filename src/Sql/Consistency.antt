-- ===== src/Sql/Consistency.antt =====
-- The constraints of all three tables of include/types/SQL/Types.hpp, kept by every statement that
-- writes.
pub mod Products
pub mod Recipes
pub mod Parts
use recipes_core.Prelude.{
  ℕ, ◌≤◌, ◌<◌, eq_text, eq_text_sym, ◌≡◌, refl, sym, Bool, true, false, not, ◌&&◌, Option, none,
  some, List, [], ◌∷◌, any, All, Pairs, if_cases, ◌==◌, arith, if◌then◌else◌,
}
use recipes_core.Sql.{ProductRow, RecipeRow, IngredientRow, Tables, empty_tables}
use recipes_core.Sql.Statements.{
  has_key, has_id, negative, named, is_recipe, same_part, update_rows,
}

abbrev pub DifferentKeys : ProductRow → ProductRow → Type 0
DifferentKeys p q = has_key p.name p.dimension q ≡ false

abbrev pub DifferentIds : ProductRow → ProductRow → Type 0
DifferentIds p q = has_id p.id q ≡ false

abbrev pub DifferentNames : RecipeRow → RecipeRow → Type 0
DifferentNames r s = named r.name s ≡ false

abbrev pub DifferentRecipes : RecipeRow → RecipeRow → Type 0
DifferentRecipes r s = is_recipe r.id s ≡ false

abbrev pub DifferentParts : IngredientRow → IngredientRow → Type 0
DifferentParts a b = same_part a b ≡ false

-- UNIQUE, PRIMARY KEY and CHECK of each table, and ids that come from the counters.
pub record AreProducts (rows : List ProductRow) (seq : ℕ) : Type 0 where
  pub keys : Pairs DifferentKeys rows
  pub ids : Pairs DifferentIds rows
  pub known : All (λ p. p.id ≤ seq) rows
  pub stocked : All (λ p. negative p.amount_base ≡ false) rows

pub record AreRecipes (rows : List RecipeRow) (seq : ℕ) : Type 0 where
  pub names : Pairs DifferentNames rows
  pub ids : Pairs DifferentRecipes rows
  pub known : All (λ r. r.id ≤ seq) rows

-- With the FOREIGN KEY.
pub record AreParts (rows : List IngredientRow) (recipes : List RecipeRow) : Type 0 where
  pub keys : Pairs DifferentParts rows
  pub required : All (λ i. negative i.required_amount_base ≡ false) rows
  pub owned : All (λ i. any (is_recipe i.recipe_id) recipes ≡ true) rows

pub record IsConsistent (t : Tables) : Type 0 where
  pub products : AreProducts t.products t.products_seq
  pub recipes : AreRecipes t.recipes t.recipes_seq
  pub parts : AreParts t.recipe_ingredients t.recipes

pub empty_tables-IsConsistent : IsConsistent empty_tables
empty_tables-IsConsistent = record {
  products = record { keys = tt; ids = tt; known = tt; stocked = tt };
  recipes = record { names = tt; ids = tt; known = tt };
  parts = record { keys = tt; required = tt; owned = tt };
}

-- A refused statement leaves no new tables.
abbrev pub KeepsConsistent : Option Tables → Type 0
KeepsConsistent none = Unit {0}
KeepsConsistent (some t) = IsConsistent t

module _ {A : Type 0} (test : A → Bool) (change : A → A) where
  abbrev pub changed : A → A
  changed x = if test x then change x else x

  pub All-update_rows :
      (P Q : A → Type 0) (xs : List A)
      → ((x : A) → P x → Q (changed x))
      → All P xs
      → All Q (update_rows test change xs)
  unfolding update_rows
  All-update_rows P Q [] f h = tt
  All-update_rows P Q (x ∷ xs) f h = (f x h.0, All-update_rows P Q xs f h.1)

  pub Pairs-update_rows :
      (R S : A → A → Type 0) (xs : List A)
      → ((x y : A) → R x y → S (changed x) (changed y))
      → Pairs R xs
      → Pairs S (update_rows test change xs)
  unfolding update_rows
  Pairs-update_rows R S [] f h = tt
  Pairs-update_rows R S (x ∷ xs) f h =
      (All-update_rows (R x) (S (changed x)) xs (λ y. f x y) h.0, Pairs-update_rows R S xs f h.1)

  -- An update that keeps what a test reads keeps its outcome.
  pub any-update_rows :
      (f : A → Bool) (xs : List A)
      → ((x : A) → f (changed x) ≡ f x)
      → any f (update_rows test change xs) ≡ any f xs
  unfolding update_rows
  any-update_rows f [] same = refl
  any-update_rows f (x ∷ xs) same = rw (same x, any-update_rows f xs same) refl

pub DifferentKeys-sym : (p q : ProductRow) → DifferentKeys p q → DifferentKeys q p
DifferentKeys-sym p q h = ground (arith, eq_text_sym p.name q.name)

pub DifferentNames-sym : (r s : RecipeRow) → DifferentNames r s → DifferentNames s r
DifferentNames-sym r s h = rw (eq_text_sym r.name s.name) h

pub DifferentParts-sym : (a b : IngredientRow) → DifferentParts a b → DifferentParts b a
DifferentParts-sym a b h = ground (arith, eq_text_sym a.product_name b.product_name)

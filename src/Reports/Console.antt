-- ===== src/Reports/Console.antt =====
-- src/io/console/Report.cpp: what `PrintProducts` and `PrintRecipes` print, line by line. `today` is
-- the day that `IsFresh` reads from the clock, the same for a whole report.
use recipes_core.Prelude.{
  Text, text, Bool, Option, none, some, List, [], ◌∷◌, ◌++◌, decimal, decimal_ℤ, length,
  if◌then◌else◌,
}
use recipes_core.Calendar.{padded}
use recipes_core.Kitchen.{SysDays, Product, Recipe, is_fresh}
use recipes_core.Kitchen.Dimensions.{get_dimension_in_string}

abbrev pub rule_line : Text
rule_line = text "------------------------"

-- `{:%d-%m-%Y}`
unfoldable pub day_first : SysDays → Text
unfolding padded
day_first date = padded 2 date.day ++ b'-' ∷ (padded 2 date.month ++ b'-' ∷ padded 4 date.year)

unfoldable pub manufacture_lines : Option SysDays → List Text
unfolding day_first
manufacture_lines none = text "Manufacture: not set" ∷ []
manufacture_lines (some date) = (text "Manufacture: " ++ day_first date) ∷ []

unfoldable pub expiration_lines : SysDays → Product → List Text
unfolding day_first is_fresh
expiration_lines today product = elim product.dates.expiration [
  | none ↦ text "Expiration: not set" ∷ []
  | some date ↦
      (text "Expiration: " ++ day_first date)
      ∷ (text "Fresh: " ++ (if is_fresh today product then text "Yes" else text "No"))
      ∷ []
]

-- The body of the loop of `PrintProducts`.
unfoldable pub product_lines : SysDays → Product → List Text
unfolding manufacture_lines expiration_lines decimal_ℤ get_dimension_in_string
product_lines today product =
    (text "Name: " ++ product.name)
    ∷ (text "Amount: " ++ (decimal_ℤ product.amount ++ get_dimension_in_string product.dimension))
    ∷ (manufacture_lines product.dates.manufacture
        ++ (expiration_lines today product ++ rule_line ∷ []))

abbrev pub each {ℓ} : {A : Type ℓ} → (A → List Text) → List A → List Text
each f [] = []
each f (x ∷ xs) = f x ++ each f xs

unfoldable pub print_products : SysDays → List Product → List Text
unfolding product_lines
print_products today [] = text "No products to display" ∷ []
print_products today (product ∷ products) = each (product_lines today) (product ∷ products)

abbrev pub recipe_lines : SysDays → Bool → Recipe → List Text
unfolding print_products decimal
recipe_lines today is_full_info recipe =
    (text "Name: " ++ recipe.name)
    ∷ (if is_full_info
        then text "Ingredients:" ∷ print_products today recipe.ingredients
        else (text "Ingredients count: " ++ decimal (length recipe.ingredients)) ∷ rule_line ∷ [])

unfoldable pub print_recipes : SysDays → Bool → List Recipe → List Text
unfolding print_products decimal
print_recipes today is_full_info [] = text "No recipes to display" ∷ []
print_recipes today is_full_info (recipe ∷ recipes) =
    each (recipe_lines today is_full_info) (recipe ∷ recipes)

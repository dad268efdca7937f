-- ===== src/Reports/Views/Fields.antt =====
-- The tables of src/io/json/Report.cpp; those of src/io/yaml/Report.cpp are the same text.
use recipes_core.Prelude.{text, eq_text, refl, List, [], ◌∷◌}
use recipes_core.Reports.Views.{ProductView, RecipeView}
use recipes_core.Fields.{Field, IsComplete, at_string, at_number, at_date, at_items}

unfoldable product_view : List (Field ProductView (Unit {0}))
product_view =
    at_string (text "name") (λ r. r.name) (λ x r. record r { name = x })
    ∷ at_number (text "amount") (λ r. r.amount) (λ x r. record r { amount = x })
    ∷ at_string (text "dimension") (λ r. r.dimension) (λ x r. record r { dimension = x })
    ∷ at_date (text "manufacture") (λ r. r.manufacture) (λ x r. record r { manufacture = x })
    ∷ at_date (text "expiration") (λ r. r.expiration) (λ x r. record r { expiration = x })
    ∷ []

-- The table names every member of the record, each under a name of its own.
product_view-IsComplete : IsComplete product_view
unfolding product_view eq_text
product_view-IsComplete x start = refl

unfoldable recipe_view : List (Field RecipeView ProductView)
recipe_view =
    at_string (text "name") (λ r. r.name) (λ x r. record r { name = x })
    ∷ at_items (text "ingredients") (λ r. r.ingredients) (λ x r. record r { ingredients = x })
    ∷ []

-- The table names every member of the record, each under a name of its own.
recipe_view-IsComplete : IsComplete recipe_view
unfolding recipe_view eq_text
recipe_view-IsComplete x start = refl

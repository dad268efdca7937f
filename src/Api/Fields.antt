-- ===== src/Api/Fields.antt =====
-- The tables of src/api/Json.cpp.
use recipes_core.Prelude.{text, eq_text, refl, List, [], ◌∷◌}
use recipes_core.Api.{ProductRequest, ProductResponse, RecipeRequest, RecipeResponse, ErrorResponse}
use recipes_core.Fields.{Field, IsComplete, at_string, at_number, at_whole, at_date, at_items}

-- A record without nested ones.
abbrev Flat : Type 0
Flat = Unit {0}

unfoldable product_request : List (Field ProductRequest Flat)
product_request =
    at_string (text "name") (λ r. r.name) (λ x r. record r { name = x })
    ∷ at_number (text "amount") (λ r. r.amount) (λ x r. record r { amount = x })
    ∷ at_string (text "dimension") (λ r. r.dimension) (λ x r. record r { dimension = x })
    ∷ at_date (text "manufacture") (λ r. r.manufacture) (λ x r. record r { manufacture = x })
    ∷ at_date (text "expiration") (λ r. r.expiration) (λ x r. record r { expiration = x })
    ∷ []

-- The table names every member of the record, each under a name of its own.
product_request-IsComplete : IsComplete product_request
unfolding product_request eq_text
product_request-IsComplete x start = refl

unfoldable product_response : List (Field ProductResponse Flat)
product_response =
    at_whole (text "id") (λ r. r.id) (λ x r. record r { id = x })
    ∷ at_string (text "name") (λ r. r.name) (λ x r. record r { name = x })
    ∷ at_number (text "amount") (λ r. r.amount) (λ x r. record r { amount = x })
    ∷ at_string (text "dimension") (λ r. r.dimension) (λ x r. record r { dimension = x })
    ∷ at_date (text "manufacture") (λ r. r.manufacture) (λ x r. record r { manufacture = x })
    ∷ at_date (text "expiration") (λ r. r.expiration) (λ x r. record r { expiration = x })
    ∷ []

-- The table names every member of the record, each under a name of its own.
product_response-IsComplete : IsComplete product_response
unfolding product_response eq_text
product_response-IsComplete x start = refl

unfoldable recipe_request : List (Field RecipeRequest ProductRequest)
recipe_request =
    at_string (text "name") (λ r. r.name) (λ x r. record r { name = x })
    ∷ at_items (text "ingredients") (λ r. r.ingredients) (λ x r. record r { ingredients = x })
    ∷ []

-- The table names every member of the record, each under a name of its own.
recipe_request-IsComplete : IsComplete recipe_request
unfolding recipe_request eq_text
recipe_request-IsComplete x start = refl

unfoldable recipe_response : List (Field RecipeResponse ProductResponse)
recipe_response =
    at_whole (text "id") (λ r. r.id) (λ x r. record r { id = x })
    ∷ at_string (text "name") (λ r. r.name) (λ x r. record r { name = x })
    ∷ at_items (text "ingredients") (λ r. r.ingredients) (λ x r. record r { ingredients = x })
    ∷ []

-- The table names every member of the record, each under a name of its own.
recipe_response-IsComplete : IsComplete recipe_response
unfolding recipe_response eq_text
recipe_response-IsComplete x start = refl

unfoldable error_response : List (Field ErrorResponse Flat)
error_response =
    at_string (text "code") (λ r. r.code) (λ x r. record r { code = x })
    ∷ at_string (text "message") (λ r. r.message) (λ x r. record r { message = x })
    ∷ []

-- The table names every member of the record, each under a name of its own.
error_response-IsComplete : IsComplete error_response
unfolding error_response eq_text
error_response-IsComplete x start = refl

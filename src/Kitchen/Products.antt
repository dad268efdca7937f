-- ===== src/Kitchen/Products.antt =====
-- The setters of `types::Product` in include/types/kitchen/Types.hpp, which change one field each.
use recipes_core.Prelude.{ℕ, ℤ, ◌≡◌, refl, Text, some}
use recipes_core.Kitchen.{SysDays, Product, is_fresh}

unfoldable set_id : ℕ → Product → Product
set_id id product = record product { id = some id }

unfoldable set_name : Text → Product → Product
set_name name product = record product { name = name }

unfoldable set_manufacture_date : SysDays → Product → Product
set_manufacture_date date product = record product {
  dates = record { manufacture = some date; expiration = product.dates.expiration };
}

unfoldable set_expiration_date : SysDays → Product → Product
set_expiration_date date product = record product {
  dates = record { manufacture = product.dates.manufacture; expiration = some date };
}

unfoldable set_amount : ℤ → Product → Product
set_amount amount product = record product { amount = amount }

-- Only the expiration date decides whether a product is fresh.
is_fresh-setters :
    (today date : SysDays) (id : ℕ) (name : Text) (amount : ℤ) (product : Product)
    → is_fresh today
        (set_id id (set_name name (set_amount amount (set_manufacture_date date product))))
      ≡ is_fresh today product
unfolding is_fresh set_id set_name set_amount set_manufacture_date
is_fresh-setters today date id name amount product = refl

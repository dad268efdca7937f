-- ===== src/Examples/AddToDb.antt =====
-- examples/AddToDb.cpp, which fills a database with random products. The distributions of the standard
-- library are the parameter `uniform`, over the state of a generator; the arithmetic of days of
-- `std::chrono` and the creation of a directory are parameters too.
pub mod Laws
use recipes_core.Prelude.{
  ℕ, zero, suc, ◌<◌, ◌≤◌, pos, Text, text, Option, none, some, List, [], ◌∷◌,
}
use recipes_core.Kitchen.{SysDays, Dates, Product}
use recipes_core.Kitchen.Dimensions.{Dimension, gramm, kilogramm, milliliter, liter, piece}
use recipes_core.Sql.{Engine}
use recipes_core.Db.Connection.{Outcome, returned, thrown, Database}
use recipes_core.Db.Opening.{Disk, Opening, unopened, failed, made, construct}
use recipes_core.Db.Products.{insert_products}

abbrev pub db_path : Text
db_path = text "data/table.db"

pub record DateRange : Type 0 where
  pub start_year : ℕ
  pub end_year : ℕ

abbrev pub default_range : DateRange
default_range = record { start_year = 2020; end_year = 2026 }

-- The library: a draw between two bounds, both included, and the arithmetic of days.
pub record Library (G : Type 0) : Type 0 where
  pub uniform : ℕ → ℕ → G → ℕ × G
  pub days_between : SysDays → SysDays → ℕ
  pub plus_days : SysDays → ℕ → SysDays
  pub create_directories : Outcome (Unit {0})
  pub out_of_range : Text

-- The two static generators, of `MakeRandomDate` and of `MakeProducts`.
pub record Generators (G : Type 0) : Type 0 where
  pub dates : G
  pub products : G

abbrev pub product_names : List Text
product_names =
    text "Milk"
    ∷ text "Bread"
    ∷ text "Eggs"
    ∷ text "Butter"
    ∷ text "Cheese"
    ∷ text "Chicken"
    ∷ text "Rice"
    ∷ text "Pasta"
    ∷ text "Tomato"
    ∷ text "Apple"
    ∷ text "Banana"
    ∷ text "Potato"
    ∷ []

abbrev pub dimensions : List Dimension
dimensions = gramm ∷ kilogramm ∷ milliliter ∷ liter ∷ piece ∷ []

-- `std::array::at`, with `none` for std::out_of_range.
abbrev pub at : {A : Type 0} → List A → ℕ → Option A
at [] n = none
at (x ∷ xs) zero = some x
at (x ∷ xs) (suc n) = at xs n

module _ {G : Type 0} (library : Library G) where
  unfoldable pub make_random_date : DateRange → G → Dates × G
  make_random_date range gen =
      let start : SysDays = record { year = range.start_year; month = 1; day = 1 } in
      let end : SysDays = record { year = range.end_year; month = 12; day = 31 } in
      let days = library.uniform 0 (library.days_between start end) gen in
      let manufacture = library.plus_days start days.0 in
      let more = library.uniform 1 365 days.1 in
      (
        record {
          manufacture = some manufacture;
          expiration = some (library.plus_days manufacture more.0);
        },
        more.1,
      )

  abbrev pub placed : Option Text → Option Dimension → ℕ → Dates → Option Product
  placed (some name) (some dimension) amount dates =
      some (record {
        id = none;
        name = name;
        amount = pos amount;
        dimension = dimension;
        dates = dates;
      })
  placed _ _ amount dates = none

  -- The body of the loop: `none` is an exception of `at`.
  unfoldable pub make_product : Generators G → Option Product × Generators G
  unfolding make_random_date
  make_product gens =
      let name = library.uniform 0 11 gens.products in
      let dimension = library.uniform 0 4 name.1 in
      let amount = library.uniform 1 500 dimension.1 in
      let dates = make_random_date default_range gens.dates in
      (
        placed (at product_names name.0) (at dimensions dimension.0) amount.0 dates.0,
        record { dates = dates.1; products = amount.1 },
      )

  abbrev pub cons : Option Product → Option (List Product) → Option (List Product)
  cons (some p) (some ps) = some (p ∷ ps)
  cons _ _ = none

  unfoldable pub make_products_loop : ℕ → Generators G → Option (List Product)
  unfolding make_product
  make_products_loop zero gens = some []
  make_products_loop (suc n) gens =
      cons (make_product gens).0 (make_products_loop n (make_product gens).1)

  unfoldable pub make_products : Generators G → Option (List Product)
  unfolding make_products_loop
  make_products gens = make_products_loop 100 gens

  module _ (disk : Disk) (engine : Engine) where
    abbrev pub ended : Outcome (Unit {0}) × Database → Outcome ℕ × Option Database
    ended (returned _, db) = (returned 0, some db)
    ended (thrown what, db) = (thrown what, some db)

    abbrev pub filled : Option (List Product) → Database → Outcome ℕ × Option Database
    filled none db = (thrown library.out_of_range, some db)
    filled (some products) db = ended (insert_products engine products db)

    abbrev pub with_db : Generators G → Opening Database → Outcome ℕ × Option Database
    with_db gens (unopened what) = (thrown what, none)
    with_db gens (failed what store) = (thrown what, none)
    with_db gens (made db store) = filled (make_products gens) db

    -- `main`: its exit code or the exception that ends it, and the connection if there was one.
    unfoldable pub main : Generators G → Outcome ℕ × Option Database
    main gens = elim library.create_directories [
      | thrown what ↦ (thrown what, none)
      | returned _ ↦ with_db gens (construct disk db_path)
    ]

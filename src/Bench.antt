-- ===== src/Bench.antt =====
-- bench/ThreadOutput.cpp: the reports of generated recipes, in sequence and in parallel, in the
-- rounds that the benchmark library asks for. The clock, the arithmetic of days and the temporary
-- directory are parameters.
pub mod Laws
use recipes_core.Prelude.{
  ℕ, zero, suc, ◌+◌, ◌-◌, ◌%◌, ◌^◌, ℤ, pos, negsuc, ltb, Text, text, Bool, true, false, Option,
  none, some, List, [], ◌∷◌, ◌++◌, decimal, if◌then◌else◌,
}
use recipes_core.Kitchen.{SysDays, Dates, Product, Recipe}
use recipes_core.Kitchen.Dimensions.{piece}
use recipes_core.Args.{ArgsOut}
use recipes_core.Args.Paths.{join}
use recipes_core.Reports.{Outputs, World, reports_items, parallel_reports_items}
use recipes_core.Reports.Files.{ErrorCode, of_recipes}

-- `floor<days>(system_clock::now())`, the addition of days, and `temp_directory_path`.
pub record Platform : Type 0 where
  pub today : SysDays
  pub plus_days : SysDays → ℕ → SysDays
  pub temp_directory : Text

-- static_cast<int> of a size_t: the lower 32 bits, in two's complement.
unfoldable pub as_int : ℕ → ℤ
as_int n = let low = n % 2 ^ 32 in if ltb low (2 ^ 31) then pos low else negsuc (2 ^ 32 - low - 1)

unfoldable pub build_products_loop : Dates → ℕ → ℕ → List Product
unfolding as_int
build_products_loop dates i zero = []
build_products_loop dates i (suc n) =
    (record {
      id = none;
      name = text "product";
      amount = as_int (i + 1);
      dimension = piece;
      dates = dates;
    })
    ∷ build_products_loop dates (i + 1) n

module _ (platform : Platform) where
  unfoldable pub build_products : ℕ → List Product
  unfolding build_products_loop
  build_products count =
      build_products_loop
        (record {
          manufacture = some platform.today;
          expiration = some (platform.plus_days platform.today 7);
        })
        0 count

  unfoldable pub build_recipes : ℕ → List Recipe
  unfolding build_products
  build_recipes zero = []
  build_recipes (suc n) =
      (record { id = none; name = text "recipe"; ingredients = build_products 5 }) ∷ build_recipes n

  -- `ArgsOut{}` has full information.
  unfoldable pub make_args : Text → ArgsOut
  unfolding join
  make_args bench_name =
      let out_dir = join platform.temp_directory (text "recipes") in
      record {
        is_full_info = true;
        write_console = false;
        write_json = true;
        write_yaml = true;
        json_out_path = join out_dir (bench_name ++ text ".json");
        yaml_out_path = join out_dir (bench_name ++ text ".yaml");
      }

-- How the rounds end: `skipped` is SkipWithError, and `rounds` those without an error.
pub record Run (S : Type 0) : Type 0 where
  pub skipped : Bool
  pub rounds : ℕ
  pub world : World S

module _ {S : Type 0} where
  abbrev pub after_round : (World S → Run S) → Option ErrorCode × World S → Run S
  after_round rest (some error, w) = record { skipped = true; rounds = 0; world = w }
  after_round rest (none, w) = record (rest w) { rounds = suc (rest w).rounds }

  -- `for (auto _ : state)`, which breaks at the first error.
  unfoldable pub run_rounds : (World S → Option ErrorCode × World S) → ℕ → World S → Run S
  run_rounds report zero w = record { skipped = false; rounds = 0; world = w }
  run_rounds report (suc n) w = after_round (run_rounds report n) (report w)

module _ {S : Type 0} (platform : Platform) (outputs : Outputs S)
    (iterations recipes_count : ℕ) where
  unfoldable pub bm_reports_items_recipes : World S → Run S
  unfolding build_recipes make_args run_rounds
  bm_reports_items_recipes w =
      let recipes = build_recipes platform recipes_count in
      let args = make_args platform (text "reports_items_" ++ decimal recipes_count) in
      run_rounds (reports_items outputs (of_recipes recipes) args) iterations w

  unfoldable pub bm_parallel_reports_items_recipes : Bool → World S → Run S
  unfolding build_recipes make_args run_rounds
  bm_parallel_reports_items_recipes json_first w =
      let recipes = build_recipes platform recipes_count in
      let args = make_args platform (text "parallel_reports_items_" ++ decimal recipes_count) in
      run_rounds (parallel_reports_items outputs json_first (of_recipes recipes) args) iterations w

-- The registered numbers of recipes, of both benchmarks.
abbrev pub registered_counts : List ℕ
registered_counts = 10 ∷ 50 ∷ 100 ∷ 250 ∷ 500 ∷ 1000 ∷ 1500 ∷ 2000 ∷ 2500 ∷ 3000 ∷ []

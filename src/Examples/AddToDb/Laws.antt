-- ===== src/Examples/AddToDb/Laws.antt =====
-- What examples/AddToDb.cpp draws and leaves in the database.
use recipes_core.Prelude.{
  ℕ, false, zero, suc, ◌<◌, ◌≤◌, ◌≡◌, ◌≢◌, refl, ap, pos, Text, none, some, List, [], ◌∷◌, All,
  All-map, length, arith,
}
use recipes_core.Kitchen.{Product}
use recipes_core.Kitchen.Dimensions.Names.{IsNamed}
use recipes_core.Service.Validation.{IsAcceptable}
use recipes_core.Sql.{Engine, Statement, Tables}
use recipes_core.Sql.Statements.{negative}
use recipes_core.Db.Connection.{returned, Database}
use recipes_core.Db.Products.{insert_products}
use recipes_core.Db.Opening.{Disk, Store, made, connected, construct}
use recipes_core.Db.Opening.Laws.{Keeps}
use recipes_core.Db.Opening.Ready.{IsFaultless, construct-made}
use recipes_core.Db.Upserts.{IsFilled}
use recipes_core.Db.Upserts.Filling.{insert_products-IsFilled}
use recipes_core.Examples.AddToDb.{
  Library, Generators, at, product_names, dimensions, make_random_date, default_range, make_product,
  make_products_loop, make_products, main, db_path,
}

at-All :
    {A : Type 0} (P : A → Type 0) (xs : List A) (n : ℕ)
    → n < length xs
    → All P xs
    → (x : A) × (at xs n ≡ some x) × P x
at-All P [] n lt h = absurd (omega (arith, lt))
at-All P (x ∷ xs) zero lt h = (x, refl, h.0)
at-All P (x ∷ xs) (suc n) lt h = at-All P xs n (omega (arith, lt)) h.1

-- A product that the service would accept, with one of the five dimensions.
abbrev pub IsDrawn : Product → Type 0
IsDrawn p = IsAcceptable p × IsNamed p.dimension

abbrev IsName : Text → Type 0
IsName [] = ⊥
IsName (b ∷ bs) = Unit

IsName-filled : (name : Text) → IsName name → name ≢ []
IsName-filled [] h = absurd h
IsName-filled (b ∷ bs) h = λ e. ground arith

names-IsName : All IsName product_names
names-IsName = (tt, (tt, (tt, (tt, (tt, (tt, (tt, (tt, (tt, (tt, (tt, (tt, tt))))))))))))

dimensions-IsNamed : All IsNamed dimensions
dimensions-IsNamed = (tt, (tt, (tt, (tt, (tt, tt)))))

module _ {G : Type 0} (library : Library G) where
  -- A draw lies between its bounds.
  abbrev pub IsUniform : Type 0
  IsUniform =
      (low high : ℕ) (gen : G)
      → low ≤ high
      → (low ≤ (library.uniform low high gen).0) × ((library.uniform low high gen).0 ≤ high)

  main-returns :
      (disk : Disk) (engine : Engine) (gens : Generators G) (db after : Database) (s : Store)
      (ps : List Product)
      → library.create_directories ≡ returned tt
      → construct disk db_path ≡ made db s
      → make_products library gens ≡ some ps
      → insert_products engine ps db ≡ (returned tt, after)
      → main library disk engine gens ≡ (returned 0, some after)
  unfolding main
  main-returns disk engine gens db after s ps directory constructed drawn inserted =
      rw (main, directory, constructed, drawn, inserted) refl

  module _ (uniform : IsUniform) where
    make_product-IsDrawn :
        (gens : Generators G) → (p : Product) × ((make_product library gens).0 ≡ some p) × IsDrawn p
    unfolding make_product
    make_product-IsDrawn gens =
        let drawn_name = library.uniform 0 11 gens.products in
        let drawn_dimension = library.uniform 0 4 drawn_name.1 in
        let drawn_amount = library.uniform 1 500 drawn_dimension.1 in
        let dates = make_random_date library default_range gens.dates in
        let name_bound = uniform 0 11 gens.products (omega arith) in
        let dimension_bound = uniform 0 4 drawn_name.1 (omega arith) in
        let name =
          at-All IsName product_names drawn_name.0 (omega (arith, name_bound.1)) names-IsName in
        let dimension =
          at-All IsNamed dimensions drawn_dimension.0 (omega (arith, dimension_bound.1))
            dimensions-IsNamed in
        (
          record {
            id = none;
            name = name.0;
            amount = pos drawn_amount.0;
            dimension = dimension.0;
            dates = dates.0;
          },
          rw (name.1, dimension.1) refl,
          (record { named = IsName-filled name.0 name.2; stocked = omega arith }, dimension.2),
        )

    make_products_loop-IsDrawn :
        (n : ℕ) (gens : Generators G)
        → (ps : List Product) × (make_products_loop library n gens ≡ some ps)
          × (length ps ≡ n)
          × All IsDrawn ps
    unfolding make_products_loop
    make_products_loop-IsDrawn zero gens = ([], refl, refl, tt)
    make_products_loop-IsDrawn (suc n) gens =
        let first = make_product-IsDrawn gens in
        let later = make_products_loop-IsDrawn n (make_product library gens).1 in
        (first.0 ∷ later.0, rw (first.1, later.1) refl, ap suc later.2, (first.2, later.3))

    make_products-IsDrawn :
        (gens : Generators G)
        → (ps : List Product) × (make_products library gens ≡ some ps)
          × (length ps ≡ 100)
          × All IsDrawn ps
    unfolding make_products
    make_products-IsDrawn gens = make_products_loop-IsDrawn 100 gens

    drawn-stocked : (p : Product) → IsDrawn p → negative p.amount ≡ false
    drawn-stocked p h = ground (arith, h.0.stocked)

    -- With draws between their bounds, a directory that can be created, a file that can be opened
    -- and no faults, the program ends with 0. It has drawn a hundred products, all of which the
    -- service would accept, and none of the draws left an array; every name and dimension then has
    -- the values of the last product drawn with both, or those that the file had, and the file's
    -- recipes are as they were.
    pub main-IsFilled :
        (disk : Disk) (engine : Engine) (s : Store) (gens : Generators G)
        → library.create_directories ≡ returned tt
        → disk.open_file db_path ≡ returned s
        → IsFaultless disk
        → ((statement : Statement) (t : Tables) → engine.fault statement t ≡ none)
        → (ps : List Product) × (opened : Store) × (after : Database) × (main library disk engine
              gens
            ≡ (returned 0, some after))
          × (make_products library gens ≡ some ps)
          × (length ps ≡ 100)
          × All IsDrawn ps
          × Keeps s opened
          × IsFilled ps opened.tables after.tables
    main-IsFilled disk engine s gens directory file faultless sound =
        let drawn = make_products-IsDrawn gens in
        let ready = construct-made disk faultless db_path s file in
        let stocked =
          All-map IsDrawn (λ p. negative p.amount ≡ false) drawn.0 drawn-stocked drawn.3 in
        let inserted =
          insert_products-IsFilled engine sound drawn.0 (connected ready.0.tables) stocked refl in
        (
          drawn.0,
          ready.0,
          inserted.0,
          main-returns disk engine gens (connected ready.0.tables) inserted.0 ready.0 drawn.0
              directory ready.1 drawn.1 inserted.1,
          drawn.1,
          drawn.2,
          drawn.3,
          ready.3,
          inserted.2,
        )

-- ===== src/Tests/Databases.antt =====
-- The theorems on opening and filling a database, at concrete files and draws.
use recipes_core.Prelude.{
  ℕ, ◌≡◌, refl, text, false, true, none, some, List, [], ◌∷◌, All, length, arith,
}
use recipes_core.Kitchen.{Product}
use recipes_core.Kitchen.Dimensions.{piece}
use recipes_core.Sql.{Statement, Tables, empty_tables}
use recipes_core.Db.Connection.{returned, Database, opened}
use recipes_core.Db.Products.{insert_products}
use recipes_core.Db.Opening.{Disk, Store, Table, connected, made, construct}
use recipes_core.Db.Opening.Laws.{Keeps, KeepsRows, construct-KeepsRows}
use recipes_core.Db.Opening.Ready.{IsReady, IsFaultless, construct-made}
use recipes_core.Db.Upserts.{IsFilled}
use recipes_core.Db.Upserts.Filling.{insert_products-IsFilled}
use recipes_core.Examples.AddToDb.{Library, Generators, main, make_products, db_path}
use recipes_core.Examples.AddToDb.Laws.{IsDrawn, IsUniform, main-IsFilled}
use recipes_core.Tests.Fixtures.{egg, plain_engine}

-- A file that an older version left with products alone.
abbrev old_file : Store
old_file = record {
  has = λ table. elim table [ Table.products ↦ true | _ ↦ false ];
  tables = empty_tables;
  foreign_keys = false;
}

abbrev sound_disk : Disk
sound_disk = record {
  open_file = λ path. returned old_file;
  command_fault = λ command store. none;
  prepare_fault = λ statement store. none;
  no_such_table = text "no such table";
}

sound_disk-IsFaultless : IsFaultless sound_disk
sound_disk-IsFaultless = record { commands = λ c s. refl; statements = λ statement s. refl }

construct-made_example :
    (after : Store) × (construct sound_disk db_path ≡ made (connected after.tables) after)
    × IsReady after
    × Keeps old_file after
construct-made_example = construct-made sound_disk sound_disk-IsFaultless db_path old_file refl

-- A disk on which no statement can be compiled.
abbrev full_disk : Disk
full_disk = record sound_disk { prepare_fault = λ statement store. some (text "disk is full") }

construct-KeepsRows_example : KeepsRows old_file (construct full_disk db_path)
construct-KeepsRows_example = construct-KeepsRows full_disk db_path old_file refl

plain_engine_sound : (s : Statement) (t : Tables) → plain_engine.fault s t ≡ none
plain_engine_sound s t = refl

-- The second egg overwrites the first.
abbrev two_eggs : List Product
two_eggs = egg ∷ record egg { name = text "Salt" } ∷ record egg { dimension = piece } ∷ []

insert_products-IsFilled_example :
    (after : Database) × (insert_products plain_engine two_eggs opened ≡ (returned tt, after))
    × IsFilled two_eggs opened.tables after.tables
unfolding opened
insert_products-IsFilled_example =
    insert_products-IsFilled plain_engine plain_engine_sound two_eggs opened
      (refl, (refl, (refl, tt))) refl

-- Draws that are always the lower bound.
abbrev low_library : Library ℕ
low_library = record {
  uniform = λ low high gen. (low, gen);
  days_between = λ a b. 2556;
  plus_days = λ day n. day;
  create_directories = returned tt;
  out_of_range = text "array::at";
}

low_library-IsUniform : IsUniform low_library
low_library-IsUniform low high gen le = (omega arith, le)

abbrev seeds : Generators ℕ
seeds = record { dates = 1; products = 2 }

main-IsFilled_example :
    (ps : List Product) × (ready : Store) × (after : Database) × (main low_library sound_disk
        plain_engine seeds
      ≡ (returned 0, some after))
    × (make_products low_library seeds ≡ some ps)
    × (length ps ≡ 100)
    × All IsDrawn ps
    × Keeps old_file ready
    × IsFilled ps ready.tables after.tables
main-IsFilled_example =
    main-IsFilled low_library low_library-IsUniform sound_disk plain_engine old_file seeds refl refl
      sound_disk-IsFaultless plain_engine_sound

-- ===== src/Db/Opening/Laws.antt =====
-- What the constructors of src/db/DBManager.cpp leave in a file, whichever step fails.
use recipes_core.Prelude.{
  Text, ◌≡◌, refl, ◌∙◌, sym, Bool, true, false, Option-cases, inl, inr, List, [], ◌∷◌, all,
  if_cases, if◌then◌else◌,
}
use recipes_core.Sql.{Tables, Statement}
use recipes_core.Db.Connection.{returned}
use recipes_core.Db.Opening.{
  Table, products, recipes, recipe_ingredients, Store, Command, enable_foreign_keys,
  create_table_if_not_exists, Disk, Opening, unopened, failed, made, eq_table, emptied, run_command,
  names, init_commands, prepared_statements, exec_all, prepare_all, init_db, and_then, construct,
}

-- The rows and the counters of a table.
abbrev pub SameRows : Table → Tables → Tables → Type 0
SameRows products t u = (u.products ≡ t.products) × (u.products_seq ≡ t.products_seq)
SameRows recipes t u = (u.recipes ≡ t.recipes) × (u.recipes_seq ≡ t.recipes_seq)
SameRows recipe_ingredients t u = u.recipe_ingredients ≡ t.recipe_ingredients

-- Every table that was there is there with its rows.
abbrev pub Keeps : Store → Store → Type 0
Keeps before after =
    (table : Table)
    → before.has table ≡ true
    → (after.has table ≡ true) × SameRows table before.tables after.tables

abbrev pub KeepsRows : {A : Type 0} → Store → Opening A → Type 0
KeepsRows before (unopened what) = Unit {0}
KeepsRows before (failed what after) = Keeps before after
KeepsRows before (made a after) = Keeps before after

Keeps-refl : (s : Store) → Keeps s s
Keeps-refl s products h = (h, (refl, refl))
Keeps-refl s recipes h = (h, (refl, refl))
Keeps-refl s recipe_ingredients h = (h, refl)

Keeps-trans : (s t u : Store) → Keeps s t → Keeps t u → Keeps s u
Keeps-trans s t u f g products h =
    let a = f products h in let b = g products a.0 in (b.0, (b.1.0 ∙ a.1.0, b.1.1 ∙ a.1.1))
Keeps-trans s t u f g recipes h =
    let a = f recipes h in let b = g recipes a.0 in (b.0, (b.1.0 ∙ a.1.0, b.1.1 ∙ a.1.1))
Keeps-trans s t u f g recipe_ingredients h =
    let a = f recipe_ingredients h in let b = g recipe_ingredients a.0 in (b.0, b.1 ∙ a.1)

not_both : {P : Type 0} {b : Bool} → b ≡ false → b ≡ true → P
not_both e h = let clash : false ≡ true = sym e ∙ h in cc

created-Keeps :
    (table : Table) (s : Store)
    → s.has table ≡ false
    → Keeps s (record s {
      has = λ other. if eq_table table other then true else s.has other;
      tables = emptied table s.tables;
    })
unfolding eq_table emptied
created-Keeps products s e products h = not_both e h
created-Keeps products s e recipes h = (h, (refl, refl))
created-Keeps products s e recipe_ingredients h = (h, refl)
created-Keeps recipes s e recipes h = not_both e h
created-Keeps recipes s e products h = (h, (refl, refl))
created-Keeps recipes s e recipe_ingredients h = (h, refl)
created-Keeps recipe_ingredients s e recipe_ingredients h = not_both e h
created-Keeps recipe_ingredients s e products h = (h, (refl, refl))
created-Keeps recipe_ingredients s e recipes h = (h, (refl, refl))

pub run_command-Keeps : (c : Command) (s : Store) → Keeps s (run_command c s)
unfolding run_command
run_command-Keeps enable_foreign_keys s = Keeps-refl s
run_command-Keeps (create_table_if_not_exists table) s =
    if_cases (Keeps s) (s.has table) _ _ (λ _. Keeps-refl s) (λ e. created-Keeps table s e)

-- What was kept before a step is kept by it.
from_before : {A : Type 0} (s t : Store) (r : Opening A) → Keeps s t → KeepsRows t r → KeepsRows s r
from_before s t (unopened what) f h = tt
from_before s t (failed what u) f h = Keeps-trans s t u f h
from_before s t (made a u) f h = Keeps-trans s t u f h

and_then-KeepsRows :
    {A B : Type 0} (s : Store) (m : Opening A) (rest : A → Store → Opening B)
    → KeepsRows s m
    → ((a : A) (t : Store) → KeepsRows t (rest a t))
    → KeepsRows s (and_then m rest)
and_then-KeepsRows s (unopened what) rest h k = tt
and_then-KeepsRows s (failed what t) rest h k = h
and_then-KeepsRows s (made a t) rest h k = from_before s t (rest a t) h (k a t)

module _ (disk : Disk) where
  exec_all-KeepsRows : (cs : List Command) (s : Store) → KeepsRows s (exec_all disk cs s)
  unfolding exec_all
  exec_all-KeepsRows [] s = Keeps-refl s
  exec_all-KeepsRows (c ∷ cs) s = elim (Option-cases (disk.command_fault c s)) [
    | inl e ↦
        rw (KeepsRows, e)
          (from_before s (run_command c s) (exec_all disk cs (run_command c s))
            (run_command-Keeps c s) (exec_all-KeepsRows cs (run_command c s)))
    | inr e ↦ rw (KeepsRows, e.1) (Keeps-refl s)
  ]

  prepare_all-KeepsRows : (ss : List Statement) (s : Store) → KeepsRows s (prepare_all disk ss s)
  unfolding prepare_all
  prepare_all-KeepsRows [] s = Keeps-refl s
  prepare_all-KeepsRows (statement ∷ ss) s = elim (Option-cases (disk.prepare_fault statement s)) [
    | inl e ↦
        rw (KeepsRows, e)
          (if_cases (KeepsRows s) (all s.has (names statement)) _ _
            (λ _. prepare_all-KeepsRows ss s) (λ _. Keeps-refl s))
    | inr e ↦ rw (KeepsRows, e.1) (Keeps-refl s)
  ]

  -- Whatever fails, at whichever of the four commands and seventeen statements, the tables that the
  -- file had are there with their rows and counters after the constructor.
  pub construct-KeepsRows :
      (db_path : Text) (s : Store)
      → disk.open_file db_path ≡ returned s
      → KeepsRows s (construct disk db_path)
  unfolding construct init_db
  construct-KeepsRows db_path s e =
      rw (KeepsRows, e)
        (and_then-KeepsRows s (exec_all disk init_commands s) _ (exec_all-KeepsRows init_commands s)
          λ _ t.
            and_then-KeepsRows t (prepare_all disk prepared_statements t) _
              (prepare_all-KeepsRows prepared_statements t) (λ _ u. Keeps-refl u))

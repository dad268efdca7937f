-- ===== src/Db/Consistency.antt =====
-- The tables' constraints through any sequence of calls of src/db/DBManager.cpp, whatever fails.
pub mod Recipes
pub mod Calls
pub mod Cookable
use mathlib.Core.Option
use recipes_core.Prelude.{
  ℕ, ◌<◌, Text, ◌≡◌, refl, sym, subst, Bool, true, false, Option, none, some, List, [], ◌∷◌, any,
  if_cases, if◌then◌else◌, ◌==◌,
}
use recipes_core.Kitchen.{Product, Recipe}
use recipes_core.Sql
use recipes_core.Sql.{Tables, Statement, Engine}
use recipes_core.Sql.Statements
use recipes_core.Sql.Consistency.{IsConsistent, KeepsConsistent, empty_tables-IsConsistent}
use recipes_core.Sql.Consistency.Products.{
  create_product-KeepsConsistent, insert_product-KeepsConsistent,
  update_product_by_id-KeepsConsistent, delete_product_by_id-IsConsistent,
}
use recipes_core.Db.Connection.{
  Outcome, returned, thrown, Database, Db, ◌>>=◌, continue, pure, Effect, query, reset_statement,
  reset_failed, step, step_with, execute, transaction, committed, opened,
}
use recipes_core.Db.Atomicity.{reset_failed-kept}
use recipes_core.Db.Products.{
  insert_product, insert_products_loop, insert_products, create_product, update_product,
  delete_product, get_product, get_all_products, bind_product, new_product_id, inserted,
}

abbrev IsKept : {A : Type 0} → Outcome A × Database → Type 0
IsKept r = IsConsistent r.1.tables

abbrev Preserves : {A : Type 0} → Db A → Type 0
Preserves m = (db : Database) → IsConsistent db.tables → IsKept (m db)

-- A statement whose effect, if there is one, leaves consistent tables.
abbrev KeptEffect : {A : Type 0} → Option (Effect A) → Type 0
KeptEffect none = Unit {0}
KeptEffect (some e) = IsConsistent e.tables

continue-IsKept :
    {A B : Type 0} (f : A → Db B) (r : Outcome A × Database)
    → IsKept r
    → ((a : A) → Preserves (f a))
    → IsKept (continue r f)
continue-IsKept f (returned a, db) h k = k a db h
continue-IsKept f (thrown what, db) h k = h

bind-Preserves :
    {A B : Type 0} (m : Db A) (f : A → Db B)
    → Preserves m
    → ((a : A) → Preserves (f a))
    → Preserves (m >>= f)
unfolding ◌>>=◌
bind-Preserves m f h k db consistent = continue-IsKept f (m db) (h db consistent) k

-- The result r, or a fault of the storage at the connection db.
fault-IsKept :
    {A : Type 0} (fault : Option Text) (r : Outcome A × Database) (db : Database)
    → IsKept r
    → IsConsistent db.tables
    → IsKept {A = A} (elim fault [ none ↦ r | some what ↦ (thrown what, db) ])
fault-IsKept none r db h k = h
fault-IsKept (some what) r db h k = k

module _ (engine : Engine) where
  step_with-IsKept :
      {A : Type 0} (s : Statement) (what : Option Text) (effect : Option (Effect A)) (db : Database)
      → IsConsistent db.tables
      → KeptEffect effect
      → IsKept (step_with engine s what effect db)
  step_with-IsKept s (some what) effect db h k = h
  step_with-IsKept s none none db h k = h
  step_with-IsKept s none (some effect) db h k = k

  execute-Preserves :
      {A : Type 0} (s : Statement) (effect : Database → Option (Effect A))
      → ((db : Database) → IsConsistent db.tables → KeptEffect (effect db))
      → Preserves (execute engine s effect)
  unfolding execute ◌>>=◌ reset_statement step
  execute-Preserves s effect keeps db h =
      continue-IsKept (λ _. step engine s effect) (reset_statement engine s db)
        (subst IsConsistent (sym (reset_failed-kept engine s (db.failed s) db)) h)
        λ _ db' h'.
          step_with-IsKept s (engine.fault s db'.tables) (effect db') db' h' (keeps db' h')

  committed-IsKept :
      {A : Type 0} (before : Tables) (r : Outcome (Bool × A) × Database)
      → IsConsistent before
      → IsKept r
      → IsKept (committed engine before r)
  committed-IsKept before (thrown what, db) h k = h
  committed-IsKept before (returned (false, a), db) h k = h
  committed-IsKept before (returned (true, a), db) h k =
      fault-IsKept (engine.fault Sql.commit_transaction db.tables) (returned a, db)
        (record db { tables = before }) k h

  transaction-Preserves :
      {A : Type 0} (body : Db (Bool × A)) → Preserves body → Preserves (transaction engine body)
  unfolding transaction
  transaction-Preserves body keeps db h =
      fault-IsKept (engine.fault Sql.begin_transaction db.tables)
        (committed engine db.tables (body db)) db
        (committed-IsKept db.tables (body db) h (keeps db h)) h

  -- An effect computed from a statement's tables.
  map-KeptEffect :
      {A : Type 0} (g : Tables → Effect A) (o : Option Tables)
      → ((t : Tables) → (g t).tables ≡ t)
      → KeepsConsistent o
      → KeptEffect (Option.map g o)
  map-KeptEffect g none same h = tt
  map-KeptEffect g (some t) same h = subst IsConsistent (sym (same t)) h

  read-Preserves :
      {A : Type 0} (s : Statement) (read : Tables → A) → Preserves (execute engine s (query read))
  read-Preserves s read = execute-Preserves s (query read) λ db h. h

  then_pure-Preserves :
      {A B : Type 0} (m : Db A) (f : Database → A → B)
      → Preserves m
      → Preserves (m >>= λ a db. pure (f db a) db)
  then_pure-Preserves m f h = bind-Preserves m (λ a db. pure (f db a) db) h λ a db k. k

  module _ (grows : (n : ℕ) → n < engine.next_rowid n) where
    insert_product-Preserves : (p : Product) → Preserves (insert_product engine p)
    unfolding insert_product
    insert_product-Preserves p = execute-Preserves Sql.insert_product _ λ db h.
        let v = bind_product p in
        map-KeptEffect (inserted engine v db) _
          (λ t.
            if_cases (λ (e : Effect (Unit {0})). e.tables ≡ t)
              (any (Statements.has_key v.name v.dimension) db.tables.products) _ _ (λ _. refl)
              (λ _. refl))
          (insert_product-KeepsConsistent (new_product_id engine db.tables) v db.tables
            (grows db.tables.products_seq) h)

    insert_products-Preserves : (ps : List Product) → Preserves (insert_products engine ps)
    unfolding insert_products insert_products_loop
    insert_products-Preserves ps =
        transaction-Preserves _ (then_pure-Preserves (insert_products_loop engine ps) _ (loop ps))
      where
        loop : (ps : List Product) → Preserves (insert_products_loop engine ps)
        loop [] db h = h
        loop (p ∷ ps) db h =
            bind-Preserves (insert_product engine p) _ (insert_product-Preserves p) (λ _. loop ps)
              db h

    create_product-Preserves : (p : Product) → Preserves (create_product engine p)
    unfolding create_product
    create_product-Preserves p = then_pure-Preserves _ _ (
        execute-Preserves Sql.create_product _ λ db h.
          map-KeptEffect _ _ (λ t. refl)
            (create_product-KeepsConsistent (new_product_id engine db.tables) (bind_product p)
              db.tables (grows db.tables.products_seq) h))

    update_product-Preserves : (id : ℕ) (p : Product) → Preserves (update_product engine id p)
    unfolding update_product
    update_product-Preserves id p = then_pure-Preserves _ _ (
        execute-Preserves Sql.update_product_by_id _ λ db h.
          map-KeptEffect _ _ (λ t. refl)
            (update_product_by_id-KeepsConsistent id (bind_product p) db.tables h))

    delete_product-Preserves : (id : ℕ) → Preserves (delete_product engine id)
    unfolding delete_product
    delete_product-Preserves id = then_pure-Preserves _ _ (
        execute-Preserves Sql.delete_product_by_id _
          λ db h. delete_product_by_id-IsConsistent id db.tables h)

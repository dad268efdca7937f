-- ===== src/Repository/Catalogue.antt =====
-- What the product operations of `app::RecipeService` promise over `app::SqliteRecipeRepository`: a
-- catalogue that finds a product by its id, and the steps that a call can make in it.
pub mod Settled
pub mod Creating
pub mod Deleting
pub mod Updating
pub mod Refines
use mathlib.Core.Option
use recipes_core.Prelude.{
  ℕ, ◌≡◌, Bool, true, false, Option, some, none, List, [], ◌∷◌, eq_text, ◌&&◌, ◌==◌, is_some,
}
use recipes_core.Kitchen.{Product}
use recipes_core.Kitchen.Dimensions.{to_uint8}
use recipes_core.App.{ErrorCode, validation, not_found, storage, Expected, expected, unexpected}
use recipes_core.Service
use recipes_core.Service.Validation.{IsAcceptable}
use recipes_core.Sql
use recipes_core.Sql.{Engine}
use recipes_core.Sql.Statements.{select_product_by_id}
use recipes_core.Db.Connection.{Database}
use recipes_core.Db.Products.{read_product}
use recipes_core.Repository.{sqlite_repository}

-- The products by their ids, and whether the last creation, and the last update, was refused for
-- its name: the next one then only repeats that error.
pub record Catalogue : Type 0 where
  pub find : ℕ → Option Product
  pub creation_refused : Bool
  pub update_refused : Bool

pub data Call : Type 0 where
  create : Product → Call
  read : ℕ → Call
  update : ℕ → Product → Call
  delete : ℕ → Call

pub data Reply : Type 0 where
  product : Option Product → Reply
  done : Reply
  refused : ErrorCode → Reply

-- Name and dimension, which no two products share.
abbrev pub same_key : Product → Product → Bool
same_key p q = eq_text q.name p.name && (to_uint8 q.dimension == to_uint8 p.dimension)

-- The entries that a new name may share: none for a creation, its own for an update.
abbrev pub nobody : ℕ → Bool
nobody q = false

abbrev pub only : ℕ → ℕ → Bool
only id q = q == id

-- Only the entry of one id may change.
pub record Sets (before : Catalogue) (id : ℕ) (entry : Option Product) (after : Catalogue)
    : Type 0 where
  pub at_id : after.find id ≡ entry
  pub elsewhere : (q : ℕ) → only id q ≡ false → after.find q ≡ before.find q
  pub creations : after.creation_refused ≡ before.creation_refused
  pub updates : after.update_refused ≡ before.update_refused

-- No other product has the name and dimension of p.
abbrev pub IsFree : (ℕ → Bool) → Catalogue → Product → Type 0
IsFree own before p =
    (q : ℕ) (r : Product) → own q ≡ false → before.find q ≡ some r → same_key p r ≡ false

-- Another product has them.
pub record IsTaken (own : ℕ → Bool) (before : Catalogue) (p : Product) : Type 0 where
  pub holder : ℕ
  pub held : Product
  pub other : own holder ≡ false
  pub found : before.find holder ≡ some held
  pub same : same_key p held ≡ true

-- The steps of the catalogue: a call, what is answered, and the catalogue afterwards.
pub data Step (before : Catalogue) : Call → Reply → Catalogue → Type 0 where
  created :
      (p : Product) (id : ℕ) (after : Catalogue)
      → IsAcceptable p
      → before.creation_refused ≡ false
      → IsFree nobody before p
      → before.find id ≡ none
      → Sets before id (some (record p { id = some id })) after
      → Step before (create p) (product (some (record p { id = some id }))) after
  creation_conflicts :
      (p : Product)
      → IsAcceptable p
      → before.creation_refused ≡ false
      → IsTaken nobody before p
      → Step before (create p) (refused storage) (record before { creation_refused = true })
  creation_repeats :
      (p : Product)
      → IsAcceptable p
      → before.creation_refused ≡ true
      → Step before (create p) (refused storage) (record before { creation_refused = false })
  creation_invalid :
      (p : Product) → ¬ IsAcceptable p → Step before (create p) (refused validation) before
  found : (id : ℕ) → Step before (read id) (product (before.find id)) before
  updated :
      (id : ℕ) (p old : Product) (after : Catalogue)
      → IsAcceptable p
      → before.update_refused ≡ false
      → before.find id ≡ some old
      → IsFree (only id) before p
      → Sets before id (some (record p { id = some id })) after
      → Step before (update id p) done after
  update_conflicts :
      (id : ℕ) (p old : Product)
      → IsAcceptable p
      → before.update_refused ≡ false
      → before.find id ≡ some old
      → IsTaken (only id) before p
      → Step before (update id p) (refused storage) (record before { update_refused = true })
  update_repeats :
      (id : ℕ) (p : Product)
      → IsAcceptable p
      → before.update_refused ≡ true
      → Step before (update id p) (refused storage) (record before { update_refused = false })
  update_missing :
      (id : ℕ) (p : Product)
      → IsAcceptable p
      → before.update_refused ≡ false
      → before.find id ≡ none
      → Step before (update id p) (refused not_found) before
  update_invalid :
      (id : ℕ) (p : Product)
      → ¬ IsAcceptable p
      → Step before (update id p) (refused validation) before
  deleted :
      (id : ℕ) (old : Product) (after : Catalogue)
      → before.find id ≡ some old
      → Sets before id none after
      → Step before (delete id) done after
  deletion_missing :
      (id : ℕ) (after : Catalogue)
      → before.find id ≡ none
      → Sets before id none after
      → Step before (delete id) (refused not_found) after

pub data Steps : Catalogue → List Call → List Reply → Catalogue → Type 0 where
  finished : (c : Catalogue) → Steps c [] [] c
  next :
      (before between after : Catalogue) (c : Call) (r : Reply) (cs : List Call) (rs : List Reply)
      → Step before c r between
      → Steps between cs rs after
      → Steps before (c ∷ cs) (r ∷ rs) after

-- The catalogue that a connection holds.
abbrev pub catalogue : Database → Catalogue
catalogue db = record {
  find = λ id. Option.map read_product (select_product_by_id id db.tables.products);
  creation_refused = is_some (db.failed Sql.create_product);
  update_refused = is_some (db.failed Sql.update_product_by_id);
}

abbrev pub answer : {A : Type 0} → (A → Reply) → Expected A × Database → Reply × Database
answer reply (expected a, db) = (reply a, db)
answer reply (unexpected e, db) = (refused e.code, db)

module _ (engine : Engine) where
  -- A call of the service, its answer without the text of an error.
  unfoldable pub call : Call → Database → Reply × Database
  call (create p) db =
      answer (λ q. product (some q)) (Service.create_product (sqlite_repository engine) p db)
  call (read id) db = answer product (Service.get_product (sqlite_repository engine) id db)
  call (update id p) db =
      answer (λ _. done) (Service.update_product (sqlite_repository engine) id p db)
  call (delete id) db = answer (λ _. done) (Service.delete_product (sqlite_repository engine) id db)

  unfoldable pub calls : List Call → Database → List Reply × Database
  unfolding call
  calls [] db = ([], db)
  calls (c ∷ cs) db =
      let first = call c db in let later = calls cs first.1 in (first.0 ∷ later.0, later.1)

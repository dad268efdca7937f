-- ===== src/Db/Consistency/Cookable.antt =====
-- `DBManager::GetCookableRecipes` (src/db/DBManager.cpp) on a database as calls leave it.
use recipes_core.Prelude.{ℕ, ◌<◌, ◌≡◌, ◌↔◌, true, List, [], ◌∷◌, Pairs, any_none}
use recipes_core.Sql.{ProductRow, RecipeRow, Engine}
use recipes_core.Sql.Statements.{has_key, is_cookable}
use recipes_core.Sql.Consistency.{DifferentKeys}
use recipes_core.Sql.Cookable.{UniqueKeys, IsCookable, is_cookable_iff}
use recipes_core.Db.Connection.{opened}
use recipes_core.Db.Consistency.Calls.{Call, calls, calls-IsConsistent}

Pairs-UniqueKeys : (ps : List ProductRow) → Pairs DifferentKeys ps → UniqueKeys ps
Pairs-UniqueKeys [] h = tt
Pairs-UniqueKeys (p ∷ ps) h =
    (any_none (has_key p.name p.dimension) ps h.0, Pairs-UniqueKeys ps h.1)

-- After any sequence of calls on a new database, whichever of them fail, the query's condition holds
-- of a recipe exactly when each of its ingredients has a product of that name and dimension with at
-- least the required amount. The condition is that a new row id is larger than the counter.
calls-is_cookable_iff :
    (engine : Engine)
    → ((n : ℕ) → n < engine.next_rowid n)
    → (cs : List Call) (r : RecipeRow)
    → (is_cookable (calls engine cs opened).tables r ≡ true)
      ↔ IsCookable (calls engine cs opened).tables r
calls-is_cookable_iff engine grows cs r =
    let t = (calls engine cs opened).tables in
    is_cookable_iff t r
      (Pairs-UniqueKeys t.products (calls-IsConsistent engine grows cs).products.keys)

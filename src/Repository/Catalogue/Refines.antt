-- ===== src/Repository/Catalogue/Refines.antt =====
-- The product operations of the service over the SQLite repository refine the catalogue.
use recipes_core.Prelude.{List, [], ◌∷◌, All, refl}
use recipes_core.Sql.{Engine}
use recipes_core.Sql.Consistency.{empty_tables-IsConsistent}
use recipes_core.Db.Connection.{Database, opened}
use recipes_core.Repository.Catalogue.{
  Call, create, read, update, delete, Steps, finished, next, catalogue, call, calls,
}
use recipes_core.Repository.Catalogue.Settled.{IsReadable, IsSettled, IsReliable, Serves}
use recipes_core.Repository.Catalogue.Creating.{create-Serves}
use recipes_core.Repository.Catalogue.Updating.{update-Serves}
use recipes_core.Repository.Catalogue.Deleting.{read-Serves, delete-Serves}

-- The products that a call stores can be read again.
abbrev pub IsReadableCall : Call → Type 0
IsReadableCall (create p) = IsReadable p
IsReadableCall (update id p) = IsReadable p
IsReadableCall _ = Unit

pub opened-IsSettled : IsSettled opened
unfolding opened
opened-IsSettled = record {
  consistent = empty_tables-IsConsistent;
  dimensions = tt;
  reading = refl;
  deleting = refl;
}

module _ (engine : Engine) (reliable : IsReliable engine) where
  pub call-Serves :
      (c : Call) (db : Database)
      → IsReadableCall c
      → IsSettled db
      → Serves engine db c (call engine c db)
  call-Serves (create p) db readable h = create-Serves engine reliable p db readable h
  call-Serves (read id) db readable h = read-Serves engine reliable id db h
  call-Serves (update id p) db readable h = update-Serves engine reliable id p db readable h
  call-Serves (delete id) db readable h = delete-Serves engine reliable id db h

  -- Through any sequence of calls on a settled connection, as a new one is, the service over SQLite
  -- makes the steps of the catalogue, with its replies: a product that is created or updated is
  -- found from then on by its id as it was given, until it is updated or deleted, a call changes no
  -- other product, no id is given twice while its product is there, and a call fails for an
  -- invalid product, a missing id, a name that another product has, and once more after that. The
  -- engine has no faults, draws ids beyond its counter, and repeats at `reset` the error of a failed
  -- step; the given amounts are ints, as their type says, and the given dimensions and dates are
  -- ones that the columns hold.
  pub calls-Steps :
      (cs : List Call) (db : Database)
      → All IsReadableCall cs
      → IsSettled db
      → Steps (catalogue db) cs (calls engine cs db).0 (catalogue (calls engine cs db).1)
  unfolding calls
  calls-Steps [] db readable h = finished (catalogue db)
  calls-Steps (c ∷ cs) db readable h =
      let first = call engine c db in
      let served = call-Serves c db readable.0 h in
      next (catalogue db) (catalogue first.1) (catalogue (calls engine cs first.1).1) c first.0 cs
        (calls engine cs first.1).0 served.0 (calls-Steps cs first.1 readable.1 served.1)

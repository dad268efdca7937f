-- ===== src/Db.antt =====
-- `db::DBManager` (src/db/DBManager.cpp, include/db/DBManager.hpp) over the statements of Sql. An
-- operation is a function of the connection; an exception is a result, and what was changed before
-- it stays unless a transaction takes it back.
pub mod Connection
pub mod Products
pub mod Recipes
pub mod Atomicity
pub mod Consistency
pub mod Refusals
pub mod Reading
pub mod Opening
pub mod Upserts

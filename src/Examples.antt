-- ===== src/Examples.antt =====
-- Programs of the repository beside the server.
pub mod AddToDb

-- ===== src/Server.antt =====
-- `net::Server` (src/server/Server.cpp, include/server/Server.hpp): the listeners and their threads
-- in Lifecycle, what one connection does in Sessions.
pub mod Lifecycle
pub mod Sessions

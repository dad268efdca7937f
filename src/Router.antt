-- ===== src/Router.antt =====
-- The REST router: src/server/Router.cpp and include/server/Router.hpp.
pub mod Ids
pub mod Responses
pub mod Bodies
pub mod Handlers
pub mod Products
pub mod Recipes
pub mod Dispatch

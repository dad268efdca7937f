-- ===== src/Lib.antt =====
-- Verification of recipes, a REST server over SQLite for products and recipes, from the request's
-- target down to the rows of the tables.
--
-- The program's parts and how they interact. main reads the command line (src/io/args/Args.cpp) and
-- the server's configuration (src/config/ServerConfig.cpp) and starts the server
-- (src/server/Server.cpp), whose sessions give each request to net::Router (src/server/Router.cpp),
-- which reads the body (src/api/Json.cpp) and submits one operation to app::DatabaseExecutor, a
-- worker thread over a bounded queue. The worker runs the
-- operation on app::RecipeService, which validates and calls the port app::RecipeRepository;
-- app::SqliteRecipeRepository implements it by db::DBManager, whose prepared statements stand in
-- include/types/SQL/Types.hpp.
--
-- Files, with the code that they model:
--   Prelude     tests on numbers, lists, texts as lists of bytes, signed integers; no code
--   Kitchen     include/types/kitchen/Types.hpp: Dates, Dimension, Product, Recipe
--   App         include/app/Error.hpp and the port of include/app/RecipeRepository.hpp, as a record
--               of operations over the state of the storage; DatabaseExecutor is the interface that
--               the router submits to
--   Service     src/app/RecipeService.cpp, each method over any repository
--   Executor    src/app/DatabaseExecutor.cpp: Submit, Run and Stop as steps of one state
--   Fields      the tables glz::meta of names of members, which Glaze reads; Api.Fields, Config.Fields
--               and Reports.Views.Fields are those of the code
--   Http, Api   the part of Boost.Beast messages that is used; include/api, src/api/Json.cpp
--   Router      src/server/Router.cpp: Ids (ParseProductId, ParseRecipeId), Responses, Bodies
--               (ParseProduct, ParseRecipe), Handlers (what the coroutines share), Products and
--               Recipes (a coroutine each), Dispatch (Handle, HandleProducts, HandleAsync)
--   Sql         the tables and statements of include/types/SQL/Types.hpp
--   Calendar    ToDateString and FromDateString of src/db/DBManager.cpp
--   Db          the operations of src/db/DBManager.cpp: Connection (exceptions, ResetStatement,
--               transactions), Opening (InitDb and the constructors), Products, Recipes, Reading
--               (FetchRecipes)
--   Repository  src/app/SqliteRecipeRepository.cpp; Catalogue is an abstract description of what the
--               product operations do under the service, and no code
--   Composition the router over the executor, the service and the SQLite repository, as src/main.cpp
--               has them; Worker is the executor between two requests
--   Config      src/config/ServerConfig.cpp, include/config/ServerConfig.hpp
--   Args        src/io/args/Args.cpp, include/io/args/Args.hpp
--   Server      src/server/Server.cpp: Lifecycle (Start, Stop, the listeners, the set of sessions),
--               Sessions (Session, TlsSession, SendPayloadLimitResponse)
--   Main        src/main.cpp
--   Reports     src/io/IO.cpp, include/io/IO.hpp; Views and Files (src/io/json/Report.cpp,
--               src/io/yaml/Report.cpp), Console (src/io/console/Report.cpp)
--   Units       include/unites/Types.hpp, over the arithmetic of double as a parameter
--   Examples    examples/AddToDb.cpp
--   Bench       bench/ThreadOutput.cpp
--   Tests       each theorem at a concrete input
-- A child module without code of its own holds the theorems about its parent.
--
-- How the code is read. A method that fails returns a value of Expected or Result; a method that
-- throws is a function of the connection with an Outcome. A coroutine is a function of the world W
-- of its executor: `co_await AsyncSubmit(f)` applies the executor's `async_submit` to f. A text is
-- a list of bytes, an amount a signed integer, a row id a natural number; parsing an id keeps the
-- bound 2^63 of int64_t written out. A date is kept as year, month and day, for years from 0 on.
-- No loop of the code runs on fuel: each is a recursion on its list, and the worker's loop is a
-- sequence of events, whose number of steps to the end is a theorem. Only the digits of a numeral
-- are bounded by a number, the value plus one, which is more than the digits that there are.
--
-- A session of the server is a function of its turns: whether the socket is open, how the read
-- ends and whether the write succeeds. A server is a state and a sequence of events (starts, stops,
-- accepted and ended sessions). A report is a function of the console's lines and of the files.
--
-- Parameters stand for what is not in this repository: Glaze (Api.Glaze: the readers and writers of
-- JSON, and their failures; Reports.Files.Writer: the writers of reports), the file system and YAML
-- (Config.ConfigSource, Reports.Files.FileSystem), SQLite with SQLiteCpp (Sql.Engine: row ids, the
-- order of rows, faults, the text of a constraint's error, and what `reset` throws after a failed
-- step; Db.Opening.Disk: the opening of files), Boost.Asio with OpenSSL
-- (Server.Lifecycle.Network, the turns of a session), and the making of threads, which can throw
-- (Server.Lifecycle.Network, Main.Outside).
--
-- Not modelled: the constraints of include/concepts/Concepts.hpp; the signal handler of main; the
-- items that the benchmark library counts. Requests of a history are answered one after the other,
-- by an executor that serves an operation at once, and only those for products. Tasks of a parallel
-- report run one after the other, in an order that is a parameter. Memory, moves and
-- references are values here, which nothing in the modelled code can tell apart.
pub mod Prelude
pub mod Kitchen
pub mod App
pub mod Service
pub mod Http
pub mod Fields
pub mod Api
pub mod Router
pub mod Sql
pub mod Calendar
pub mod Db
pub mod Repository
pub mod Composition
pub mod Config
pub mod Args
pub mod Executor
pub mod Server
pub mod Main
pub mod Examples
pub mod Bench
pub mod Tests
pub mod Reports
pub mod Units

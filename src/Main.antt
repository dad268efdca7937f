-- ===== src/Main.antt =====
-- `main` of src/main.cpp: the command line, the configuration, the executor and the server, one after
-- the other, up to the exit code.
pub mod Ending
use recipes_core.Prelude.{
  ℕ, Text, text, Bool, true, false, not, Option, none, some, List, [], ◌∷◌, ◌++◌, ◌==◌, decimal,
  if◌then◌else◌,
}
use recipes_core.Api.{Attempt, returns, throws, Result, value, error}
use recipes_core.Args.{Args, parse_args, build_usage}
use recipes_core.Config.{ConfigSource, ServerConfig, load_server_config}
use recipes_core.Service.{is_empty}
use recipes_core.Executor
use recipes_core.Executor.{Executor}
use recipes_core.Server.Lifecycle.{
  Network, Server, construct, start, stop, http_port, https_port, Event, run,
}

-- All that main depends on: the build's project root, files, sockets, whether SQLite opens a
-- database (`none`) or throws, whether the executor's thread is made or throws; what happens to the
-- running server while main waits for a signal, whether one arrives, and the sessions that then end
-- in time. D is what the executor's service works on.
pub record Outside (D : Type 0) : Type 0 where
  pub project_root : Text
  pub source : ConfigSource
  pub network : Network
  pub open_database : Text → Option Text
  pub database : Text → D
  pub create_thread : Option Text
  pub until_signal : List Event
  pub is_signalled : Bool
  pub ended : List ℕ

-- A returned exit code, `std::terminate` for an exception that nothing catches, or a wait for a signal
-- that does not come.
pub data Exit : Type 0 where
  returned : ℕ → Exit
  terminated : Text → Exit
  waiting : Exit

-- With the server as main leaves it, if there is one.
pub record Run : Type 0 where
  pub exit : Exit
  pub out : Text
  pub err : Text
  pub server : Option Server

abbrev pub line : Text → Text
line s = s ++ b'\n' ∷ []

abbrev pub quiet : Exit → Run
quiet exit = record { exit = exit; out = []; err = []; server = none }

module _ {D : Type 0} (outside : Outside D) where
  -- `std::cout << "HTTP port: " …`
  unfoldable pub port_lines : Server → Text
  unfolding decimal http_port https_port
  port_lines s =
      line (text "HTTP port: " ++ decimal (http_port s))
      ++ (if https_port s == 0 then [] else line (text "HTTPS port: " ++ decimal (https_port s)))

  -- From the wait on; `s` is the server then.
  abbrev pub signalled : Server → Exit × Server
  unfolding stop
  signalled s = if outside.is_signalled then (returned 0, stop outside.ended s) else (waiting, s)

  abbrev pub after_start : Attempt (Result (Unit {0})) × Server → Run
  unfolding port_lines run stop
  after_start (throws what, s) = record (quiet (terminated what)) { server = some s }
  after_start (returns (error message), s) = record {
    exit = returned 4;
    out = [];
    err = line (text "Failed to start server: " ++ message);
    server = some s;
  }
  after_start (returns (value _), s) =
      let last = signalled (run outside.network s outside.until_signal) in
      record { exit = last.0; out = port_lines s; err = []; server = some last.1 }

  abbrev pub with_worker : ServerConfig → Option Text → Run
  unfolding port_lines run stop start construct
  with_worker config (some what) = quiet (terminated what)
  with_worker config none = after_start (start outside.network (construct config))

  -- The executor is only kept alive here: the server refers to it.
  abbrev pub with_executor : ServerConfig → Option (Executor D D) → Run
  unfolding port_lines run stop start construct
  with_executor config none = quiet (terminated (text "Database queue capacity must be positive"))
  with_executor config (some executor) = with_worker config outside.create_thread

  -- `DatabaseExecutor database_executor{…}`: its members first, then its body.
  abbrev pub with_database : ServerConfig → Option Text → Run
  unfolding port_lines run stop start construct Executor.construct
  with_database config (some what) = quiet (terminated what)
  with_database config none =
      with_executor config
        (Executor.construct (outside.database config.database_path) config.database_queue_capacity)

  abbrev pub with_config : Attempt (Result ServerConfig) → Run
  unfolding port_lines run stop start construct Executor.construct
  with_config (throws what) = quiet (terminated what)
  with_config (returns (error message)) = record (quiet (returned 3)) {
    err = line (text "Failed to load server configuration: " ++ message);
  }
  with_config (returns (value config)) =
      with_database config (outside.open_database config.database_path)

  abbrev pub program_name : List Text → Text
  program_name [] = text "recipes"
  program_name (name ∷ rest) = name

  abbrev pub with_args : Text → Result Args → Run
  unfolding port_lines run stop start construct Executor.construct load_server_config build_usage
  with_args name (error message) = record (quiet (returned 2)) {
    err = line message ++ build_usage name;
  }
  with_args name (value args) =
      if args.show_help
      then record (quiet (returned 0)) { out = build_usage name }
      else if is_empty args.app.server_config_path
      then quiet (returned 0)
      else with_config (load_server_config outside.source args.app.server_config_path)

  unfoldable pub main : List Text → Run
  unfolding port_lines run stop start construct Executor.construct load_server_config build_usage
      parse_args
  main argv = with_args (program_name argv) (parse_args outside.project_root argv)

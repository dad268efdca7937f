-- ===== src/Tests/Sessions.antt =====
-- The server's and the program's theorems at concrete sessions and networks.
use recipes_core.Prelude.{
  ℕ, ◌≡◌, refl, Text, text, true, false, Option, none, some, inl, inr, List, [], ◌∷◌, ◌++◌, map,
}
use recipes_core.Api.{value}
use recipes_core.Config.{TlsConfig, default_config}
use recipes_core.Http.{get, delete_, Request, Response}
use recipes_core.Router.Dispatch.{handle_async}
use recipes_core.Server.Sessions.{
  Turn, stopped, other_error, body_limit, accepted, session, tls_session, with_hsts,
}
use recipes_core.Server.Sessions.Serving.{whole, plain, serve, sessions-serve}
use recipes_core.Server.Sessions.Order.{IsOrderly, sessions-IsOrderly}
use recipes_core.Server.Sessions.Ending.{HasEnded, sessions-HasEnded}
use recipes_core.Server.Sessions.Incomplete.{completed, sessions-completed}
use recipes_core.Server.Lifecycle.{
  Network, construct, start, stop, run, http_port, https_port, starts, accepts, ends,
}
use recipes_core.Server.Lifecycle.Starting.{IsStopped, Starts, start-Starts}
use recipes_core.Server.Lifecycle.Running.{IsSound, run-construct-IsSound}
use recipes_core.Main.{Outside, main}
use recipes_core.Main.Ending.{IsExplained, IsLeft, main-IsOver}
use recipes_core.Tests.Fixtures.{plain_glaze, counting_repository, direct_executor, request_for}
use recipes_core.Tests.Configs.{one_file}

abbrev router : Request → ℕ → Option Response × ℕ
router = handle_async plain_glaze counting_repository (some direct_executor)

abbrev named_tls : TlsConfig
named_tls = record {
  certificate_path = text "cert.pem";
  private_key_path = text "key.pem";
  certificate_chain_path = [];
  server_name = text "recipes.test";
  enable_hsts = true;
}

-- The second request ends the connection, so the third is not handled.
abbrev requests : List Request
requests =
    request_for get (text "/v1/products")
    ∷ record (request_for delete_ (text "/v1/products/1")) { keep_alive = false }
    ∷ request_for get (text "/v1/recipes")
    ∷ []

sessions-serve_example :
    let served = serve router (plain router) requests 0 in
    let last = session router (map whole requests) (accepted 0) in
    let tls_last =
      tls_session router named_tls true
        (some (text "recipes.test"))
        (map whole requests)
        (accepted 0) in
    (last.sent ≡ served.0)
    × (last.world ≡ served.1)
    × (tls_last.sent ≡ map (with_hsts true) served.0)
    × (tls_last.world ≡ served.1)
sessions-serve_example =
    sessions-serve router named_tls (some (text "recipes.test")) requests 0 (inr refl)

-- A whole request, one that breaks off, and one over the limit.
abbrev turns : List Turn
turns =
    whole (request_for get (text "/v1/products"))
    ∷ record (whole (request_for get [])) {
      read = stopped (other_error 104) (request_for get (text "/v1/pro"));
    }
    ∷ record (whole (request_for get [])) { read = stopped body_limit (request_for get []) }
    ∷ []

sessions-IsOrderly_example :
    IsOrderly (session router turns (accepted 0))
    × IsOrderly (tls_session router named_tls true none turns (accepted 0))
sessions-IsOrderly_example = sessions-IsOrderly router named_tls true none turns 0

-- The socket is closed before the third turn.
abbrev shut : Turn
shut = record (whole (request_for get [])) { is_open = false }

abbrev two_turns : List Turn
two_turns =
    map whole (request_for get (text "/v1/products") ∷ request_for get (text "/v1/recipes") ∷ [])

sessions-HasEnded_example :
    let cut = two_turns ++ shut ∷ [] in
    let all = two_turns ++ shut ∷ turns in
    HasEnded (session router cut (accepted 0)) (session router all (accepted 0))
    × HasEnded
        (tls_session router named_tls true (some (text "recipes.test")) cut (accepted 0))
        (tls_session router named_tls true (some (text "recipes.test")) all (accepted 0))
sessions-HasEnded_example =
    sessions-HasEnded router named_tls true (some (text "recipes.test")) two_turns shut turns 0
      (inl refl)

sessions-completed_example :
    (session router (map completed turns) (accepted 0) ≡ session router turns (accepted 0))
    × (tls_session router named_tls true
          (some (text "recipes.test"))
          (map completed turns)
          (accepted 0)
        ≡ tls_session router named_tls true (some (text "recipes.test")) turns (accepted 0))
sessions-completed_example =
    sessions-completed router named_tls true (some (text "recipes.test")) turns (accepted 0)

-- A network on which everything works, on the port 8080.
abbrev local_network : Network
local_network = record {
  make_address = λ address. value (record { is_v6 = false; bytes = address });
  open_acceptor = λ v6. none;
  set_reuse_address = λ address. none;
  bind = λ address port. none;
  listen = λ address port. none;
  local_port = λ address port. some 8080;
  tls_call = λ earlier call. none;
  check_private_key = λ calls. true;
  reserve = λ count. none;
  create_thread = λ index. none;
}

fresh : IsStopped (construct default_config)
unfolding construct
fresh = record { started = refl; acceptor = refl; https_acceptor = refl; workers = refl }

start-Starts_example :
    Starts local_network (construct default_config) (start local_network (construct default_config))
start-Starts_example = start-Starts local_network (construct default_config) fresh

run-construct-IsSound_example :
    let s = run local_network (construct default_config) (starts ∷ accepts 7 ∷ ends 7 ∷ []) in
    IsSound local_network s
    × IsStopped (stop (7 ∷ []) s)
    × (http_port (stop (7 ∷ []) s) ≡ 0)
    × (https_port (stop (7 ∷ []) s) ≡ 0)
run-construct-IsSound_example =
    run-construct-IsSound local_network default_config (starts ∷ accepts 7 ∷ ends 7 ∷ []) (7 ∷ [])

abbrev host : Outside ℕ
host = record {
  project_root = text "/srv";
  source = one_file;
  network = local_network;
  open_database = λ path. none;
  database = λ path. 0;
  create_thread = none;
  until_signal = accepts 7 ∷ [];
  is_signalled = true;
  ended = 7 ∷ [];
}

abbrev arguments : List Text
arguments = text "recipes" ∷ text "--server-config=server.json" ∷ []

main-IsOver_example :
    IsExplained host arguments (main host arguments).exit
    × IsLeft host (main host arguments).exit (main host arguments).server
main-IsOver_example = main-IsOver host arguments

-- ===== src/Server/Lifecycle.antt =====
-- `Server::Start`, `ConfigureListener`, `ConfigureTls`, `Stop`, the ports and the set of sessions of
-- src/server/Server.cpp, include/server/Server.hpp. The operations of sockets and of OpenSSL are the
-- parameter `Network`: what they answer, with `none` for no error.
pub mod Workers
pub mod Starting
pub mod Running
use recipes_core.Prelude.{
  ℕ, zero, suc, Text, text, Bool, true, false, not, ◌&&◌, ◌||◌, Option, none, some, List, [], ◌∷◌,
  ◌==◌, leb, ◌++◌, keep, any, if◌then◌else◌,
}
use recipes_core.Api.{Attempt, returns, throws, Result, value, error}
use recipes_core.Config.{ServerConfig, ListenerConfig, TlsConfig}
use recipes_core.Service.{is_empty}

pub record Address : Type 0 where
  pub is_v6 : Bool
  pub bytes : Text

-- The calls on the TLS context that throw.
pub data TlsCall : Type 0 where
  set_options : TlsCall
  use_certificate_chain_file use_private_key_file load_verify_file : Text → TlsCall

-- `make_address`; the four calls on an acceptor; the port that `local_endpoint` then gives; what a
-- call on a TLS context throws after the earlier ones on it, and the check of its key; and what
-- `workers_.reserve` and the creation of a thread, by its index, throw.
pub record Network : Type 0 where
  pub make_address : Text → Result Address
  pub open_acceptor : Bool → Option Text
  pub set_reuse_address : Address → Option Text
  pub bind : Address → ℕ → Option Text
  pub listen : Address → ℕ → Option Text
  pub local_port : Address → ℕ → Option ℕ
  pub tls_call : List TlsCall → TlsCall → Option Text
  pub check_private_key : List TlsCall → Bool
  pub reserve : ℕ → Option Text
  pub create_thread : ℕ → Option Text

-- `local_port` is what `local_endpoint` gives while the acceptor is open.
pub record Acceptor : Type 0 where
  pub is_open : Bool
  pub local_port : Option ℕ

abbrev pub closed : Acceptor
closed = record { is_open = false; local_port = none }

-- A session's control is its number; `closing` lists those whose `close` was called; a TLS context is
-- what was called on it.
pub record Server : Type 0 where
  pub config : ServerConfig
  pub acceptor : Acceptor
  pub https_acceptor : Acceptor
  pub tls_context : List TlsCall
  pub started : Bool
  pub workers : ℕ
  pub sessions : List ℕ
  pub closing : List ℕ

unfoldable pub construct : ServerConfig → Server
construct config = record {
  config = config;
  acceptor = closed;
  https_acceptor = closed;
  tls_context = [];
  started = false;
  workers = 0;
  sessions = [];
  closing = [];
}

-- `if (!error) { error = … }`
abbrev pub and_then : Option Text → Option Text → Option Text
and_then none next = next
and_then (some message) next = some message

-- `std::max<size_t>(1, …)`
abbrev pub worker_count : ServerConfig → ℕ
worker_count config = if leb 1 config.network_threads then config.network_threads else 1

module _ (network : Network) where
  abbrev pub bound : Address → ListenerConfig → Text → Option Text → Result (Unit {0}) × Acceptor
  bound address config protocol none =
      (value tt, record { is_open = true; local_port = network.local_port address config.port })
  bound address config protocol (some message) =
      (error (text "Failed to start " ++ (protocol ++ (text " listener: " ++ message))), closed)

  abbrev pub opened_at :
      Result Address → ListenerConfig → Text → Acceptor → Result (Unit {0}) × Acceptor
  opened_at (error message) config protocol acceptor =
      (error (text "Invalid " ++ (protocol ++ (text " address: " ++ message))), acceptor)
  opened_at (value address) config protocol acceptor = bound address config protocol (
      and_then (network.open_acceptor address.is_v6) (
        and_then (network.set_reuse_address address)
          (and_then (network.bind address config.port) (network.listen address config.port))))

  -- The acceptor is passed by reference: what becomes of it is the second result.
  unfoldable pub configure_listener :
      Acceptor → ListenerConfig → Text → Result (Unit {0}) × Acceptor
  configure_listener acceptor config protocol =
      opened_at (network.make_address config.address) config protocol acceptor

  abbrev pub after_call :
      Option Text
      → List TlsCall
      → (List TlsCall → Result (Unit {0}) × List TlsCall)
      → Result (Unit {0}) × List TlsCall
  after_call none context next = next context
  after_call (some what) context next = (error (text "Failed to configure TLS: " ++ what), context)

  abbrev pub calling :
      TlsCall
      → (List TlsCall → Result (Unit {0}) × List TlsCall)
      → List TlsCall
      → Result (Unit {0}) × List TlsCall
  calling call next context = after_call (network.tls_call context call) (context ++ call ∷ []) next

  abbrev pub with_key : TlsConfig → List TlsCall → Result (Unit {0}) × List TlsCall
  with_key tls context =
      if not (network.check_private_key context)
      then (error (text "TLS private key does not match certificate"), context)
      else if not (is_empty tls.certificate_chain_path)
      then calling (load_verify_file tls.certificate_chain_path) (λ c. (value tt, c)) context
      else (value tt, context)

  -- The context is changed also where it fails.
  unfoldable pub configure_tls : TlsConfig → List TlsCall → Result (Unit {0}) × List TlsCall
  configure_tls tls context =
      if is_empty tls.certificate_path || is_empty tls.private_key_path
      then (error (text "HTTPS requires certificate and private key paths"), context)
      else calling set_options
          (calling (use_certificate_chain_file tls.certificate_path)
            (calling (use_private_key_file tls.private_key_path) (with_key tls)))
          context

  -- The loop over `emplace_back`: what it throws, and how many threads there are then.
  unfoldable pub add_workers : ℕ → ℕ → Option Text × ℕ
  add_workers zero made = (none, made)
  add_workers (suc left) made = elim (network.create_thread made) [
    | some what ↦ (some what, made)
    | none ↦ add_workers left (suc made)
  ]

  unfoldable pub make_workers : ℕ → ℕ → Option Text × ℕ
  unfolding add_workers
  make_workers count made = elim (network.reserve count) [
    | some what ↦ (some what, made)
    | none ↦ add_workers count made
  ]

  abbrev pub launched : Option Text × ℕ → Server → Attempt (Result (Unit {0})) × Server
  launched (none, workers) s = (returns (value tt), record s { started = true; workers = workers })
  launched (some what, workers) s = (throws what, record s { started = true; workers = workers })

  -- From `io_context_.restart()` on.
  abbrev pub launch : Server → Attempt (Result (Unit {0})) × Server
  unfolding make_workers
  launch s = launched (make_workers (worker_count s.config) s.workers) s

  abbrev pub with_https_listener :
      Result (Unit {0}) × Acceptor → Server → Attempt (Result (Unit {0})) × Server
  unfolding make_workers
  with_https_listener (error message, https_acceptor) s =
      (returns (error message), record s { https_acceptor = closed; acceptor = closed })
  with_https_listener (value _, https_acceptor) s =
      launch (record s { https_acceptor = https_acceptor })

  abbrev pub with_tls :
      Result (Unit {0}) × List TlsCall → Server → Attempt (Result (Unit {0})) × Server
  unfolding configure_listener make_workers
  with_tls (error message, context) s =
      (returns (error message), record s { tls_context = context; acceptor = closed })
  with_tls (value _, context) s =
      with_https_listener (configure_listener s.https_acceptor s.config.https (text "HTTPS"))
        (record s { tls_context = context })

  abbrev pub start_https : Server → Attempt (Result (Unit {0})) × Server
  unfolding configure_tls configure_listener make_workers
  start_https s =
      if s.config.https.enabled
      then with_tls (configure_tls s.config.tls s.tls_context) s
      else launch s

  abbrev pub with_http_listener :
      Result (Unit {0}) × Acceptor → Server → Attempt (Result (Unit {0})) × Server
  unfolding configure_tls configure_listener make_workers
  with_http_listener (error message, acceptor) s =
      (returns (error message), record s { acceptor = acceptor })
  with_http_listener (value _, acceptor) s = start_https (record s { acceptor = acceptor })

  unfoldable pub start : Server → Attempt (Result (Unit {0})) × Server
  unfolding configure_tls configure_listener make_workers
  start s =
      if s.started
      then (returns (error (text "Server is already started")), s)
      else if not s.config.http.enabled && not s.config.https.enabled
      then (returns (error (text "At least one listener must be enabled")), s)
      else if s.config.http.enabled
      then with_http_listener (configure_listener s.acceptor s.config.http (text "HTTP")) s
      else start_https s

unfoldable pub register_session : ℕ → Server → Server
register_session control s =
    if any (λ id. id == control) s.sessions then s else record s { sessions = control ∷ s.sessions }

unfoldable pub unregister_session : ℕ → Server → Server
unregister_session control s = record s { sessions = keep (λ id. not (id == control)) s.sessions }

unfoldable pub close_sessions : Server → Server
close_sessions s = record s { closing = s.closing ++ s.sessions }

-- The sessions that unregister while `Stop` waits.
abbrev pub unregister_all : List ℕ → Server → Server
unfolding unregister_session
unregister_all [] s = s
unregister_all (control ∷ controls) s = unregister_all controls (unregister_session control s)

-- `ended` are the sessions that end before the time is up.
unfoldable pub stop : List ℕ → Server → Server
unfolding close_sessions unregister_session
stop ended s =
    if not s.started
    then s
    else record (unregister_all ended (
        close_sessions
          (record s { started = false; acceptor = closed; https_acceptor = closed }))) {
            workers = 0;
          }

abbrev pub port_of : Option ℕ → ℕ
port_of none = 0
port_of (some port) = port

unfoldable pub http_port : Server → ℕ
http_port s = if not s.acceptor.is_open then 0 else port_of s.acceptor.local_port

unfoldable pub https_port : Server → ℕ
https_port s = if not s.https_acceptor.is_open then 0 else port_of s.https_acceptor.local_port

-- What happens to a server: `accepts` is one round of an accept loop, `ends` a session's end.
pub data Event : Type 0 where
  starts : Event
  accepts accepts_https : ℕ → Event
  ends : ℕ → Event
  stops : List ℕ → Event

-- `while (started_)`, and `async_accept` throws on a closed acceptor.
abbrev pub accept : Acceptor → ℕ → Server → Server
unfolding register_session
accept acceptor control s = if s.started && acceptor.is_open then register_session control s else s

abbrev pub accept_http : ℕ → Server → Server
accept_http control s = accept s.acceptor control s

abbrev pub accept_https : ℕ → Server → Server
accept_https control s = accept s.https_acceptor control s

unfoldable pub step : Network → Server → Event → Server
unfolding start stop register_session unregister_session
step network s starts = (start network s).1
step network s (accepts control) = accept_http control s
step network s (accepts_https control) = accept_https control s
step network s (ends control) = unregister_session control s
step network s (stops ended) = stop ended s

unfoldable pub run : Network → Server → List Event → Server
unfolding step
run network s [] = s
run network s (event ∷ events) = run network (step network s event) events

-- ===== src/Server/Sessions.antt =====
-- `Session`, `TlsSession` and `SendPayloadLimitResponse` of src/server/Server.cpp. A session is a
-- function of its turns: what the socket, `async_read` and `async_write` do in each round of the
-- loop. After the last turn it waits for the next request. The limits and timeouts that the code
-- sets on the parser and the stream are causes of these outcomes.
pub mod Serving
pub mod Order
pub mod Incomplete
pub mod Ending
use recipes_core.Prelude.{
  ℕ, Text, text, eq_text, Bool, true, false, not, ◌&&◌, Option, none, some, List, [], ◌∷◌, ◌++◌,
  if◌then◌else◌,
}
use recipes_core.Http.{
  Request, Response, payload_too_large, set, content_type, strict_transport_security,
}
use recipes_core.Config.{TlsConfig}
use recipes_core.Service.{is_empty}

-- `system_error` codes of a read: two that the code tests for, and all others.
pub data ReadError : Type 0 where
  body_limit header_limit : ReadError
  other_error : ℕ → ReadError

-- How `async_read` ends: with a whole request, with a `system_error` and the message that the parser
-- holds so far, which `parser.release()` then returns, or with another exception.
pub data ReadOutcome : Type 0 where
  received : Request → ReadOutcome
  stopped : ReadError → Request → ReadOutcome
  threw : ReadOutcome

-- One round: `is_open` at its start, the read, and whether `async_write` does not throw.
pub record Turn : Type 0 where
  pub is_open : Bool
  pub read : ReadOutcome
  pub written : Bool

-- `registered` says that the control is in `sessions_`, `running` that the coroutine goes on.
pub record Connection (W : Type 0) : Type 0 where
  pub sent : List Response
  pub send_shut : Bool
  pub receive_shut : Bool
  pub closed : Bool
  pub registered : Bool
  pub running : Bool
  pub world : W

abbrev pub accepted : {W : Type 0} → W → Connection W
accepted w = record {
  sent = [];
  send_shut = false;
  receive_shut = false;
  closed = false;
  registered = true;
  running = true;
  world = w;
}

-- `UnregisterSession(control); co_return;`
abbrev pub leave : {W : Type 0} → Connection W → Connection W
leave c = record c { registered = false; running = false }

-- What `async_write` puts on the socket.
abbrev pub deliver : {W : Type 0} → Bool → Response → Connection W → Connection W
deliver written response c = if written then record c { sent = c.sent ++ response ∷ [] } else c

unfoldable pub payload_limit_response : ℕ → Response
unfolding set
payload_limit_response version = record {
  status = payload_too_large;
  version = version;
  keep_alive = false;
  fields = set content_type (text "application/json") [];
  body = text "{\"code\":\"payload_too_large\",\"message\":\"Request exceeds configured limits\"}";
  prepared = true;
}

-- `SendPayloadLimitResponse` swallows a failed write. It owns the stream that is moved into it, whose
-- socket is closed with it.
unfoldable pub send_payload_limit_response : {W : Type 0} → Bool → Connection W → Connection W
unfolding payload_limit_response
send_payload_limit_response written c = record (deliver written (payload_limit_response 11) c) {
  closed = true;
}

-- At the end of a plain session, and of one over TLS.
abbrev pub shutdown_send : {W : Type 0} → Connection W → Connection W
shutdown_send c = record c { send_shut = true }

abbrev pub shutdown_and_close : {W : Type 0} → Connection W → Connection W
shutdown_and_close c = record c { send_shut = true; receive_shut = true; closed = true }

-- `response.set(strict_transport_security, …)`
unfoldable pub with_hsts : Bool → Response → Response
unfolding set
with_hsts enable_hsts response =
    if enable_hsts
    then record response {
      fields =
          set strict_transport_security (text "max-age=31536000; includeSubDomains")
            response.fields;
    }
    else response

-- `handle` is `router_.HandleAsync`, with `none` for an exception; `prepare` and `finish` are what
-- the two kinds of session do to a response and to the socket after the last one.
module _ {W : Type 0} (handle : Request → W → Option Response × W) (prepare : Response → Response)
    (finish : Connection W → Connection W) where
  -- From the test of `keep_alive` on.
  abbrev pub after_write : Bool → Connection W → Connection W
  after_write keep_alive c = if keep_alive then c else leave (finish c)

  abbrev pub write : Bool → Connection W → Option Response × W → Connection W
  write written c (none, w) = leave (record c { world = w })
  write written c (some response, w) =
      if written
      then after_write (prepare response).keep_alive
          (deliver true (prepare response) (record c { world = w }))
      else leave (record c { world = w })

  abbrev pub respond : Bool → Request → Connection W → Connection W
  respond written request c = write written c (handle request c.world)

  abbrev pub after_read : ReadOutcome → Bool → Connection W → Connection W
  unfolding send_payload_limit_response
  after_read (received request) written c = respond written request c
  after_read (stopped body_limit message) written c = leave (send_payload_limit_response written c)
  after_read (stopped header_limit message) written c =
      leave (send_payload_limit_response written c)
  after_read (stopped (other_error code) message) written c = respond written message c
  after_read threw written c = leave c

  -- One round of the loop; where the socket is closed, what follows the loop.
  unfoldable pub round : Turn → Connection W → Connection W
  unfolding send_payload_limit_response
  round turn c =
      if turn.is_open
      then after_read turn.read turn.written c
      else leave (record c { closed = true })

  unfoldable pub session_loop : List Turn → Connection W → Connection W
  unfolding round
  session_loop [] c = c
  session_loop (turn ∷ turns) c = elim (round turn c).running [
    | true ↦ session_loop turns (round turn c)
    | false ↦ round turn c
  ]

module _ {W : Type 0} (handle : Request → W → Option Response × W) where
  unfoldable pub session : List Turn → Connection W → Connection W
  unfolding session_loop
  session turns c = session_loop handle (λ response. response) shutdown_send turns c

  -- The test of the name that the client asks for (`SSL_get_servername`, `none` for nullptr).
  abbrev pub is_expected_name : Text → Option Text → Bool
  is_expected_name server_name none = false
  is_expected_name server_name (some name) = eq_text server_name name

  -- `handshake` is false where the handshake throws.
  unfoldable pub tls_session :
      TlsConfig → Bool → Option Text → List Turn → Connection W → Connection W
  unfolding session_loop with_hsts eq_text
  tls_session tls handshake name turns c =
      if not handshake
      then leave c
      else if not (is_empty tls.server_name) && not (is_expected_name tls.server_name name)
      then leave (record c { closed = true })
      else session_loop handle (with_hsts tls.enable_hsts) shutdown_and_close turns c

-- ===== src/Server/Sessions/Incomplete.antt =====
-- Requests that have not arrived whole: src/server/Server.cpp tests a failed read for the two limits
-- only and then takes what the parser has.
use recipes_core.Prelude.{
  Text, ◌≡◌, ◌∙◌, ap, refl, Bool, true, false, Option, List, [], ◌∷◌, map, if◌then◌else◌,
}
use recipes_core.Config.{TlsConfig}
use recipes_core.Http.{Request, Response}
use recipes_core.Server.Sessions.{
  Turn, ReadOutcome, received, stopped, threw, body_limit, header_limit, other_error, Connection,
  leave, shutdown_send, shutdown_and_close, with_hsts, after_read, round, session_loop, session,
  tls_session,
}

-- The message that a failed read has so far, as if it were whole.
abbrev pub as_received : ReadOutcome → ReadOutcome
as_received (received request) = received request
as_received (stopped body_limit message) = stopped body_limit message
as_received (stopped header_limit message) = stopped header_limit message
as_received (stopped (other_error code) message) = received message
as_received threw = threw

abbrev pub completed : Turn → Turn
completed turn = record turn { read = as_received turn.read }

module _ {W : Type 0} (handle : Request → W → Option Response × W) (prepare : Response → Response)
    (finish : Connection W → Connection W) where
  after_read-as_received :
      (read : ReadOutcome) (written : Bool) (c : Connection W)
      → after_read handle prepare finish (as_received read) written c
        ≡ after_read handle prepare finish read written c
  unfolding after_read
  after_read-as_received (received request) written c = refl
  after_read-as_received (stopped body_limit message) written c = refl
  after_read-as_received (stopped header_limit message) written c = refl
  after_read-as_received (stopped (other_error code) message) written c = refl
  after_read-as_received threw written c = refl

  round-completed :
      (turn : Turn) (c : Connection W)
      → round handle prepare finish (completed turn) c ≡ round handle prepare finish turn c
  unfolding round
  round-completed turn c =
      ap (λ d. if turn.is_open then d else leave (record c { closed = true }))
        (after_read-as_received turn.read turn.written c)

  go_on-completed :
      (b : Bool) (next one two : Connection W)
      → one ≡ two
      → ◌≡◌ {A = Connection W}
          (elim b [ true ↦ one | false ↦ next ])
          (elim b [ true ↦ two | false ↦ next ])
  go_on-completed true next one two e = e
  go_on-completed false next one two e = refl

  session_loop-completed :
      (turns : List Turn) (c : Connection W)
      → session_loop handle prepare finish (map completed turns) c
        ≡ session_loop handle prepare finish turns c
  unfolding session_loop
  session_loop-completed [] c = refl
  session_loop-completed (turn ∷ turns) c =
      let next = round handle prepare finish turn c in
      ap
        (λ (d : Connection W). elim d.running [
          | true ↦ session_loop handle prepare finish (map completed turns) d
          | false ↦ d
        ])
        (round-completed turn c)
      ∙ go_on-completed next.running next _ _ (session_loop-completed turns next)

module _ {W : Type 0} (handle : Request → W → Option Response × W) where
  -- A session cannot tell a request that was read whole from one whose reading failed half-way (the
  -- client closed the connection, a timeout, a malformed message): unless a limit was exceeded, what
  -- the parser has of it is handled, answered and followed by the next round just like a whole one.
  pub sessions-completed :
      (tls : TlsConfig) (handshake : Bool) (name : Option Text) (turns : List Turn)
      (c : Connection W)
      → (session handle (map completed turns) c ≡ session handle turns c)
        × (tls_session handle tls handshake name (map completed turns) c
            ≡ tls_session handle tls handshake name turns c)
  unfolding session tls_session
  sessions-completed tls handshake name turns c = (
    session_loop-completed handle (λ r. r) shutdown_send turns c,
    rw (session_loop-completed handle (with_hsts tls.enable_hsts) shutdown_and_close turns c) refl,
  )

-- ===== src/Server/Sessions/Ending.antt =====
-- How a session of src/server/Server.cpp ends, by its client or by `CloseSessions` of `Stop`: a closed
-- socket is seen at the start of a round, or fails the write of a round whose read it ended.
use recipes_core.Prelude.{
  Text, ◌≡◌, refl, sym, ◌∙◌, Bool, true, false, Option, none, some, ◌⊎◌, inl, inr, List, [], ◌∷◌,
  ◌++◌, not, ◌&&◌, if◌then◌else◌, Bool-cases,
}
use recipes_core.Config.{TlsConfig}
use recipes_core.Service.{is_empty}
use recipes_core.Http.{Request, Response}
use recipes_core.Server.Sessions.{
  Turn, ReadOutcome, received, stopped, threw, body_limit, header_limit, other_error, Connection,
  accepted, leave, shutdown_send, shutdown_and_close, with_hsts, write, after_read, round,
  session_loop, session, tls_session, is_expected_name,
}
use recipes_core.Server.Sessions.Order.{sessions-IsOrderly}

-- A read after which the loop is left, whatever the write does: `threw` is an exception other than a
-- system_error, `stopped` a system_error.
abbrev pub IsLast : ReadOutcome → Type 0
IsLast threw = Unit {0}
IsLast (stopped body_limit message) = Unit {0}
IsLast (stopped header_limit message) = Unit {0}
IsLast _ = ⊥

-- The socket is closed at the start, the write fails, or the read ends the session.
abbrev pub IsFinal : Turn → Type 0
IsFinal turn = (turn.is_open ≡ false) ⊎ (turn.written ≡ false) ⊎ IsLast turn.read

-- A connection that no longer runs, and is as another.
abbrev IsOver : {W : Type 0} → Connection W → Connection W → Type 0
IsOver last c = (c ≡ last) × (c.running ≡ false)

-- One whose control is also no longer registered.
abbrev pub HasEnded : {W : Type 0} → Connection W → Connection W → Type 0
HasEnded last c = (c ≡ last) × (c.running ≡ false) × (c.registered ≡ false)

module _ {W : Type 0} (handle : Request → W → Option Response × W) (prepare : Response → Response)
    (finish : Connection W → Connection W) where
  unwritten-ends :
      (c : Connection W) (answer : Option Response × W)
      → (write handle prepare finish false c answer).running ≡ false
  unwritten-ends c (none, w) = refl
  unwritten-ends c (some response, w) = refl

  unwritten_read-ends :
      (read : ReadOutcome) (c : Connection W)
      → (after_read handle prepare finish read false c).running ≡ false
  unfolding after_read
  unwritten_read-ends (received request) c = unwritten-ends c (handle request c.world)
  unwritten_read-ends (stopped body_limit message) c = refl
  unwritten_read-ends (stopped header_limit message) c = refl
  unwritten_read-ends (stopped (other_error code) message) c =
      unwritten-ends c (handle message c.world)
  unwritten_read-ends threw c = refl

  last_read-ends :
      (read : ReadOutcome) (written : Bool) (c : Connection W)
      → IsLast read
      → (after_read handle prepare finish read written c).running ≡ false
  unfolding after_read
  last_read-ends threw written c h = refl
  last_read-ends (stopped body_limit message) written c h = refl
  last_read-ends (stopped header_limit message) written c h = refl
  last_read-ends (stopped (other_error code) message) written c h = absurd h
  last_read-ends (received request) written c h = absurd h

  round-ends :
      (turn : Turn) (c : Connection W)
      → IsFinal turn
      → (round handle prepare finish turn c).running ≡ false
  unfolding round
  round-ends turn c final = elim (Bool-cases turn.is_open) [
    | inr shut ↦ rw shut refl
    | inl opened ↦ elim final [
      | inl shut ↦ rw shut refl
      | inr (inl e) ↦ rw (opened, e) (unwritten_read-ends turn.read c)
      | inr (inr h) ↦ rw opened (last_read-ends turn.read turn.written c h)
    ]
  ]

  by_running :
      (next last c : Connection W) (b : Bool)
      → next.running ≡ b
      → (b ≡ true → IsOver last c)
      → IsOver (elim b [ true ↦ last | false ↦ next ]) (elim b [ true ↦ c | false ↦ next ])
  by_running next last c true e h = h refl
  by_running next last c false e h = (refl, e)

  session_loop-ends :
      (before : List Turn) (final : Turn) (after : List Turn) (c : Connection W)
      → IsFinal final
      → IsOver
          (session_loop handle prepare finish (before ++ final ∷ []) c)
          (session_loop handle prepare finish (before ++ final ∷ after) c)
  unfolding session_loop
  session_loop-ends [] final after c h =
      let next = round handle prepare finish final c in
      by_running next next (session_loop handle prepare finish after next) next.running refl
        λ running. not_both (sym running ∙ round-ends final c h)
    where
      not_both : {P : Type 0} → true ≡ false → P
      not_both e = cc
  session_loop-ends (turn ∷ before) final after c h =
      let next = round handle prepare finish turn c in
      by_running next (session_loop handle prepare finish (before ++ final ∷ []) next)
        (session_loop handle prepare finish (before ++ final ∷ after) next) next.running refl
        λ _. session_loop-ends before final after next h

module _ {W : Type 0} (handle : Request → W → Option Response × W) where
  session-ends :
      (before : List Turn) (final : Turn) (after : List Turn) (w : W)
      → IsFinal final
      → IsOver
          (session handle (before ++ final ∷ []) (accepted w))
          (session handle (before ++ final ∷ after) (accepted w))
  unfolding session
  session-ends before final after w h =
      session_loop-ends handle (λ response. response) shutdown_send before final after (accepted w)
        h

  tls_session-ends :
      (tls : TlsConfig) (handshake : Bool) (name : Option Text) (before : List Turn) (final : Turn)
      (after : List Turn) (w : W)
      → IsFinal final
      → IsOver
          (tls_session handle tls handshake name (before ++ final ∷ []) (accepted w))
          (tls_session handle tls handshake name (before ++ final ∷ after) (accepted w))
  unfolding tls_session
  tls_session-ends tls false name before final after w h = (refl, refl)
  tls_session-ends tls true name before final after w h =
      named (not (is_empty tls.server_name) && not (is_expected_name handle tls.server_name name))
    where
      loop : List Turn → Connection W
      loop turns =
          session_loop handle (with_hsts tls.enable_hsts) shutdown_and_close turns (accepted w)

      refused : Connection W
      refused = leave (record (accepted w) { closed = true })

      named :
          (b : Bool)
          → IsOver
              (if b then refused else loop (before ++ final ∷ []))
              (if b then refused else loop (before ++ final ∷ after))
      named true = (refl, refl)
      named false =
          session_loop-ends handle (with_hsts tls.enable_hsts) shutdown_and_close before final after
            (accepted w) h

  -- A session ends, over HTTP and over TLS, at the latest in the first turn whose socket is closed at
  -- its start, whose write fails, or whose read throws an exception other than a system_error or a
  -- system_error with the code of the body or the header limit (any other system_error does not end
  -- it): from then on it does not run and its control is not registered, and no later turn adds
  -- anything to what it sent, to the state of its socket or to the storage.
  pub sessions-HasEnded :
      (tls : TlsConfig) (handshake : Bool) (name : Option Text) (before : List Turn) (final : Turn)
      (after : List Turn) (w : W)
      → IsFinal final
      → let cut = before ++ final ∷ [] in
        let all = before ++ final ∷ after in
        HasEnded (session handle cut (accepted w)) (session handle all (accepted w))
        × HasEnded
            (tls_session handle tls handshake name cut (accepted w))
            (tls_session handle tls handshake name all (accepted w))
  sessions-HasEnded tls handshake name before final after w h =
      let orderly = sessions-IsOrderly handle tls handshake name (before ++ final ∷ after) w in
      let plain = session-ends before final after w h in
      let over_tls = tls_session-ends tls handshake name before final after w h in
      (
        (plain.0, plain.1, orderly.0.registered ∙ plain.1),
        (over_tls.0, over_tls.1, orderly.1.registered ∙ over_tls.1),
      )

-- ===== src/Server/Sessions/Order.antt =====
-- What holds of a session of src/server/Server.cpp whatever its socket and its client do.
use recipes_core.Prelude.{
  Text, ◌≡◌, refl, subst, sym, Bool, true, false, Bool-cases, Option, none, some, inl, inr, List,
  [], ◌∷◌, ◌++◌, All, All-append, not, ◌&&◌, if◌then◌else◌,
}
use recipes_core.Config.{TlsConfig}
use recipes_core.Service.{is_empty}
use recipes_core.Http.{Request, Response}
use recipes_core.Server.Sessions.{
  Turn, ReadOutcome, received, stopped, threw, body_limit, header_limit, other_error, Connection,
  accepted, leave, deliver, payload_limit_response, send_payload_limit_response, shutdown_send,
  shutdown_and_close, with_hsts, after_write, write, after_read, round, session_loop, session,
  tls_session, is_expected_name,
}

abbrev pub KeepsAlive : Response → Type 0
KeepsAlive response = response.keep_alive ≡ true

-- Only the last response may announce the end of the connection.
abbrev pub LastOnly : List Response → Type 0
LastOnly [] = Unit {0}
LastOnly (r ∷ []) = Unit {0}
LastOnly (r ∷ s ∷ rs) = KeepsAlive r × LastOnly (s ∷ rs)

-- The control is registered exactly while the session runs; while it runs, every response has kept
-- the connection; and only the last response of all may not.
pub record IsOrderly {W : Type 0} (c : Connection W) : Type 0 where
  pub registered : c.registered ≡ c.running
  pub kept : c.running ≡ true → All KeepsAlive c.sent
  pub last : LastOnly c.sent

append-LastOnly : (rs : List Response) (r : Response) → All KeepsAlive rs → LastOnly (rs ++ r ∷ [])
append-LastOnly [] r h = tt
append-LastOnly (a ∷ []) r h = (h.0, tt)
append-LastOnly (a ∷ b ∷ rs) r h = (h.0, append-LastOnly (b ∷ rs) r h.1)

All-LastOnly : (rs : List Response) → All KeepsAlive rs → LastOnly rs
All-LastOnly [] h = tt
All-LastOnly (a ∷ []) h = tt
All-LastOnly (a ∷ b ∷ rs) h = (h.0, All-LastOnly (b ∷ rs) h.1)

module _ {W : Type 0} where
  leave-IsOrderly : (c : Connection W) → LastOnly c.sent → IsOrderly (leave c)
  leave-IsOrderly c h = record { registered = refl; kept = λ e. absurd_running e; last = h }
    where
      absurd_running : {P : Type 0} → false ≡ true → P
      absurd_running e = cc

  deliver-LastOnly :
      (written : Bool) (response : Response) (c : Connection W)
      → All KeepsAlive c.sent
      → LastOnly (deliver written response c).sent
  deliver-LastOnly true response c h = append-LastOnly c.sent response h
  deliver-LastOnly false response c h = All-LastOnly c.sent h

module _ {W : Type 0} (handle : Request → W → Option Response × W) (prepare : Response → Response)
    (finish : Connection W → Connection W)
    (keeps : (c : Connection W) → (finish c).sent ≡ c.sent) where
  written-IsOrderly :
      (c : Connection W) (response : Response) (w : W) (keep_alive : Bool)
      → response.keep_alive ≡ keep_alive
      → IsOrderly c
      → All KeepsAlive c.sent
      → IsOrderly (
          after_write handle prepare finish keep_alive
            (deliver true response (record c { world = w })))
  written-IsOrderly c response w true e h all = record {
    registered = h.registered;
    kept = λ _. All-append KeepsAlive c.sent (response ∷ []) all (e, tt);
    last = append-LastOnly c.sent response all;
  }
  written-IsOrderly c response w false e h all =
      let next = deliver true response (record c { world = w }) in
      leave-IsOrderly (finish next)
        (subst LastOnly (sym (keeps next)) (append-LastOnly c.sent response all))

  write-IsOrderly :
      (written : Bool) (c : Connection W) (answer : Option Response × W)
      → IsOrderly c
      → All KeepsAlive c.sent
      → IsOrderly (write handle prepare finish written c answer)
  write-IsOrderly written c (none, w) h all =
      leave-IsOrderly (record c { world = w }) (All-LastOnly c.sent all)
  write-IsOrderly true c (some response, w) h all =
      written-IsOrderly c (prepare response) w (prepare response).keep_alive refl h all
  write-IsOrderly false c (some response, w) h all =
      leave-IsOrderly (record c { world = w }) (All-LastOnly c.sent all)

  after_read-IsOrderly :
      (read : ReadOutcome) (written : Bool) (c : Connection W)
      → IsOrderly c
      → All KeepsAlive c.sent
      → IsOrderly (after_read handle prepare finish read written c)
  unfolding send_payload_limit_response after_read
  after_read-IsOrderly (received request) written c h all =
      write-IsOrderly written c (handle request c.world) h all
  after_read-IsOrderly (stopped body_limit message) written c h all =
      leave-IsOrderly (record (deliver written (payload_limit_response 11) c) { closed = true })
        (deliver-LastOnly written (payload_limit_response 11) c all)
  after_read-IsOrderly (stopped header_limit message) written c h all =
      leave-IsOrderly (record (deliver written (payload_limit_response 11) c) { closed = true })
        (deliver-LastOnly written (payload_limit_response 11) c all)
  after_read-IsOrderly (stopped (other_error code) message) written c h all =
      write-IsOrderly written c (handle message c.world) h all
  after_read-IsOrderly threw written c h all = leave-IsOrderly c (All-LastOnly c.sent all)

  round-IsOrderly :
      (turn : Turn) (c : Connection W)
      → IsOrderly c
      → c.running ≡ true
      → IsOrderly (round handle prepare finish turn c)
  unfolding round
  round-IsOrderly turn c h running = elim (Bool-cases turn.is_open) [
    | inl e ↦ rw e (after_read-IsOrderly turn.read turn.written c h (h.kept running))
    | inr e ↦
        rw e (leave-IsOrderly (record c { closed = true }) (All-LastOnly c.sent (h.kept running)))
  ]

  by_running :
      (turns : List Turn) (next : Connection W)
      → IsOrderly next
      → ((d : Connection W)
          → IsOrderly d
          → d.running ≡ true
          → IsOrderly (session_loop handle prepare finish turns d))
      → (b : Bool) → next.running ≡ b
      → IsOrderly (elim b [ true ↦ session_loop handle prepare finish turns next | false ↦ next ])
  by_running turns next h rest true e = rest next h e
  by_running turns next h rest false e = h

  session_loop-IsOrderly :
      (turns : List Turn) (c : Connection W)
      → IsOrderly c
      → c.running ≡ true
      → IsOrderly (session_loop handle prepare finish turns c)
  unfolding session_loop
  session_loop-IsOrderly [] c h running = h
  session_loop-IsOrderly (turn ∷ turns) c h running =
      by_running turns (round handle prepare finish turn c) (round-IsOrderly turn c h running)
        (λ next hn e. session_loop-IsOrderly turns next hn e)
        (round handle prepare finish turn c).running refl

module _ {W : Type 0} (handle : Request → W → Option Response × W) where
  -- Whatever the socket, the client and the handler do: the control of a session is registered
  -- exactly while the session runs, so that one that has ended in any way is never waited for; and
  -- nothing is sent after a response that ends the connection, over HTTP and over TLS.
  pub sessions-IsOrderly :
      (tls : TlsConfig) (handshake : Bool) (name : Option Text) (turns : List Turn) (w : W)
      → IsOrderly (session handle turns (accepted w))
        × IsOrderly (tls_session handle tls handshake name turns (accepted w))
  unfolding session tls_session
  sessions-IsOrderly tls handshake name turns w = (
    session_loop-IsOrderly handle (λ r. r) shutdown_send (λ c. refl) turns (accepted w) start refl,
    over_tls handshake,
  )
    where
      start : IsOrderly (accepted w)
      start = record { registered = refl; kept = λ e. tt; last = tt }

      named :
          (refused : Bool)
          → IsOrderly (
              if refused
              then leave (record (accepted w) { closed = true })
              else session_loop handle
                  (with_hsts tls.enable_hsts)
                  shutdown_and_close
                  turns
                  (accepted w))
      named true = leave-IsOrderly (record (accepted w) { closed = true }) tt
      named false =
          session_loop-IsOrderly handle (with_hsts tls.enable_hsts) shutdown_and_close (λ c. refl)
            turns (accepted w) start refl

      over_tls : (done : Bool) → IsOrderly (tls_session handle tls done name turns (accepted w))
      over_tls false = leave-IsOrderly (accepted w) tt
      over_tls true =
          named
            (not (is_empty tls.server_name) && not (is_expected_name handle tls.server_name name))

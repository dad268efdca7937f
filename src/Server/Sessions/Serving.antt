-- ===== src/Server/Sessions/Serving.antt =====
-- What a session of src/server/Server.cpp sends, against serving its requests one by one.
use mathlib.Core.List.{append-nil, append_assoc}
use recipes_core.Config.{TlsConfig}
use recipes_core.Service.{is_empty}
use recipes_core.Prelude.{
  Text, eq_text_refl, ◌⊎◌, ◌&&◌, not, ◌≡◌, ◌∙◌, sym, sym, ap, refl, Bool, true, false, Option, none,
  some, inl, inr, List, [], ◌∷◌, ◌++◌, map, if◌then◌else◌,
}
use recipes_core.Http.{Request, Response}
use recipes_core.Server.Sessions.{
  with_hsts, session, tls_session, shutdown_and_close, shutdown_send, accepted, Turn, received,
  Connection, deliver, after_write, write, round, session_loop,
}

-- A round in which the request is read whole and the response is written.
abbrev pub whole : Request → Turn
whole request = record { is_open = true; read = received request; written = true }

module _ {W : Type 0} (handle : Request → W → Option Response × W)
    (prepare : Response → Response) where
  -- The responses to requests that come one after the other, up to the first response that does not
  -- keep the connection, and the world after them.
  abbrev pub then_serve : Bool → Response → List Response × W → W → List Response × W
  then_serve true response (rest, last) w = (response ∷ rest, last)
  then_serve false response rest w = (response ∷ [], w)

  abbrev pub serve_first : Option Response × W → (W → List Response × W) → List Response × W
  serve_first (none, w) serve_rest = ([], w)
  serve_first (some response, w) serve_rest =
      then_serve (prepare response).keep_alive (prepare response) (serve_rest w) w

  unfoldable pub serve : List Request → W → List Response × W
  serve [] w = ([], w)
  serve (request ∷ requests) w = serve_first (handle request w) (serve requests)

  module _ (finish : Connection W → Connection W) where
    abbrev loop : List Request → Connection W → Connection W
    unfolding session_loop
    loop requests c = session_loop handle prepare finish (map whole requests) c

    abbrev go_on : List Request → Connection W → Connection W
    unfolding session_loop
    go_on requests next = elim next.running [ true ↦ loop requests next | false ↦ next ]

    go_on_lem :
        (requests : List Request) (next : Connection W)
        → next.running ≡ true
        → go_on requests next ≡ loop requests next
    unfolding go_on
    go_on_lem requests next running = by_running next.running running
      where
        by_running :
            (b : Bool)
            → b ≡ true
            → ◌≡◌ {A = Connection W}
                (elim b [ true ↦ loop requests next | false ↦ next ])
                (loop requests next)
        by_running true e = refl
        by_running false e = cc

    -- `last` is what the loop leaves of c where it was to give the responses of `served`.
    abbrev Leaves : Connection W → List Response × W → Connection W → Type 0
    Leaves c served last = (last.sent ≡ c.sent ++ served.0) × (last.world ≡ served.1)

    kept_on :
        ((d : Connection W) → ((finish d).sent ≡ d.sent) × ((finish d).world ≡ d.world))
        → (requests : List Request) (c : Connection W) (response : Response) (w : W)
          (keep_alive : Bool)
        → c.running ≡ true
        → ((d : Connection W)
            → d.running ≡ true
            → Leaves d (serve requests d.world) (loop requests d))
        → Leaves c (then_serve keep_alive response (serve requests w) w) (
            go_on requests (
              after_write handle prepare finish keep_alive
                (deliver true response (record c { world = w }))))
    unfolding go_on
    kept_on keeps requests c response w true running rest =
        let next = record c { sent = c.sent ++ response ∷ []; world = w } in
        let later = rest next running in
        (
          ap (λ (d : Connection W). d.sent) (go_on_lem requests next running)
              ∙ later.0
              ∙ append_assoc c.sent (response ∷ []) (serve requests w).0,
          ap (λ (d : Connection W). d.world) (go_on_lem requests next running) ∙ later.1,
        )
    kept_on keeps requests c response w false running rest = keeps _

    answered :
        ((d : Connection W) → ((finish d).sent ≡ d.sent) × ((finish d).world ≡ d.world))
        → (requests : List Request) (c : Connection W) (answer : Option Response × W)
        → c.running ≡ true
        → ((d : Connection W)
            → d.running ≡ true
            → Leaves d (serve requests d.world) (loop requests d))
        → Leaves c
            (serve_first answer (serve requests))
            (go_on requests (write handle prepare finish true c answer))
    unfolding go_on
    answered keeps requests c (none, w) running rest = (sym (append-nil c.sent), refl)
    answered keeps requests c (some response, w) running rest =
        kept_on keeps requests c (prepare response) w (prepare response).keep_alive running rest

    -- A session whose requests are all read whole, and whose responses are all written, sends exactly
    -- the responses of serving the requests one after the other, each from the world that the one
    -- before it left, up to and including the first response that does not keep the connection; a
    -- request after that is not handled.
    pub session_loop-serve :
        ((d : Connection W) → ((finish d).sent ≡ d.sent) × ((finish d).world ≡ d.world))
        → (requests : List Request) (c : Connection W) → c.running ≡ true
        → let last = session_loop handle prepare finish (map whole requests) c in
          let served = serve requests c.world in
          (last.sent ≡ c.sent ++ served.0) × (last.world ≡ served.1)
    unfolding session_loop round serve loop go_on
    session_loop-serve keeps [] c running = (sym (append-nil c.sent), refl)
    session_loop-serve keeps (request ∷ requests) c running =
        answered keeps requests c (handle request c.world) running
          (λ d. session_loop-serve keeps requests d)

-- A name test that lets the session go on: no name is configured, or the client asks for it.
abbrev pub IsNamed : TlsConfig → Option Text → Type 0
IsNamed tls name = (tls.server_name ≡ []) ⊎ (name ≡ some tls.server_name)

with_hsts-keep_alive :
    (enable_hsts : Bool) (response : Response)
    → (with_hsts enable_hsts response).keep_alive ≡ response.keep_alive
unfolding with_hsts
with_hsts-keep_alive true response = refl
with_hsts-keep_alive false response = refl

not_taken {ℓ} : {A : Type ℓ} (b : Bool) (x y : A) → (if b && false then x else y) ≡ y
not_taken true x y = refl
not_taken false x y = refl

module _ {W : Type 0} (handle : Request → W → Option Response × W) where
  abbrev pub plain : Response → Response
  plain response = response

  abbrev With : Bool → List Response × W → List Response × W → Type 0
  With enable_hsts served tls_served =
      (tls_served.0 ≡ map (with_hsts enable_hsts) served.0) × (tls_served.1 ≡ served.1)

  then_serve-with_hsts :
      (enable_hsts : Bool) (keep_alive : Bool) (response : Response) (w : W)
      (served tls_served : List Response × W)
      → With enable_hsts served tls_served
      → With enable_hsts
          (then_serve handle plain keep_alive response served w)
          (then_serve handle plain keep_alive (with_hsts enable_hsts response) tls_served w)
  then_serve-with_hsts enable_hsts true response w served tls_served h =
      (ap (λ rs. with_hsts enable_hsts response ∷ rs) h.0, h.1)
  then_serve-with_hsts enable_hsts false response w served tls_served h = (refl, refl)

  serve_first-with_hsts :
      (enable_hsts : Bool) (requests : List Request) (answer : Option Response × W)
      → ((w : W)
          → With enable_hsts
              (serve handle plain requests w)
              (serve handle (with_hsts enable_hsts) requests w))
      → With enable_hsts (serve_first handle plain answer (serve handle plain requests)) (
          serve_first handle
            (with_hsts enable_hsts)
            answer
            (serve handle (with_hsts enable_hsts) requests))
  unfolding with_hsts
  serve_first-with_hsts enable_hsts requests (none, w) rest = (refl, refl)
  serve_first-with_hsts enable_hsts requests (some response, w) rest =
      rw (with_hsts-keep_alive enable_hsts response) (
        then_serve-with_hsts enable_hsts response.keep_alive response w
          (serve handle plain requests w) (serve handle (with_hsts enable_hsts) requests w)
          (rest w))

  serve-with_hsts :
      (enable_hsts : Bool) (requests : List Request) (w : W)
      → With enable_hsts
          (serve handle plain requests w)
          (serve handle (with_hsts enable_hsts) requests w)
  unfolding serve
  serve-with_hsts enable_hsts [] w = (refl, refl)
  serve-with_hsts enable_hsts (request ∷ requests) w =
      serve_first-with_hsts enable_hsts requests (handle request w)
        (serve-with_hsts enable_hsts requests)

  tls_loop :
      (tls : TlsConfig) (name : Option Text) (turns : List Turn) (c : Connection W)
      → IsNamed tls name
      → tls_session handle tls true name turns c
        ≡ session_loop handle (with_hsts tls.enable_hsts) shutdown_and_close turns c
  unfolding tls_session
  tls_loop tls name turns c (inl e) = rw e refl
  tls_loop tls name turns c (inr e) =
      rw (e, eq_text_refl tls.server_name) (not_taken (not (is_empty tls.server_name)) _ _)

  -- Where every request is read whole and every response is written, both kinds of session send the
  -- responses of handling the requests one after the other, each in the world that the one before it
  -- left, up to and including the first response that does not keep the connection: later requests
  -- are not handled. A session over TLS, with the handshake done and the name as configured, differs
  -- by the HSTS field alone, which each response then has, if it is enabled.
  pub sessions-serve :
      (tls : TlsConfig) (name : Option Text) (requests : List Request) (w : W)
      → IsNamed tls name
      → let served = serve handle plain requests w in
        let last = session handle (map whole requests) (accepted w) in
        let tls_last = tls_session handle tls true name (map whole requests) (accepted w) in
        (last.sent ≡ served.0)
        × (last.world ≡ served.1)
        × (tls_last.sent ≡ map (with_hsts tls.enable_hsts) served.0)
        × (tls_last.world ≡ served.1)
  unfolding session
  sessions-serve tls name requests w named =
      let start = accepted w in
      let over_http =
        session_loop-serve handle plain shutdown_send (λ d. (refl, refl)) requests start refl in
      let over_tls =
        session_loop-serve handle (with_hsts tls.enable_hsts) shutdown_and_close (λ d. (refl, refl))
          requests start refl in
      let loop = tls_loop tls name (map whole requests) start named in
      let same = serve-with_hsts tls.enable_hsts requests w in
      (
        over_http.0,
        over_http.1,
        ap (λ (d : Connection W). d.sent) loop ∙ over_tls.0 ∙ same.0,
        ap (λ (d : Connection W). d.world) loop ∙ over_tls.1 ∙ same.1,
      )

-- ===== src/Server/Lifecycle/Starting.antt =====
-- What a start of src/server/Server.cpp leaves behind, whether it succeeds or fails.
use recipes_core.Prelude.{
  ℕ, List, ◌∙◌, ap, Text, text, ◌≡◌, refl, sym, subst, true, false, not, ◌&&◌, Option, none, some,
  if_cases,
}
use recipes_core.Api.{Attempt, returns, throws, Result, value, error}
use recipes_core.Config.{ListenerConfig}
use recipes_core.Server.Lifecycle.Workers.{no_failure, make_workers-all}
use recipes_core.Server.Lifecycle.{
  Network, Acceptor, Address, closed, Server, and_then, bound, opened_at, configure_listener,
  configure_tls, launch, TlsCall, worker_count, make_workers, launched, with_https_listener,
  with_tls, start_https, with_http_listener, start,
}

-- A server that is not running has no open acceptor and no thread.
pub record IsStopped (s : Server) : Type 0 where
  pub started : s.started ≡ false
  pub acceptor : s.acceptor ≡ closed
  pub https_acceptor : s.https_acceptor ≡ closed
  pub workers : s.workers ≡ 0

-- A server that runs listens where its configuration says, and has all its threads, unless making one
-- of them throws.
pub record IsRunning (network : Network) (s : Server) : Type 0 where
  pub started : s.started ≡ true
  pub listens : s.acceptor.is_open ≡ s.config.http.enabled
  pub listens_https : s.https_acceptor.is_open ≡ s.config.https.enabled
  pub crew :
      (make_workers network (worker_count s.config) 0).0 ≡ none → s.workers ≡ worker_count s.config

-- A start that returns no error gives a running server with all its threads; one that returns an error
-- leaves all but the TLS context as it was; one that throws leaves a running server, and it is the
-- making of a thread that throws.
abbrev pub Starts : Network → Server → Attempt (Result (Unit {0})) × Server → Type 0
Starts network s (returns (value _), t) =
    IsRunning network t
    × (t.workers ≡ worker_count s.config)
    × (t.config ≡ s.config)
    × (t.sessions ≡ s.sessions)
Starts network s (returns (error message), t) = t ≡ record s { tls_context = t.tls_context }
Starts network s (throws what, t) =
    IsRunning network t
    × ((make_workers network (worker_count s.config) 0).0 ≡ some what)
    × (t.config ≡ s.config)
    × (t.sessions ≡ s.sessions)

module _ (network : Network) where
  -- From a closed acceptor.
  abbrev Listens : Result (Unit {0}) × Acceptor → Type 0
  Listens (value _, acceptor) = acceptor.is_open ≡ true
  Listens (error message, acceptor) = acceptor ≡ closed

  configure_listener-Listens :
      (config : ListenerConfig) (protocol : Text)
      → Listens (configure_listener network closed config protocol)
  unfolding configure_listener
  configure_listener-Listens config protocol = by_address (network.make_address config.address)
    where
      by_error :
          (address : Address) (failure : Option Text)
          → Listens (bound network address config protocol failure)
      by_error address none = refl
      by_error address (some message) = refl

      by_address :
          (address : Result Address) → Listens (opened_at network address config protocol closed)
      by_address (error message) = refl
      by_address (value address) = by_error address (
          and_then (network.open_acceptor address.is_v6) (
            and_then (network.set_reuse_address address)
              (and_then (network.bind address config.port) (network.listen address config.port))))

  launched-Starts :
      (s t : Server)
      → t.config ≡ s.config
      → t.sessions ≡ s.sessions
      → t.acceptor.is_open ≡ s.config.http.enabled
      → t.https_acceptor.is_open ≡ s.config.https.enabled
      → (made : Option Text × ℕ) → make_workers network (worker_count s.config) 0 ≡ made
      → Starts network s (launched network made t)
  launched-Starts s t config sessions http https (none, workers) e =
      let all : workers ≡ worker_count s.config =
        ap (λ r. r.1) (sym e) ∙ make_workers-all network _ (ap (λ r. r.0) e) in
      (
        record {
          started = refl;
          listens = rw config http;
          listens_https = rw config https;
          crew = λ _. all ∙ ap (worker_count) (sym config);
        },
        all,
        config,
        sessions,
      )
  launched-Starts s t config sessions http https (some what, workers) e = (
    record {
      started = refl;
      listens = rw config http;
      listens_https = rw config https;
      crew = λ none_failed. no_failure (
          sym (ap (λ r. r.0) e)
          ∙ ap (λ c. (make_workers network (worker_count c) 0).0) (sym config)
          ∙ none_failed);
    },
    ap (λ r. r.0) e,
    config,
    sessions,
  )

  launch-Starts :
      (s t : Server)
      → t.config ≡ s.config
      → t.sessions ≡ s.sessions
      → t.workers ≡ 0
      → t.acceptor.is_open ≡ s.config.http.enabled
      → t.https_acceptor.is_open ≡ s.config.https.enabled
      → Starts network s (launch network t)
  unfolding launch make_workers
  launch-Starts s t config sessions idle http https =
      launched-Starts s t config sessions http https
        (make_workers network (worker_count t.config) t.workers)
        (λ i. make_workers network (worker_count (sym config i)) (sym idle i))

  module _ (s : Server) (h : IsStopped s) where
    both_closed :
        (context : List TlsCall)
        → record s { tls_context = context; acceptor = closed; https_acceptor = closed }
          ≡ record s { tls_context = context }
    both_closed context = λ i. record s {
      tls_context = context;
      acceptor = (sym h.acceptor) i;
      https_acceptor = (sym h.https_acceptor) i;
    }

    one_closed :
        (context : List TlsCall)
        → record s { tls_context = context; acceptor = closed } ≡ record s { tls_context = context }
    one_closed context = λ i. record s { tls_context = context; acceptor = (sym h.acceptor) i }

    with_https_listener-Starts :
        (a : Acceptor) (context : List TlsCall) (r : Result (Unit {0}) × Acceptor)
        → a.is_open ≡ s.config.http.enabled
        → s.config.https.enabled ≡ true
        → Listens r
        → Starts network s
            (with_https_listener network r (record s { acceptor = a; tls_context = context }))
    unfolding with_https_listener launch
    with_https_listener-Starts a context (value _, b) http https listens =
        launch-Starts s (record s { acceptor = a; tls_context = context; https_acceptor = b }) refl
          refl h.workers http (listens ∙ sym https)
    with_https_listener-Starts a context (error message, b) http https listens = both_closed context

    with_tls-Starts :
        (a : Acceptor) (tls : Result (Unit {0}) × List TlsCall)
        → a.is_open ≡ s.config.http.enabled
        → s.config.https.enabled ≡ true
        → Starts network s (with_tls network tls (record s { acceptor = a }))
    unfolding with_tls
    with_tls-Starts a (error message, context) http https = one_closed context
    with_tls-Starts a (value _, context) http https =
        with_https_listener-Starts a context _ http https (
          subst (λ b. Listens (configure_listener network b s.config.https (text "HTTPS")))
            (sym h.https_acceptor) (configure_listener-Listens s.config.https (text "HTTPS")))

    start_https-Starts :
        (a : Acceptor)
        → a.is_open ≡ s.config.http.enabled
        → Starts network s (start_https network (record s { acceptor = a }))
    unfolding start_https
    start_https-Starts a http =
        if_cases (Starts network s) s.config.https.enabled _ _
          (λ e. with_tls-Starts a (configure_tls network s.config.tls s.tls_context) http e)
          (λ e.
            launch-Starts s (record s { acceptor = a }) refl refl h.workers http
              (ap (λ (b : Acceptor). b.is_open) h.https_acceptor ∙ sym e))

    with_http_listener-Starts :
        (r : Result (Unit {0}) × Acceptor)
        → s.config.http.enabled ≡ true
        → Listens r
        → Starts network s (with_http_listener network r s)
    unfolding with_http_listener
    with_http_listener-Starts (error message, a) http listens =
        (λ i. record s { acceptor = listens i }) ∙ one_closed s.tls_context
    with_http_listener-Starts (value _, a) http listens = start_https-Starts a (listens ∙ sym http)

    -- A start of a server that does not run ends in one of three ways. It succeeds, with all the
    -- threads that are configured, at least one, and a listening acceptor for each enabled listener
    -- and no other. Or it returns an error and leaves everything but the TLS context as it was: no
    -- acceptor stays open, no thread runs, and the server can be started again. Or reserving or
    -- making the threads throws: the server then counts as started, with its acceptors open.
    pub start-Starts : Starts network s (start network s)
    unfolding start
    start-Starts =
        if_cases (Starts network s) s.started _ _ (λ _. refl)
          λ _.
            if_cases (Starts network s) (not s.config.http.enabled && not s.config.https.enabled) _
              _ (λ _. refl)
              λ _.
                if_cases (Starts network s) s.config.http.enabled _ _
                  (λ e.
                    with_http_listener-Starts
                      (configure_listener network s.acceptor s.config.http (text "HTTP")) e
                      (subst
                        (λ b. Listens (configure_listener network b s.config.http (text "HTTP")))
                        (sym h.acceptor) (configure_listener-Listens s.config.http (text "HTTP"))))
                  (λ e.
                    start_https-Starts s.acceptor
                      (ap (λ (b : Acceptor). b.is_open) h.acceptor ∙ sym e))

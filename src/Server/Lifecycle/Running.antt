-- ===== src/Server/Lifecycle/Running.antt =====
-- A server of src/server/Server.cpp through any sequence of starts, stops, accepted and ended
-- sessions.
use recipes_core.Prelude.{
  arith, ℕ, ◌≡◌, refl, subst, sym, true, false, ◌&&◌, not, any, ◌==◌, ◌⊎◌, inl, inr, List, [], ◌∷◌,
  if_cases,
}
use recipes_core.Api.{Attempt, returns, throws, Result, value, error}
use recipes_core.Config.{ServerConfig}
use recipes_core.Server.Lifecycle.{
  Network, TlsCall, Acceptor, closed, Server, construct, register_session, unregister_session,
  unregister_all, close_sessions, start, stop, http_port, https_port, Event, starts, accepts,
  accepts_https, ends, stops, accept, step, run,
}
use recipes_core.Server.Lifecycle.Starting.{IsStopped, IsRunning, Starts, start-Starts}

-- Stopped or running, never in between.
abbrev pub IsSound : Network → Server → Type 0
IsSound network s = IsStopped s ⊎ IsRunning network s

-- Other sessions, with all else as in s.
abbrev with_sessions : Server → List ℕ → List ℕ → Server
with_sessions s sessions closing = record s { sessions = sessions; closing = closing }

module _ (network : Network) where
  with_sessions-IsSound :
      (s : Server) (sessions closing : List ℕ)
      → IsSound network s
      → IsSound network (with_sessions s sessions closing)
  with_sessions-IsSound s sessions closing (inl h) = inl (record {
    started = h.started;
    acceptor = h.acceptor;
    https_acceptor = h.https_acceptor;
    workers = h.workers;
  })
  with_sessions-IsSound s sessions closing (inr h) = inr (record {
    started = h.started;
    listens = h.listens;
    listens_https = h.listens_https;
    crew = h.crew;
  })

  accept-IsSound :
      (acceptor : Acceptor) (control : ℕ) (s : Server)
      → IsSound network s
      → IsSound network (accept acceptor control s)
  unfolding accept register_session
  accept-IsSound acceptor control s h =
      if_cases (IsSound network) (s.started && acceptor.is_open) _ _
        (λ _.
          if_cases (IsSound network) (any (λ id. id == control) s.sessions) _ _ (λ _. h)
            (λ _. with_sessions-IsSound s (control ∷ s.sessions) s.closing h))
        (λ _. h)

  -- A server that is stopped, with a TLS context that was used.
  with_context-IsSound :
      (s : Server) (context : List TlsCall)
      → IsStopped s
      → IsSound network (record s { tls_context = context })
  with_context-IsSound s context h = inl (record {
    started = h.started;
    acceptor = h.acceptor;
    https_acceptor = h.https_acceptor;
    workers = h.workers;
  })

  started_result-IsSound :
      (s : Server) (r : Attempt (Result (Unit {0})) × Server)
      → IsStopped s
      → Starts network s r
      → IsSound network r.1
  started_result-IsSound s (returns (value _), t) h running = inr running.0
  started_result-IsSound s (throws what, t) h running = inr running.0
  started_result-IsSound s (returns (error message), t) h same =
      subst (IsSound network) (sym same) (with_context-IsSound s t.tls_context h)

abbrev shut_down : Server → Server
shut_down s = record s { started = false; acceptor = closed; https_acceptor = closed }

unregister_all-acceptors :
    (controls : List ℕ) (s : Server)
    → let t = unregister_all controls s in
      (t.started ≡ s.started) × (t.acceptor ≡ s.acceptor) × (t.https_acceptor ≡ s.https_acceptor)
unfolding unregister_all unregister_session
unregister_all-acceptors [] s = (refl, refl, refl)
unregister_all-acceptors (control ∷ controls) s =
    unregister_all-acceptors controls (unregister_session control s)

module _ (network : Network) where
  start-IsSound : (s : Server) → IsSound network s → IsSound network (start network s).1
  unfolding start
  start-IsSound s (inl h) =
      started_result-IsSound network s (start network s) h (start-Starts network s h)
  start-IsSound s (inr h) =
      if_cases (λ (r : Attempt (Result (Unit {0})) × Server). IsSound network r.1) s.started _ _
        (λ _. inr h) (λ e. let started = h.started in cc)

  pub stop-IsStopped : (ended : List ℕ) (s : Server) → IsSound network s → IsStopped (stop ended s)
  unfolding stop close_sessions
  stop-IsStopped ended s h =
      if_cases IsStopped (not s.started) _ _ (λ e. unstarted e h)
        λ _.
          let kept = unregister_all-acceptors ended (close_sessions (shut_down s)) in
          record { started = kept.0; acceptor = kept.1; https_acceptor = kept.2; workers = refl }
    where
      unstarted : not s.started ≡ true → IsSound network s → IsStopped s
      unstarted e (inl stopped) = stopped
      unstarted e (inr running) = let started = running.started in ground arith

  IsStopped-ports : (s : Server) → IsStopped s → (http_port s ≡ 0) × (https_port s ≡ 0)
  unfolding http_port https_port
  IsStopped-ports s h = (rw h.acceptor refl, rw h.https_acceptor refl)

  step-IsSound :
      (s : Server) (event : Event) → IsSound network s → IsSound network (step network s event)
  unfolding step unregister_session
  step-IsSound s starts h = start-IsSound s h
  step-IsSound s (accepts control) h = accept-IsSound network s.acceptor control s h
  step-IsSound s (accepts_https control) h = accept-IsSound network s.https_acceptor control s h
  step-IsSound s (ends control) h = with_sessions-IsSound network s _ s.closing h
  step-IsSound s (stops ended) h = inl (stop-IsStopped ended s h)

  pub run-IsSound :
      (s : Server) (events : List Event)
      → IsSound network s
      → IsSound network (run network s events)
  unfolding run
  run-IsSound s [] h = h
  run-IsSound s (event ∷ events) h =
      run-IsSound (step network s event) events (step-IsSound s event h)

  -- Whatever happens to a server, in any order, it is either stopped, with no open acceptor and no
  -- thread, or running, with an open acceptor for each enabled listener and no other and, unless
  -- reserving or making them throws, with all the threads that are configured, at least one. A stop
  -- stops it, whichever sessions end in time, and both ports are then 0.
  pub run-construct-IsSound :
      (config : ServerConfig) (events : List Event) (ended : List ℕ)
      → let s = run network (construct config) events in
        IsSound network s
        × IsStopped (stop ended s)
        × (http_port (stop ended s) ≡ 0)
        × (https_port (stop ended s) ≡ 0)
  unfolding construct
  run-construct-IsSound config events ended =
      let s = run network (construct config) events in
      let sound =
        run-IsSound (construct config) events (
          inl
            (record { started = refl; acceptor = refl; https_acceptor = refl; workers = refl })) in
      let stopped = stop-IsStopped ended s sound in
      let ports = IsStopped-ports (stop ended s) stopped in (sound, stopped, ports.0, ports.1)

-- ===== src/Main/Ending.antt =====
-- How `main` of src/main.cpp ends.
use recipes_core.Prelude.{
  ℕ, ◌<◌, Text, text, ◌++◌, Bool, true, false, if◌then◌else◌, ◌≡◌, refl, sym, subst, ◌⊎◌, inl, inr,
  Option, none, some, Option-cases, List, if_cases, arith,
}
use recipes_core.Api.{Attempt, returns, throws, Result, value, error}
use recipes_core.Args.{Args, parse_args}
use recipes_core.Config.{
  ServerConfig, load_server_config, read_config_file, from_contents, lowercase_extension,
}
use recipes_core.Config.Validation.{IsUsable}
use recipes_core.Config.Loading.{load_server_config_iff}
use recipes_core.Service.{is_empty}
use recipes_core.Executor
use recipes_core.Executor.{Executor}
use recipes_core.Executor.Lifecycle.{construct_iff}
use recipes_core.Server.Lifecycle.{
  Server, TlsCall, construct, start, stop, run, make_workers, worker_count,
}
use recipes_core.Server.Lifecycle.Starting.{IsStopped, Starts, start-Starts}
use recipes_core.Server.Lifecycle.Running.{IsSound, run-IsSound, stop-IsStopped}
use recipes_core.Main.{
  Outside, Exit, returned, terminated, waiting, Run, with_worker, signalled, after_start,
  with_executor, with_database, with_config, with_args, program_name, main,
}

module _ {D : Type 0} (outside : Outside D) where
  -- What making the executor and starting the server throws, with a configuration.
  abbrev pub Throws : ServerConfig → Text → Type 0
  Throws c what =
      (outside.open_database c.database_path ≡ some what)
      ⊎ (outside.create_thread ≡ some what)
      ⊎ ((make_workers outside.network (worker_count c) 0).0 ≡ some what)

  -- What ends main by an exception, with a command line that is accepted: reading the configuration's
  -- file, or making the executor or the server with the usable configuration that was loaded.
  abbrev pub IsThrown : List Text → Text → Type 0
  IsThrown argv what =
      (args : Args) × (parse_args outside.project_root argv ≡ value args)
      × ((outside.source.contents args.app.server_config_path ≡ some (throws what))
          ⊎ ((c : ServerConfig) × (load_server_config outside.source args.app.server_config_path
                ≡ returns (value c))
              × IsUsable c
              × Throws c what))

  abbrev pub IsExplained : List Text → Exit → Type 0
  IsExplained argv (returned code) = (code ≡ 0) ⊎ (code ≡ 2) ⊎ (code ≡ 3) ⊎ (code ≡ 4)
  IsExplained argv (terminated what) = IsThrown argv what
  IsExplained argv waiting = outside.is_signalled ≡ false

  -- The server at the end: stopped where main returns.
  abbrev pub IsLeft : Exit → Option Server → Type 0
  IsLeft waiting none = ⊥
  IsLeft exit none = Unit {0}
  IsLeft (returned code) (some s) = IsStopped s
  IsLeft exit (some s) = IsSound outside.network s

  abbrev pub IsOver : List Text → Run → Type 0
  IsOver argv r = IsExplained argv r.exit × IsLeft r.exit r.server

  fresh-IsStopped : (config : ServerConfig) → IsStopped (construct config)
  unfolding construct
  fresh-IsStopped config = record {
    started = refl;
    acceptor = refl;
    https_acceptor = refl;
    workers = refl;
  }

  refused-IsStopped :
      (config : ServerConfig) (context : List TlsCall)
      → IsStopped (record (construct config) { tls_context = context })
  unfolding construct
  refused-IsStopped config context = record {
    started = refl;
    acceptor = refl;
    https_acceptor = refl;
    workers = refl;
  }

  signalled-IsOver :
      (argv : List Text) (s : Server) (b : Bool)
      → outside.is_signalled ≡ b
      → IsSound outside.network s
      → let last : Exit × Server = if b then (returned 0, stop outside.ended s) else (waiting, s) in
        IsExplained argv last.0 × IsLeft last.0 (some last.1)
  signalled-IsOver argv s true e sound =
      (inl refl, stop-IsStopped outside.network outside.ended s sound)
  signalled-IsOver argv s false e sound = (e, sound)

  module _ (argv : List Text) (args : Args)
      (parsed : parse_args outside.project_root argv ≡ value args) where
    after_start-IsOver :
        (c : ServerConfig) (r : Attempt (Result (Unit {0})) × Server)
        → load_server_config outside.source args.app.server_config_path ≡ returns (value c)
        → IsUsable c
        → (construct c).config ≡ c
        → Starts outside.network (construct c) r
        → IsOver argv (after_start outside r)
    unfolding after_start signalled
    after_start-IsOver c (returns (error message), s) loaded usable same kept =
        (inr (inr (inr refl)), subst IsStopped (sym kept) (refused-IsStopped c s.tls_context))
    after_start-IsOver c (throws what, s) loaded usable same running = (
      (
        args,
        parsed,
        inr (
          c,
          loaded,
          usable,
          inr (
              inr (
                subst (λ d. (make_workers outside.network (worker_count d) 0).0 ≡ some what) same
                  running.1)),
        ),
      ),
      inr running.0,
    )
    after_start-IsOver c (returns (value _), s) loaded usable same running =
        signalled-IsOver argv (run outside.network s outside.until_signal) outside.is_signalled refl
          (run-IsSound outside.network s outside.until_signal (inr running.0))

    with_worker-IsOver :
        (c : ServerConfig) (made : Option Text)
        → load_server_config outside.source args.app.server_config_path ≡ returns (value c)
        → IsUsable c
        → outside.create_thread ≡ made
        → IsOver argv (with_worker outside c made)
    unfolding with_worker construct
    with_worker-IsOver c (some what) loaded usable e =
        ((args, parsed, inr (c, loaded, usable, inr (inl e))), tt)
    with_worker-IsOver c none loaded usable e =
        after_start-IsOver c (start outside.network (construct c)) loaded usable refl
          (start-Starts outside.network (construct c) (fresh-IsStopped c))

    constructed :
        (service : D) (capacity : ℕ)
        → 0 < capacity
        → (e : Executor D D) × (Executor.construct {A = D} service capacity ≡ some e)
    constructed service capacity h =
        elim (Option-cases (Executor.construct {A = D} service capacity)) [
          | inl e ↦
              let zero_capacity = (construct_iff {A = D} service capacity).0 e in
              absurd (omega arith)
          | inr made ↦ made
        ]

    with_database-IsOver :
        (c : ServerConfig) (opened : Option Text)
        → load_server_config outside.source args.app.server_config_path ≡ returns (value c)
        → IsUsable c
        → outside.open_database c.database_path ≡ opened
        → IsOver argv (with_database outside c opened)
    unfolding with_database with_executor
    with_database-IsOver c (some what) loaded usable e =
        ((args, parsed, inr (c, loaded, usable, inl e)), tt)
    with_database-IsOver c none loaded usable e =
        let (executor, made) =
          constructed (outside.database c.database_path) c.database_queue_capacity
            usable.capacity in
        subst (λ o. IsOver argv (with_executor outside c o)) (sym made)
          (with_worker-IsOver c outside.create_thread loaded usable refl)

    unread :
        (what : Text)
        → load_server_config outside.source args.app.server_config_path ≡ throws what
        → outside.source.contents args.app.server_config_path ≡ some (throws what)
    unfolding load_server_config read_config_file
    unread what e = by_contents (outside.source.contents args.app.server_config_path) e
      where
        by_contents :
            (opened : Option (Attempt Text))
            → from_contents outside.source
                (lowercase_extension outside.source args.app.server_config_path)
                (elim opened as (λ _. Attempt (Result Text)) [
                  | none ↦ returns (
                      error
                        (text "Failed to open configuration file: " ++ args.app.server_config_path))
                  | some (returns contents) ↦ returns (value contents)
                  | some (throws what) ↦ throws what
                ])
              ≡ throws what
            → opened ≡ some (throws what)
        by_contents none e = cc
        by_contents (some (returns contents)) e = cc
        by_contents (some (throws other)) e = cc

    with_config-IsOver :
        (r : Attempt (Result ServerConfig))
        → load_server_config outside.source args.app.server_config_path ≡ r
        → IsOver argv (with_config outside r)
    unfolding with_config
    with_config-IsOver (throws what) e = ((args, parsed, inl (unread what e)), tt)
    with_config-IsOver (returns (error message)) e = (inr (inr (inl refl)), tt)
    with_config-IsOver (returns (value c)) e =
        with_database-IsOver c (outside.open_database c.database_path) e
          ((load_server_config_iff outside.source args.app.server_config_path c).0 e).usable refl

  with_args-IsOver :
      (argv : List Text) (name : Text) (r : Result Args)
      → parse_args outside.project_root argv ≡ r
      → IsOver argv (with_args outside name r)
  unfolding with_args
  with_args-IsOver argv name (error message) e = (inr (inl refl), tt)
  with_args-IsOver argv name (value args) e =
      if_cases (IsOver argv) args.show_help _ _ (λ _. (inl refl, tt))
        λ _.
          if_cases (IsOver argv) (is_empty args.app.server_config_path) _ _ (λ _. (inl refl, tt))
            λ _. with_config-IsOver argv args e _ refl

  -- Whatever the arguments, the files and the network, main waits for a signal that does not come,
  -- or ends with exit code 0, 2, 3 or 4 and the server, if it was made, stopped; or an exception
  -- ends it, of an accepted command line: the one that reading the configuration's file throws, or,
  -- with the usable configuration that was loaded, one of opening the database, of making the
  -- executor's thread or of making the server's threads. The capacity that the executor throws for
  -- never reaches it. Then, and while it waits, a server is stopped or runs as its configuration
  -- says.
  pub main-IsOver :
      (argv : List Text)
      → IsExplained argv (main outside argv).exit
        × IsLeft (main outside argv).exit (main outside argv).server
  unfolding main
  main-IsOver argv =
      with_args-IsOver argv (program_name outside argv) (parse_args outside.project_root argv) refl

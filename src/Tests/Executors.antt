-- ===== src/Tests/Executors.antt =====
-- The executor's theorems at a concrete run.
use recipes_core.Prelude.{ℕ, ◌+◌, ◌≡◌, refl, some, List, [], ◌∷◌, true, false, arith, text}
use recipes_core.App.{expected}
use recipes_core.Executor.{
  Worker, Job, Event, Executor, submit, work, stop, gave, threw, waiting, construct, run,
}
use recipes_core.Executor.Order.{serve, pending, accepted, run-serve}
use recipes_core.Executor.Lifecycle.{
  IsSound, construct-run-IsSound, run-owed, owed, submissions, stop_drains, works,
}

-- Adds to the service, and fails where the service is 0.
abbrev adding : ℕ → Job ℕ ℕ
adding n = record { id = n; operation = λ s. (gave (expected s), s + n) }

abbrev failing : Job ℕ ℕ
failing = record { id = 9; operation = λ s. (threw (text "disk"), s) }

abbrev fresh : Executor ℕ ℕ
fresh = record {
  service = 0;
  queue = [];
  queue_capacity = 2;
  stopping = false;
  worker = waiting;
  completed = [];
  refused = [];
}

-- The third submission finds the queue full, the last one comes after the stop.
abbrev busy : List (Event ℕ ℕ)
busy =
    submit (adding 1)
    ∷ submit failing
    ∷ submit (adding 2)
    ∷ work
    ∷ work
    ∷ submit (adding 3)
    ∷ stop
    ∷ submit (adding 4)
    ∷ []

run-serve_example :
    serve
      (record { completed = (run fresh busy).completed; service = (run fresh busy).service })
      (pending (run fresh busy))
    ≡ serve (record { completed = []; service = 0 }) (accepted fresh busy)
run-serve_example = run-serve fresh busy

fresh-constructed : construct {A = ℕ} 0 2 ≡ some fresh
unfolding construct
fresh-constructed = refl

construct-run-IsSound_example : IsSound (run fresh busy)
construct-run-IsSound_example = construct-run-IsSound 0 2 busy fresh fresh-constructed

run-owed_example : owed 1 (run fresh busy) ≡ owed 1 fresh + submissions 1 busy
run-owed_example = run-owed 1 fresh busy

abbrev stopped : Executor ℕ ℕ
stopped = record fresh { stopping = true; queue = adding 1 ∷ failing ∷ [] }

stopped-IsSound : IsSound stopped
stopped-IsSound = record { positive = omega arith; fits = omega arith; ended = λ e. cc }

stop_drains_example :
    let last = run stopped (works 5) in
    (last.worker ≡ Worker.finished)
    × (record { completed = last.completed; service = last.service }
        ≡ serve (record { completed = []; service = 0 }) (adding 1 ∷ failing ∷ []))
stop_drains_example = stop_drains stopped stopped-IsSound refl

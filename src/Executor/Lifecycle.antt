-- ===== src/Executor/Lifecycle.antt =====
-- The bound on the queue of src/app/DatabaseExecutor.cpp, the answers that each submission gets, and
-- the end of the worker.
use mathlib.Core.Path.{ap₂}
use mathlib.Core.List.{append-nil}
use recipes_core.Prelude.{
  subst, ℕ, zero, suc, ◌+◌, ◌*◌, ◌≤◌, ◌<◌, ◌≡◌, ◌↔◌, refl, ap, sym, ◌∙◌, Bool, true, false, none,
  some, List, [], ◌∷◌, ◌++◌, length, length-append, leb, if◌then◌else◌, ◌==◌, arith,
}
use recipes_core.App.{Expected}
use recipes_core.Executor.{
  result_of, Job, Worker, waiting, running, finished, Executor, Event, submit, work, stop,
  construct, refuse, submit_step, run_step, stop_step, step, run,
}
use recipes_core.Executor.Order.{in_hand, pending, accepted, serve, run-serve}

-- 1 for the id itself, and how often an id stands for a result.
unfoldable pub once : ℕ → ℕ → ℕ
once id other = if other == id then 1 else 0

abbrev pub answers : {A : Type 0} → ℕ → List (ℕ × Expected A) → ℕ
answers id [] = 0
answers id ((other, result) ∷ log) = once id other + answers id log

answers-append :
    {A : Type 0} (id : ℕ) (xs ys : List (ℕ × Expected A))
    → answers id (xs ++ ys) ≡ answers id xs + answers id ys
answers-append id [] ys = omega arith
answers-append id ((other, result) ∷ xs) ys = omega (arith, answers-append id xs ys)

module _ {S A : Type 0} where
  -- The queue fits, and the worker is gone only when nothing more can come.
  pub record IsSound (e : Executor S A) : Type 0 where
    pub positive : 0 < e.queue_capacity
    pub fits : length e.queue ≤ e.queue_capacity
    pub ended : e.worker ≡ finished → (e.stopping ≡ true) × (e.queue ≡ [])

  -- The constructor refuses a capacity of 0 and no other.
  pub construct_iff :
      (service : S) (queue_capacity : ℕ)
      → (construct {A = A} service queue_capacity ≡ none) ↔ (queue_capacity ≡ 0)
  unfolding construct
  construct_iff service queue_capacity = ground arith

  construct-IsSound :
      (service : S) (queue_capacity : ℕ) (e : Executor S A)
      → construct service queue_capacity ≡ some e
      → IsSound e
  unfolding construct
  construct-IsSound service queue_capacity e h = record {
    positive = ground arith;
    fits = ground arith;
    ended = λ f. ground arith;
  }

  submit-IsSound : (e : Executor S A) (job : Job S A) → IsSound e → IsSound (submit_step job e)
  unfolding submit_step
  submit-IsSound e job h = record {
    positive = ground (arith, h.positive);
    fits = ground (arith, h.fits, length-append e.queue (job ∷ []));
    ended = λ f. ground (arith, h.ended);
  }

  work-IsSound :
      (worker : Worker S A) (queue : List (Job S A)) (e : Executor S A)
      → IsSound (record e { worker = worker; queue = queue })
      → IsSound (run_step (record e { worker = worker; queue = queue }))
  unfolding run_step
  work-IsSound waiting [] e h = record {
    positive = ground (arith, h.positive);
    fits = ground (arith, h.fits);
    ended = λ f. ground arith;
  }
  work-IsSound waiting (job ∷ rest) e h = record {
    positive = h.positive;
    fits = omega (arith, h.fits);
    ended = λ f. cc;
  }
  work-IsSound (running job) queue e h = record {
    positive = h.positive;
    fits = h.fits;
    ended = λ f. cc;
  }
  work-IsSound finished queue e h = h

  step-IsSound : (e : Executor S A) (event : Event S A) → IsSound e → IsSound (step e event)
  unfolding step
  step-IsSound e (submit job) h = submit-IsSound e job h
  step-IsSound e work h = work-IsSound e.worker e.queue e h
  step-IsSound e stop h = record {
    positive = h.positive;
    fits = h.fits;
    ended = λ f. (refl, (h.ended f).1);
  }

  run-IsSound : (e : Executor S A) (events : List (Event S A)) → IsSound e → IsSound (run e events)
  unfolding run
  run-IsSound e [] h = h
  run-IsSound e (event ∷ events) h = run-IsSound (step e event) events (step-IsSound e event h)

  -- From construction on, whatever the interleaving, the queue never holds more than its capacity,
  -- and a worker that has ended has left nothing behind.
  pub construct-run-IsSound :
      (service : S) (queue_capacity : ℕ) (events : List (Event S A)) (e : Executor S A)
      → construct service queue_capacity ≡ some e
      → IsSound (run e events)
  construct-run-IsSound service queue_capacity events e h =
      run-IsSound e events (construct-IsSound service queue_capacity e h)

  -- How often an id stands for an operation and for a submission.
  abbrev pub operations : ℕ → List (Job S A) → ℕ
  operations id [] = 0
  operations id (job ∷ jobs) = once id job.id + operations id jobs

  abbrev pub submissions : ℕ → List (Event S A) → ℕ
  submissions id [] = 0
  submissions id (submit job ∷ events) = once id job.id + submissions id events
  submissions id (work ∷ events) = submissions id events
  submissions id (stop ∷ events) = submissions id events

  abbrev pub owed : ℕ → Executor S A → ℕ
  owed id e = answers id e.completed + answers id e.refused + operations id (pending e)

  operations-append :
      (id : ℕ) (xs ys : List (Job S A))
      → operations id (xs ++ ys) ≡ operations id xs + operations id ys
  operations-append id [] ys = omega arith
  operations-append id (job ∷ xs) ys = omega (arith, operations-append id xs ys)

  submit-owed :
      (id : ℕ) (e : Executor S A) (job : Job S A)
      → owed id (submit_step job e) ≡ owed id e + once id job.id
  unfolding submit_step
  submit-owed id e job = by_test e.stopping (leb e.queue_capacity (length e.queue)) _ _
    where
      by_test :
          (stopping full : Bool) (late overloaded : Expected A)
          → owed id (
              if stopping
              then refuse job late e
              else if full
              then refuse job overloaded e
              else record e { queue = e.queue ++ job ∷ [] })
            ≡ owed id e + once id job.id
      by_test true full late busy = omega (arith, answers-append id e.refused ((job.id, late) ∷ []))
      by_test false true late busy =
          omega (arith, answers-append id e.refused ((job.id, busy) ∷ []))
      by_test false false late busy = omega (
        arith,
        operations-append id e.queue (job ∷ []),
        operations-append id (in_hand e.worker) e.queue,
        operations-append id (in_hand e.worker) (e.queue ++ job ∷ []),
      )

  work-owed :
      (id : ℕ) (worker : Worker S A) (queue : List (Job S A)) (e : Executor S A)
      → owed id (run_step (record e { worker = worker; queue = queue }))
        ≡ owed id (record e { worker = worker; queue = queue })
  unfolding run_step
  work-owed id waiting [] e = ground arith
  work-owed id waiting (job ∷ rest) e = refl
  work-owed id (running job) queue e =
      omega (
        arith,
        answers-append id e.completed ((job.id, result_of (job.operation e.service).0) ∷ []),
      )
  work-owed id finished queue e = refl

  -- No submission is lost, none is answered twice and none under the id of another: for each id, the
  -- results delivered under it, its refusals and its operations that are still pending grow together
  -- by one with each submission of that id, and by nothing else.
  pub run-owed :
      (id : ℕ) (e : Executor S A) (events : List (Event S A))
      → owed id (run e events) ≡ owed id e + submissions id events
  unfolding run step
  run-owed id e [] = omega arith
  run-owed id e (submit job ∷ events) =
      omega (arith, run-owed id (submit_step job e) events, submit-owed id e job)
  run-owed id e (work ∷ events) =
      omega (arith, run-owed id (run_step e) events, work-owed id e.worker e.queue e)
  run-owed id e (stop ∷ events) = run-owed id (stop_step e) events

  abbrev pub works : ℕ → List (Event S A)
  works zero = []
  works (suc n) = work ∷ works n

  abbrev steps_left : Worker S A → List (Job S A) → ℕ
  steps_left waiting queue = 2 * length queue + 1
  steps_left (running job) queue = 2 * length queue + 2
  steps_left finished queue = 0

  drains :
      (n : ℕ) (worker : Worker S A) (queue : List (Job S A)) (e : Executor S A)
      → steps_left worker queue ≤ n
      → (run (record e { worker = worker; queue = queue; stopping = true }) (works n)).worker
        ≡ finished
  unfolding run step run_step
  drains zero waiting queue e h = absurd (omega arith)
  drains zero (running job) queue e h = absurd (omega arith)
  drains zero finished queue e h = refl
  drains (suc n) waiting [] e h = drains n finished [] e (omega arith)
  drains (suc n) waiting (job ∷ rest) e h = drains n (running job) rest e (omega arith)
  drains (suc n) (running job) queue e h =
      drains n waiting queue
        (record e {
          service = (job.operation e.service).1;
          completed = e.completed ++ (job.id, result_of (job.operation e.service).0) ∷ [];
        })
        (omega arith)
  drains (suc n) finished queue e h = drains n finished queue e (omega arith)

  steps_left-bound :
      (worker : Worker S A) (queue : List (Job S A))
      → steps_left worker queue ≤ 2 * length (in_hand worker ++ queue) + 1
  steps_left-bound waiting queue = omega arith
  steps_left-bound (running job) queue = omega arith
  steps_left-bound finished queue = omega arith

  accepted-works : (n : ℕ) (e : Executor S A) → accepted e (works n) ≡ []
  unfolding accepted
  accepted-works zero e = refl
  accepted-works (suc n) e = accepted-works n (step e work)

  -- Once a sound executor is stopping, the worker has ended after two of its steps for each pending
  -- operation and one more, and has then served them all in their order.
  pub stop_drains :
      (e : Executor S A)
      → IsSound e
      → e.stopping ≡ true
      → let last = run e (works (2 * length (pending e) + 1)) in
        (last.worker ≡ finished)
        × (record { completed = last.completed; service = last.service }
            ≡ serve (record { completed = e.completed; service = e.service }) (pending e))
  unfolding serve
  stop_drains e sound stopping = (ends, sym (ap (serve _) nothing_left) ∙ run-serve e rounds ∙ same)
    where
      rounds : List (Event S A)
      rounds = works (2 * length (pending e) + 1)

      ends : (run e rounds).worker ≡ finished
      ends =
          subst (λ b. (run (record e { stopping = b }) rounds).worker ≡ finished) (sym stopping)
            (drains (2 * length (pending e) + 1) e.worker e.queue e
              (steps_left-bound e.worker e.queue))

      nothing_left : pending (run e rounds) ≡ []
      nothing_left = ap₂ (λ w q. in_hand w ++ q) ends ((run-IsSound e rounds sound).ended ends).1

      same :
          serve
            (record { completed = e.completed; service = e.service })
            (pending e ++ accepted e rounds)
          ≡ serve (record { completed = e.completed; service = e.service }) (pending e)
      same = ap (serve _) (
          ap (◌++◌ (pending e)) (accepted-works (2 * length (pending e) + 1) e)
          ∙ append-nil (pending e))

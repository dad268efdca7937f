-- ===== src/Executor.antt =====
-- `app::DatabaseExecutor` (include/app/DatabaseExecutor.hpp, src/app/DatabaseExecutor.cpp): one
-- worker thread over a bounded queue. Each critical section, and each run of an operation, is one
-- step, so that a sequence of events is an interleaving of the callers, the worker and `Stop`.
-- `Submit` and `AsyncSubmit` differ only in how a result is delivered: it is a line of a log here.
pub mod Order
pub mod Lifecycle
use recipes_core.Prelude.{
  ℕ, Text, text, Bool, true, false, Option, none, some, List, [], ◌∷◌, ◌++◌, length, leb, ◌==◌,
  if◌then◌else◌,
}
use recipes_core.App.{Error, Expected, expected, unexpected, storage, overloaded}

-- `std::invoke(*operation, service_)`: its result, a std::exception with its text, or another one.
pub data Invoked (A : Type 0) : Type 0 where
  gave : Expected A → Invoked A
  threw : Text → Invoked A
  threw_unknown : Invoked A

abbrev pub storage_failure : {A : Type 0} → Text → Expected A
storage_failure message = unexpected (record { code = storage; message = message })

-- The two handlers around the call.
unfoldable pub result_of : {A : Type 0} → Invoked A → Expected A
result_of (gave result) = result
result_of (threw what) = storage_failure what
result_of threw_unknown = storage_failure (text "Unknown database worker error")

-- S is what the service works on, A the type of the results.
pub record Job (S A : Type 0) : Type 0 where
  pub id : ℕ
  pub operation : S → Invoked A × S

pub data Worker (S A : Type 0) : Type 0 where
  waiting : Worker S A
  running : Job S A → Worker S A
  finished : Worker S A

-- `completed` logs the results that the worker delivers, `refused` those that a submission gets at
-- once.
pub record Executor (S A : Type 0) : Type 0 where
  pub service : S
  pub queue : List (Job S A)
  pub queue_capacity : ℕ
  pub stopping : Bool
  pub worker : Worker S A
  pub completed : List (ℕ × Expected A)
  pub refused : List (ℕ × Expected A)

pub data Event (S A : Type 0) : Type 0 where
  submit : Job S A → Event S A
  work : Event S A
  stop : Event S A

module _ {S A : Type 0} where
  -- The constructor; `none` is `std::invalid_argument`.
  unfoldable pub construct : S → ℕ → Option (Executor S A)
  construct service queue_capacity =
      if queue_capacity == 0
      then none
      else some (record {
        service = service;
        queue = [];
        queue_capacity = queue_capacity;
        stopping = false;
        worker = waiting;
        completed = [];
        refused = [];
      })

  abbrev pub refuse : Job S A → Expected A → Executor S A → Executor S A
  refuse job result e = record e { refused = e.refused ++ (job.id, result) ∷ [] }

  -- The body of `Submit` and `AsyncSubmit` under the lock.
  unfoldable pub submit_step : Job S A → Executor S A → Executor S A
  submit_step job e =
      if e.stopping
      then refuse job (storage_failure (text "Database executor is stopping")) e
      else if leb e.queue_capacity (length e.queue)
      then refuse job
          (unexpected
            (record { code = overloaded; message = text "Database executor queue is full" }))
          e
      else record e { queue = e.queue ++ job ∷ [] }

  abbrev run_job : Job S A → Executor S A → Executor S A
  run_job job e = record e {
    service = (job.operation e.service).1;
    worker = waiting;
    completed = e.completed ++ (job.id, result_of (job.operation e.service).0) ∷ [];
  }

  -- `condition_.wait`, then the test for the end, then the front of the queue.
  abbrev take : List (Job S A) → Executor S A → Executor S A
  take [] e = if e.stopping then record e { worker = finished } else e
  take (job ∷ rest) e = record e { queue = rest; worker = running job }

  abbrev worker_step : Worker S A → Executor S A → Executor S A
  worker_step waiting e = take e.queue e
  worker_step (running job) e = run_job job e
  worker_step finished e = e

  -- One round of the loop of `Run`, in two steps: taking an operation, and running it.
  unfoldable pub run_step : Executor S A → Executor S A
  unfolding result_of
  run_step e = worker_step e.worker e

  unfoldable pub stop_step : Executor S A → Executor S A
  stop_step e = record e { stopping = true }

  unfoldable pub step : Executor S A → Event S A → Executor S A
  unfolding submit_step run_step stop_step
  step e (submit job) = submit_step job e
  step e work = run_step e
  step e stop = stop_step e

  unfoldable pub run : Executor S A → List (Event S A) → Executor S A
  unfolding step
  run e [] = e
  run e (event ∷ events) = run (step e event) events

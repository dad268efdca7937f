-- ===== src/Composition/Worker.antt =====
-- `app::DatabaseExecutor` as the executor of the router: an operation is submitted, and the worker
-- goes through one round of its loop.
use recipes_core.Prelude.{
  ℕ, ◌<◌, ◌≡◌, refl, ap, Bool, false, List, [], ◌∷◌, ◌++◌, subst, sym, text, leb, arith,
}
use recipes_core.App.{Action, Expected, DatabaseExecutor}
use recipes_core.Executor.{
  Executor, Job, gave, waiting, submit, work, run, storage_failure, submit_step, run_step, step,
}
use recipes_core.Composition.{IsPrompt}

-- An executor between two requests: its queue is empty, and its worker waits.
pub record Idle (S : Type 0) : Type 0 where
  pub service : S
  pub queue_capacity : ℕ
  pub stopping : Bool

-- The executor for operations with one type of result, and nothing delivered yet.
abbrev pub executor_of : (S A : Type 0) → Idle S → Executor S A
executor_of S A w = record {
  service = w.service;
  queue = [];
  queue_capacity = w.queue_capacity;
  stopping = w.stopping;
  worker = waiting;
  completed = [];
  refused = [];
}

-- An operation that throws nothing, as the repository's.
abbrev pub job_of : {S A : Type 0} → Action S A → Job S A
job_of operation = record { id = 0; operation = λ s. (gave (operation s).0, (operation s).1) }

-- The first result that was delivered.
abbrev pub delivered : {A : Type 0} → List (ℕ × Expected A) → Expected A
delivered [] = storage_failure (text "no result")
delivered ((id, result) ∷ later) = result

abbrev pub after : {S A : Type 0} → Idle S → Action S A → Executor S A
unfolding run
after {S = S} {A = A} w operation =
    run (executor_of S A w) (submit (job_of operation) ∷ work ∷ work ∷ [])

abbrev pub worker_executor : {S : Type 0} → DatabaseExecutor S (Idle S)
worker_executor = record {
  async_submit = λ A operation w.
      let e = after w operation in
      (
        delivered (e.completed ++ e.refused),
        record { service = e.service; queue_capacity = e.queue_capacity; stopping = e.stopping },
      );
}

abbrev pub IsServing : {S : Type 0} → Idle S → Type 0
IsServing w = (w.stopping ≡ false) × (0 < w.queue_capacity)

module _ {S A : Type 0} (operation : Action S A) (w : Idle S) (serving : IsServing w) where
  served :
      worker_executor.async_submit A operation w
      ≡ ((operation w.service).0, record w { service = (operation w.service).1 })
  unfolding run step submit_step run_step
  served =
      let open_queue : leb w.queue_capacity 0 ≡ false = ground (arith, serving.1) in
      rw (serving.0, open_queue) refl

-- The worker serves an operation at once where it is not stopping and the queue has a place.
pub worker_executor-IsPrompt :
    {S : Type 0} → IsPrompt (worker_executor {S = S}) (λ w. w.service) IsServing
worker_executor-IsPrompt = record {
  result = λ operation w h. ap (λ r. r.0) (served operation w h);
  stored = λ operation w h. ap (λ r. r.1.service) (served operation w h);
  serving = λ operation w h. subst IsServing (sym (ap (λ r. r.1) (served operation w h))) h;
}

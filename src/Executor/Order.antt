-- ===== src/Executor/Order.antt =====
-- Operations of src/app/DatabaseExecutor.cpp take effect one after the other, in the order in which
-- they were accepted, whatever the interleaving.
use mathlib.Core.List.{append_assoc, append-nil}
use recipes_core.Prelude.{
  ℕ, ◌≡◌, refl, ap, sym, ◌∙◌, ◌||◌, Bool-cases, inl, inr, List, [], ◌∷◌, ◌++◌, length, leb,
  if◌then◌else◌, arith,
}
use recipes_core.App.{Expected}
use recipes_core.Executor.{
  result_of, Job, Worker, waiting, running, finished, Executor, Event, submit, work, stop,
  submit_step, run_step, step, run,
}

-- The sequential meaning of a list of operations: the results that are delivered, and the service.
pub record Served (S A : Type 0) : Type 0 where
  pub completed : List (ℕ × Expected A)
  pub service : S

module _ {S A : Type 0} where
  unfoldable pub serve : Served S A → List (Job S A) → Served S A
  serve s [] = s
  serve s (job ∷ jobs) =
      serve
        (record {
          completed = s.completed ++ (job.id, result_of (job.operation s.service).0) ∷ [];
          service = (job.operation s.service).1;
        })
        jobs

  abbrev pub in_hand : Worker S A → List (Job S A)
  in_hand (running job) = job ∷ []
  in_hand waiting = []
  in_hand finished = []

  -- Accepted and not yet answered.
  abbrev pub pending : Executor S A → List (Job S A)
  pending e = in_hand e.worker ++ e.queue

  abbrev served_so_far : Executor S A → Served S A
  served_so_far e = record { completed = e.completed; service = e.service }

  -- What an event adds to the accepted operations.
  abbrev pub admitted : Executor S A → Event S A → List (Job S A)
  admitted e (submit job) =
      if e.stopping || leb e.queue_capacity (length e.queue) then [] else job ∷ []
  admitted e work = []
  admitted e stop = []

  unfoldable pub accepted : Executor S A → List (Event S A) → List (Job S A)
  accepted e [] = []
  accepted e (event ∷ events) = admitted e event ++ accepted (step e event) events

  outcome : Executor S A → List (Job S A) → Served S A
  outcome e jobs = serve (served_so_far e) (pending e ++ jobs)

  regroup :
      (xs ys : List (Job S A)) (job : Job S A) (zs : List (Job S A))
      → (xs ++ (ys ++ job ∷ [])) ++ zs ≡ (xs ++ ys) ++ job ∷ zs
  regroup xs ys job zs = simp append_assoc

  submit-outcome :
      (e : Executor S A) (job : Job S A) (jobs : List (Job S A))
      → outcome (submit_step job e) jobs ≡ outcome e (admitted e (submit job) ++ jobs)
  unfolding outcome submit_step
  submit-outcome e job jobs = ground (arith, regroup (in_hand e.worker) e.queue job jobs)

  run-outcome :
      (worker : Worker S A) (queue jobs : List (Job S A)) (e : Executor S A)
      → outcome (run_step (record e { worker = worker; queue = queue })) jobs
        ≡ outcome (record e { worker = worker; queue = queue }) jobs
  unfolding outcome run_step serve
  run-outcome waiting [] jobs e = elim (Bool-cases e.stopping) [ inl s ↦ rw s | inr s ↦ rw s ]
  run-outcome waiting (job ∷ rest) jobs e = refl
  run-outcome (running job) queue jobs e = refl
  run-outcome finished queue jobs e = refl

  step-outcome :
      (e : Executor S A) (event : Event S A) (jobs : List (Job S A))
      → outcome (step e event) jobs ≡ outcome e (admitted e event ++ jobs)
  unfolding step
  step-outcome e (submit job) jobs = submit-outcome e job jobs
  step-outcome e work jobs = run-outcome e.worker e.queue jobs e
  step-outcome e stop jobs = unfold outcome in refl

  run-outcome_all :
      (e : Executor S A) (events : List (Event S A))
      → outcome (run e events) [] ≡ outcome e (accepted e events)
  unfolding run accepted
  run-outcome_all e [] = refl
  run-outcome_all e (event ∷ events) =
      run-outcome_all (step e event) events ∙ step-outcome e event (accepted (step e event) events)

  -- After any interleaving of submissions, worker steps and stops, serving what is still pending
  -- leaves the results and the service state of serving, one after the other and in the order of
  -- acceptance, what was pending at the start and all that was accepted since.
  pub run-serve :
      (e : Executor S A) (events : List (Event S A))
      → serve
          (record { completed = (run e events).completed; service = (run e events).service })
          (pending (run e events))
        ≡ serve
            (record { completed = e.completed; service = e.service })
            (pending e ++ accepted e events)
  unfolding outcome
  run-serve e events =
      ap (serve (served_so_far (run e events))) (sym (append-nil (pending (run e events))))
      ∙ run-outcome_all e events

-- ===== src/Server/Lifecycle/Workers.antt =====
-- The threads that `Server::Start` of src/server/Server.cpp makes.
use recipes_core.Prelude.{
  ℕ, zero, suc, ◌+◌, Option-cases, inl, inr, ◌∙◌, Text, ◌≡◌, none, some, arith,
}
use recipes_core.Server.Lifecycle.{Network, add_workers, make_workers}

pub no_failure : {what : Text} {P : Type 0} → some what ≡ none → P
no_failure e = cc

module _ (network : Network) where
  add_workers-all :
      (left made : ℕ)
      → (add_workers network left made).0 ≡ none
      → (add_workers network left made).1 ≡ left + made
  unfolding add_workers
  add_workers-all zero made h = omega arith
  add_workers-all (suc left) made h = elim (Option-cases (network.create_thread made)) [
    | inl e ↦
        let rest : (add_workers network left (suc made)).1 ≡ suc left + made =
          add_workers-all left (suc made) (rw (add_workers, e) at h) ∙ omega arith in
        rw (add_workers, e) rest
    | inr (what, e) ↦ no_failure (rw (add_workers, e) at h)
  ]

  pub make_workers-all :
      (count : ℕ)
      → (make_workers network count 0).0 ≡ none
      → (make_workers network count 0).1 ≡ count
  unfolding make_workers
  make_workers-all count h = elim (Option-cases (network.reserve count)) [
    | inl e ↦
        let all : (add_workers network count 0).1 ≡ count =
          add_workers-all count 0 (rw (make_workers, e) at h) ∙ omega arith in
        rw (make_workers, e) all
    | inr (what, e) ↦ no_failure (rw (make_workers, e) at h)
  ]

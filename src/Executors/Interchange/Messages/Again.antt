-- ===== src/Executors/Interchange/Messages/Again.antt =====
-- A manager that registers when it is registered already
-- (environment/parsl/executors/high_throughput/interchange.py, `process_manager_socket_message`).
use talents_parsl_checkpoint.Prelude.{
  ℕ, ◌<◌, ◌≡◌, refl, ap, false, some, List, [], ◌∷◌, ◌++◌, count, arith,
}
use talents_parsl_checkpoint.Dataflow.Errors.{ok}
use talents_parsl_checkpoint.Executors.Interchange.{
  ManagerRecord, Interchange, get_manager, assign, add_interesting,
}
use talents_parsl_checkpoint.Executors.Interchange.Managers.{held-assign}
use talents_parsl_checkpoint.Executors.Interchange.Sound.{IsConserved}
use talents_parsl_checkpoint.Executors.Interchange.Messages.{
  Registration, registration, Settings, new_record, mismatch, accept, register_manager,
  process_manager_socket_message,
}

module _ (k x : ℕ) (block : List ℕ) (m : ManagerRecord) (s : Interchange)
    (conserved : IsConserved s) (there : get_manager k s.ready_managers ≡ some m)
    (holds : 0 < count x m.tasks) where
  accept_forgets :
      (n : ManagerRecord)
      → n.tasks ≡ []
      → (s' : Interchange) × (accept k n (some block) s ≡ ok s') × ¬ IsConserved s'
  accept_forgets n idle = (
    record s {
      ready_managers = assign k n s.ready_managers;
      connected_block_history = s.connected_block_history ++ block ∷ [];
      interesting_managers = add_interesting k s.interesting_managers;
    },
    refl,
    λ after. absurd (
        omega (
          arith,
          after x,
          conserved x,
          ap (count x) idle,
          held-assign x k m n s.ready_managers there,
        )),
  )

  -- For every registration with a block and the right versions, of a manager that is registered and
  -- holds the task x: if the tasks were accounted for before, they are not after it.
  pub registered_again :
      (c : Settings) (now : ℕ) (r : Registration)
      → mismatch c r ≡ false
      → r.block_id ≡ some block
      → (s' : Interchange) × (process_manager_socket_message c now k (registration r) s ≡ ok s')
        × ¬ IsConserved s'
  unfolding process_manager_socket_message register_manager new_record
  registered_again c now r good e = rw (good, e) (accept_forgets _ refl)

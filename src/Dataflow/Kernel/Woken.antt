-- ===== src/Dataflow/Kernel/Woken.antt =====
-- A task that is pending after a handler of solution/dflow.py is in the queue of launches.
use talents_parsl_checkpoint.Prelude.{
  ℕ, ◌<◌, ◌≡◌, ◌⊎◌, inl, inr, refl, true, false, Option, none, some, [], ◌∷◌, count, count-append,
  arith, Bool-cases, leb,
}
use talents_parsl_checkpoint.Dataflow.Errors.{Exn, Result, ok, err}
use talents_parsl_checkpoint.Dataflow.States.{States, pending, dep_fail, is_iff}
use talents_parsl_checkpoint.Dataflow.Tasks.{TaskRecord}
use talents_parsl_checkpoint.Dataflow.Kernel.{
  ExecResult, returned, wrapped, excepted, Config, Dfk, Action, and_then, ◌>>=◌, ◌>>◌,
}
use talents_parsl_checkpoint.Dataflow.Kernel.Publish.{update_task_state}
use talents_parsl_checkpoint.Dataflow.Kernel.Join.{status_is}
use talents_parsl_checkpoint.Dataflow.Kernel.Update.{
  launch_if_ready, relaunch_pending, handle_exec_update, handle_result, handle_failure,
  settle_charged, settle_failure, retry_task, charge, charge_answer, note_failure,
}
use talents_parsl_checkpoint.Dataflow.Kernel.Settled.{
  IsSettled, fails-Settles, fail_task-IsSettled, handle_success-Settles,
}

-- A task that is pending is in the queue of launches.
abbrev pub IsWoken : ℕ → Dfk → Type 0
IsWoken t d = IsSettled t d ⊎ (0 < count t d.launch_queue)

module _ (cfg : Config) (t : ℕ) where
  -- The action returns, or the task is not pending after it.
  record Concludes (m : Action (Unit {0})) : Type 0 where
    at : (d : Dfk) → IsSettled t (m d).1 ⊎ ((m d).0 ≡ ok tt)

  dep_failed : (d : Dfk) → status_is (d.record_of t).status dep_fail ≡ true → IsSettled t d
  dep_failed d dep = record { state = by_state (d.record_of t).status dep }
    where
      by_state : (s : Option States) → status_is s dep_fail ≡ true → status_is s pending ≡ false
      by_state none e = refl
      by_state (some s) e = rw ((is_iff s dep_fail).0 e) refl

  settle_failure-Concludes :
      (x : Exn) (d : Dfk)
      → IsSettled t (settle_failure cfg t x (d.record_of t) d).1
        ⊎ ((settle_failure cfg t x (d.record_of t) d).0 ≡ ok tt)
  unfolding settle_failure retry_task update_task_state
  settle_failure-Concludes x d = elim (Bool-cases (status_is (d.record_of t).status dep_fail)) [
    | inl dep ↦ rw dep (inl ((fail_task-IsSettled cfg t x).at d (dep_failed d dep)))
    | inr other ↦ elim (Bool-cases (leb (d.record_of t).fail_cost cfg.retries)) [
      | inl fits ↦ rw (other, fits) (inr refl)
      | inr spent ↦ rw (other, spent) (inl ((fails-Settles cfg t x).at d))
    ]
  ]

  note_failure-Concludes :
      (x : Exn) (next : Action (Unit {0})) → Concludes next → Concludes (note_failure t x >> next)
  unfolding note_failure
  note_failure-Concludes x next h = record { at = λ d. h.at _ }

  charge_answer-Concludes :
      (x : Exn) (answer : Result ℕ) (next : Exn → Action (Unit {0}))
      → ((y : Exn) → Concludes (next y))
      → Concludes (charge_answer cfg t x answer >>= next)
  unfolding charge_answer
  charge_answer-Concludes x (ok cost) next h = record { at = λ d. (h x).at _ }
  charge_answer-Concludes x (err y) next h = record { at = λ d. (h y).at _ }

  charge-Concludes :
      (x : Exn) (handler : Option (Exn → TaskRecord → Result ℕ)) (next : Exn → Action (Unit {0}))
      → ((y : Exn) → Concludes (next y))
      → Concludes (charge cfg t x handler >>= next)
  unfolding charge
  charge-Concludes x none next h = record { at = λ d. (h x).at _ }
  charge-Concludes x (some handler) next h = record {
    at = λ d. (charge_answer-Concludes x (handler x (d.record_of t)) next h).at d;
  }

  settle_charged-Concludes : (x : Exn) → Concludes (settle_charged cfg t x)
  unfolding settle_charged
  settle_charged-Concludes x = record { at = λ d. settle_failure-Concludes x d }

  handle_failure-Concludes : (x : Exn) → Concludes (handle_failure cfg t x)
  unfolding handle_failure
  handle_failure-Concludes x =
      note_failure-Concludes x (charge cfg t x cfg.retry_handler >>= settle_charged cfg t)
        (charge-Concludes x cfg.retry_handler (settle_charged cfg t) settle_charged-Concludes)

  handle_result-Concludes : (r : ExecResult) → Concludes (handle_result cfg t r)
  unfolding handle_result
  handle_result-Concludes (returned r) = record {
    at = λ d. inl ((handle_success-Settles cfg t r (d.record_of t)).at d);
  }
  handle_result-Concludes (wrapped x) = handle_failure-Concludes x
  handle_result-Concludes (excepted x) = handle_failure-Concludes x

  relaunch_pending-IsWoken : (d : Dfk) → IsWoken t (relaunch_pending t d).1
  unfolding relaunch_pending launch_if_ready
  relaunch_pending-IsWoken d = elim (Bool-cases (status_is (d.record_of t).status pending)) [
    | inl waits ↦ rw waits (inr (ground (arith, count-append t d.launch_queue (t ∷ []))))
    | inr other ↦ rw other (inl (record { state = other }))
  ]

  concluded-IsWoken :
      (r : Result (Unit {0})) (d : Dfk)
      → IsSettled t d ⊎ (r ≡ ok tt)
      → IsWoken t (and_then r (λ _. relaunch_pending t) d).1
  concluded-IsWoken (ok _) d h = relaunch_pending-IsWoken d
  concluded-IsWoken (err x) d (inl settled) = inl settled
  concluded-IsWoken (err x) d (inr returns) = cc

  -- Whether the handler of a result returns or raises: if the task is pending then, its launch is
  -- queued.
  pub handle_exec_update-IsWoken :
      (r : ExecResult) (d : Dfk) → IsWoken t (handle_exec_update cfg t (some r) d).1
  unfolding handle_exec_update
  handle_exec_update-IsWoken r d =
      concluded-IsWoken (handle_result cfg t r d).0 (handle_result cfg t r d).1
        ((handle_result-Concludes r).at d)

-- ===== src/Executors/Interchange/Sound.antt =====
-- The invariant of the interchange (environment/parsl/executors/high_throughput/interchange.py): where
-- each task that came in is.
use talents_parsl_checkpoint.Prelude.{
  ℕ, ◌+◌, ◌==◌, ◌≡◌, refl, Bool, false, ◌&&◌, Option, none, some, List, [], ◌∷◌, ◌++◌, length,
  count, arith, if◌then◌else◌,
}
use talents_parsl_checkpoint.Dataflow.Errors.{Result, ok, ◌>>=◌}
use talents_parsl_checkpoint.Executors.Interchange.{
  ToClient, result, manager_lost, version_mismatch, Interchange, ManagerRecord, get_manager,
  task_ids,
}
use talents_parsl_checkpoint.Executors.Interchange.Queue.{IsOrdered}
use talents_parsl_checkpoint.Executors.Interchange.Managers.{held}
use talents_parsl_checkpoint.Executors.Interchange.Tracked.{IsTracked, IsSameBut}

-- How often the client was told of the end of a task.
unfoldable pub answered : ℕ → List ToClient → ℕ
answered x [] = 0
answered x (result t ∷ ms) = (if t == x then 1 else 0) + answered x ms
answered x (manager_lost t k h ∷ ms) = (if t == x then 1 else 0) + answered x ms
answered x (version_mismatch ∷ ms) = answered x ms

pub answered-append :
    (x : ℕ) (ms ns : List ToClient) → answered x (ms ++ ns) ≡ answered x ms + answered x ns
unfolding answered
answered-append x [] ns = omega arith
answered-append x (result t ∷ ms) ns = omega (arith, answered-append x ms ns)
answered-append x (manager_lost t k h ∷ ms) ns = omega (arith, answered-append x ms ns)
answered-append x (version_mismatch ∷ ms) ns = omega (arith, answered-append x ms ns)

-- A task is as often pending, with a manager or answered as it was received.
abbrev pub IsConserved : Interchange → Type 0
IsConserved s =
    (x : ℕ)
    → count x s.received
      ≡ count x (task_ids s.pending_task_queue)
        + held x s.ready_managers
        + answered x s.results_outgoing

pub record IsSound (seen : List ℕ) (s : Interchange) : Type 0 where
  pub tracked : IsTracked seen s.ready_managers s.interesting_managers
  pub ordered : IsOrdered s.pending_task_queue
  pub conserved : IsConserved s

-- The step returns, and the invariant holds after it.
pub record Reaches (seen : List ℕ) (r : Result Interchange) : Type 0 where
  pub after : Interchange
  pub returns : r ≡ ok after
  pub sound : IsSound seen after

pub Reaches-ok : {seen : List ℕ} {s : Interchange} → IsSound seen s → Reaches seen (ok s)
Reaches-ok {seen} {s} h = record { after = s; returns = refl; sound = h }

pub Reaches-bind :
    {seen : List ℕ} (r : Result Interchange) (f : Interchange → Result Interchange)
    → Reaches seen r
    → ((s : Interchange) → IsSound seen s → Reaches seen (f s))
    → Reaches seen (r >>= f)
Reaches-bind r f h k = rw h.returns (k h.after h.sound)

-- A manager that draws no more tasks, and has none left.
abbrev pub is_drained : Option ManagerRecord → Bool
is_drained none = false
is_drained (some m) = m.draining && length m.tasks == 0

-- The same for the visit of a manager k, which leaves alone how interesting the others are, and forgets
-- the manager if it is drained.
pub record Visits (seen : List ℕ) (k : ℕ) (s : Interchange) (r : Result Interchange) : Type 0 where
  pub after : Interchange
  pub returns : r ≡ ok after
  pub sound : IsSound seen after
  pub same : IsSameBut k s.interesting_managers after.interesting_managers
  pub looks :
      (j : ℕ)
      → get_manager j after.ready_managers ≡ (
          if k == j && is_drained (get_manager j s.ready_managers)
          then none
          else get_manager j s.ready_managers)

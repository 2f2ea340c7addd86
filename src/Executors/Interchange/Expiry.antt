-- ===== src/Executors/Interchange/Expiry.antt =====
-- The managers that leave: environment/parsl/executors/high_throughput/interchange.py,
-- `expire_drained_managers` and `expire_bad_managers`.
pub mod Bad
pub mod Drained
use talents_parsl_checkpoint.Prelude.{
  ℕ, ◌+◌, ◌==◌, Bool, true, false, ◌&&◌, Option, none, some, List, [], ◌∷◌, length, ltb, is_in,
  remove, if◌then◌else◌,
}
use talents_parsl_checkpoint.Dataflow.Errors.{Result, ok, err, key_error, ◌>>=◌}
use talents_parsl_checkpoint.Executors.Interchange.{
  ManagerRecord, ToClient, manager_lost, drained_code, Interchange, ManagerTable, get_manager, pop,
  remove_interesting, to_client, to_manager,
}

-- A drained manager is told so, and is forgotten.
unfoldable pub release : ℕ → Interchange → Result Interchange
release k s = do
  t ← remove_interesting k (to_manager k drained_code s)
  ok (record t { ready_managers = pop k t.ready_managers })

unfoldable pub expire_if_drained : ℕ → Option ManagerRecord → Interchange → Result Interchange
expire_if_drained k none s = err key_error
expire_if_drained k (some m) s = if m.draining && length m.tasks == 0 then release k s else ok s

-- The loop over `list(interesting_managers)`.
unfoldable pub expire_drained : List ℕ → Interchange → Result Interchange
expire_drained [] s = ok s
expire_drained (k ∷ ks) s = do
  t ← expire_if_drained k (get_manager k s.ready_managers) s
  expire_drained ks t

unfoldable pub expire_drained_managers : Interchange → Result Interchange
expire_drained_managers s = expire_drained s.interesting_managers s

unfoldable pub losses : ℕ → ManagerRecord → List ℕ → List ToClient
losses k m [] = []
losses k m (t ∷ ts) = manager_lost t k m.hostname ∷ losses k m ts

-- The managers whose heartbeat is older than the threshold.
unfoldable pub bad_managers : (threshold now : ℕ) → ManagerTable → ManagerTable
bad_managers threshold now [] = []
bad_managers threshold now ((k, m) ∷ t) =
    let rest = bad_managers threshold now t in
    if ltb (m.last_heartbeat + threshold) now then (k, m) ∷ rest else rest

-- Its tasks are reported as lost, and it is forgotten.
unfoldable pub expire_bad : ℕ → ManagerRecord → Interchange → Interchange
unfolding losses
expire_bad k m s =
    let t = to_client (losses k m m.tasks) s in
    record t {
      ready_managers = pop k s.ready_managers;
      interesting_managers =
          if is_in k s.interesting_managers
          then remove k s.interesting_managers
          else s.interesting_managers;
    }

unfoldable pub expire_all : ManagerTable → Interchange → Interchange
expire_all [] s = s
expire_all ((k, m) ∷ bad) s = expire_all bad (expire_bad k m s)

unfoldable pub expire_bad_managers : (threshold now : ℕ) → Interchange → Interchange
expire_bad_managers threshold now s = expire_all (bad_managers threshold now s.ready_managers) s

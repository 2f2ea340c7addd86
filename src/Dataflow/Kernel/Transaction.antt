-- ===== src/Dataflow/Kernel/Transaction.antt =====
-- What a task's completion shows (solution/dflow.py, `_complete_task`, in the mode `task_exit`).
use talents_parsl_checkpoint.Prelude.{
  ℕ, String, ◌≡◌, refl, ap, ◌∙◌, true, ◌&&◌, not, none, some, List, ◌∷◌, ◌++◌, has_id, ==_refl,
  Bool-cases, Option-cases, inl, inr,
}
use talents_parsl_checkpoint.Dataflow.Errors.{Exn, pickling_error, Result, ok, err}
use talents_parsl_checkpoint.Dataflow.States.{States, failed, is_final, is_final_failure}
use talents_parsl_checkpoint.Dataflow.Memo.{Outcome, result, raised, MemoEntry, insert}
use talents_parsl_checkpoint.Dataflow.Completion.{record_value}
use talents_parsl_checkpoint.Dataflow.Checkpoint.{content, next_effect}
use talents_parsl_checkpoint.Dataflow.Checkpoint.Atomicity.{IsRecoverable}
use talents_parsl_checkpoint.Dataflow.Kernel.{task_exit, Config, Publication, Dfk}
use talents_parsl_checkpoint.Dataflow.Kernel.Frame.{IsSameTasks, record_task_outcome-IsSameTasks}
use talents_parsl_checkpoint.Dataflow.Kernel.Publish.{
  publication, finish, without, update_task_state, wipe_task, set_app_future, record_task_outcome,
  end_task, complete_task,
}
use talents_parsl_checkpoint.Dataflow.Kernel.Success.{
  bind_ok, pickled_entry, Recorded, record-Recorded, record_raises,
}

-- The publication of the outcome o, with the state s, the file and the table of the kernel d.
record Shows (d : Dfk) (s : States) (o : Outcome) (p : Publication) : Type 0 where
  outcome : p.outcome ≡ o
  status : p.task.status ≡ some s
  stream : p.stream ≡ d.disk.stream
  table : p.memo_lookup_table ≡ d.memo_lookup_table

-- A task that is in the table is wiped without an exception.
wipe_task_ok :
    (cfg : Config) (t : ℕ) (c : Dfk)
    → has_id t c.tasks ≡ true
    → (ts : List ℕ) × (wipe_task cfg t c ≡ (ok tt, record c { tasks = ts }))
unfolding wipe_task
wipe_task_ok cfg t c there = elim (Bool-cases cfg.garbage_collect) [
  | inl collects ↦ (without t c.tasks, rw (collects, there) refl)
  | inr keeps ↦ (c.tasks, rw keeps refl)
]

set_app_future_ok :
    (t : ℕ) (o : Outcome) (c : Dfk)
    → c.futures (c.record_of t).app_fu ≡ none
    → (set_app_future t o c).1.published ≡ publication c t o ∷ c.published
unfolding set_app_future finish
set_app_future_ok t o c undone = rw undone refl

end_task-Shows :
    (cfg : Config) (t : ℕ) (s : States) (o : Outcome) (d : Dfk)
    → has_id t d.tasks ≡ true
    → d.futures (d.record_of t).app_fu ≡ none
    → (p : Publication) × ((end_task cfg t s o d).1.published ≡ p ∷ d.published) × Shows d s o p
unfolding end_task update_task_state
end_task-Shows cfg t s o d there undone =
    let c = (update_task_state t s d).1 in
    let (ts, wiped) = wipe_task_ok cfg t c there in
    (
      publication (record c { tasks = ts }) t o,
      ap (λ x. x.1.published) (bind_ok (wipe_task cfg t) (λ _. set_app_future t o) wiped)
          ∙ set_app_future_ok t o (record c { tasks = ts }) (rw (==_refl t) undone),
      record { outcome = refl; status = rw (==_refl t) refl; stream = refl; table = refl },
    )

-- What the publication of a completion with the result r shows: the result, with its record in the
-- file and its entry in the table; or an exception, with the file and the table as they were.
pub data Transaction (cfg : Config) (d : Dfk) (new : States) (r : ℕ) (k : String) (p : Publication)
    : Type 0 where
  committed :
      (b : List ℕ) (e : MemoEntry)
      → p.outcome ≡ result r
      → p.task.status ≡ some new
      → cfg.rt.dumps (record_value k (d.heap.content r)) ≡ some b
      → content p.stream ≡ content d.disk.stream ++ b
      → cfg.rt.dumps (d.heap.content r) ≡ e.payload
      → p.memo_lookup_table ≡ insert k e d.memo_lookup_table
      → Transaction cfg d new r k p
  aborted :
      (x : Exn)
      → p.outcome ≡ raised x
      → p.task.status ≡ some failed
      → p.stream ≡ d.disk.stream
      → p.memo_lookup_table ≡ d.memo_lookup_table
      → Transaction cfg d new r k p

module _ (cfg : Config) (t : ℕ) (new : States) (r : ℕ) (k : String) (p : List ℕ) (d : Dfk) where
  -- The state behind `_record_task_outcome`.
  abbrev recorded : Result (Unit {0}) × Dfk
  recorded = record_task_outcome cfg t (result r) d

  -- A completion that has been recorded.
  complete_ok :
      (is_final new && not (is_final_failure new)) ≡ true
      → recorded.0 ≡ ok tt
      → (complete_task cfg t new r d) ≡ end_task cfg t new (result r) recorded.1
  unfolding complete_task
  complete_ok completes e = rw completes (rw e refl)

  complete_err :
      (x : Exn)
      → (is_final new && not (is_final_failure new)) ≡ true
      → recorded.0 ≡ err x
      → (complete_task cfg t new r d) ≡ end_task cfg t failed (raised x) recorded.1
  unfolding complete_task
  complete_err x completes e = rw completes (rw e refl)

  module _ (completes : (is_final new && not (is_final_failure new)) ≡ true)
      (there : has_id t d.tasks ≡ true) (undone : d.futures (d.record_of t).app_fu ≡ none) where
    -- The publication, in either case of the recording.
    abbrev Published : Type 0
    Published =
        (q : Publication) × ((complete_task cfg t new r d).1.published ≡ q ∷ d.published)
        × Transaction cfg d new r k q

    same : IsSameTasks d recorded.1
    same = record_task_outcome-IsSameTasks cfg t (result r) d

    -- The end of the task, behind the recording.
    end_recorded :
        (s : States) (o : Outcome)
        → (q : Publication) × ((end_task cfg t s o recorded.1).1.published ≡ q ∷ d.published)
          × Shows recorded.1 s o q
    end_recorded s o =
        let (q, e, shows) =
          end_task-Shows cfg t s o recorded.1 (rw (same.tasks) there)
            (rw (same.futures, same.records) undone) in
        (q, e ∙ ap (λ ps. q ∷ ps) same.history, shows)

    aborts :
        (x : Exn)
        → recorded.0 ≡ err x
        → recorded.1.disk.stream ≡ d.disk.stream
        → recorded.1.memo_lookup_table ≡ d.memo_lookup_table
        → Published
    aborts x raises file table =
        let (q, e, shows) = end_recorded failed (raised x) in
        (
          q,
          ap (λ c. c.1.published) (complete_err x completes raises) ∙ e,
          Transaction.aborted x shows.outcome shows.status (shows.stream ∙ file)
              (shows.table ∙ table),
        )

    publishes :
        (b : List ℕ) (res : Result (Unit {0}))
        → cfg.rt.dumps (d.heap.content r) ≡ some p
        → cfg.rt.dumps (record_value k (d.heap.content r)) ≡ some b
        → recorded.0 ≡ res
        → Recorded d recorded.1 k p b res
        → Published
    publishes b res pickles dumped returns (Recorded.refused x file table) =
        aborts x returns file table
    publishes b res pickles dumped returns (Recorded.committed file table) =
        let (q, e, shows) = end_recorded new (result r) in
        (
          q,
          ap (λ c. c.1.published) (complete_ok completes returns) ∙ e,
          Transaction.committed b (pickled_entry p) shows.outcome shows.status dumped
              (ap content shows.stream ∙ file) pickles (shows.table ∙ table),
        )

    -- In the mode `task_exit`, for a cached task whose result pickles, which is in the task table, and
    -- whose AppFuture is not done, if no rollback of the append fails: `_complete_task` makes the
    -- AppFuture done. It shows the result, with the record at the end of the file and the entry under
    -- the task's hash, or an exception, with the file and the table as they were.
    pub complete_task-Transaction :
        cfg.app_cache ≡ true
        → (d.record_of t).memoize ≡ true
        → (d.record_of t).hashsum ≡ some k
        → cfg.checkpoint_mode ≡ some task_exit
        → cfg.rt.dumps (d.heap.content r) ≡ some p
        → IsRecoverable (next_effect d.disk.effects)
        → (q : Publication) × ((complete_task cfg t new r d).1.published ≡ q ∷ d.published)
          × Transaction cfg d new r k q
    complete_task-Transaction enabled memoizes hashed exits pickles good =
        elim (Option-cases (cfg.rt.dumps (record_value k (d.heap.content r)))) [
          | inl raises ↦
              let e = record_raises cfg t r k p d enabled memoizes hashed exits pickles raises in
              aborts pickling_error (ap (λ x. x.0) e) (ap (λ x. x.1.disk.stream) e)
                (ap (λ x. x.1.memo_lookup_table) e)
          | inr (b, dumped) ↦
              publishes b recorded.0 pickles dumped refl
                (record-Recorded cfg t r k p d enabled memoizes hashed exits pickles b dumped good)
        ]

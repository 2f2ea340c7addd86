-- ===== src/Dataflow/Kernel/Reuse.antt =====
-- When a cached result is used in place of a launch (solution/dflow.py, `launch_task`).
use talents_parsl_checkpoint.Prelude.{
  ℕ, String, ==_refl, ◌≡◌, refl, sym, ap, ◌∙◌, true, Option, some, List,
}
use talents_parsl_checkpoint.Dataflow.Errors.{Result, ok}
use talents_parsl_checkpoint.Dataflow.Values.{Value, Heap, Runtime, alloc}
use talents_parsl_checkpoint.Dataflow.Tasks.{TaskRecord}
use talents_parsl_checkpoint.Dataflow.Memo.{result, lookup, as_future}
use talents_parsl_checkpoint.Dataflow.Memo.Identity.{make_hash}
use talents_parsl_checkpoint.Dataflow.Memo.Memoizer.{check_memo-hit}
use talents_parsl_checkpoint.Dataflow.Kernel.{update, Config, Dfk, ExecResult, returned}
use talents_parsl_checkpoint.Dataflow.Kernel.Publish.{set_record}
use talents_parsl_checkpoint.Dataflow.Kernel.Success.{pickled_entry, materialize-pickled, bind_ok}
use talents_parsl_checkpoint.Dataflow.Kernel.Launch.{launch_task, launch_checked, check, finished}

as_future-pickled :
    (rt : Runtime) (v : Value) (p : List ℕ) (h : Heap)
    → rt.dumps v ≡ some p
    → as_future rt (pickled_entry p) h ≡ (ok (result (alloc v h).0), (alloc v h).1)
unfolding as_future
as_future-pickled rt v p h pickles = rw (materialize-pickled rt v p pickles h) refl

module _ (cfg : Config) (t : ℕ) (d : Dfk) (k : String) (v : Value) (p : List ℕ)
    (enabled : cfg.app_cache ≡ true) (memoizes : (d.record_of t).memoize ≡ true)
    (hashes : make_hash cfg.rt (d.record_of t) ≡ ok k)
    (known : lookup k d.memo_lookup_table ≡ some (pickled_entry p))
    (pickles : cfg.rt.dumps v ≡ some p) where
  -- The kernel behind a hit.
  abbrev hit_state : Dfk
  hit_state = record d {
    heap = (alloc v d.heap).1;
    record_of = update d.record_of t (record (d.record_of t) { hashsum = some k });
  }

  check-hit : check cfg t d ≡ (ok (some (result (alloc v d.heap).0)), hit_state)
  unfolding check
  check-hit =
      ap (λ c. (c.found, record d { record_of = update d.record_of t c.task; heap = c.heap }))
        (check_memo-hit cfg.rt cfg.app_cache (d.record_of t) d.memo_lookup_table d.heap
          (alloc v d.heap).1 k (pickled_entry p) (result (alloc v d.heap).0)
          (rw (enabled, memoizes) refl) hashes known (as_future-pickled cfg.rt v p d.heap pickles))

  abbrev launched_state : Dfk
  launched_state = set_record t (λ task. record task { from_memo = some true }) hit_state

  alloc_content_at : (alloc v d.heap).1.content d.heap.size ≡ v
  unfolding alloc
  alloc_content_at = rw (==_refl d.heap.size) refl

  -- With any executors.
  launch_task_with :
      (others : String → Option (TaskRecord → Result (Option ExecResult)))
      → launch_task (record cfg { executors = others }) t d
        ≡ (ok (finished (returned d.heap.size)), launched_state)
  unfolding launch_task launch_checked alloc check
  launch_task_with others =
      bind_ok (check (record cfg { executors = others }) t)
        (λ found. launch_checked (record cfg { executors = others }) t found) {d = d} check-hit

  -- For a cached task whose hash has an entry that was made of the value v: the launch gives a Future
  -- that is done, with a new object that holds v. The executors are not asked, so it is the same with
  -- any others, and no execution is outstanding that was not before.
  pub launch_task-hit :
      (others : String → Option (TaskRecord → Result (Option ExecResult)))
      → ((launch_task cfg t d).0 ≡ ok (finished (returned d.heap.size)))
        × ((launch_task cfg t d).1.heap.content d.heap.size ≡ v)
        × ((launch_task cfg t d).1.outstanding ≡ d.outstanding)
        × (launch_task (record cfg { executors = others }) t d ≡ launch_task cfg t d)
  launch_task-hit others =
      let e = launch_task_with cfg.executors in
      (
        ap (λ x. x.0) e,
        ap (λ x. x.1.heap.content d.heap.size) e ∙ alloc_content_at,
        ap (λ x. x.1.outstanding) e,
        launch_task_with others ∙ sym e,
      )

-- ===== src/Dataflow/Kernel/Success.antt =====
-- The success transaction (solution/dflow.py, `_complete_task` and `_record_task_outcome`).
use mathlib.Core.Path.{subst}
use talents_parsl_checkpoint.Prelude.{
  drop, ◌+◌, ℕ, String, ◌≡◌, refl, ap, ◌∙◌, true, Option, none, some, List, [], ◌∷◌, ◌++◌,
  append-nil, ==_refl, inl, inr,
}
use talents_parsl_checkpoint.Dataflow.Errors.{Exn, pickling_error, Result, ok, err, Result-cases}
use talents_parsl_checkpoint.Dataflow.Values.{Value, Heap, alloc, Runtime}
use talents_parsl_checkpoint.Dataflow.Tasks.{TaskRecord}
use talents_parsl_checkpoint.Dataflow.Memo.{MemoEntry, result, insert, from_result, materialize}
use talents_parsl_checkpoint.Dataflow.Memo.Memoizer.{eligible_hash, prepare_success, update_memo}
use talents_parsl_checkpoint.Dataflow.Completion.{TaskOutcome, record_value, make_outcome}
use talents_parsl_checkpoint.Dataflow.Checkpoint.{
  join_payloads, Disk, content, next_effect, write_checkpoint_payloads,
}
use talents_parsl_checkpoint.Dataflow.Checkpoint.Atomicity.{IsRecoverable, write-ok, write-err}
use talents_parsl_checkpoint.Dataflow.Kernel.{task_exit, Config, Dfk, Action, gets, ◌>>=◌, ◌>>◌}
use talents_parsl_checkpoint.Dataflow.Kernel.Publish.{
  prepare, outcome_of, queue_for, writable, write_payloads, discard, write_queue, checkpoint,
  keep_outcome, persist, memoize_entry, record_task_outcome,
}

-- The entry of a result that pickles.
abbrev pub pickled_entry : List ℕ → MemoEntry
pickled_entry p = record { payload = some p; fallback = none; exception = none }

abbrev outcome_with : ℕ → List ℕ → Option (List ℕ) → TaskOutcome
outcome_with id p b = record { task_id = id; memo_entry = pickled_entry p; checkpoint_payload = b }

module _ (rt : Runtime) (v : Value) (p : List ℕ) (pickles : rt.dumps v ≡ some p) where
  pub materialize-pickled :
      (h : Heap) → materialize rt (pickled_entry p) h ≡ (ok (alloc v h).0, (alloc v h).1)
  unfolding materialize alloc
  materialize-pickled h =
      let read : rt.load p ≡ some (v, []) =
        subst (λ l. rt.load l ≡ some (v, [])) (append-nil p) (rt.load-dumps v p [] pickles) in
      rw read refl

  alloc_content : (h : Heap) → (alloc v h).1.content (alloc v h).0 ≡ v
  unfolding alloc
  alloc_content h = rw (==_refl h.size) refl

  module _ (k : String) (task : TaskRecord) (h : Heap) (hashed : task.hashsum ≡ some k) where
    make_outcome-pickled :
        (b : List ℕ)
        → rt.dumps (record_value k v) ≡ some b
        → make_outcome rt task (pickled_entry p) h
          ≡ (ok (outcome_with task.id p (some b)), (alloc v h).1)
    unfolding make_outcome
    make_outcome-pickled b dumped =
        rw (hashed, materialize-pickled h) (rw (alloc_content h) (rw dumped refl))

    make_outcome_raises :
        rt.dumps (record_value k v) ≡ none
        → make_outcome rt task (pickled_entry p) h ≡ (err pickling_error, (alloc v h).1)
    unfolding make_outcome
    make_outcome_raises raises =
        rw (hashed, materialize-pickled h) (rw (alloc_content h) (rw raises refl))

module _ {A B : Type 0} (m : Action A) (f : A → Action B) where
  pub bind_ok : {d d' : Dfk} {a : A} → m d ≡ (ok a, d') → (m >>= f) d ≡ f a d'
  bind_ok e = rw e refl

  bind_err : {d d' : Dfk} {x : Exn} → m d ≡ (err x, d') → (m >>= f) d ≡ (err x, d')
  bind_err e = rw e refl

-- The write of one outcome, in either case.
module _ (cfg : Config) (o : TaskOutcome) (c : Dfk) where
  abbrev written_disk : Disk
  written_disk = (write_checkpoint_payloads (o ∷ []) c.disk).1

  write_one-ok :
      (write_checkpoint_payloads (o ∷ []) c.disk).0 ≡ ok tt
      → write_queue cfg (o ∷ []) 0 c ≡ (
        ok tt,
        record c {
          disk = written_disk;
          checkpointable_tasks = drop 0 c.checkpointable_tasks;
          checkpointed_tasks = c.checkpointed_tasks + 1;
        },
      )
  unfolding write_queue write_payloads discard
  write_one-ok e = rw e refl

  write_one-err :
      (x : Exn)
      → (write_checkpoint_payloads (o ∷ []) c.disk).0 ≡ err x
      → write_queue cfg (o ∷ []) 0 c ≡ (err x, record c { disk = written_disk })
  unfolding write_queue write_payloads
  write_one-err x e = rw e refl

-- What the recording of a success comes to: the record is in the file and the entry in the table, or
-- it raises, with the file and the table as they were.
pub data Recorded (d d' : Dfk) (k : String) (p b : List ℕ) : Result (Unit {0}) → Type 0 where
  committed :
      content d'.disk.stream ≡ content d.disk.stream ++ b
      → d'.memo_lookup_table ≡ insert k (pickled_entry p) d.memo_lookup_table
      → Recorded d d' k p b (ok tt)
  refused :
      (x : Exn)
      → d'.disk.stream ≡ d.disk.stream
      → d'.memo_lookup_table ≡ d.memo_lookup_table
      → Recorded d d' k p b (err x)

module _ (cfg : Config) (t r : ℕ) (k : String) (p : List ℕ) (d : Dfk)
    (enabled : cfg.app_cache ≡ true) (memoizes : (d.record_of t).memoize ≡ true)
    (hashed : (d.record_of t).hashsum ≡ some k) (exits : cfg.checkpoint_mode ≡ some task_exit)
    (pickles : cfg.rt.dumps (d.heap.content r) ≡ some p) where
  prepare-pickled : prepare cfg t r d ≡ (ok (some (pickled_entry p)), d)
  unfolding prepare prepare_success eligible_hash from_result
  prepare-pickled = rw (enabled, memoizes, hashed, pickles) refl

  -- The heap once the record is pickled.
  abbrev read_heap : Heap
  read_heap = (alloc (d.heap.content r) d.heap).1

  abbrev the_record : Value
  the_record = record_value k (d.heap.content r)

  persist-pickled :
      (b : List ℕ)
      → cfg.rt.dumps the_record ≡ some b
      → persist cfg t (some task_exit) (some (pickled_entry p)) (some k) d
        ≡ write_queue cfg
            (outcome_with (d.record_of t).id p (some b) ∷ [])
            0
            (record d { heap = read_heap })
  unfolding persist outcome_of keep_outcome checkpoint queue_for writable
  persist-pickled b dumped =
      rw
        (make_outcome-pickled cfg.rt (d.heap.content r) p pickles k (d.record_of t) d.heap hashed b
          dumped)
        refl

  persist_raises :
      cfg.rt.dumps the_record ≡ none
      → persist cfg t (some task_exit) (some (pickled_entry p)) (some k) d
        ≡ (err pickling_error, record d { heap = read_heap })
  unfolding persist outcome_of
  persist_raises raises =
      rw
        (make_outcome_raises cfg.rt (d.heap.content r) p pickles k (d.record_of t) d.heap hashed
          raises)
        refl

  -- `_record_task_outcome` behind `prepare_success`.
  abbrev with_entry : Option MemoEntry → Action (Unit {0})
  with_entry e = gets (λ s. (s.record_of t).hashsum) >>= λ h.
      persist cfg t cfg.checkpoint_mode e h >> memoize_entry cfg t e

  record_steps :
      record_task_outcome cfg t (result r) d
      ≡ (persist cfg t (some task_exit) (some (pickled_entry p)) (some k)
            >> memoize_entry cfg t (some (pickled_entry p)))
          d
  unfolding record_task_outcome
  record_steps =
      bind_ok (prepare cfg t r) with_entry prepare-pickled
      ∙ ap
          (λ m.
            (persist cfg t m (some (pickled_entry p)) (d.record_of t).hashsum
                >> memoize_entry cfg t (some (pickled_entry p)))
              d)
          exits
      ∙ ap
          (λ h.
            (persist cfg t (some task_exit) (some (pickled_entry p)) h
                >> memoize_entry cfg t (some (pickled_entry p)))
              d)
          hashed

  abbrev the_outcome : List ℕ → TaskOutcome
  the_outcome b = outcome_with (d.record_of t).id p (some b)

  -- The record is written, and the entry is put into the table only then.
  pub record-Recorded :
      (b : List ℕ)
      → cfg.rt.dumps the_record ≡ some b
      → IsRecoverable (next_effect d.disk.effects)
      → Recorded d
          (record_task_outcome cfg t (result r) d).1
          k
          p
          b
          (record_task_outcome cfg t (result r) d).0
  unfolding memoize_entry update_memo eligible_hash join_payloads
  record-Recorded b dumped good =
      let os = the_outcome b ∷ [] in
      let c : Dfk = record d { heap = read_heap } in
      elim (Result-cases (write_checkpoint_payloads os d.disk).0) [
        | inl (_, e) ↦
            rw
              (record_steps
                ∙ bind_ok (persist cfg t (some task_exit) (some (pickled_entry p)) (some k)) _
                    (persist-pickled b dumped ∙ write_one-ok cfg (the_outcome b) c e))
              (Recorded.committed (write-ok os d.disk b (ap some (append-nil b)) e)
                (rw (enabled, memoizes, hashed) refl))
        | inr (x, e) ↦
            rw
              (record_steps
                ∙ bind_err (persist cfg t (some task_exit) (some (pickled_entry p)) (some k)) _
                    (persist-pickled b dumped ∙ write_one-err cfg (the_outcome b) c x e))
              (Recorded.refused x (write-err os d.disk x good e) refl)
      ]

  -- A record that does not pickle is refused as well.
  pub record_raises :
      cfg.rt.dumps the_record ≡ none
      → record_task_outcome cfg t (result r) d ≡ (err pickling_error, record d { heap = read_heap })
  record_raises raises =
      record_steps
      ∙ bind_err (persist cfg t (some task_exit) (some (pickled_entry p)) (some k)) _
          (persist_raises raises)

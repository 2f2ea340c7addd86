-- ===== src/Dataflow/Completion.antt =====
-- solution/completion.py: a completed outcome, with the bytes of its checkpoint record.
use talents_parsl_checkpoint.Prelude.{ℕ, String, Bool, true, false, Option, none, some, List}
use talents_parsl_checkpoint.Dataflow.Errors.{Exn, pickling_error, Result, ok, err}
use talents_parsl_checkpoint.Dataflow.Values.{
  Value, Runtime, Heap, none_value, str, dict, end, field,
}
use talents_parsl_checkpoint.Dataflow.Tasks.{TaskRecord}
use talents_parsl_checkpoint.Dataflow.Memo.{MemoEntry, materialize}

-- `task_record` is the task's ID.
pub record TaskOutcome : Type 0 where
  pub task_id : ℕ
  pub memo_entry : MemoEntry
  pub checkpoint_payload : Option (List ℕ)

-- The record that is pickled.
abbrev pub record_value : String → Value → Value
record_value h v = dict (field "hash" (str h) (field "exception" none_value (field "result" v end)))

abbrev pub succeeded : TaskOutcome → Bool
succeeded o = elim o.memo_entry.exception [ none ↦ true | some x ↦ false ]

module _ (rt : Runtime) where
  abbrev bare : ℕ → MemoEntry → Option (List ℕ) → TaskOutcome
  bare id e payload = record { task_id = id; memo_entry = e; checkpoint_payload = payload }

  dumped : ℕ → MemoEntry → Heap → Option (List ℕ) → Result TaskOutcome × Heap
  dumped id e h none = (err pickling_error, h)
  dumped id e h (some b) = (ok (bare id e (some b)), h)

  dump_record : ℕ → MemoEntry → String → Result ℕ × Heap → Result TaskOutcome × Heap
  unfolding dumped
  dump_record id e k (err x, h) = (err x, h)
  dump_record id e k (ok r, h) = dumped id e h (rt.dumps (record_value k (h.content r)))

  with_hash : ℕ → MemoEntry → Option Exn → Option String → Heap → Result TaskOutcome × Heap
  unfolding dump_record
  with_hash id e none (some k) h = dump_record id e k (materialize rt e h)
  with_hash id e _ _ h = (ok (bare id e none), h)

  -- `TaskOutcome(task_record, memo_entry)`, with its `__post_init__`.
  unfoldable pub make_outcome : TaskRecord → MemoEntry → Heap → Result TaskOutcome × Heap
  unfolding with_hash
  make_outcome t e h = with_hash t.id e e.exception t.hashsum h

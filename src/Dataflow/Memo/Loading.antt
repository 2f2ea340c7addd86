-- ===== src/Dataflow/Memo/Loading.antt =====
-- solution/memoization.py, `Memoizer._load_checkpoints` and `load_checkpoints`: reading tasks.pkl.
pub mod Entries
pub mod Records
pub mod Roundtrip
use talents_parsl_checkpoint.Prelude.{
  ℕ, zero, suc, ◌≤◌, ◌<◌, String, ◌≡◌, Bool, true, false, ◌&&◌, ◌||◌, Option, none, some, List, [],
  ◌∷◌, length, arith, Option-cases, inl, inr, if◌then◌else◌,
}
use native.Mathlib.Nat.{le_refl}
use text.Mathlib.Text.{◌==◌ as str_eq}
use talents_parsl_checkpoint.Dataflow.Errors.{◌>>=◌, Result, ok, err, bad_checkpoint}
use talents_parsl_checkpoint.Dataflow.Values.{
  Value, Fields, Runtime, Heap, alloc, none_value, str, dict, end, field,
}
use talents_parsl_checkpoint.Dataflow.Memo.{MemoEntry, Table, insert, from_result}
use talents_parsl_checkpoint.Dataflow.Memo.Identity.{get_kwarg}

-- Every key is one of the three.
only_record_keys : Fields → Bool
only_record_keys end = true
only_record_keys (field k v fs) =
    (str_eq k "hash" || (str_eq k "exception" || str_eq k "result")) && only_record_keys fs

-- The hash is a string and the exception is None.
record_values : Option Value → Option Value → Option Value → Option (String × Value)
record_values (some (str h)) (some none_value) (some v) = some (h, v)
record_values _ _ _ = none

-- The two schema tests: a plain dict with exactly the three keys, and their values.
unfoldable pub record_of : Value → Option (String × Value)
unfolding only_record_keys record_values
record_of (dict fs) =
    if only_record_keys fs
    then record_values (get_kwarg "hash" fs) (get_kwarg "exception" fs) (get_kwarg "result" fs)
    else none
record_of _ = none

module _ (rt : Runtime) where
  put_entry : String → MemoEntry × Heap → Table → Table × Heap
  put_entry k (e, h) table = (insert k e table, h)

  -- `memo_lookup_table[data['hash']] = MemoEntry.from_result(data['result'])`, on the new object.
  unfoldable pub add_record : String × Value → Table × Heap → Table × Heap
  unfolding put_entry
  add_record (k, v) (table, h) = let (r, h') = alloc v h in put_entry k (from_result rt r h') table

  -- The `while f.tell() < file_size` loop, on what is left of the stream, with fuel. An object takes
  -- at least a byte, so the length of the stream is enough fuel (`Records` proves it); a loop without
  -- fuel refuses the stream.
  unfoldable pub load_stream : (fuel : ℕ) (s : List ℕ) → Table × Heap → Result (Table × Heap)
  load_stream fuel [] state = ok state
  load_stream zero (x ∷ s) state = err bad_checkpoint
  load_stream (suc fuel) (x ∷ s) state = elim (rt.load (x ∷ s)) [
    | none ↦ err bad_checkpoint
    | some (v, rest) ↦ elim (record_of v) [
      | none ↦ err bad_checkpoint
      | some entry ↦ load_stream fuel rest (add_record entry state)
    ]
  ]

  -- One file: not found, empty, or a stream.
  unfoldable pub load_file : Option (List ℕ) → Table × Heap → Result (Table × Heap)
  load_file none state = err bad_checkpoint
  load_file (some []) state = err bad_checkpoint
  load_file (some (x ∷ s)) state = load_stream (length (x ∷ s)) (x ∷ s) state

  -- The loop over the directories: `read dir` is the content of the tasks.pkl below `dir`.
  unfoldable pub load_checkpoints :
      (read : String → Option (List ℕ)) (dirs : List String) → Table × Heap → Result (Table × Heap)
  load_checkpoints read [] state = ok state
  load_checkpoints read (dir ∷ dirs) state = do
    state' ← load_file (read dir) state
    load_checkpoints read dirs state'

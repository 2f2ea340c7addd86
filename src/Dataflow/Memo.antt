-- ===== src/Dataflow/Memo.antt =====
-- solution/memoization.py: memo entries and the memoizer's lookup table.
pub mod Identity
pub mod Memoizer
pub mod Loading
pub mod Isolation
use talents_parsl_checkpoint.Prelude.{ℕ, String, Option, none, some, List, [], ◌∷◌, if◌then◌else◌}
use text.Mathlib.Text.{◌==◌ as str_eq}
use talents_parsl_checkpoint.Dataflow.Errors.{Exn, pickling_error, Result, ok, err}
use talents_parsl_checkpoint.Dataflow.Values.{Value, Runtime, Heap, alloc}

-- The three fields of the dataclass. `fallback` is a reference.
pub record MemoEntry : Type 0 where
  pub payload : Option (List ℕ)
  pub fallback : Option ℕ
  pub exception : Option Exn

-- How a Future ends: with a reference to its result, or with an exception.
pub data Outcome : Type 0 where
  result : ℕ → Outcome
  raised : Exn → Outcome

module _ (rt : Runtime) where
  -- `try: fallback = deepcopy(result)`, `except Exception: fallback = result`
  copy_or_share : Option Value → ℕ → Heap → ℕ × Heap
  copy_or_share (some v) r h = alloc v h
  copy_or_share none r h = (r, h)

  keep_fallback : ℕ × Heap → MemoEntry × Heap
  keep_fallback (r, h) = (record { payload = none; fallback = some r; exception = none }, h)

  from_dump : Option (List ℕ) → ℕ → Heap → MemoEntry × Heap
  unfolding copy_or_share keep_fallback
  from_dump (some b) r h = (record { payload = some b; fallback = none; exception = none }, h)
  from_dump none r h = keep_fallback (copy_or_share (rt.deepcopy (h.content r)) r h)

  -- `MemoEntry.from_result`
  unfoldable pub from_result : ℕ → Heap → MemoEntry × Heap
  unfolding from_dump
  from_result r h = from_dump (rt.dumps (h.content r)) r h

  read_back : Option (Value × List ℕ) → Heap → Result ℕ × Heap
  read_back (some (v, rest)) h = let (r, h') = alloc v h in (ok r, h')
  read_back none h = (err pickling_error, h)

  share : ℕ × Heap → Result ℕ × Heap
  share (r, h) = (ok r, h)

  -- A fallback that was never set is the object `None`.
  copy_fallback : Option ℕ → Heap → Result ℕ × Heap
  unfolding copy_or_share share
  copy_fallback (some r) h = share (copy_or_share (rt.deepcopy (h.content r)) r h)
  copy_fallback none h = share (alloc Value.none_value h)

  materialize_from : Option (List ℕ) → Option ℕ → Heap → Result ℕ × Heap
  unfolding read_back copy_fallback
  materialize_from (some b) fallback h = read_back (rt.load b) h
  materialize_from none fallback h = copy_fallback fallback h

  -- `MemoEntry.materialize`
  unfoldable pub materialize : MemoEntry → Heap → Result ℕ × Heap
  unfolding materialize_from
  materialize e h = materialize_from e.payload e.fallback h

  done_with : Result ℕ × Heap → Result Outcome × Heap
  done_with (ok r, h) = (ok (result r), h)
  done_with (err e, h) = (err e, h)

  future_from : Option Exn → MemoEntry → Heap → Result Outcome × Heap
  unfolding done_with materialize
  future_from (some x) e h = (ok (raised x), h)
  future_from none e h = done_with (materialize e h)

  -- `MemoEntry.as_future`: the state of the finished Future, or the exception that `materialize` raises.
  unfoldable pub as_future : MemoEntry → Heap → Result Outcome × Heap
  unfolding future_from
  as_future e h = future_from e.exception e h

-- `MemoEntry.from_exception`
abbrev pub from_exception : Exn → MemoEntry
from_exception x = record { payload = none; fallback = none; exception = some x }

-- `memo_lookup_table`, a dictionary.
abbrev pub Table : Type 0
Table = List (String × MemoEntry)

unfoldable pub lookup : String → Table → Option MemoEntry
lookup k [] = none
lookup k ((j, e) ∷ t) = if str_eq j k then some e else lookup k t

unfoldable pub insert : String → MemoEntry → Table → Table
insert k e [] = (k, e) ∷ []
insert k e ((j, d) ∷ t) = if str_eq j k then (k, e) ∷ t else (j, d) ∷ insert k e t

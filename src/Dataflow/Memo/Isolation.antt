-- ===== src/Dataflow/Memo/Isolation.antt =====
-- Lemmas on memo entries and the heap (solution/memoization.py, class `MemoEntry`).
use talents_parsl_checkpoint.Prelude.{ℕ, ◌+◌, ◌≡◌, some, List, [], arith, append-nil, ==_refl}
use talents_parsl_checkpoint.Dataflow.Errors.{ok}
use talents_parsl_checkpoint.Dataflow.Values.{Runtime, Heap, alloc}
use talents_parsl_checkpoint.Dataflow.Memo.{from_result, materialize}

module _ (rt : Runtime) (r : ℕ) (h : Heap) (b : List ℕ)
    (pickles : rt.dumps (h.content r) ≡ some b) where
  from_result-payload : (from_result rt r h).0.payload ≡ some b
  unfolding from_result
  from_result-payload = rw pickles

  -- For a result that pickles, and whatever the heap is when the entry is read: the entry gives a new
  -- object, which holds the value that the result had when the entry was made.
  pub materialize-from_result :
      (g : Heap)
      → ((materialize rt (from_result rt r h).0 g).0 ≡ ok g.size)
        × ((materialize rt (from_result rt r h).0 g).1.content g.size ≡ h.content r)
        × ((materialize rt (from_result rt r h).0 g).1.size ≡ g.size + 1)
  unfolding materialize from_result alloc
  materialize-from_result g =
      let read = rt.load-dumps (h.content r) b [] pickles in
      ground (arith, read, append-nil b, ==_refl g.size)

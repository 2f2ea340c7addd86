-- ===== src/Dataflow/Kernel/Durability.antt =====
-- Lemmas on the results of one run that a later run reads (solution/dflow.py,
-- `_complete_task`, and solution/memoization.py, `_load_checkpoints`).
use mathlib.Core.Path.{subst}
use talents_parsl_checkpoint.Prelude.{
  ℕ, String, ◌≡◌, ◌≢◌, ◌⊎◌, inl, inr, refl, sym, ap, ◌∙◌, true, ◌&&◌, not, Option, none, some, List,
  [], ◌∷◌, ◌++◌, length, length-append, has_id, append-nil, append_assoc, arith,
}
use talents_parsl_checkpoint.Dataflow.Errors.{Exn, ok}
use talents_parsl_checkpoint.Dataflow.States.{States, is_final, is_final_failure}
use talents_parsl_checkpoint.Dataflow.Values.{Value, Runtime, Heap}
use talents_parsl_checkpoint.Dataflow.Memo.{result, raised, Table}
use talents_parsl_checkpoint.Dataflow.Memo.Loading.{load_file}
use talents_parsl_checkpoint.Dataflow.Memo.Loading.Entries.{add_all}
use talents_parsl_checkpoint.Dataflow.Memo.Loading.Roundtrip.{Dumped, load_file-Dumped}
use talents_parsl_checkpoint.Dataflow.Completion.{record_value}
use talents_parsl_checkpoint.Dataflow.Checkpoint.{content, next_effect}
use talents_parsl_checkpoint.Dataflow.Checkpoint.Atomicity.{IsRecoverable}
use talents_parsl_checkpoint.Dataflow.Kernel.{task_exit, Config, Publication, Dfk}
use talents_parsl_checkpoint.Dataflow.Kernel.Publish.{complete_task}
use talents_parsl_checkpoint.Dataflow.Kernel.Transaction.{Transaction, complete_task-Transaction}

module _ (rt : Runtime) where
  -- One more record behind a stream of them.
  Dumped-append :
      (es : List (String × Value)) (s : List ℕ) (k : String) (v : Value) (b : List ℕ)
      → Dumped rt es s
      → rt.dumps (record_value k v) ≡ some b
      → Dumped rt (es ++ (k, v) ∷ []) (s ++ b)
  Dumped-append [] s k v b Dumped.none_written last =
      subst (λ l. Dumped rt ((k, v) ∷ []) l) (append-nil b)
        (Dumped.written k v b last Dumped.none_written)
  Dumped-append (e ∷ es) s k v b (Dumped.written j w c {s = rest} first more) last =
      subst (λ l. Dumped rt ((j, w) ∷ (es ++ (k, v) ∷ [])) l) (sym (append_assoc c rest b))
        (Dumped.written j w c first (Dumped-append es rest k v b more last))

  load_file-content :
      (file : Option (List ℕ)) (es : List (String × Value)) (state : Table × Heap)
      → content file ≢ []
      → Dumped rt es (content file)
      → load_file rt file state ≡ ok (add_all rt es state)
  load_file-content none es state filled dumped = absurd (filled refl)
  load_file-content (some s) es state filled dumped =
      (load_file-Dumped rt es s state filled dumped).0

  -- A pickle is not empty, so neither is a stream that ends with one.
  filled_by : (v : Value) (s b : List ℕ) → rt.dumps v ≡ some b → s ++ b ≢ []
  filled_by v s b pickles e = omega (
    arith,
    rt.load-shorter (b ++ []) [] v (rt.load-dumps v b [] pickles),
    ap length e,
    length-append s b,
    length-append b [],
  )

-- The Future shows the result, and from the file as it then is a later run loads the records that were
-- there and the one of this result; or the Future shows an exception, and the file is what it was.
abbrev pub IsDurable :
    Config → Dfk → ℕ → String → List (String × Value) → Table × Heap → Publication → Type 0
IsDurable cfg d r k es state q =
    ((q.outcome ≡ result r)
      × (load_file cfg.rt q.stream state
          ≡ ok (add_all cfg.rt (es ++ (k, d.heap.content r) ∷ []) state)))
    ⊎ ((x : Exn) × (q.outcome ≡ raised x) × (q.stream ≡ d.disk.stream))

Transaction-IsDurable :
    (cfg : Config) (d : Dfk) (new : States) (r : ℕ) (k : String) (es : List (String × Value))
    (state : Table × Heap) (q : Publication)
    → Dumped cfg.rt es (content d.disk.stream)
    → Transaction cfg d new r k q
    → IsDurable cfg d r k es state q
Transaction-IsDurable cfg d new r k es state q before
      (Transaction.aborted x shown status file table) =
    inr (x, shown, file)
Transaction-IsDurable cfg d new r k es state q before
      (Transaction.committed b e shown status dumped file made table) =
    let v = record_value k (d.heap.content r) in
    let old = content d.disk.stream in
    inl (
      shown,
      load_file-content cfg.rt q.stream (es ++ (k, d.heap.content r) ∷ []) state
          (λ empty. filled_by cfg.rt v old b dumped (sym file ∙ empty))
          (subst (λ l. Dumped cfg.rt (es ++ (k, d.heap.content r) ∷ []) l) (sym file)
            (Dumped-append cfg.rt es old k (d.heap.content r) b before dumped)),
    )

-- In the mode `task_exit`, for a cached task whose result pickles, which is in the task table and whose
-- AppFuture is not done, if the file holds dumped records and no rollback of the append fails: the
-- completion of the task makes its AppFuture done. It shows the result, and from the file as it then is
-- a later run loads the records that were there and behind them the one of this result; or it shows an
-- exception, and the file is what it was.
pub complete_task-IsDurable :
    (cfg : Config) (t : ℕ) (new : States) (r : ℕ) (k : String) (p : List ℕ) (d : Dfk)
    (es : List (String × Value)) (state : Table × Heap)
    → (is_final new && not (is_final_failure new)) ≡ true
    → has_id t d.tasks ≡ true
    → d.futures (d.record_of t).app_fu ≡ none
    → cfg.app_cache ≡ true
    → (d.record_of t).memoize ≡ true
    → (d.record_of t).hashsum ≡ some k
    → cfg.checkpoint_mode ≡ some task_exit
    → cfg.rt.dumps (d.heap.content r) ≡ some p
    → IsRecoverable (next_effect d.disk.effects)
    → Dumped cfg.rt es (content d.disk.stream)
    → (q : Publication) × ((complete_task cfg t new r d).1.published ≡ q ∷ d.published)
      × IsDurable cfg d r k es state q
complete_task-IsDurable cfg t new r k p d es state completes there undone enabled memoizes hashed
      exits pickles good before =
    let (q, e, transaction) =
      complete_task-Transaction cfg t new r k p d completes there undone enabled memoizes hashed
        exits pickles good in
    (q, e, Transaction-IsDurable cfg d new r k es state q before transaction)

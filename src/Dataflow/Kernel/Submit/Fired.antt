-- ===== src/Dataflow/Kernel/Submit/Fired.antt =====
-- What the callbacks that `submit` has left do, when Futures have become done (solution/dflow.py).
use talents_parsl_checkpoint.Prelude.{
  ℕ, ◌+◌, ◌<◌, ◌==◌, ◌≡◌, refl, ap, sym, ◌∙◌, true, false, ◌&&◌, List, [], ◌∷◌, count, count-append,
  arith, Bool-cases, inl, inr, ==_iff,
}
use talents_parsl_checkpoint.Dataflow.Kernel.Join.{is_done}
use talents_parsl_checkpoint.Dataflow.Kernel.Update.{launch_if_ready}
use talents_parsl_checkpoint.Dataflow.Kernel.Submit.{Frontend, add_done_callback}
use talents_parsl_checkpoint.Dataflow.Kernel.Submit.Accepted.{
  waits, waits-append, IsSameButQueue, add_done_callback-Adds,
}
use talents_parsl_checkpoint.Dataflow.Kernel.Submit.Steps.{fire}

-- Of the callbacks cs: those on a Future that is done have queued a launch, and the others stay.
pub record Fires (cs : List (ℕ × ℕ)) (s s' : Frontend) : Type 0 where
  pub kernel : IsSameButQueue s.dfk s'.dfk
  pub count_same : s'.task_count ≡ s.task_count
  pub kept :
      (f u : ℕ)
      → is_done s.dfk f ≡ false
      → waits f u s'.dep_callbacks ≡ waits f u s.dep_callbacks + waits f u cs
  pub queued :
      (f u : ℕ) → is_done s.dfk f ≡ true → 0 < waits f u cs → 0 < count u s'.dfk.launch_queue

one-kept :
    (g t f u : ℕ) (s : Frontend)
    → is_done s.dfk f ≡ false
    → waits f u (add_done_callback g t s).dep_callbacks
      ≡ waits f u s.dep_callbacks + waits f u ((g, t) ∷ [])
unfolding add_done_callback waits
one-kept g t f u s undone = elim (Bool-cases (is_done s.dfk g)) [
  | inl done ↦ elim (Bool-cases (f == g)) [
    | inl same ↦
        let clash : false ≡ true = sym undone ∙ ap (is_done s.dfk) ((==_iff f g).0 same) ∙ done in
        cc
    | inr other ↦ rw (done, other) (omega arith)
  ]
  | inr waits_for ↦ rw waits_for (waits-append f u s.dep_callbacks ((g, t) ∷ []))
]

both : (f g u t : ℕ) → (f == g && u == t) ≡ true → (f ≡ g) × (u ≡ t)
both f g u t e = ground arith

one-queued :
    (g t f u : ℕ) (s : Frontend)
    → is_done s.dfk f ≡ true
    → (f == g && u == t) ≡ true
    → 0 < count u (add_done_callback g t s).dfk.launch_queue
unfolding add_done_callback launch_if_ready
one-queued g t f u s done this =
    let (f_g, u_t) = both f g u t this in
    let g_done : is_done s.dfk g ≡ true = ap (is_done s.dfk) (sym f_g) ∙ done in
    rw g_done (ground (arith, count-append u s.dfk.launch_queue (t ∷ []), u_t))

pub fire-Fires : (cs : List (ℕ × ℕ)) (s : Frontend) → Fires cs s (fire cs s)
unfolding fire waits
fire-Fires [] s = record {
  kernel = record {
    records = refl;
    tasks = refl;
    counts = refl;
    futures = refl;
    queue = λ u. omega arith;
  };
  count_same = refl;
  kept = λ f u e. omega arith;
  queued = λ f u e less. omega arith;
}
fire-Fires ((g, t) ∷ cs) s =
    let one = add_done_callback-Adds g t s in
    let n = add_done_callback g t s in
    let rest = fire-Fires cs n in
    record {
      kernel = record {
        records = rest.kernel.records ∙ one.kernel.records;
        tasks = rest.kernel.tasks ∙ one.kernel.tasks;
        counts = rest.kernel.counts ∙ one.kernel.counts;
        futures = rest.kernel.futures ∙ one.kernel.futures;
        queue = λ u. omega (arith, one.kernel.queue u, rest.kernel.queue u);
      };
      count_same = rest.count_same ∙ one.count_same;
      kept = λ f u e.
          omega (arith, rest.kept f u (rw (one.kernel.futures, is_done) e), one-kept g t f u s e);
      queued = λ f u e less. elim (Bool-cases (f == g && u == t)) [
        | inl this ↦ omega (arith, one-queued g t f u s e this, rest.kernel.queue u)
        | inr other ↦ rest.queued f u (rw (one.kernel.futures, is_done) e) (ground (arith, less))
      ];
    }

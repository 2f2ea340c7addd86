-- ===== src/Dataflow/Kernel/Submit/Awake.antt =====
-- No launch of a pending task is lost (solution/dflow.py): what `submit`, the handlers, the callbacks and
-- `cleanup` keep.
use talents_parsl_checkpoint.Prelude.{
  ℕ, ◌≤◌, ◌<◌, ◌==◌, ◌≡◌, ◌≢◌, ◌⊎◌, inl, inr, refl, ap, sym, ◌∙◌, true, none, List, [], ◌∷◌, All,
  count, arith, Bool-cases, ==_iff,
}
use talents_parsl_checkpoint.Dataflow.States.{pending}
use talents_parsl_checkpoint.Dataflow.Kernel.{Config, Dfk}
use talents_parsl_checkpoint.Dataflow.Kernel.Join.{status_is, is_done}
use talents_parsl_checkpoint.Dataflow.Kernel.Launch.{count_deps}
use talents_parsl_checkpoint.Dataflow.Kernel.Counted.{IsCounted, same-IsCounted}
use talents_parsl_checkpoint.Dataflow.Kernel.Submit.{Frontend}
use talents_parsl_checkpoint.Dataflow.Kernel.Submit.Accepted.{waits}
use talents_parsl_checkpoint.Dataflow.Kernel.Submit.Fired.{Fires, fire-Fires}
use talents_parsl_checkpoint.Dataflow.Kernel.Submit.Steps.{fire_callbacks}

-- The Future is done, or it has a callback for the task u.
abbrev pub IsCalled : Frontend → (u f : ℕ) → Type 0
IsCalled s u f = (is_done s.dfk f ≡ true) ⊎ (0 < waits f u s.dep_callbacks)

-- No launch is lost: each dependency of a task is done or has a callback for it, and a task that is
-- pending is in the queue of launches or has a dependency that is not done. The counters are right, and
-- the tasks to come have no state.
pub record IsAwake (s : Frontend) : Type 0 where
  pub called : (u : ℕ) → All (IsCalled s u) (s.dfk.record_of u).depends
  pub woken :
      (u : ℕ)
      → status_is (s.dfk.record_of u).status pending ≡ true
      → (0 < count u s.dfk.launch_queue) ⊎ (0 < count_deps s.dfk (s.dfk.record_of u).depends)
  pub fresh : (u : ℕ) → s.task_count ≤ u → (s.dfk.record_of u).status ≡ none
  pub counted : IsCounted s.dfk

pub All_map {ℓ κ} :
    {A : Type ℓ} {P Q : A → Type κ} (xs : List A) → ((x : A) → P x → Q x) → All P xs → All Q xs
All_map [] f h = tt
All_map (x ∷ xs) f h = (f x h.0, All_map xs f h.1)

pub same_deps :
    (c d : Dfk) → d.futures ≡ c.futures → (fs : List ℕ) → count_deps d fs ≡ count_deps c fs
unfolding count_deps
same_deps c d same [] = refl
same_deps c d same (f ∷ fs) = rw (same, same_deps c d same fs) refl

-- Of Futures that were not all done: they still are not, or one of them has become done.
newly_done :
    (c d : Dfk) (P : ℕ → Type 0) (fs : List ℕ)
    → All (λ f. (is_done c f ≡ true) ⊎ P f) fs
    → 0 < count_deps c fs
    → (0 < count_deps d fs) ⊎ ((f : ℕ) × (is_done d f ≡ true) × P f)
unfolding count_deps
newly_done c d P [] h less = absurd (omega arith)
newly_done c d P (f ∷ fs) h less = elim (Bool-cases (is_done d f)) [
  | inr undone ↦ inl (rw undone (omega arith))
  | inl done ↦ elim h.0 [
    | inr p ↦ inr (f, done, p)
    | inl was ↦ elim (newly_done c d P fs h.1 (ground (arith, less, was))) [
      | inl still ↦ inl (rw done still)
      | inr found ↦ inr found
    ]
  ]
]

-- The callbacks are called after a change of the kernel.
module _ (s : Frontend) (d : Dfk) where
  abbrev changed : Frontend
  changed = record s { dfk = d }

  abbrev after : Frontend
  after = fire_callbacks changed

  fired : Fires s.dep_callbacks (record changed { dep_callbacks = [] }) after
  unfolding fire_callbacks
  fired = fire-Fires s.dep_callbacks (record changed { dep_callbacks = [] })

  -- What had a callback has one, or is done.
  still-IsCalled :
      ((f : ℕ) → is_done s.dfk f ≡ true → is_done d f ≡ true)
      → (u f : ℕ) → IsCalled s u f
      → IsCalled after u f
  unfolding waits
  still-IsCalled done u f (inl was) = inl (rw (fired.kernel.futures, is_done) (done f was))
  still-IsCalled done u f (inr waits_for) = elim (Bool-cases (is_done d f)) [
    | inl now ↦ inl (rw (fired.kernel.futures, is_done) now)
    | inr undone ↦ inr (omega (arith, fired.kept f u undone))
  ]

  still_woken :
      (u : ℕ)
      → (d.record_of u).depends ≡ (s.dfk.record_of u).depends
      → All (IsCalled s u) (s.dfk.record_of u).depends
      → (0 < count u d.launch_queue) ⊎ (0 < count_deps s.dfk (s.dfk.record_of u).depends)
      → (0 < count u after.dfk.launch_queue)
        ⊎ (0 < count_deps after.dfk (after.dfk.record_of u).depends)
  still_woken u same called (inl queued) = inl (omega (arith, fired.kernel.queue u))
  still_woken u same called (inr held) =
      let deps = (s.dfk.record_of u).depends in
      elim (newly_done s.dfk d (λ f. 0 < waits f u s.dep_callbacks) deps called held) [
        | inl still ↦
            let same_count =
              same_deps d after.dfk fired.kernel.futures (after.dfk.record_of u).depends
              ∙ ap (count_deps d) (ap (λ r. (r u).depends) fired.kernel.records ∙ same) in
            inr (omega (arith, same_count, still))
        | inr (f, done, waits_for) ↦ inl (fired.queued f u done waits_for)
      ]

-- The handlers have turned the kernel of s into d, for an event of the task t.
pub record IsHandled (t : ℕ) (s : Frontend) (d : Dfk) : Type 0 where
  pub known : t < s.task_count
  pub others : (u : ℕ) → t ≢ u → d.record_of u ≡ s.dfk.record_of u
  pub depends : (d.record_of t).depends ≡ (s.dfk.record_of t).depends
  pub queue : (u : ℕ) → t ≢ u → count u s.dfk.launch_queue ≤ count u d.launch_queue
  pub done : (f : ℕ) → is_done s.dfk f ≡ true → is_done d f ≡ true
  pub own :
      status_is (d.record_of t).status pending ≡ true
      → (0 < count t d.launch_queue) ⊎ (0 < count_deps s.dfk (s.dfk.record_of t).depends)
  pub counted : IsCounted d

module _ (cfg : Config) (t : ℕ) (s : Frontend) (d : Dfk) (h : IsHandled t s d) (a : IsAwake s) where
  abbrev next : Frontend
  next = fire_callbacks (record s { dfk = d })

  depends_same : (u : ℕ) → (d.record_of u).depends ≡ (s.dfk.record_of u).depends
  depends_same u = elim (Bool-cases (t == u)) [
    | inl this ↦ let e = (==_iff t u).0 this in rw (sym e) h.depends
    | inr other ↦ ap (λ r. r.depends) (h.others u (ground (arith, other)))
  ]

  handled_own :
      (u : ℕ)
      → status_is (d.record_of u).status pending ≡ true
      → (0 < count u d.launch_queue) ⊎ (0 < count_deps s.dfk (s.dfk.record_of u).depends)
  handled_own u waits_for = elim (Bool-cases (t == u)) [
    | inl this ↦ let e = (==_iff t u).0 this in rw (sym e) (h.own (rw e waits_for))
    | inr other ↦
        let ne : t ≢ u = ground (arith, other) in
        elim (a.woken u (sym (ap (λ r. status_is r.status pending) (h.others u ne)) ∙ waits_for)) [
          | inl queued ↦ inl (omega (arith, h.queue u ne))
          | inr held ↦ inr held
        ]
  ]

  pub handled-IsAwake : IsAwake next
  handled-IsAwake =
      let x = fired s d in
      record {
        called = λ u.
            rw (ap (λ r. (r u).depends) x.kernel.records ∙ depends_same u)
              (All_map (s.dfk.record_of u).depends (still-IsCalled s d h.done u) (a.called u));
        woken = λ u waits_for. still_woken s d u (depends_same u) (a.called u) (
            handled_own u
              (sym (ap (λ r. status_is (r u).status pending) x.kernel.records) ∙ waits_for));
        fresh = λ u later.
            let before : s.task_count ≤ u = omega (arith, x.count_same, later) in
            let ne : t ≢ u = ground (arith, h.known, before) in
            ap (λ r. (r u).status) x.kernel.records
            ∙ ap (λ r. r.status) (h.others u ne)
            ∙ a.fresh u before;
        counted = same-IsCounted cfg d next.dfk x.kernel.records x.kernel.counts h.counted;
      }

-- ===== src/Dataflow/Kernel/Submit/Handled.antt =====
-- The handlers lose no launch (solution/dflow.py), with the task that each of them is called for.
use talents_parsl_checkpoint.Prelude.{
  ℕ, ◌≤◌, ◌<◌, ◌≡◌, ◌≢◌, ◌⊎◌, inl, inr, refl, ap, sym, ◌∙◌, true, false, Option, none, some, count,
  remove, count-remove, arith, Bool-cases,
}
use talents_parsl_checkpoint.Dataflow.States.{States, pending, joining, is_iff}
use talents_parsl_checkpoint.Dataflow.Kernel.{Config, Dfk}
use talents_parsl_checkpoint.Dataflow.Kernel.Join.{status_is, is_done, handle_join_update}
use talents_parsl_checkpoint.Dataflow.Kernel.Launch.{count_deps, launch_if_ready_async}
use talents_parsl_checkpoint.Dataflow.Kernel.Handlers.{handle_join_update-Keeps}
use talents_parsl_checkpoint.Dataflow.Kernel.Events.{
  Event, launch, execution, joined, task_of, handle, handle-Keeps,
}
use talents_parsl_checkpoint.Dataflow.Kernel.Counted.{IsCounted, IsCounted-IsStable, same-IsCounted}
use talents_parsl_checkpoint.Dataflow.Kernel.Local.{IsLocal, IsLocal-refl, IsLocal-IsStable}
use talents_parsl_checkpoint.Dataflow.Kernel.Settled.{IsSettled, IsSettled-IsEnding}
use talents_parsl_checkpoint.Dataflow.Kernel.Woken.{handle_exec_update-IsWoken}
use talents_parsl_checkpoint.Dataflow.Kernel.Launched.{launch_if_ready_async-IsWoken}
use talents_parsl_checkpoint.Dataflow.Kernel.Submit.{Environment, Frontend}
use talents_parsl_checkpoint.Dataflow.Kernel.Submit.Steps.{dequeue, Launches}
use talents_parsl_checkpoint.Dataflow.Kernel.Submit.Awake.{IsAwake, IsHandled, same_deps}

-- The kernel, but for its queue of launches, is as before.
record IsDequeued (t : ℕ) (d c : Dfk) : Type 0 where
  records : c.record_of ≡ d.record_of
  counts : c.task_state_counts ≡ d.task_state_counts
  futures : c.futures ≡ d.futures
  queue : (u : ℕ) → t ≢ u → count u d.launch_queue ≤ count u c.launch_queue

dequeue-IsDequeued : (e : Event) (d : Dfk) → IsDequeued (task_of e) d (dequeue e d)
unfolding dequeue task_of
dequeue-IsDequeued (launch t) d = record {
  records = refl;
  counts = refl;
  futures = refl;
  queue = λ u ne. ground (arith, count-remove u t d.launch_queue);
}
dequeue-IsDequeued (execution t r) d = record {
  records = refl;
  counts = refl;
  futures = refl;
  queue = λ u ne. omega arith;
}
dequeue-IsDequeued (joined t) d = record {
  records = refl;
  counts = refl;
  futures = refl;
  queue = λ u ne. omega arith;
}

settled-not_pending :
    {A : Type 0} (t : ℕ) (d : Dfk)
    → IsSettled t d
    → status_is (d.record_of t).status pending ≡ true
    → A
settled-not_pending t d h waits = let clash : false ≡ true = sym h.state ∙ waits in cc

pending_not_joining : (s : Option States) → status_is s pending ≡ true → status_is s joining ≡ false
pending_not_joining none e = refl
pending_not_joining (some s) e = rw ((is_iff s pending).0 e) refl

joined_while_pending :
    (cfg : Config) (t : ℕ) (d : Dfk)
    → status_is (d.record_of t).status pending ≡ true
    → (handle_join_update cfg t d).1 ≡ d
unfolding handle_join_update
joined_while_pending cfg t d waits = rw (pending_not_joining (d.record_of t).status waits) refl

-- What a handler leaves of its own task.
own :
    (env : Environment) (e : Event) (d : Dfk)
    → Launches env e (dequeue e d)
    → (status_is (d.record_of (task_of e)).status pending ≡ true
        → (0 < count (task_of e) d.launch_queue)
          ⊎ (0 < count_deps d (d.record_of (task_of e)).depends))
    → status_is ((handle env.cfg e (dequeue e d)).record_of (task_of e)).status pending ≡ true
    → (0 < count (task_of e) (handle env.cfg e (dequeue e d)).launch_queue)
      ⊎ (0 < count_deps d (d.record_of (task_of e)).depends)
unfolding Launches handle task_of dequeue
own env (launch t) d returns before waits =
    let c = record d { launch_queue = remove t d.launch_queue } in
    elim (launch_if_ready_async-IsWoken env.cfg t c returns) [
      | inr (same, held) ↦ inr (omega (arith, held, same_deps d c refl (d.record_of t).depends))
      | inl woken ↦ elim woken [
        | inl settled ↦ settled-not_pending t (launch_if_ready_async env.cfg t c).1 settled waits
        | inr queued ↦ inl queued
      ]
    ]
own env (execution t r) d returns before waits = elim (handle_exec_update-IsWoken env.cfg t r d) [
  | inl settled ↦ settled-not_pending t (handle env.cfg (execution t r) d) settled waits
  | inr queued ↦ inl queued
]
own env (joined t) d returns before waits =
    elim (Bool-cases (status_is (d.record_of t).status pending)) [
      | inl was ↦ rw (joined_while_pending env.cfg t d was) (before was)
      | inr settled ↦
          settled-not_pending t (handle env.cfg (joined t) d)
            ((handle_join_update-Keeps env.cfg t (IsSettled t) (IsSettled-IsEnding env.cfg t)).at d
              (record { state = settled }))
            waits
    ]

-- An event of a task that has been submitted, from a kernel where no launch is lost.
pub handle-IsHandled :
    (env : Environment) (e : Event) (s : Frontend)
    → task_of e < s.task_count
    → Launches env e (dequeue e s.dfk)
    → IsAwake s
    → IsHandled (task_of e) s (handle env.cfg e (dequeue e s.dfk))
handle-IsHandled env e s known returns a =
    let t = task_of e in
    let c = dequeue e s.dfk in
    let q = dequeue-IsDequeued e s.dfk in
    let x =
      handle-Keeps env.cfg e (IsLocal t c) (IsLocal-IsStable env.cfg t c) c (IsLocal-refl t c) in
    record {
      known = known;
      others = λ u ne. x.others u ne ∙ ap (λ r. r u) q.records;
      depends = x.depends ∙ ap (λ r. (r t).depends) q.records;
      queue = λ u ne. omega (arith, x.queue u, q.queue u ne);
      done = λ f was. x.done f (rw (q.futures, is_done) was);
      own = own env e s.dfk returns (a.woken t);
      counted =
          handle-Keeps env.cfg e IsCounted (IsCounted-IsStable env.cfg t) c
            (same-IsCounted env.cfg s.dfk c q.records q.counts a.counted);
    }

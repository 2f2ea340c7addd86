-- ===== src/Dataflow/Kernel/Submit/Served.antt =====
-- No launch of a pending task is lost in a history of submissions, events and cleanups
-- (solution/dflow.py).
use talents_parsl_checkpoint.Prelude.{
  ℕ, ◌+◌, ◌≤◌, ◌<◌, ◌==◌, ◌≡◌, ◌≢◌, ◌⊎◌, inl, inr, refl, ap, sym, ◌∙◌, Bool, true, false, Option,
  none, some, List, [], ◌∷◌, All, count, arith, Bool-cases, ==_iff, if◌then◌else◌,
}
use talents_parsl_checkpoint.Dataflow.Errors.{Result, err, already_cleaned_up}
use talents_parsl_checkpoint.Dataflow.States.{pending}
use talents_parsl_checkpoint.Dataflow.Kernel.{CheckpointMode, Config}
use talents_parsl_checkpoint.Dataflow.Kernel.Frame.{checkpoint-IsSameTasks}
use talents_parsl_checkpoint.Dataflow.Kernel.Publish.{checkpoint, pending_outcomes}
use talents_parsl_checkpoint.Dataflow.Kernel.Join.{status_is}
use talents_parsl_checkpoint.Dataflow.Kernel.Launch.{count_deps}
use talents_parsl_checkpoint.Dataflow.Kernel.Counted.{IsCounted, same-IsCounted}
use talents_parsl_checkpoint.Dataflow.Kernel.Events.{task_of, handle}
use talents_parsl_checkpoint.Dataflow.Kernel.Submit.{
  Submission, Environment, Frontend, submit, write_at_cleanup, cleanup,
}
use talents_parsl_checkpoint.Dataflow.Kernel.Submit.Accepted.{waits}
use talents_parsl_checkpoint.Dataflow.Kernel.Submit.Answered.{IsAccepted, IsRefused, submit_result}
use talents_parsl_checkpoint.Dataflow.Kernel.Submit.Tallies.{
  submit-closed, submit-IsCounted, submit-task_count,
}
use talents_parsl_checkpoint.Dataflow.Kernel.Submit.Steps.{
  Step, submits, happens, cleans, dequeue, take_step, take_steps, IsRegular,
}
use talents_parsl_checkpoint.Dataflow.Kernel.Submit.Awake.{
  All_map, same_deps, IsCalled, IsAwake, handled-IsAwake,
}
use talents_parsl_checkpoint.Dataflow.Kernel.Submit.Handled.{handle-IsHandled}

-- From s to s' the Futures are the same, and no launch and no callback is lost.
record IsUnlost (s s' : Frontend) : Type 0 where
  futures : s'.dfk.futures ≡ s.dfk.futures
  queue : (u : ℕ) → count u s.dfk.launch_queue ≤ count u s'.dfk.launch_queue
  callbacks : (f u : ℕ) → waits f u s.dep_callbacks ≤ waits f u s'.dep_callbacks

-- A task whose record is as before.
module _ (s s' : Frontend) (x : IsUnlost s s') (a : IsAwake s) where
  unlost-IsCalled :
      (u : ℕ)
      → s'.dfk.record_of u ≡ s.dfk.record_of u
      → All (IsCalled s' u) (s'.dfk.record_of u).depends
  unlost-IsCalled u same =
      rw (ap (λ r. r.depends) same)
        (All_map (s.dfk.record_of u).depends (λ f. still f) (a.called u))
    where
      still : (f : ℕ) → IsCalled s u f → IsCalled s' u f
      still f (inl done) = inl (rw x.futures done)
      still f (inr waits_for) = inr (omega (arith, x.callbacks f u))

  unlost-woken :
      (u : ℕ)
      → s'.dfk.record_of u ≡ s.dfk.record_of u
      → status_is (s'.dfk.record_of u).status pending ≡ true
      → (0 < count u s'.dfk.launch_queue) ⊎ (0 < count_deps s'.dfk (s'.dfk.record_of u).depends)
  unlost-woken u same waits_for = elim (a.woken u (rw (sym same) waits_for)) [
    | inl queued ↦ inl (omega (arith, x.queue u))
    | inr held ↦
        let same_count =
          same_deps s.dfk s'.dfk x.futures (s'.dfk.record_of u).depends
          ∙ ap (λ r. count_deps s.dfk r.depends) same in
        inr (omega (arith, same_count, held))
  ]

  same_records-IsAwake :
      s'.dfk.record_of ≡ s.dfk.record_of
      → s.task_count ≤ s'.task_count
      → IsCounted s'.dfk
      → IsAwake s'
  same_records-IsAwake same more counted = record {
    called = λ u. unlost-IsCalled u (ap (λ r. r u) same);
    woken = λ u. unlost-woken u (ap (λ r. r u) same);
    fresh = λ u later. ap (λ r. (r u).status) same ∙ a.fresh u (omega arith);
    counted = counted;
  }

  -- One task is new.
  new_task-IsAwake :
      (t : ℕ)
      → ((u : ℕ) → t ≢ u → s'.dfk.record_of u ≡ s.dfk.record_of u)
      → t ≡ s.task_count
      → s'.task_count ≡ t + 1
      → All (IsCalled s' t) (s'.dfk.record_of t).depends
      → (status_is (s'.dfk.record_of t).status pending ≡ true
          → (0 < count t s'.dfk.launch_queue)
            ⊎ (0 < count_deps s'.dfk (s'.dfk.record_of t).depends))
      → IsCounted s'.dfk
      → IsAwake s'
  new_task-IsAwake t others this next called woken counted = record {
    called = λ u. elim (Bool-cases (t == u)) [
      | inl same ↦ rw (sym ((==_iff t u).0 same)) called
      | inr other ↦ unlost-IsCalled u (others u (ground (arith, other)))
    ];
    woken = λ u. elim (Bool-cases (t == u)) [
      | inl same ↦ rw (sym ((==_iff t u).0 same)) woken
      | inr other ↦ unlost-woken u (others u (ground (arith, other)))
    ];
    fresh = λ u later.
        let ne : t ≢ u = ground (arith, later, next) in
        ap (λ r. r.status) (others u ne) ∙ a.fresh u (omega (arith, this, next, later));
    counted = counted;
  }

module _ (env : Environment) (sub : Submission) (s : Frontend) (a : IsAwake s) where
  abbrev submitting : Result ℕ × Frontend
  submitting = submit env sub s

  accepted-IsAwake :
      IsAccepted env s.task_count s.next_future s submitting
      → submitting.1.task_count ≡ s.task_count + 1
      → IsCounted submitting.1.dfk
      → IsAwake submitting.1
  accepted-IsAwake x next counted =
      new_task-IsAwake s submitting.1
        (record {
          futures = x.extended.futures;
          queue = x.extended.queue;
          callbacks = x.extended.callbacks;
        })
        a s.task_count x.extended.others refl next (rw x.waiting.depends_on x.waiting.called)
        (λ waits_for. inl x.waiting.queued) counted

  refused-IsAwake :
      IsRefused s.task_count s submitting
      → submitting.1.task_count ≡ s.task_count + 1
      → IsCounted submitting.1.dfk
      → IsAwake submitting.1
  refused-IsAwake x next counted =
      let same : IsUnlost s submitting.1 = record {
        futures = x.futures;
        queue = λ u. omega (arith, ap (count u) x.queue);
        callbacks = λ f u. omega (arith, ap (waits f u) x.callbacks);
      } in
      let t = s.task_count in
      elim x.own [
        | inl unchanged ↦
            new_task-IsAwake s submitting.1 same a t x.others refl next
              (unlost-IsCalled s submitting.1 same a t unchanged)
              (unlost-woken s submitting.1 same a t unchanged) counted
        | inr (state, depends) ↦
            new_task-IsAwake s submitting.1 same a t x.others refl next (rw depends tt)
              (λ waits_for.
                let clash : false ≡ true = sym (ap (λ q. status_is q pending) state) ∙ waits_for in
                cc)
              counted
      ]

  submit-IsAwake : IsAwake submitting.1
  submit-IsAwake = elim (Bool-cases s.cleanup_called) [
    | inl closed ↦ rw (submit-closed env sub s closed) a
    | inr opened ↦
        let fresh = a.fresh s.task_count (omega arith) in
        let next = submit-task_count env sub s opened fresh a.counted in
        let counted = submit-IsCounted env sub s opened fresh a.counted in
        elim (submit_result env sub s) [
          | inl x ↦ accepted-IsAwake x next counted
          | inr x ↦ refused-IsAwake x next counted
        ]
  ]

write_at_cleanup-IsAwake :
    (cfg : Config) (mode : Option CheckpointMode) (s : Frontend)
    → IsAwake s
    → IsAwake (write_at_cleanup cfg mode s).1
unfolding write_at_cleanup
write_at_cleanup-IsAwake cfg none s a = a
write_at_cleanup-IsAwake cfg (some mode) s a =
    let d = (checkpoint cfg pending_outcomes s.dfk).1 in
    let same = checkpoint-IsSameTasks cfg s.dfk in
    same_records-IsAwake s (record s { dfk = d })
      (record {
        futures = same.futures;
        queue = λ u. omega (arith, ap (count u) same.launches);
        callbacks = λ f u. omega arith;
      })
      a same.records (omega arith) (same-IsCounted cfg s.dfk d same.records same.counts a.counted)

closed-IsAwake : (s : Frontend) → IsAwake s → IsAwake (record s { cleanup_called = true })
closed-IsAwake s a = record {
  called = a.called;
  woken = a.woken;
  fresh = a.fresh;
  counted = a.counted;
}

cleanup-IsAwake : (cfg : Config) (s : Frontend) → IsAwake s → IsAwake (cleanup cfg s).1
unfolding cleanup
cleanup-IsAwake cfg s a = by_call s.cleanup_called
  where
    by_call :
        (called : Bool)
        → IsAwake
            (if called
              then (err already_cleaned_up, s)
              else write_at_cleanup cfg cfg.checkpoint_mode (record s { cleanup_called = true })).1
    by_call true = a
    by_call false =
        write_at_cleanup-IsAwake cfg cfg.checkpoint_mode (record s { cleanup_called = true })
          (closed-IsAwake s a)

-- From a kernel where no launch is lost, for any sequence of submissions, events and cleanups, as long
-- as each event is of a task that has been submitted and no inspection of a launch raises: each
-- dependency of a task is done or has a callback for it, and a task that is pending is in the queue of
-- launches or has a dependency that is not done. The counters of the states are right, and the tasks
-- to come have no state.
pub take_steps-IsAwake :
    (env : Environment) (xs : List Step) (s : Frontend)
    → IsRegular env xs s
    → IsAwake s
    → IsAwake (take_steps env xs s)
unfolding take_steps take_step IsRegular
take_steps-IsAwake env [] s regular a = a
take_steps-IsAwake env (submits sub ∷ xs) s regular a =
    take_steps-IsAwake env xs (take_step env (submits sub) s) regular (submit-IsAwake env sub s a)
take_steps-IsAwake env (cleans ∷ xs) s regular a =
    take_steps-IsAwake env xs (take_step env cleans s) regular (cleanup-IsAwake env.cfg s a)
take_steps-IsAwake env (happens e ∷ xs) s ((known, launches), rest) a =
    take_steps-IsAwake env xs (take_step env (happens e) s) rest (
      handled-IsAwake env.cfg (task_of e) s (handle env.cfg e (dequeue e s.dfk))
        (handle-IsHandled env e s known launches a) a)

-- ===== src/Dataflow/Kernel/Retries.antt =====
-- How often a task is tried (solution/dflow.py, `handle_exec_update`).
use talents_parsl_checkpoint.Prelude.{
  ℕ, ◌+◌, ◌≤◌, ◌<◌, ◌≡◌, refl, Bool, true, false, Option, none, some, List, ◌==◌, leb, leb→le,
  arith, Bool-cases, if◌then◌else◌, inl, inr, ==_refl,
}
use talents_parsl_checkpoint.Dataflow.Errors.{Exn, Result, ok, err}
use talents_parsl_checkpoint.Dataflow.States.{States, failed, dep_fail, fail_retryable, pending}
use talents_parsl_checkpoint.Dataflow.Tasks.{TaskRecord}
use talents_parsl_checkpoint.Dataflow.Memo.{Outcome}
use talents_parsl_checkpoint.Dataflow.Kernel.{Config, Dfk, update, and_then, ◌>>◌}
use talents_parsl_checkpoint.Dataflow.Kernel.Keeps.{Keeps, keeps_rules}
use talents_parsl_checkpoint.Dataflow.Kernel.Frame.{record_task_outcome-IsSameTasks}
use talents_parsl_checkpoint.Dataflow.Kernel.Handlers.{IsStable}
use talents_parsl_checkpoint.Dataflow.Kernel.Events.{Event, handle_all, handle_all-Keeps}
use talents_parsl_checkpoint.Dataflow.Kernel.Publish.{
  set_record, update_task_state, wipe_task, set_app_future, record_task_outcome, end_task,
  complete_task, fail_task,
}
use talents_parsl_checkpoint.Dataflow.Kernel.Join.{status_is}
use talents_parsl_checkpoint.Dataflow.Kernel.Update.{
  note_failure, charge, charge_answer, retry_task, settle_failure, settle_charged, handle_failure,
}

-- A retry has been paid for, and no retry is beyond what the configuration allows.
pub record IsPaid (cfg : Config) (task : TaskRecord) : Type 0 where
  pub paid : task.try_id ≤ task.fail_cost
  pub allowed : task.try_id ≤ cfg.retries

pub record AllPaid (cfg : Config) (d : Dfk) : Type 0 where
  pub each : (t : ℕ) → IsPaid cfg (d.record_of t)

module _ (cfg : Config) where
  update-IsPaid :
      (t : ℕ) (task : TaskRecord) (d : Dfk)
      → IsPaid cfg task
      → AllPaid cfg d
      → (u : ℕ) → IsPaid cfg (update d.record_of t task u)
  update-IsPaid t task d p h u = by_test (u == t)
    where
      by_test : (b : Bool) → IsPaid cfg (if b then task else d.record_of u)
      by_test true = p
      by_test false = h.each u

  sets-AllPaid :
      (t : ℕ) (task : TaskRecord) (d : Dfk)
      → task.try_id ≡ (d.record_of t).try_id
      → task.fail_cost ≡ (d.record_of t).fail_cost
      → AllPaid cfg d
      → AllPaid cfg (record d { record_of = update d.record_of t task })
  sets-AllPaid t task d tries cost h =
      let old = h.each t in
      record {
        each =
            update-IsPaid t task d
              (record { paid = rw (tries, cost) old.paid; allowed = rw tries old.allowed }) h;
      }

  update_task_state-AllPaid : (t : ℕ) (s : States) → Keeps (AllPaid cfg) (update_task_state t s)
  unfolding update_task_state
  update_task_state-AllPaid t s = record {
    at = λ d h. record { each = (sets-AllPaid t _ d refl refl h).each };
  }

  wipe-AllPaid : (t : ℕ) → Keeps (AllPaid cfg) (wipe_task cfg t)
  unfolding wipe_task
  wipe-AllPaid t = record { at = λ d h. ground arith }

  set_app_future-AllPaid : (t : ℕ) (o : Outcome) → Keeps (AllPaid cfg) (set_app_future t o)
  unfolding set_app_future
  set_app_future-AllPaid t o = record { at = λ d h. ground arith }

  record-AllPaid : (t : ℕ) (o : Outcome) → Keeps (AllPaid cfg) (record_task_outcome cfg t o)
  record-AllPaid t o = record {
    at = λ d h. record { each = rw ((record_task_outcome-IsSameTasks cfg t o d).records) h.each };
  }

  fail_task-AllPaid : (t : ℕ) (x : Exn) → Keeps (AllPaid cfg) (fail_task cfg t x)
  unfolding fail_task
  fail_task-AllPaid t x = search (keeps_rules, record-AllPaid, wipe-AllPaid, set_app_future-AllPaid)

  fails-AllPaid :
      (t : ℕ) (x : Exn) → Keeps (AllPaid cfg) (update_task_state t failed >> fail_task cfg t x)
  fails-AllPaid t x = search (keeps_rules, update_task_state-AllPaid, fail_task-AllPaid)

  end_task-AllPaid : (t : ℕ) (s : States) (o : Outcome) → Keeps (AllPaid cfg) (end_task cfg t s o)
  unfolding end_task
  end_task-AllPaid t s o =
      search (keeps_rules, update_task_state-AllPaid, wipe-AllPaid, set_app_future-AllPaid)

  complete_task-AllPaid :
      (t : ℕ) (s : States) (r : ℕ) → Keeps (AllPaid cfg) (complete_task cfg t s r)
  unfolding complete_task
  complete_task-AllPaid t s r = search (keeps_rules, record-AllPaid, end_task-AllPaid)

  -- A failure of the task has been charged, and the retry that it may lead to has not been made.
  record IsCharged (t : ℕ) (d : Dfk) : Type 0 where
    all : AllPaid cfg d
    unspent : (d.record_of t).try_id < (d.record_of t).fail_cost

  set_cost-IsCharged :
      (t n : ℕ) (d : Dfk)
      → (d.record_of t).try_id < n
      → AllPaid cfg d
      → IsCharged t (set_record t (λ task. record task { fail_cost = n }) d)
  set_cost-IsCharged t n d less h = record {
    all = record {
      each = update-IsPaid t _ d (record { paid = omega arith; allowed = (h.each t).allowed }) h;
    };
    unspent = rw (==_refl t) less;
  }

  note_failure-AllPaid : (t : ℕ) (x : Exn) → Keeps (AllPaid cfg) (note_failure t x)
  unfolding note_failure
  note_failure-AllPaid t x = record {
    at = λ d h. record { each = (sets-AllPaid t _ d refl refl h).each };
  }

  retry_task-AllPaid :
      (t : ℕ) (d : Dfk)
      → IsCharged t d
      → (d.record_of t).fail_cost ≤ cfg.retries
      → AllPaid cfg (retry_task t d).1
  unfolding retry_task update_task_state
  retry_task-AllPaid t d h fits =
      let c = (update_task_state t fail_retryable d).1 in
      let before = (update_task_state-AllPaid t fail_retryable).at d h.all in
      let less = h.unspent in
      let tried : IsPaid cfg (record (c.record_of t) { try_id = (c.record_of t).try_id + 1 }) =
        rw (==_refl t) (record { paid = omega arith; allowed = omega arith }) in
      let e : Dfk = record c {
        record_of =
            update c.record_of t (record (c.record_of t) { try_id = (c.record_of t).try_id + 1 });
      } in
      let after =
        (update_task_state-AllPaid t pending).at e
          (record { each = update-IsPaid t _ c tried before }) in
      record { each = (sets-AllPaid t _ (update_task_state t pending e).1 refl refl after).each }

  settle_failure-AllPaid :
      (t : ℕ) (x : Exn) (d : Dfk)
      → IsCharged t d
      → AllPaid cfg (settle_failure cfg t x (d.record_of t) d).1
  unfolding settle_failure
  settle_failure-AllPaid t x d h = elim (Bool-cases (status_is (d.record_of t).status dep_fail)) [
    | inl dep ↦ rw dep ((fail_task-AllPaid t x).at d h.all)
    | inr other ↦ elim (Bool-cases (leb (d.record_of t).fail_cost cfg.retries)) [
      | inl fits ↦ rw (other, fits) (retry_task-AllPaid t d h (leb→le _ _ fits))
      | inr spent ↦ rw (other, spent) ((fails-AllPaid t x).at d h.all)
    ]
  ]

  module _
      (costs : (handler : Exn → TaskRecord → Result ℕ) (x : Exn) (task : TaskRecord) (c : ℕ)
        → cfg.retry_handler ≡ some handler
        → handler x task ≡ ok c
        → 0 < c) where
    charge_answer-IsCharged :
        (t : ℕ) (x : Exn) (answer : Result ℕ) (d : Dfk)
        → ((c : ℕ) → answer ≡ ok c → 0 < c)
        → AllPaid cfg d
        → IsCharged t (charge_answer cfg t x answer d).1
    unfolding charge_answer
    charge_answer-IsCharged t x (ok c) d positive h =
        let more = positive c refl in
        let old = (h.each t).paid in
        set_cost-IsCharged t ((d.record_of t).fail_cost + c) d (omega arith) h
    charge_answer-IsCharged t x (err y) d positive h =
        let old = (h.each t).allowed in set_cost-IsCharged t (cfg.retries + 1) d (omega arith) h

    charge-IsCharged :
        (t : ℕ) (x : Exn) (handler : Option (Exn → TaskRecord → Result ℕ)) (d : Dfk)
        → cfg.retry_handler ≡ handler
        → AllPaid cfg d
        → IsCharged t (charge cfg t x handler d).1
    unfolding charge
    charge-IsCharged t x none d is h =
        let old = (h.each t).paid in
        set_cost-IsCharged t ((d.record_of t).fail_cost + 1) d (omega arith) h
    charge-IsCharged t x (some handler) d is h =
        charge_answer-IsCharged t x (handler x (d.record_of t)) d
          (λ c. costs handler x (d.record_of t) c is) h

    -- A charge that raises would leave the failure unsettled; either way all is paid.
    settle-AllPaid :
        (t : ℕ) (r : Result Exn) (d : Dfk)
        → IsCharged t d
        → AllPaid cfg (and_then r (λ y. settle_charged cfg t y) d).1
    unfolding settle_charged
    settle-AllPaid t (ok y) d h = settle_failure-AllPaid t y d h
    settle-AllPaid t (err y) d h = h.all

    handle_failure-AllPaid : (t : ℕ) (x : Exn) → Keeps (AllPaid cfg) (handle_failure cfg t x)
    unfolding handle_failure note_failure
    handle_failure-AllPaid t x = record {
      at = λ d h.
          let c = (note_failure t x d).1 in
          settle-AllPaid t (charge cfg t x cfg.retry_handler c).0
            (charge cfg t x cfg.retry_handler c).1
            (charge-IsCharged t x cfg.retry_handler c refl ((note_failure-AllPaid t x).at d h));
    }

    AllPaid-IsStable : (t : ℕ) → IsStable cfg t (AllPaid cfg)
    AllPaid-IsStable t = record {
      ends = record {
        sets = λ task d tries cost state depends h. sets-AllPaid t task d tries cost h;
        completes = complete_task-AllPaid t;
        fails = fails-AllPaid t;
        allocates = λ d y h. record { each = h.each };
        registers = λ d y h. record { each = h.each };
      };
      updates = update_task_state-AllPaid t;
      handles_failure = handle_failure-AllPaid t;
      queues = λ d h. record { each = h.each };
      runs = λ d y h. record { each = h.each };
    }

    -- If a retry handler charges at least 1 for a failure, then, from a kernel where this holds so far,
    -- whatever happens to it no task has been tried again more often than `retries` allows, or than its
    -- failures have cost.
    pub handle_all-AllPaid :
        (es : List Event) (d : Dfk) → AllPaid cfg d → AllPaid cfg (handle_all cfg es d)
    handle_all-AllPaid = handle_all-Keeps cfg (AllPaid cfg) AllPaid-IsStable

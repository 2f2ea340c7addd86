-- ===== src/Dataflow/Kernel/Settled.antt =====
-- The handlers of solution/dflow.py after which a task is not pending.
use talents_parsl_checkpoint.Prelude.{
  ℕ, ◌≡◌, inl, inr, refl, ap, sym, ◌∙◌, Bool, true, false, ◌&&◌, not, Option, none, some, arith,
  Bool-cases, ==_refl,
}
use talents_parsl_checkpoint.Dataflow.Errors.{Exn, type_error, Result, ok, err}
use talents_parsl_checkpoint.Dataflow.States.{
  is_final, is_final_failure, States, pending, failed, joining, exec_done, memo_done, ◌is◌, is_iff,
}
use talents_parsl_checkpoint.Dataflow.Tasks.{TaskRecord, Joinable}
use talents_parsl_checkpoint.Dataflow.Memo.{Outcome, result, raised}
use talents_parsl_checkpoint.Dataflow.Kernel.{
  Config, Dfk, Action, and_then, settle, try_except, modify, ◌>>=◌, ◌>>◌,
}
use talents_parsl_checkpoint.Dataflow.Kernel.Keeps.{Keeps, keeps_rules}
use talents_parsl_checkpoint.Dataflow.Kernel.Handlers.{IsEnding, set-Keeps, start_listening-Keeps}
use talents_parsl_checkpoint.Dataflow.Kernel.Frame.{record_task_outcome-IsSameTasks}
use talents_parsl_checkpoint.Dataflow.Kernel.Publish.{
  set_record, wipe_task, finish, set_app_future, update_task_state, fail_task, end_task,
  complete_task, record_task_outcome,
}
use talents_parsl_checkpoint.Dataflow.Kernel.Join.{status_is}
use talents_parsl_checkpoint.Dataflow.Kernel.Update.{
  handle_success, handle_body, handle_join_body, start_listening, is_true, joinable_of,
}

-- The task is not pending.
pub record IsSettled (t : ℕ) (d : Dfk) : Type 0 where
  pub state : status_is (d.record_of t).status pending ≡ false

-- The task is not pending after the action, whatever it was before it.
pub record Settles {ℓ} {A : Type ℓ} (t : ℕ) (m : Action A) : Type ℓ where
  pub at : (d : Dfk) → IsSettled t (m d).1

module _ {ℓ κ} {A : Type ℓ} {B : Type κ} (t : ℕ) (m : Action A) (f : A → Action B) where
  Settles-after : Settles t m → ((a : A) → Keeps (IsSettled t) (f a)) → Settles t (m >>= f)
  Settles-after first rest = record { at = λ d. let (r, e) = m d in go r e (first.at d) }
    where
      go : (r : Result A) (e : Dfk) → IsSettled t e → IsSettled t (and_then r f e).1
      go (ok a) e h = (rest a).at e h
      go (err x) e h = h

  Settles-try :
      (g : Exn → Action B)
      → ((a : A) → Settles t (f a))
      → ((x : Exn) → Settles t (g x))
      → Settles t (try_except m f g)
  Settles-try g returns raises = record { at = λ d. let (r, e) = m d in go r e }
    where
      go : (r : Result A) (e : Dfk) → IsSettled t (settle r f g e).1
      go (ok a) e = (returns a).at e
      go (err x) e = (raises x).at e

Settles-Keeps {ℓ} : {A : Type ℓ} (t : ℕ) (m : Action A) → Settles t m → Keeps (IsSettled t) m
Settles-Keeps t m h = record { at = λ d _. h.at d }

module _ (cfg : Config) (t : ℕ) where
  pub update-Settles : (s : States) → (s is pending) ≡ false → Settles t (update_task_state t s)
  unfolding update_task_state
  update-Settles s e = record { at = λ d. record { state = rw (==_refl t) e } }

  outcome-IsSettled : (o : Outcome) → Keeps (IsSettled t) (record_task_outcome cfg t o)
  outcome-IsSettled o = record {
    at = λ d h. record { state = rw ((record_task_outcome-IsSameTasks cfg t o d).records) h.state };
  }

  wipe-IsSettled : Keeps (IsSettled t) (wipe_task cfg t)
  unfolding wipe_task
  wipe-IsSettled = record { at = λ d h. ground arith }

  publish-IsSettled : (o : Outcome) → Keeps (IsSettled t) (set_app_future t o)
  unfolding set_app_future finish
  publish-IsSettled o = record { at = λ d h. ground arith }

  pub fail_task-IsSettled : (x : Exn) → Keeps (IsSettled t) (fail_task cfg t x)
  unfolding fail_task
  fail_task-IsSettled x = search (keeps_rules, outcome-IsSettled, wipe-IsSettled, publish-IsSettled)

  pub fails-Settles : (x : Exn) → Settles t (update_task_state t failed >> fail_task cfg t x)
  fails-Settles x =
      Settles-after t (update_task_state t failed) (λ _. fail_task cfg t x)
        (update-Settles failed refl) (λ _. fail_task-IsSettled x)

  end_task-Settles :
      (s : States) (o : Outcome) → (s is pending) ≡ false → Settles t (end_task cfg t s o)
  unfolding end_task
  end_task-Settles s o e =
      Settles-after t (update_task_state t s >> wipe_task cfg t) (λ _. set_app_future t o)
        (Settles-after t (update_task_state t s) (λ _. wipe_task cfg t) (update-Settles s e)
          (λ _. wipe-IsSettled))
        (λ _. publish-IsSettled o)

  ending_lem :
      (s : States) → (is_final s && not (is_final_failure s)) ≡ true → (s is pending) ≡ false
  ending_lem s final = elim (Bool-cases (s is pending)) [
    | inl same ↦
        let e : false ≡ true =
          sym (ap (λ z. is_final z && not (is_final_failure z)) ((is_iff s pending).0 same))
          ∙ final in
        cc
    | inr other ↦ other
  ]

  completes-Settles :
      (s : States) (r : ℕ)
      → (is_final s && not (is_final_failure s)) ≡ true
      → Settles t (complete_task cfg t s r)
  unfolding complete_task
  completes-Settles s r final = rw final (
      Settles-try t (record_task_outcome cfg t (result r)) (λ _. end_task cfg t s (result r))
        (λ x. end_task cfg t failed (raised x))
        (λ _. end_task-Settles s (result r) (ending_lem s final))
        (λ x. end_task-Settles failed (raised x) refl))

  not_final-IsSettled :
      (s : States) (r : ℕ)
      → (is_final s && not (is_final_failure s)) ≡ false
      → Keeps (IsSettled t) (complete_task cfg t s r)
  unfolding complete_task
  not_final-IsSettled s r other = rw other (record { at = λ d h. h })

  completes-IsSettled : (s : States) (r : ℕ) → Keeps (IsSettled t) (complete_task cfg t s r)
  completes-IsSettled s r = elim (Bool-cases (is_final s && not (is_final_failure s))) [
    | inl final ↦ Settles-Keeps t (complete_task cfg t s r) (completes-Settles s r final)
    | inr other ↦ not_final-IsSettled s r other
  ]

  pub IsSettled-IsEnding : IsEnding cfg t (IsSettled t)
  IsSettled-IsEnding = record {
    sets = λ task d tries cost state depends h. record { state = rw (==_refl t, state) h.state };
    completes = completes-IsSettled;
    fails =
        λ x. Settles-Keeps t (update_task_state t failed >> fail_task cfg t x) (fails-Settles x);
    allocates = λ d x h. record { state = h.state };
    registers = λ d x h. record { state = h.state };
  }

  handle_join_body-Settles : (js : Option Joinable) → Settles t (handle_join_body cfg t js)
  unfolding handle_join_body update_task_state
  handle_join_body-Settles (some js) =
      let joins = λ (task : TaskRecord). record task { joins = some js } in
      Settles-after t (update_task_state t joining >> modify (set_record t joins))
        (λ _. start_listening cfg t js)
        (Settles-after t (update_task_state t joining) (λ _. modify (set_record t joins))
          (update-Settles joining refl)
          (λ _.
            set-Keeps cfg t (IsSettled t) IsSettled-IsEnding joins (λ r. refl) (λ r. refl)
              (λ r. refl) (λ r. refl)))
        (λ _. start_listening-Keeps cfg t (IsSettled t) IsSettled-IsEnding js)
  handle_join_body-Settles none = fails-Settles type_error

  handle_body-Settles : (r : ℕ) (join : Bool) → Settles t (handle_body cfg t r join)
  unfolding handle_body
  handle_body-Settles r true = record {
    at = λ d. (handle_join_body-Settles (joinable_of (d.heap.content r))).at d;
  }
  handle_body-Settles r false = completes-Settles exec_done r refl

  pub handle_success-Settles : (r : ℕ) (task : TaskRecord) → Settles t (handle_success cfg t r task)
  unfolding handle_success
  handle_success-Settles r task = elim (Bool-cases (is_true task.from_memo)) [
    | inl hit ↦ rw hit (completes-Settles memo_done r refl)
    | inr ran ↦ rw ran (handle_body-Settles r task.join)
  ]

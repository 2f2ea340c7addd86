-- ===== src/Dataflow/Kernel/Ledger.antt =====
-- Deferred checkpoints (solution/dflow.py, `checkpoint`): what is written, and what stays pending.
use talents_parsl_checkpoint.Prelude.{
  ℕ, ◌≡◌, refl, ap, sym, ◌∙◌, some, List, [], ◌∷◌, ◌++◌, length, drop, All, append-nil,
  append_assoc, arith, inl, inr, if◌then◌else◌,
}
use talents_parsl_checkpoint.Dataflow.Errors.{Exn, Result, ok, err, Result-cases}
use talents_parsl_checkpoint.Dataflow.Completion.{TaskOutcome, succeeded}
use talents_parsl_checkpoint.Dataflow.Checkpoint.{content, join_payloads, write_checkpoint_payloads}
use talents_parsl_checkpoint.Dataflow.Checkpoint.Atomicity.{
  IsRecoverable, write-ok, write-err, next-IsRecoverable, write-effects,
}
use talents_parsl_checkpoint.Dataflow.Kernel.{
  CheckpointMode, task_exit, manual, periodic, dfk_exit, Config, Dfk,
}
use talents_parsl_checkpoint.Dataflow.Kernel.Publish.{
  queue_for, keep_outcome, pending_outcomes, writable, write_payloads, discard, write_queue,
  checkpoint,
}

-- The bytes of the records that are still to be written.
abbrev pub payload_of : TaskOutcome → List ℕ
payload_of o = if succeeded o then content o.checkpoint_payload else []

unfoldable pub payload_bytes : List TaskOutcome → List ℕ
payload_bytes [] = []
payload_bytes (o ∷ os) = payload_of o ++ payload_bytes os

join-writable :
    (cfg : Config) (os : List TaskOutcome)
    → join_payloads (writable cfg os) ≡ some (payload_bytes os)
unfolding join_payloads writable payload_bytes
join-writable cfg [] = refl
join-writable cfg (o ∷ os) = ground (arith, join-writable cfg os)

-- What is on disk, followed by what is pending.
abbrev pub ledger : Dfk → List ℕ
ledger d = content d.disk.stream ++ payload_bytes d.checkpointable_tasks

drop-length {ℓ} : {A : Type ℓ} (xs : List A) → drop (length xs) xs ≡ []
drop-length [] = refl
drop-length (x ∷ xs) = drop-length xs

-- How a flush of the pending outcomes ends: all of them are in the file and none is pending, or it
-- raises, and the file and the pending outcomes are what they were.
pub data Flushed (d d' : Dfk) : Result (Unit {0}) → Type 0 where
  written : content d'.disk.stream ≡ ledger d → d'.checkpointable_tasks ≡ [] → Flushed d d' (ok tt)
  refused :
      (x : Exn)
      → d'.disk.stream ≡ d.disk.stream
      → d'.checkpointable_tasks ≡ d.checkpointable_tasks
      → Flushed d d' (err x)

module _ (cfg : Config) (d : Dfk) (good : All IsRecoverable d.disk.effects) where
  abbrev pending_count : ℕ
  pending_count = length d.checkpointable_tasks

  write_queue-Flushed :
      (os : List TaskOutcome)
      → join_payloads os ≡ some (payload_bytes d.checkpointable_tasks)
      → Flushed d (write_queue cfg os pending_count d).1 (write_queue cfg os pending_count d).0
  unfolding write_queue write_payloads discard join_payloads
  write_queue-Flushed [] joined =
      Flushed.written
        (sym (ap (λ l. content d.disk.stream ++ l) (sym (ap content joined)) ∙ append-nil _))
        (drop-length d.checkpointable_tasks)
  write_queue-Flushed (o ∷ os) joined =
      elim (Result-cases (write_checkpoint_payloads (o ∷ os) d.disk).0) [
        | inl (a, e) ↦ rw e (
            Flushed.written
              (write-ok (o ∷ os) d.disk (payload_bytes d.checkpointable_tasks) joined e)
              (drop-length d.checkpointable_tasks))
        | inr (x, e) ↦ rw e (
            Flushed.refused x
              (write-err (o ∷ os) d.disk x (next-IsRecoverable d.disk.effects good) e) refl)
      ]

-- If no rollback fails, `checkpoint()` either returns, with every pending record appended to the file
-- in order and none pending, or raises, with the file and the pending outcomes as they were.
pub checkpoint-Flushed :
    (cfg : Config) (d : Dfk)
    → All IsRecoverable d.disk.effects
    → Flushed d (checkpoint cfg pending_outcomes d).1 (checkpoint cfg pending_outcomes d).0
unfolding checkpoint queue_for
checkpoint-Flushed cfg d good =
    write_queue-Flushed cfg d good (writable cfg d.checkpointable_tasks)
      (join-writable cfg d.checkpointable_tasks)

write_queue-effects :
    (cfg : Config) (os : List TaskOutcome) (n : ℕ) (d : Dfk)
    → All IsRecoverable d.disk.effects
    → All IsRecoverable (write_queue cfg os n d).1.disk.effects
unfolding write_queue write_payloads discard
write_queue-effects cfg [] n d good = good
write_queue-effects cfg (o ∷ os) n d good =
    let kept = write-effects (o ∷ os) d.disk good in
    elim (Result-cases (write_checkpoint_payloads (o ∷ os) d.disk).0) [
      | inl (a, e) ↦ rw e kept
      | inr (x, e) ↦ rw e kept
    ]

checkpoint-effects :
    (cfg : Config) (d : Dfk)
    → All IsRecoverable d.disk.effects
    → All IsRecoverable (checkpoint cfg pending_outcomes d).1.disk.effects
unfolding checkpoint queue_for
checkpoint-effects cfg d good =
    write_queue-effects cfg (writable cfg d.checkpointable_tasks) (length d.checkpointable_tasks) d
      good

Flushed-ledger : {d d' : Dfk} {r : Result (Unit {0})} → Flushed d d' r → ledger d' ≡ ledger d
unfolding payload_bytes
Flushed-ledger (Flushed.written file none_pending) = rw (file, none_pending) (append-nil _)
Flushed-ledger (Flushed.refused x file pending) = rw (file, pending) refl

payload_bytes-append :
    (os ps : List TaskOutcome) → payload_bytes (os ++ ps) ≡ payload_bytes os ++ payload_bytes ps
unfolding payload_bytes
payload_bytes-append [] ps = refl
payload_bytes-append (o ∷ os) ps =
    ap (λ l. payload_of o ++ l) (payload_bytes-append os ps)
    ∙ sym (append_assoc (payload_of o) (payload_bytes os) (payload_bytes ps))

ledger-snoc :
    (d : Dfk) (o : TaskOutcome)
    → content d.disk.stream ++ payload_bytes (d.checkpointable_tasks ++ o ∷ [])
      ≡ ledger d ++ payload_of o
unfolding payload_bytes
ledger-snoc d o =
    ap (λ l. content d.disk.stream ++ l)
      (payload_bytes-append d.checkpointable_tasks (o ∷ [])
        ∙ ap (λ l. payload_bytes d.checkpointable_tasks ++ l) (append-nil (payload_of o)))
    ∙ sym
        (append_assoc (content d.disk.stream) (payload_bytes d.checkpointable_tasks) (payload_of o))

-- A deferred mode adds the outcome to the pending ones, and does not touch the file.
keep-ledger :
    (cfg : Config) (mode : CheckpointMode) (o : TaskOutcome) (d : Dfk)
    → ¬ (mode ≡ task_exit)
    → All IsRecoverable d.disk.effects
    → (ledger (keep_outcome cfg mode o d).1 ≡ ledger d ++ payload_of o)
      × All IsRecoverable (keep_outcome cfg mode o d).1.disk.effects
unfolding keep_outcome
keep-ledger cfg task_exit o d deferred good = absurd (deferred refl)
keep-ledger cfg manual o d deferred good = (ledger-snoc d o, good)
keep-ledger cfg periodic o d deferred good = (ledger-snoc d o, good)
keep-ledger cfg dfk_exit o d deferred good = (ledger-snoc d o, good)

-- What happens to the pending outcomes: a task completes, or someone calls `checkpoint()`.
pub data Moment : Type 0 where
  completes : TaskOutcome → Moment
  flushes : Moment

unfoldable pub completed : List Moment → List TaskOutcome
completed [] = []
completed (completes o ∷ ms) = o ∷ completed ms
completed (flushes ∷ ms) = completed ms

-- A call of `checkpoint()` that raises is survived, and may be made again.
unfoldable pub live : Config → CheckpointMode → List Moment → Dfk → Dfk
live cfg mode [] d = d
live cfg mode (completes o ∷ ms) d = live cfg mode ms (keep_outcome cfg mode o d).1
live cfg mode (flushes ∷ ms) d = live cfg mode ms (checkpoint cfg pending_outcomes d).1

-- In a deferred mode and if no rollback fails, whatever the order of completions and of calls of
-- `checkpoint()` and whichever of these raise: the file followed by the pending records is what it was
-- at the start, followed by the record of each completed task, once and in order.
pub live-ledger :
    (cfg : Config) (mode : CheckpointMode) (ms : List Moment) (d : Dfk)
    → ¬ (mode ≡ task_exit)
    → All IsRecoverable d.disk.effects
    → ledger (live cfg mode ms d) ≡ ledger d ++ payload_bytes (completed ms)
unfolding live completed payload_bytes
live-ledger cfg mode [] d deferred good = sym (append-nil _)
live-ledger cfg mode (flushes ∷ ms) d deferred good =
    live-ledger cfg mode ms (checkpoint cfg pending_outcomes d).1 deferred
      (checkpoint-effects cfg d good)
    ∙ ap (λ l. l ++ payload_bytes (completed ms)) (Flushed-ledger (checkpoint-Flushed cfg d good))
live-ledger cfg mode (completes o ∷ ms) d deferred good =
    let (kept, safe) = keep-ledger cfg mode o d deferred good in
    live-ledger cfg mode ms (keep_outcome cfg mode o d).1 deferred safe
    ∙ ap (λ l. l ++ payload_bytes (completed ms)) kept
    ∙ append_assoc (ledger d) (payload_of o) (payload_bytes (completed ms))

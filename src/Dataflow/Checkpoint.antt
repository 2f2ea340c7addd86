-- ===== src/Dataflow/Checkpoint.antt =====
-- solution/dflow.py, `_write_checkpoint_payloads`: appending a batch to checkpoint/tasks.pkl.
pub mod Atomicity
use talents_parsl_checkpoint.Prelude.{
  ℕ, String, Bool, true, false, Option, none, some, List, [], ◌∷◌, ◌++◌, length, take,
}
use talents_parsl_checkpoint.Dataflow.Errors.{Exn, os_error, assertion_error, Result, ok, err}
use talents_parsl_checkpoint.Dataflow.Completion.{TaskOutcome}

-- How the truncation of a failed append goes.
pub data Rollback : Type 0 where
  -- the file is cut back, and removed if it is new
  restored : Rollback
  -- it cannot be opened again, and stays as it is
  reopen_fails : Rollback
  -- it is cut back, and the flush then fails, so it is not removed
  sync_fails : Rollback

-- What the file system does with one append.
pub data Effect : Type 0 where
  healthy : Effect
  makedirs_fails : Effect
  open_fails : Effect
  -- the `with` block raises, after this many of the batch's bytes have come into the file
  append_fails : ℕ → Rollback → Effect

-- The content of tasks.pkl, `none` where there is no such file, and what the file system will do
-- with the appends to come; behind the last of them it is healthy.
pub record Disk : Type 0 where
  pub stream : Option (List ℕ)
  pub effects : List Effect

abbrev pub content : Option (List ℕ) → List ℕ
content none = []
content (some s) = s

-- The file as the `except` block leaves it. Opening in mode `a+b` has made it.
abbrev rolled_back : Option (List ℕ) → List ℕ → ℕ → Rollback → Option (List ℕ)
rolled_back none batch n restored = none
rolled_back (some s) batch n restored = some (take (length s) (s ++ take n batch))
rolled_back file batch n reopen_fails = some (content file ++ take n batch)
rolled_back file batch n sync_fails =
    some (take (length (content file)) (content file ++ take n batch))

unfoldable pub append : List ℕ → Effect → Option (List ℕ) → Result (Unit {0}) × Option (List ℕ)
append batch healthy file = (ok tt, some (content file ++ batch))
append batch makedirs_fails file = (err os_error, file)
append batch open_fails file = (err os_error, file)
append batch (append_fails n r) file = (err os_error, rolled_back file batch n r)

abbrev pub next_effect : List Effect → Effect
next_effect [] = healthy
next_effect (e ∷ es) = e

abbrev pub later_effects : List Effect → List Effect
later_effects [] = []
later_effects (e ∷ es) = es

abbrev join_two : Option (List ℕ) → Option (List ℕ) → Option (List ℕ)
join_two (some b) (some bs) = some (b ++ bs)
join_two _ _ = none

-- `b''.join` of the payloads; `none` is the failed assertion that each of them is there.
unfoldable pub join_payloads : List TaskOutcome → Option (List ℕ)
join_payloads [] = some []
join_payloads (o ∷ os) = join_two o.checkpoint_payload (join_payloads os)

commit : Result (Unit {0}) × Option (List ℕ) → List Effect → Result (Unit {0}) × Disk
commit (r, file) effects = (r, record { stream = file; effects = effects })

unfoldable pub write_batch : Option (List ℕ) → Disk → Result (Unit {0}) × Disk
unfolding commit append
write_batch none d = (err assertion_error, d)
write_batch (some batch) d =
    commit (append batch (next_effect d.effects) d.stream) (later_effects d.effects)

-- `_write_checkpoint_payloads`
unfoldable pub write_checkpoint_payloads : List TaskOutcome → Disk → Result (Unit {0}) × Disk
unfolding write_batch join_payloads
write_checkpoint_payloads [] d = (ok tt, d)
write_checkpoint_payloads (o ∷ os) d = write_batch (join_payloads (o ∷ os)) d

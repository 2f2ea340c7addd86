-- ===== src/Dataflow/Checkpoint/Atomicity.antt =====
-- Lemmas on the appends to tasks.pkl (solution/dflow.py, `_write_checkpoint_payloads`).
use talents_parsl_checkpoint.Prelude.{
  All, sym, ◌∙◌, append-nil, ℕ, ◌≡◌, refl, ap, Option, none, some, List, [], ◌∷◌, ◌++◌, take,
  take-append,
}
use talents_parsl_checkpoint.Dataflow.Errors.{Exn, ok, err}
use talents_parsl_checkpoint.Dataflow.Completion.{TaskOutcome}
use talents_parsl_checkpoint.Dataflow.Checkpoint.{
  restored, reopen_fails, sync_fails, Effect, healthy, makedirs_fails, open_fails, append_fails,
  content, append, later_effects, next_effect, write_checkpoint_payloads, Disk, write_batch,
  join_payloads,
}

-- The effect leaves the file as it was, if it makes the append fail: no rollback fails.
abbrev pub IsRecoverable : Effect → Type 0
IsRecoverable (append_fails n reopen_fails) = ⊥
IsRecoverable (append_fails n sync_fails) = ⊥
IsRecoverable _ = Unit

append-err :
    (batch : List ℕ) (effect : Effect) (file : Option (List ℕ)) (x : Exn)
    → IsRecoverable effect
    → (append batch effect file).0 ≡ err x
    → (append batch effect file).1 ≡ file
unfolding append
append-err batch healthy file x good e = cc
append-err batch makedirs_fails file x good e = refl
append-err batch open_fails file x good e = refl
append-err batch (append_fails n restored) none x good e = refl
append-err batch (append_fails n restored) (some s) x good e =
    ap some (take-append s (take n batch))
append-err batch (append_fails n reopen_fails) file x good e = absurd good
append-err batch (append_fails n sync_fails) file x good e = absurd good

append-ok :
    (batch : List ℕ) (effect : Effect) (file : Option (List ℕ))
    → (append batch effect file).0 ≡ ok tt
    → (append batch effect file).1 ≡ some (content file ++ batch)
unfolding append
append-ok batch healthy file e = refl
append-ok batch makedirs_fails file e = cc
append-ok batch open_fails file e = cc
append-ok batch (append_fails n r) file e = cc

-- A write that returns has appended the batch.
pub write-ok :
    (os : List TaskOutcome) (d : Disk) (b : List ℕ)
    → join_payloads os ≡ some b
    → (write_checkpoint_payloads os d).0 ≡ ok tt
    → content (write_checkpoint_payloads os d).1.stream ≡ content d.stream ++ b
unfolding write_checkpoint_payloads
write-ok [] d b joined e =
    let empty : [] ≡ b = ap content joined in
    sym (ap (λ l. content d.stream ++ l) (sym empty) ∙ append-nil _)
write-ok (o ∷ os) d b joined e = by_batch (join_payloads (o ∷ os)) joined e
  where
    by_batch :
        (batch : Option (List ℕ))
        → batch ≡ some b
        → (write_batch batch d).0 ≡ ok tt
        → content (write_batch batch d).1.stream ≡ content d.stream ++ b
    by_batch none j w = cc
    by_batch (some c) j w =
        ap content (append-ok c (next_effect d.effects) d.stream w)
        ∙ ap (λ l. content d.stream ++ l) (ap content j)

-- A write that raises leaves the file as it was.
pub write-err :
    (os : List TaskOutcome) (d : Disk) (x : Exn)
    → IsRecoverable (next_effect d.effects)
    → (write_checkpoint_payloads os d).0 ≡ err x
    → (write_checkpoint_payloads os d).1.stream ≡ d.stream
unfolding write_checkpoint_payloads
write-err [] d x good e = refl
write-err (o ∷ os) d x good e = by_batch (join_payloads (o ∷ os)) e
  where
    by_batch :
        (batch : Option (List ℕ))
        → (write_batch batch d).0 ≡ err x
        → (write_batch batch d).1.stream ≡ d.stream
    by_batch none w = refl
    by_batch (some c) w = append-err c (next_effect d.effects) d.stream x good w

pub next-IsRecoverable : (es : List Effect) → All IsRecoverable es → IsRecoverable (next_effect es)
next-IsRecoverable [] h = tt
next-IsRecoverable (e ∷ es) h = h.0

later-IsRecoverable :
    (es : List Effect) → All IsRecoverable es → All IsRecoverable (later_effects es)
later-IsRecoverable [] h = tt
later-IsRecoverable (e ∷ es) h = h.1

pub write-effects :
    (os : List TaskOutcome) (d : Disk)
    → All IsRecoverable d.effects
    → All IsRecoverable (write_checkpoint_payloads os d).1.effects
unfolding write_checkpoint_payloads
write-effects [] d good = good
write-effects (o ∷ os) d good = by_batch (join_payloads (o ∷ os))
  where
    by_batch : (batch : Option (List ℕ)) → All IsRecoverable (write_batch batch d).1.effects
    by_batch none = good
    by_batch (some c) = later-IsRecoverable d.effects good

-- ===== src/Jobs/Blocks/History.antt =====
-- Histories of the blocks of an executor (environment/parsl/executors/status_handling.py).

use talents_parsl_checkpoint.Prelude.{
  ℕ, ◌≤◌, ◌==◌, ◌≡◌, refl, sym, ◌∙◌, Bool, Option, none, some, List, [], ◌∷◌, length, arith,
  Bool-cases, inl, inr, ==_iff, count,
}
use talents_parsl_checkpoint.Jobs.Failures.{JobState, failed, scaled_in, Status}
use talents_parsl_checkpoint.Jobs.Blocks.{
  active_blocks, BlockProviderExecutor, launch_block, scale_out_facade, polled, make_status_dict,
  poll_facade, scale_in_facade,
}
use talents_parsl_checkpoint.Jobs.Blocks.Dicts.{find, keys, find-put_other}
use talents_parsl_checkpoint.Jobs.Blocks.Polled.{poll_facade-IsLinked}
use talents_parsl_checkpoint.Jobs.Blocks.Killed.{terminal-inactive}
use talents_parsl_checkpoint.Jobs.Blocks.Linked.{
  IsLinked, IsNewJobs, launched-IsLinked, refused-IsLinked, scale_out_facade-IsLinked,
}
use talents_parsl_checkpoint.Jobs.Blocks.Scaled.{scale_in_facade_total}

-- A call of `scale_out_facade`, of `poll_facade` or of `scale_in_facade`, with what the provider answers.
pub data Scaling : Type 0 where
  scales_out : List (Option ℕ) → Scaling
  polls : List JobState → Scaling
  scales_in : ℕ → (List ℕ → List Bool) → Scaling

-- The executor after a call, which is as before if it raises.
abbrev pub after_poll : BlockProviderExecutor → Option BlockProviderExecutor → BlockProviderExecutor
after_poll s none = s
after_poll s (some s') = s'

abbrev pub after_scale_in :
    BlockProviderExecutor → Option (List ℕ × BlockProviderExecutor) → BlockProviderExecutor
after_scale_in s none = s
after_scale_in s (some (ids, s')) = s'

unfoldable pub perform : Scaling → BlockProviderExecutor → BlockProviderExecutor
perform (scales_out jobs) s = (scale_out_facade jobs s).1
perform (polls states) s = after_poll s (poll_facade states s)
perform (scales_in n cancel) s = after_scale_in s (scale_in_facade n cancel s)

unfoldable pub perform_all : List Scaling → BlockProviderExecutor → BlockProviderExecutor
perform_all [] s = s
perform_all (x ∷ xs) s = perform_all xs (perform x s)

-- What is relied on of the provider: the job IDs that it gives are new, and it answers for each job that
-- it is to cancel.
unfoldable pub IsKeptBy : Scaling → BlockProviderExecutor → Type 0
IsKeptBy (scales_out jobs) s = IsNewJobs jobs s
IsKeptBy (polls states) s = Unit
IsKeptBy (scales_in n cancel) s = (js : List ℕ) → length (cancel js) ≡ length js

unfoldable pub IsReliable : List Scaling → BlockProviderExecutor → Type 0
unfolding perform
IsReliable [] s = Unit
IsReliable (x ∷ xs) s = IsKeptBy x s × IsReliable xs (perform x s)

after_poll-IsLinked :
    (states : List JobState) (s : BlockProviderExecutor) (o : Option BlockProviderExecutor)
    → poll_facade states s ≡ o
    → IsLinked s
    → IsLinked (after_poll s o)
after_poll-IsLinked states s none e h = h
after_poll-IsLinked states s (some s') e h = poll_facade-IsLinked states s s' e h

pub perform-IsLinked :
    (x : Scaling) (s : BlockProviderExecutor) → IsKeptBy x s → IsLinked s → IsLinked (perform x s)
unfolding perform IsKeptBy
perform-IsLinked (scales_out jobs) s new h = scale_out_facade-IsLinked jobs s new h
perform-IsLinked (polls states) s new h = after_poll-IsLinked states s (poll_facade states s) refl h
perform-IsLinked (scales_in n cancel) s answers h =
    let (ids, s', e, x) = scale_in_facade_total n cancel s h answers in rw e x.linked

-- For any sequence of calls, whatever the provider answers, as long as the job IDs are new and each job
-- that is to be cancelled has an answer: a block that is not terminal in the latest status has a job, which
-- leads back to it, so that it can be scaled in. What the code has made up is terminal and is the latest
-- status of its block. The block IDs to come are unused.
pub perform_all-IsLinked :
    (xs : List Scaling) (s : BlockProviderExecutor)
    → IsReliable xs s
    → IsLinked s
    → IsLinked (perform_all xs s)
unfolding perform_all IsReliable
perform_all-IsLinked [] s reliable h = h
perform_all-IsLinked (x ∷ xs) s (kept, rest) h =
    perform_all-IsLinked xs (perform x s) rest (perform-IsLinked x s kept h)

-- The block b has been scaled in.
abbrev pub IsGone : ℕ → BlockProviderExecutor → Type 0
IsGone b s = find b s.simulated_status ≡ some scaled_in

launch_block-IsGone :
    (b : ℕ) (job : Option ℕ) (s : BlockProviderExecutor)
    → IsLinked s
    → IsGone b s
    → IsGone b (launch_block job s).1
unfolding launch_block
launch_block-IsGone b (some j) s h gone = gone
launch_block-IsGone b none s h gone = elim (Bool-cases (b == s.next_block)) [
  | inr other ↦ find-put_other s.next_block b failed s.simulated_status other ∙ gone
  | inl same ↦
      let le : s.next_block ≤ b = omega (arith, (==_iff b s.next_block).0 same) in
      let clash : some scaled_in ≡ none = sym gone ∙ h.fresh_simulated b le in cc
]

scale_out_facade-IsGone :
    (b : ℕ) (jobs : List (Option ℕ)) (s : BlockProviderExecutor)
    → IsNewJobs jobs s
    → IsLinked s
    → IsGone b s
    → IsGone b (scale_out_facade jobs s).1
unfolding scale_out_facade IsNewJobs
scale_out_facade-IsGone b [] s new h gone = gone
scale_out_facade-IsGone b (none ∷ jobs) s new h gone =
    scale_out_facade-IsGone b jobs (launch_block none s).1 new (refused-IsLinked s h)
      (launch_block-IsGone b none s h gone)
scale_out_facade-IsGone b (some j ∷ jobs) s (unused, new) h gone =
    scale_out_facade-IsGone b jobs (launch_block (some j) s).1 new (launched-IsLinked j s unused h)
      (launch_block-IsGone b (some j) s h gone)

after_poll-IsGone :
    (b : ℕ) (s : BlockProviderExecutor) (o : Option Status)
    → IsGone b s
    → IsGone b (after_poll s (polled s o))
after_poll-IsGone b s none gone = gone
after_poll-IsGone b s (some r) gone = gone

perform-IsGone :
    (b : ℕ) (x : Scaling) (s : BlockProviderExecutor)
    → IsKeptBy x s
    → IsLinked s
    → IsGone b s
    → IsGone b (perform x s)
unfolding perform IsKeptBy poll_facade
perform-IsGone b (scales_out jobs) s new h gone = scale_out_facade-IsGone b jobs s new h gone
perform-IsGone b (polls states) s new h gone =
    after_poll-IsGone b s (make_status_dict (keys s.blocks_to_job_id) states) gone
perform-IsGone b (scales_in n cancel) s answers h gone =
    let (ids, s', e, x) = scale_in_facade_total n cancel s h answers in rw e (x.kept b gone)

perform_all-IsGone :
    (b : ℕ) (xs : List Scaling) (s : BlockProviderExecutor)
    → IsReliable xs s
    → IsLinked s
    → IsGone b s
    → IsGone b (perform_all xs s)
unfolding perform_all IsReliable
perform_all-IsGone b [] s reliable h gone = gone
perform_all-IsGone b (x ∷ xs) s (kept, rest) h gone =
    perform_all-IsGone b xs (perform x s) rest (perform-IsLinked x s kept h)
      (perform-IsGone b x s kept h gone)

-- Under the same conditions: a block that has been scaled in stays so in every later status, also when the
-- provider reports something else of its job, and it is not among the active blocks of that status, from
-- which those to scale in are chosen.
pub scaled_in_stays :
    (b : ℕ) (xs : List Scaling) (s : BlockProviderExecutor)
    → IsReliable xs s
    → IsLinked s
    → IsGone b s
    → (find b (perform_all xs s).status ≡ some scaled_in)
      × (count b (active_blocks (perform_all xs s).status) ≡ 0)
scaled_in_stays b xs s reliable h gone =
    let linked = perform_all-IsLinked xs s reliable h in
    let now = linked.sticky b scaled_in (perform_all-IsGone b xs s reliable h gone) in
    (now, terminal-inactive b scaled_in (perform_all xs s).status linked.once_status now refl)

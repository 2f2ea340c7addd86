-- ===== src/Jobs/Blocks/Lives.antt =====
-- The life of a block (environment/parsl/executors/status_handling.py): not started, with a job, or ended by
-- the code.
use talents_parsl_checkpoint.Prelude.{
  ℕ, ◌≤◌, ◌<◌, ◌==◌, ◌≡◌, refl, sym, ap, ◌∙◌, Bool, true, false, Option, none, some, List, [], ◌∷◌,
  count, arith, Bool-cases, inl, inr, ==_iff,
}
use talents_parsl_checkpoint.Jobs.Failures.{JobState, failed, scaled_in, Status}
use talents_parsl_checkpoint.Jobs.Blocks.{
  is_terminal, BlockProviderExecutor, launch_block, scale_out_facade, polled, make_status_dict,
  poll_facade,
}
use talents_parsl_checkpoint.Jobs.Blocks.Dicts.{
  find, keys, find-put, find-put_other, find-none, find-cases,
}
use talents_parsl_checkpoint.Jobs.Blocks.Linked.{
  IsLinked, IsNewJobs, launched-IsLinked, refused-IsLinked, some_eq,
}
use talents_parsl_checkpoint.Jobs.Blocks.Killed.{active-find}
use talents_parsl_checkpoint.Jobs.Blocks.Scaled.{IsScaledIn, scale_in_facade_total}
use talents_parsl_checkpoint.Jobs.Blocks.History.{
  Scaling, scales_out, polls, scales_in, after_poll, perform, perform_all, IsKeptBy, IsReliable,
  perform-IsLinked,
}

pub data Life : Type 0 where
  unborn : Life
  started : ℕ → Life
  ended : JobState → Life

abbrev pub life_of : Option JobState → Option ℕ → Life
life_of (some x) job = ended x
life_of none (some j) = started j
life_of none none = unborn

abbrev pub life : ℕ → BlockProviderExecutor → Life
life b s = life_of (find b s.simulated_status) (find b s.blocks_to_job_id)

-- A block gets a job once, or is refused; a block with a job keeps it until it is scaled in; and what has
-- ended stays as it is.
pub data Advances : Life → Life → Type 0 where
  stays : (l : Life) → Advances l l
  starts : (j : ℕ) → Advances unborn (started j)
  is_refused : Advances unborn (ended failed)
  retires : (j : ℕ) → Advances (started j) (ended scaled_in)
  starts_and_retires : Advances unborn (ended scaled_in)

advance_twice : {k l m : Life} → Advances k l → Advances l m → Advances k m
advance_twice (stays _) q = q
advance_twice p (stays _) = p
advance_twice (starts j) (retires _) = starts_and_retires

same_life :
    (b : ℕ) (s s' : BlockProviderExecutor)
    → find b s'.simulated_status ≡ find b s.simulated_status
    → find b s'.blocks_to_job_id ≡ find b s.blocks_to_job_id
    → Advances (life b s) (life b s')
same_life b s s' made job = rw (made, job) (stays (life b s))

launch_block-Advances :
    (b : ℕ) (job : Option ℕ) (s : BlockProviderExecutor)
    → IsLinked s
    → Advances (life b s) (life b (launch_block job s).1)
unfolding launch_block
launch_block-Advances b (some j) s h = elim (Bool-cases (b == s.next_block)) [
  | inr other ↦
      same_life b s (launch_block (some j) s).1 refl
        (find-put_other s.next_block b j s.blocks_to_job_id other)
  | inl same ↦
      let this = (==_iff b s.next_block).0 same in
      let le : s.next_block ≤ b = omega (arith, this) in
      rw
        (
          h.fresh_simulated b le,
          h.fresh_block b le,
          this,
          find-put s.next_block j s.blocks_to_job_id,
        )
        (starts j)
]
launch_block-Advances b none s h = elim (Bool-cases (b == s.next_block)) [
  | inr other ↦
      same_life b s (launch_block none s).1
        (find-put_other s.next_block b failed s.simulated_status other) refl
  | inl same ↦
      let this = (==_iff b s.next_block).0 same in
      let le : s.next_block ≤ b = omega (arith, this) in
      rw
        (
          h.fresh_simulated b le,
          h.fresh_block b le,
          this,
          find-put s.next_block failed s.simulated_status,
        )
        is_refused
]

scale_out_facade-Advances :
    (b : ℕ) (jobs : List (Option ℕ)) (s : BlockProviderExecutor)
    → IsNewJobs jobs s
    → IsLinked s
    → Advances (life b s) (life b (scale_out_facade jobs s).1)
unfolding scale_out_facade IsNewJobs
scale_out_facade-Advances b [] s new h = stays (life b s)
scale_out_facade-Advances b (none ∷ jobs) s new h =
    advance_twice (launch_block-Advances b none s h)
      (scale_out_facade-Advances b jobs (launch_block none s).1 new (refused-IsLinked s h))
scale_out_facade-Advances b (some j ∷ jobs) s (unused, new) h =
    advance_twice (launch_block-Advances b (some j) s h) (
      scale_out_facade-Advances b jobs (launch_block (some j) s).1 new
        (launched-IsLinked j s unused h))

poll-Advances :
    (b : ℕ) (s : BlockProviderExecutor) (o : Option Status)
    → Advances (life b s) (life b (after_poll s (polled s o)))
poll-Advances b s none = stays (life b s)
poll-Advances b s (some r) = stays (life b s)

-- Nothing has been made up for a block whose latest status is not terminal.
live-none :
    (b : ℕ) (x : JobState) (s : BlockProviderExecutor)
    → IsLinked s
    → find b s.status ≡ some x
    → is_terminal x ≡ false
    → find b s.simulated_status ≡ none
live-none b x s h there live = elim (find-cases b s.simulated_status) [
  | inl absent ↦ find-none b s.simulated_status absent
  | inr (y, made) ↦
      let same : some y ≡ some x = sym (h.sticky b y made) ∙ there in
      let ends : is_terminal y ≡ true = h.terminal b y made in
      let clash : true ≡ false = sym ends ∙ ap is_terminal (some_eq same) ∙ live in cc
]

scaled_in-Advances :
    (b n : ℕ) (cancel : List ℕ → List Bool) (s s' : BlockProviderExecutor) (ids : List ℕ)
    → IsLinked s
    → IsScaledIn n cancel s ids s'
    → Advances (life b s) (life b s')
scaled_in-Advances b n cancel s s' ids h x = elim (Bool-cases (count b ids == 0)) [
  | inl spared ↦
      same_life b s s' (x.undecided b ((==_iff (count b ids) 0).0 spared)) (ap (find b) x.jobs)
  | inr chosen ↦
      let more : 0 < count b ids = ground (arith, chosen) in
      let (y, there, live) = active-find b s.status h.once_status (x.were_active b more) in
      let (j, job) = h.active b y there live in
      rw (live-none b y s h there live, job, x.marked b more) (retires j)
]

perform-Advances :
    (b : ℕ) (x : Scaling) (s : BlockProviderExecutor)
    → IsKeptBy x s
    → IsLinked s
    → Advances (life b s) (life b (perform x s))
unfolding perform IsKeptBy poll_facade
perform-Advances b (scales_out jobs) s new h = scale_out_facade-Advances b jobs s new h
perform-Advances b (polls states) s new h =
    poll-Advances b s (make_status_dict (keys s.blocks_to_job_id) states)
perform-Advances b (scales_in n cancel) s answers h =
    let (ids, s', e, x) = scale_in_facade_total n cancel s h answers in
    rw e (scaled_in-Advances b n cancel s s' ids h x)

-- For any sequence of calls, as long as the job IDs are new and each job that is to be cancelled has an
-- answer, the life of each block is one of the simple machine: it gets a job or is refused, it keeps the
-- job, it may be scaled in, and it never goes back.
pub perform_all-Advances :
    (b : ℕ) (xs : List Scaling) (s : BlockProviderExecutor)
    → IsReliable xs s
    → IsLinked s
    → Advances (life b s) (life b (perform_all xs s))
unfolding perform_all IsReliable
perform_all-Advances b [] s reliable h = stays (life b s)
perform_all-Advances b (x ∷ xs) s (kept, rest) h =
    advance_twice (perform-Advances b x s kept h)
      (perform_all-Advances b xs (perform x s) rest (perform-IsLinked x s kept h))

-- ===== src/Jobs/Blocks/Scaled.antt =====
-- What scaling in does to the blocks (environment/parsl/executors/status_handling.py).
use talents_parsl_checkpoint.Prelude.{
  All, Bool, true, take, ℕ, ◌≤◌, ◌<◌, ◌==◌, ◌≡◌, inl, inr, refl, ap, sym, ◌∙◌, none, some, List, [],
  ◌∷◌, length, count, leb, leb→le, arith, Bool-cases, ==_iff,
}
use talents_parsl_checkpoint.Jobs.Failures.{scaled_in}
use talents_parsl_checkpoint.Jobs.Blocks.{
  BlockProviderExecutor, active_blocks, scale_in, mark_scaled_in, scale_in_facade,
}
use talents_parsl_checkpoint.Jobs.Blocks.Dicts.{find, put, find-put, find-put_other}
use talents_parsl_checkpoint.Jobs.Blocks.Linked.{IsLinked, made_up-IsLinked}
use talents_parsl_checkpoint.Jobs.Blocks.Killed.{
  count-take, length-take_le, active-find, jobs_of, Pairs-out, Pairs-back, kill,
}

-- The blocks ids have been scaled in: they were active, they are marked, and the others are as they were.
pub record IsScaledIn (n : ℕ) (cancel : List ℕ → List Bool) (s : BlockProviderExecutor)
    (ids : List ℕ) (s' : BlockProviderExecutor) : Type 0 where
  pub bounded : length ids ≤ n
  pub confirmed :
      ((js : List ℕ) → All (λ f. f ≡ true) (cancel js)) → ids ≡ take n (active_blocks s.status)
  pub were_active : (b : ℕ) → 0 < count b ids → 0 < count b (active_blocks s.status)
  pub marked : (b : ℕ) → 0 < count b ids → find b s'.simulated_status ≡ some scaled_in
  pub spared : (b : ℕ) → count b ids ≡ 0 → find b s'.status ≡ find b s.status
  pub undecided : (b : ℕ) → count b ids ≡ 0 → find b s'.simulated_status ≡ find b s.simulated_status
  pub jobs : s'.blocks_to_job_id ≡ s.blocks_to_job_id
  pub kept :
      (b : ℕ)
      → find b s.simulated_status ≡ some scaled_in
      → find b s'.simulated_status ≡ some scaled_in
  pub linked : IsLinked s'

record IsMarked (s : BlockProviderExecutor) (ids : List ℕ) (s' : BlockProviderExecutor)
    : Type 0 where
  marks : (b : ℕ) → 0 < count b ids → find b s'.simulated_status ≡ some scaled_in
  keeps :
      (b : ℕ)
      → find b s.simulated_status ≡ some scaled_in
      → find b s'.simulated_status ≡ some scaled_in
  spares : (b : ℕ) → count b ids ≡ 0 → find b s'.status ≡ find b s.status
  undecides : (b : ℕ) → count b ids ≡ 0 → find b s'.simulated_status ≡ find b s.simulated_status
  same_jobs : s'.blocks_to_job_id ≡ s.blocks_to_job_id
  links : IsLinked s'

mark_scaled_in-IsMarked :
    (ids : List ℕ) (s : BlockProviderExecutor)
    → ((b : ℕ) → 0 < count b ids → b < s.next_block)
    → IsLinked s
    → IsMarked s ids (mark_scaled_in ids s)
unfolding mark_scaled_in
mark_scaled_in-IsMarked [] s less h = record {
  marks = λ b more. absurd (omega (arith, more));
  keeps = λ b e. e;
  spares = λ b e. refl;
  undecides = λ b e. refl;
  same_jobs = refl;
  links = h;
}
mark_scaled_in-IsMarked (c ∷ ids) s less h =
    let one = record s {
      status = put c scaled_in s.status;
      simulated_status = put c scaled_in s.simulated_status;
    } in
    let linked =
      made_up-IsLinked c s.next_block scaled_in s refl (less c (ground arith)) (omega arith) h in
    let rest = mark_scaled_in-IsMarked ids one (λ b more. less b (omega (arith, more))) linked in
    record {
      marks = λ b more. elim (Bool-cases (b == c)) [
        | inl same ↦ rest.keeps b (
            ap (λ k. find k (put c scaled_in s.simulated_status)) ((==_iff b c).0 same)
            ∙ find-put c scaled_in s.simulated_status)
        | inr other ↦ rest.marks b (ground (arith, more, other))
      ];
      keeps = λ b e. elim (Bool-cases (b == c)) [
        | inl same ↦ rest.keeps b (
            ap (λ k. find k (put c scaled_in s.simulated_status)) ((==_iff b c).0 same)
            ∙ find-put c scaled_in s.simulated_status)
        | inr other ↦ rest.keeps b (find-put_other c b scaled_in s.simulated_status other ∙ e)
      ];
      spares = λ b none_of.
          rest.spares b (omega (arith, none_of))
          ∙ find-put_other c b scaled_in s.status (ground (arith, none_of));
      undecides = λ b none_of.
          rest.undecides b (omega (arith, none_of))
          ∙ find-put_other c b scaled_in s.simulated_status (ground (arith, none_of));
      same_jobs = rest.same_jobs;
      links = rest.links;
    }

known-lt :
    (s : BlockProviderExecutor) (b j : ℕ)
    → IsLinked s
    → find b s.blocks_to_job_id ≡ some j
    → b < s.next_block
known-lt s b j h there = elim (Bool-cases (leb s.next_block b)) [
  | inr less ↦ ground (arith, less)
  | inl le ↦ let clash : some j ≡ none = sym there ∙ h.fresh_block b (leb→le _ _ le) in cc
]

killed_active :
    (n : ℕ) (s : BlockProviderExecutor)
    → IsLinked s
    → (b : ℕ) → 0 < count b (take n (active_blocks s.status))
    → (j : ℕ) × (find b s.blocks_to_job_id ≡ some j)
killed_active n s h b more =
    let (x, there, live) =
      active-find b s.status h.once_status
        (omega (arith, more, count-take b n (active_blocks s.status))) in
    h.active b x there live

-- For every number n of blocks and every answer of the provider that has a value for each job: scaling in
-- returns. At most n blocks are scaled in, all of them active before, and the first n of those if each
-- job is confirmed. They are marked as such, and neither another status nor the jobs of the blocks
-- change.
pub scale_in_facade_total :
    (n : ℕ) (cancel : List ℕ → List Bool) (s : BlockProviderExecutor)
    → IsLinked s
    → ((js : List ℕ) → length (cancel js) ≡ length js)
    → (ids : List ℕ) × (s' : BlockProviderExecutor) × (scale_in_facade n cancel s ≡ some (ids, s'))
      × IsScaledIn n cancel s ids s'
unfolding scale_in_facade scale_in
scale_in_facade_total n cancel s h answers =
    let active = active_blocks s.status in
    let (js, pairs) = jobs_of s (take n active) h (killed_active n s h) in
    let x = kill s (take n active) js (cancel js) pairs (answers js) in
    let m =
      mark_scaled_in-IsMarked x.ids s
        (λ b more.
          let (j, there) = killed_active n s h b (omega (arith, more, x.among b)) in
          known-lt s b j h there)
        h in
    (
      x.ids,
      mark_scaled_in x.ids s,
      rw (Pairs-out s (take n active) js pairs, x.filters, Pairs-back s x.ids x.killed x.pairs)
          refl,
      record {
        confirmed = λ all. x.whole (all js);
        bounded = omega (arith, x.fewer, length-take_le n active);
        were_active = λ b more. omega (arith, more, x.among b, count-take b n active);
        marked = m.marks;
        spared = m.spares;
        undecided = m.undecides;
        jobs = m.same_jobs;
        kept = m.keeps;
        linked = m.links;
      },
    )

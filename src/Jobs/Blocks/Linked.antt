-- ===== src/Jobs/Blocks/Linked.antt =====
-- The blocks, the jobs and the statuses belong together (environment/parsl/executors/status_handling.py).

use talents_parsl_checkpoint.Prelude.{
  ℕ, ◌+◌, ◌≤◌, ◌<◌, ◌==◌, ◌≡◌, ◌⊎◌, inl, inr, refl, ap, sym, ◌∙◌, true, false, Option, none, some,
  List, [], ◌∷◌, arith, Bool-cases, ==_iff,
}
use talents_parsl_checkpoint.Jobs.Failures.{JobState, pending, failed}
use talents_parsl_checkpoint.Jobs.Blocks.{
  is_terminal, BlockProviderExecutor, launch_block, scale_out_facade,
}
use talents_parsl_checkpoint.Jobs.Blocks.Dicts.{
  find, put, IsDict, find-put, find-put_other, put-IsDict,
}

-- A block that is not terminal in the latest status has a job, and the job leads back to it. What the code
-- has made up is terminal, and is the latest status of its block. The IDs to come are unused.
pub record IsLinked (s : BlockProviderExecutor) : Type 0 where
  pub active :
      (b : ℕ) (x : JobState)
      → find b s.status ≡ some x
      → is_terminal x ≡ false
      → (j : ℕ) × (find b s.blocks_to_job_id ≡ some j)
  pub back : (b j : ℕ) → find b s.blocks_to_job_id ≡ some j → find j s.job_ids_to_block ≡ some b
  pub sticky :
      (b : ℕ) (x : JobState) → find b s.simulated_status ≡ some x → find b s.status ≡ some x
  pub terminal : (b : ℕ) (x : JobState) → find b s.simulated_status ≡ some x → is_terminal x ≡ true
  pub once : IsDict s.simulated_status
  pub once_status : IsDict s.status
  pub fresh_status : (b : ℕ) → s.next_block ≤ b → find b s.status ≡ none
  pub fresh_simulated : (b : ℕ) → s.next_block ≤ b → find b s.simulated_status ≡ none
  pub fresh_block : (b : ℕ) → s.next_block ≤ b → find b s.blocks_to_job_id ≡ none

-- What a dict says after `d[k] = v`, by whether the key is k.
module _ {ℓ} {A : Type ℓ} where
  pub put-cases :
      (k : ℕ) (v : A) (d : List (ℕ × A)) (l : ℕ) (x : A)
      → find l (put k v d) ≡ some x
      → ((l ≡ k) × (x ≡ v)) ⊎ (((l == k) ≡ false) × (find l d ≡ some x))
  put-cases k v d l x e = elim (Bool-cases (l == k)) [
    | inl same ↦
        let this = (==_iff l k).0 same in
        inl (this, some_eq x v (sym e ∙ ap (λ m. find m (put k v d)) this ∙ find-put k v d))
    | inr other ↦ inr (other, sym (find-put_other k l v d other) ∙ e)
  ]
    where
      some_eq : (y z : A) → some y ≡ some z → y ≡ z
      some_eq y z e = cc

  pub put-fresh :
      (k : ℕ) (v : A) (d : List (ℕ × A)) (n l : ℕ)
      → ((m : ℕ) → k ≤ m → find m d ≡ none)
      → k + 1 ≤ l
      → find l (put k v d) ≡ none
  put-fresh k v d n l h less = find-put_other k l v d (ground (arith, less)) ∙ h l (omega arith)

pub launched-IsLinked :
    (j : ℕ) (s : BlockProviderExecutor)
    → find j s.job_ids_to_block ≡ none
    → IsLinked s
    → IsLinked (launch_block (some j) s).1
unfolding launch_block
launched-IsLinked j s unused h =
    let n = s.next_block in
    record {
      active = λ b x e live. elim (put-cases n pending s.status b x e) [
        | inl (this, is) ↦ (j, ap (λ m. find m (put n j s.blocks_to_job_id)) this ∙ find-put n j _)
        | inr (other, was) ↦
            let (i, there) = h.active b x was live in
            (i, find-put_other n b j s.blocks_to_job_id other ∙ there)
      ];
      back = λ b i e. elim (put-cases n j s.blocks_to_job_id b i e) [
        | inl (this, is) ↦
            ap (λ m. find m (put j n s.job_ids_to_block)) is
            ∙ find-put j n s.job_ids_to_block
            ∙ ap (λ m. some m) (sym this)
        | inr (other, was) ↦
            let there = h.back b i was in
            find-put_other j i n s.job_ids_to_block (distinct i b there) ∙ there
      ];
      sticky = λ b x e. find-put_other n b pending s.status (known b x e) ∙ h.sticky b x e;
      terminal = h.terminal;
      once = h.once;
      once_status = put-IsDict n pending s.status h.once_status;
      fresh_status = λ b. put-fresh n pending s.status n b h.fresh_status;
      fresh_simulated = λ b less. h.fresh_simulated b (omega arith);
      fresh_block = λ b. put-fresh n j s.blocks_to_job_id n b h.fresh_block;
    }
  where
    distinct : (i b : ℕ) → find i s.job_ids_to_block ≡ some b → (i == j) ≡ false
    distinct i b there = elim (Bool-cases (i == j)) [
      | inr other ↦ other
      | inl same ↦
          let clash : some b ≡ none =
            sym there ∙ ap (λ m. find m s.job_ids_to_block) ((==_iff i j).0 same) ∙ unused in
          cc
    ]

    known :
        (b : ℕ) (x : JobState) → find b s.simulated_status ≡ some x → (b == s.next_block) ≡ false
    known b x e = elim (Bool-cases (b == s.next_block)) [
      | inr other ↦ other
      | inl same ↦
          let le : s.next_block ≤ b = omega (arith, (==_iff b s.next_block).0 same) in
          let clash : some x ≡ none = sym e ∙ h.fresh_simulated b le in cc
    ]

-- The code makes up a terminal state for a block.
pub made_up-IsLinked :
    (b n : ℕ) (x : JobState) (s : BlockProviderExecutor)
    → is_terminal x ≡ true
    → b < n
    → s.next_block ≤ n
    → IsLinked s
    → IsLinked (record s {
      next_block = n;
      simulated_status = put b x s.simulated_status;
      status = put b x s.status;
    })
made_up-IsLinked b n x s ends less more h = record {
  active = λ c y e live. elim (put-cases b x s.status c y e) [
    | inl (this, is) ↦ let clash : false ≡ true = sym live ∙ ap is_terminal is ∙ ends in cc
    | inr (other, was) ↦ h.active c y was live
  ];
  back = h.back;
  sticky = λ c y e. elim (put-cases b x s.simulated_status c y e) [
    | inl (this, is) ↦
        ap (λ m. find m (put b x s.status)) this ∙ find-put b x s.status ∙ ap (λ z. some z) (sym is)
    | inr (other, was) ↦ find-put_other b c x s.status other ∙ h.sticky c y was
  ];
  terminal = λ c y e. elim (put-cases b x s.simulated_status c y e) [
    | inl (this, is) ↦ ap is_terminal is ∙ ends
    | inr (other, was) ↦ h.terminal c y was
  ];
  once = put-IsDict b x s.simulated_status h.once;
  once_status = put-IsDict b x s.status h.once_status;
  fresh_status = λ c le.
      find-put_other b c x s.status (ground (arith, le, less)) ∙ h.fresh_status c (omega arith);
  fresh_simulated = λ c le.
      find-put_other b c x s.simulated_status (ground (arith, le, less))
      ∙ h.fresh_simulated c (omega arith);
  fresh_block = λ c le. h.fresh_block c (omega arith);
}

pub refused-IsLinked : (s : BlockProviderExecutor) → IsLinked s → IsLinked (launch_block none s).1
unfolding launch_block
refused-IsLinked s h =
    made_up-IsLinked s.next_block (s.next_block + 1) failed s refl (omega arith) (omega arith) h

-- The job IDs that the provider gives are new.
unfoldable pub IsNewJobs : List (Option ℕ) → BlockProviderExecutor → Type 0
IsNewJobs [] s = Unit
IsNewJobs (none ∷ jobs) s = IsNewJobs jobs (launch_block none s).1
IsNewJobs (some j ∷ jobs) s =
    (find j s.job_ids_to_block ≡ none) × IsNewJobs jobs (launch_block (some j) s).1

pub scale_out_facade-IsLinked :
    (jobs : List (Option ℕ)) (s : BlockProviderExecutor)
    → IsNewJobs jobs s
    → IsLinked s
    → IsLinked (scale_out_facade jobs s).1
unfolding scale_out_facade IsNewJobs
scale_out_facade-IsLinked [] s new h = h
scale_out_facade-IsLinked (none ∷ jobs) s new h =
    scale_out_facade-IsLinked jobs (launch_block none s).1 new (refused-IsLinked s h)
scale_out_facade-IsLinked (some j ∷ jobs) s (unused, new) h =
    scale_out_facade-IsLinked jobs (launch_block (some j) s).1 new (launched-IsLinked j s unused h)

pub some_eq {ℓ} : {A : Type ℓ} {x y : A} → some x ≡ some y → x ≡ y
some_eq e = cc

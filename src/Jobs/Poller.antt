-- ===== src/Jobs/Poller.antt =====
-- environment/parsl/jobs/job_status_poller.py: what `JobStatusPoller.close` does to one executor.
use talents_parsl_checkpoint.Prelude.{
  All, ℕ, zero, suc, ◌≤◌, ◌==◌, ◌≡◌, refl, sym, ap, ◌∙◌, Bool, true, false, Option, some, List, [],
  ◌∷◌, take, length, count, arith, Bool-cases, inl, inr, ==_iff,
}
use talents_parsl_checkpoint.Jobs.Failures.{scaled_in, Status}
use talents_parsl_checkpoint.Jobs.Blocks.{
  BlockProviderExecutor, active_blocks, scale_in_facade, ◌>>=◌,
}
use talents_parsl_checkpoint.Jobs.Blocks.Linked.{IsLinked}
use talents_parsl_checkpoint.Jobs.Blocks.Killed.{active-find, find-active, terminal-inactive}
use talents_parsl_checkpoint.Jobs.Blocks.Scaled.{IsScaledIn, scale_in_facade_total}

-- An executor in a bad state is left alone; all the blocks of another are scaled in.
unfoldable pub close :
    (bad_state : Bool) → (List ℕ → List Bool) → BlockProviderExecutor → Option BlockProviderExecutor
close true cancel s = some s
close false cancel s = do scaled ← scale_in_facade (length s.status) cancel s; some scaled.1

length-active_blocks : (d : Status) → length (active_blocks d) ≤ length d
unfolding active_blocks
length-active_blocks [] = omega arith
length-active_blocks ((b, x) ∷ d) = ground (arith, length-active_blocks d)

take_all : (n : ℕ) (xs : List ℕ) → length xs ≤ n → take n xs ≡ xs
take_all zero [] less = refl
take_all zero (x ∷ xs) less = absurd (omega (arith, less))
take_all (suc n) [] less = refl
take_all (suc n) (x ∷ xs) less = ap (λ l. x ∷ l) (take_all n xs (omega (arith, less)))

no_member : (xs : List ℕ) → ((b : ℕ) → count b xs ≡ 0) → xs ≡ []
no_member [] h = refl
no_member (x ∷ xs) h = absurd (ground (arith, h x))

-- After a confirmed scale-in of all the active blocks, none is active.
module _ (n : ℕ) (cancel : List ℕ → List Bool) (s s' : BlockProviderExecutor) (ids : List ℕ)
    (h : IsLinked s) (x : IsScaledIn n cancel s ids s') (all : ids ≡ active_blocks s.status) where
  not_active : (b : ℕ) → count b (active_blocks s'.status) ≡ 0
  not_active b = elim (Bool-cases (count b ids == 0)) [
    | inr chosen ↦
        terminal-inactive b scaled_in s'.status x.linked.once_status
          (x.linked.sticky b scaled_in (x.marked b (ground (arith, chosen)))) refl
    | inl spared ↦ elim (Bool-cases (count b (active_blocks s'.status) == 0)) [
      | inl gone ↦ (==_iff _ 0).0 gone
      | inr more ↦
          let (y, there, live) =
            active-find b s'.status x.linked.once_status (ground (arith, more)) in
          let same = x.spared b ((==_iff _ 0).0 spared) in
          let was = find-active b y s.status (sym same ∙ there) live in
          absurd (omega (arith, was, (==_iff _ 0).0 spared, ap (count b) all))
    ]
  ]

-- If the provider confirms the end of each job that it is to cancel: closing an executor that is not in a
-- bad state returns, and no block of it is active after it.
pub close_total :
    (cancel : List ℕ → List Bool) (s : BlockProviderExecutor)
    → IsLinked s
    → ((js : List ℕ) → length (cancel js) ≡ length js)
    → ((js : List ℕ) → All (λ f. f ≡ true) (cancel js))
    → (s' : BlockProviderExecutor) × (close false cancel s ≡ some s')
      × (active_blocks s'.status ≡ [])
unfolding close
close_total cancel s h answers confirms =
    let n = length s.status in
    let (ids, s', e, x) = scale_in_facade_total n cancel s h answers in
    let all =
      x.confirmed confirms ∙ take_all n (active_blocks s.status) (length-active_blocks s.status) in
    (s', rw e refl, no_member (active_blocks s'.status) (not_active n cancel s s' ids h x all))

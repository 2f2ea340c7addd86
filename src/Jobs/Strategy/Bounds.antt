-- ===== src/Jobs/Strategy/Bounds.antt =====
-- Lemmas on the provider's limits (environment/parsl/jobs/strategy.py).
use talents_parsl_checkpoint.Prelude.{ℕ, ◌+◌, ◌≤◌, All, arith, ltb, Bool-cases, inl, inr, ◌==◌}
use talents_parsl_checkpoint.Jobs.Strategy.{
  Provider, StrategyType, simple, htex, Command, scale_out, scale_in, scale_in_idle, ExecutorState,
  Reading, when_idle, when_overloaded, when_unslotted, when_spacious, when_busy, adjust,
  is_overloaded, active_slots,
}

-- Carried out in full, the command leaves at most `max_blocks` or at least `min_blocks` active.
unfoldable pub IsWithin : Provider → ℕ → Command → Type 0
IsWithin p blocks (scale_out n) = blocks + n ≤ p.max_blocks
IsWithin p blocks (scale_in n) = p.min_blocks + n ≤ blocks
IsWithin p blocks (scale_in_idle n) = p.min_blocks + n ≤ blocks

module _ (p : Provider) (max_idletime : ℕ) where
  when_idle-IsWithin :
      (r : Reading) (s : ExecutorState)
      → All (IsWithin p r.active_blocks) (when_idle p max_idletime r s).0
  unfolding when_idle IsWithin
  when_idle-IsWithin r s = ground arith

  when_overloaded-IsWithin :
      (r : Reading) → All (IsWithin p r.active_blocks) (when_overloaded p max_idletime r)
  unfolding when_overloaded IsWithin
  when_overloaded-IsWithin r = ground arith

  when_unslotted-IsWithin :
      (r : Reading) → All (IsWithin p r.active_blocks) (when_unslotted p max_idletime r)
  unfolding when_unslotted IsWithin
  when_unslotted-IsWithin r = ground arith

  when_spacious-IsWithin :
      (kind : StrategyType) (r : Reading)
      → All (IsWithin p r.active_blocks) (when_spacious p max_idletime kind r)
  unfolding when_spacious IsWithin
  when_spacious-IsWithin simple r = tt
  when_spacious-IsWithin htex r = ground arith

  when_busy-IsWithin :
      (kind : StrategyType) (r : Reading)
      → All (IsWithin p r.active_blocks) (when_busy p max_idletime kind r)
  unfolding when_busy
  when_busy-IsWithin kind r = elim (Bool-cases (is_overloaded p max_idletime r)) [
    | inl over ↦ rw over (when_overloaded-IsWithin r)
    | inr fits ↦ elim (Bool-cases (active_slots p max_idletime r == 0)) [
      | inl none_up ↦ rw (fits, none_up) (when_unslotted-IsWithin r)
      | inr up ↦ elim (Bool-cases (ltb r.active_tasks (active_slots p max_idletime r))) [
        | inl spacious ↦ rw (fits, up, spacious) (when_spacious-IsWithin kind r)
        | inr full ↦ rw (fits, up, full) tt
      ]
    ]
  ]

  -- For every provider, strategy and reading of the executor, in every case of the strategy: a command
  -- to scale out, added to the active blocks, stays within `max_blocks`, and one to scale in, taken from
  -- them, leaves `min_blocks`. The initial blocks are not counted.
  pub adjust-IsWithin :
      (kind : StrategyType) (r : Reading) (s : ExecutorState)
      → All (IsWithin p r.active_blocks) (adjust p max_idletime kind r s).0
  unfolding adjust
  adjust-IsWithin kind r s = elim (Bool-cases (r.active_tasks == 0)) [
    | inl idle ↦ rw idle (when_idle-IsWithin r s)
    | inr busy ↦ rw busy (when_busy-IsWithin kind r)
  ]

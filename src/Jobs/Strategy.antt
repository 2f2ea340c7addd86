-- ===== src/Jobs/Strategy.antt =====
-- environment/parsl/jobs/strategy.py, `_general_strategy`, for one executor. `parallelism` is the
-- fraction `parallelism_num / parallelism_den`, and the arithmetic on it is exact; times are whole.
pub mod Bounds
use talents_parsl_checkpoint.Prelude.{
  ℕ, zero, suc, ◌+◌, ◌-◌, ◌*◌, ◌/◌, ◌==◌, min, Bool, true, false, ◌&&◌, Option, none, some, List,
  [], ◌∷◌, ◌++◌, ltb, leb, if◌then◌else◌,
}

-- The provider's settings, and `workers_per_node` of the executor.
pub record Provider : Type 0 where
  pub init_blocks : ℕ
  pub min_blocks : ℕ
  pub max_blocks : ℕ
  pub nodes_per_block : ℕ
  pub tasks_per_node : ℕ
  pub parallelism_num : ℕ
  pub parallelism_den : ℕ

pub data StrategyType : Type 0 where
  simple htex : StrategyType

-- What the executor is asked for; `scale_in_idle` passes `max_idletime` on.
pub data Command : Type 0 where
  scale_out scale_in scale_in_idle : ℕ → Command

-- `ExecutorState`
pub record ExecutorState : Type 0 where
  pub idle_since : Option ℕ
  pub first : Bool

-- What is read of the executor: the outstanding tasks, the blocks that run or are pending, and whether
-- it is a `HighThroughputExecutor`; and the two readings of the clock.
pub record Reading : Type 0 where
  pub active_tasks : ℕ
  pub active_blocks : ℕ
  pub is_htex : Bool
  pub now : ℕ
  pub later : ℕ

-- `math.ceil` of a quotient.
abbrev ceil_div : ℕ → ℕ → ℕ
ceil_div m n = (m + (n - 1)) / n

module _ (p : Provider) (max_idletime : ℕ) where
  abbrev pub slots_per_block : ℕ
  slots_per_block = p.tasks_per_node * p.nodes_per_block

  abbrev pub active_slots : Reading → ℕ
  active_slots r = r.active_blocks * slots_per_block

  -- The start of the idle timer; a time of 0 is falsy.
  abbrev idle_start : Option ℕ → ℕ → ℕ
  idle_start none now = now
  idle_start (some t) now = if t == 0 then now else t

  -- Case 1: no tasks.
  unfoldable pub when_idle : Reading → ExecutorState → List Command × ExecutorState
  when_idle r s =
      if leb r.active_blocks p.min_blocks
      then ([], s)
      else (let since = idle_start s.idle_since r.now in
          (
            (if ltb (since + max_idletime) r.later
                then scale_in (r.active_blocks - p.min_blocks) ∷ []
                else []),
            record s { idle_since = some since },
          ))

  -- The subtractions below are of a smaller number, in the case that they stand in.
  -- Case 2: `active_slots / active_tasks < parallelism`.
  abbrev pub is_overloaded : Reading → Bool
  is_overloaded r = ltb (active_slots r * p.parallelism_den) (p.parallelism_num * r.active_tasks)

  abbrev excess_to_start : Reading → ℕ
  excess_to_start r =
      ceil_div
        (ceil_div (r.active_tasks * p.parallelism_num - active_slots r * p.parallelism_den)
          p.parallelism_den)
        slots_per_block

  unfoldable pub when_overloaded : Reading → List Command
  when_overloaded r =
      if leb p.max_blocks r.active_blocks
      then []
      else scale_out (min (excess_to_start r) (p.max_blocks - r.active_blocks)) ∷ []

  -- Case 4a: tasks, and no slot.
  unfoldable pub when_unslotted : Reading → List Command
  when_unslotted r = if ltb r.active_blocks p.max_blocks then scale_out 1 ∷ [] else []

  -- Case 4b: more slots than tasks.
  abbrev excess_to_stop : Reading → ℕ
  excess_to_stop r =
      ((active_slots r * p.parallelism_den - r.active_tasks * p.parallelism_num)
        / p.parallelism_den)
      / slots_per_block

  unfoldable pub when_spacious : StrategyType → Reading → List Command
  when_spacious simple r = []
  when_spacious htex r =
      if r.is_htex && ltb p.min_blocks r.active_blocks
      then scale_in_idle (min (excess_to_stop r) (r.active_blocks - p.min_blocks)) ∷ []
      else []

  -- The cases on a busy executor.
  unfoldable pub when_busy : StrategyType → Reading → List Command
  when_busy kind r =
      if is_overloaded r
      then when_overloaded r
      else if active_slots r == 0
      then when_unslotted r
      else if ltb r.active_tasks (active_slots r)
      then when_spacious kind r
      else []

  -- Tasks reset an idle timer that runs.
  abbrev reset : Option ℕ → Option ℕ
  reset none = none
  reset (some t) = if t == 0 then some t else none

  unfoldable pub adjust : StrategyType → Reading → ExecutorState → List Command × ExecutorState
  adjust kind r s =
      if r.active_tasks == 0
      then when_idle r s
      else (when_busy kind r, record s { idle_since = reset s.idle_since })

  -- The first pass starts the initial blocks; the executor is read behind that.
  unfoldable general_strategy :
      StrategyType → Reading → ExecutorState → List Command × ExecutorState
  general_strategy kind r s =
      let (commands, s') = adjust kind r (record s { first = false }) in
      ((if s.first then scale_out p.init_blocks ∷ commands else commands), s')

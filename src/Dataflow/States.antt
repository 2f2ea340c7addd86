-- ===== src/Dataflow/States.antt =====
-- environment/parsl/dataflow/states.py: the states of a task.
use talents_parsl_checkpoint.Prelude.{Bool, true, false, ◌≡◌, ◌↔◌, ℕ, ◌==◌, arith}

pub data States : Type 0 where
  unsched pending running exec_done failed dep_fail launched : States
  fail_retryable memo_done joining running_ended : States

-- The value of the `IntEnum` member, plus 1: `unsched` is -1 in the source.
abbrev pub number : States → ℕ
number unsched = 0
number pending = 1
number running = 3
number exec_done = 4
number failed = 5
number dep_fail = 6
number launched = 8
number fail_retryable = 9
number memo_done = 10
number joining = 11
number running_ended = 12

infix 50 ◌is◌
abbrev pub ◌is◌ : States → States → Bool
s is t = number s == number t

pub is_iff : (s t : States) → ((s is t) ≡ true) ↔ (s ≡ t)
is_iff s t = ground arith

-- `FINAL_STATES`
abbrev pub is_final : States → Bool
is_final exec_done = true
is_final memo_done = true
is_final failed = true
is_final dep_fail = true
is_final _ = false

-- `FINAL_FAILURE_STATES`
abbrev pub is_final_failure : States → Bool
is_final_failure failed = true
is_final_failure dep_fail = true
is_final_failure _ = false

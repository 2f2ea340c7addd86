-- ===== src/Dataflow/Tasks.antt =====
-- The task record of environment/parsl/dataflow/taskrecord.py, as `submit` of solution/dflow.py fills
-- it. The times, which only monitoring reads, are left out.
use talents_parsl_checkpoint.Prelude.{ℕ, String, Bool, Option, List}
use talents_parsl_checkpoint.Dataflow.Errors.{Exn}
use talents_parsl_checkpoint.Dataflow.States.{States}
use talents_parsl_checkpoint.Dataflow.Values.{Value, Items, Fields}

-- What a join app's body returned: a Future, or a list of Futures, by their IDs.
pub data Joinable : Type 0 where
  one : ℕ → Joinable
  many : List ℕ → Joinable

pub record TaskRecord : Type 0 where
  pub id : ℕ
  pub func : Value
  pub args : Items
  pub kwargs : Fields
  -- whether the app is cached
  pub memoize : Bool
  pub hashsum : Option String
  pub depends : List ℕ
  pub executor : String
  pub fail_count : ℕ
  pub fail_cost : ℕ
  pub fail_history : List Exn
  pub from_memo : Option Bool
  pub ignore_for_cache : List String
  pub join : Bool
  pub joins : Option Joinable
  pub try_id : ℕ
  -- `none` before the first `update_task_state`
  pub status : Option States
  -- the AppFuture, by its ID
  pub app_fu : ℕ

-- ===== src/Dataflow/Recovery.antt =====
-- Which checkpoints a new run starts from: `get_all_checkpoints` of environment/parsl/utils.py, and
-- the part of `DataFlowKernel.__init__` of solution/dflow.py that calls it.
pub mod Discovery
use talents_parsl_checkpoint.Prelude.{
  ℕ, Bool, true, false, Option, none, some, List, [], ◌∷◌, map, if◌then◌else◌,
}
use talents_parsl_checkpoint.Prelude.Sorting.{sorted, by_key}
use talents_parsl_checkpoint.Dataflow.Memo.Identity.{lex_le}
use talents_parsl_checkpoint.Dataflow.Rundirs.Decimal.{is_decimal, int}
use talents_parsl_checkpoint.Dataflow.Kernel.{CheckpointMode}

-- An entry of the directory of runs: its name, and whether it has a directory `checkpoint`. The path
-- of the checkpoint is known by the name of the run.
pub record Run : Type 0 where
  pub name : List ℕ
  pub has_checkpoint : Bool

abbrev pub name_le : Run → Run → Bool
name_le r s = lex_le r.name s.name

unfoldable pub with_checkpoint : List Run → List (List ℕ)
with_checkpoint [] = []
with_checkpoint (r ∷ rs) =
    let rest = with_checkpoint rs in if r.has_checkpoint then r.name ∷ rest else rest

-- `none` is a path that is no directory.
unfoldable pub get_all_checkpoints : Option (List Run) → List (List ℕ)
get_all_checkpoints none = []
get_all_checkpoints (some entries) = with_checkpoint (sorted name_le entries)

-- The numbered runs, each with its number.
unfoldable pub numbered_checkpoints : List (List ℕ) → List (ℕ × List ℕ)
numbered_checkpoints [] = []
numbered_checkpoints (path ∷ paths) =
    let rest = numbered_checkpoints paths in
    if is_decimal path then (int path, path) ∷ rest else rest

abbrev pub number_of : ℕ × List ℕ → ℕ
number_of item = item.0

-- `sorted(numbered_checkpoints, key=lambda item: item[0])`
unfoldable pub discovered : Option (List Run) → List (ℕ × List ℕ)
discovered entries = sorted (by_key number_of) (numbered_checkpoints (get_all_checkpoints entries))

-- The checkpoints that the memoizer is given.
unfoldable checkpoint_files :
    (configured : Option (List (List ℕ))) (mode : Option CheckpointMode)
    (entries : Option (List Run))
    → List (List ℕ)
checkpoint_files (some files) mode entries = files
checkpoint_files none (some mode) entries = map (λ item. item.1) (discovered entries)
checkpoint_files none none entries = []

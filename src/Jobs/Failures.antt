-- ===== src/Jobs/Failures.antt =====
-- environment/parsl/jobs/error_handlers.py: when the failures of blocks make an executor bad.
pub mod Window
use talents_parsl_checkpoint.Prelude.{
  ℕ, zero, suc, ◌+◌, ◌-◌, ◌==◌, max, Bool, true, false, ◌&&◌, Option, none, some, List, [], ◌∷◌,
  length, drop, leb, if◌then◌else◌,
}
use talents_parsl_checkpoint.Prelude.Sorting.{sorted, by_key}

-- environment/parsl/jobs/states.py
pub data JobState : Type 0 where
  unknown pending running cancelled completed failed timeout held missing scaled_in : JobState

-- The status of the blocks, by the number that the ID of the block is.
abbrev pub Status : Type 0
Status = List (ℕ × JobState)

abbrev pub has_failed : JobState → Bool
has_failed failed = true
has_failed missing = true
has_failed _ = false

-- `_count_jobs`: the total is the length.
unfoldable pub failed_jobs : Status → ℕ
failed_jobs [] = 0
failed_jobs ((id, js) ∷ rest) = let n = failed_jobs rest in if has_failed js then suc n else n

-- Whether `simple_error_handler` makes the executor bad; `init_blocks` is `none` for a provider without
-- that attribute.
unfoldable pub simple_error_handler : (init_blocks : Option ℕ) (threshold : ℕ) → Status → Bool
simple_error_handler none threshold status =
    leb threshold (length status) && failed_jobs status == length status
simple_error_handler (some init) threshold status =
    leb (max 1 init) (length status) && failed_jobs status == length status

abbrev pub block_id : ℕ × JobState → ℕ
block_id item = item.0

-- `sorted_status[-threshold:]`; `-0` is 0, and the slice is then the whole list.
abbrev pub window : ℕ → Status → Status
window zero status = status
window (suc n) status = drop (length status - suc n) status

-- Whether `windowed_error_handler` makes the executor bad.
unfoldable pub windowed_error_handler : (threshold : ℕ) → Status → Bool
windowed_error_handler threshold status =
    failed_jobs (window threshold (sorted (by_key block_id) status)) == threshold

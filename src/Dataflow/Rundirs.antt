-- ===== src/Dataflow/Rundirs.antt =====
-- solution/rundirs.py: the numbered run directories. A name is the list of its code points, and a
-- directory the list of its entries.
pub mod Decimal
pub mod Allocation
pub mod Race
use talents_parsl_checkpoint.Dataflow.Rundirs.Decimal.{is_decimal, int, format_03d}
use talents_parsl_checkpoint.Prelude.{
  ℕ, zero, suc, ◌+◌, max, Bool, true, false, ◌&&◌, ◌||◌, Option, none, some, List, [], ◌∷◌,
  codes_eq, if◌then◌else◌,
}

pub record Entry : Type 0 where
  pub name : List ℕ
  -- `entry.is_dir(follow_symlinks=False)`
  pub is_dir : Bool

-- The IDs of the entries whose name is all ASCII digits and that are directories.
unfoldable pub numbered_directory_ids : List Entry → List ℕ
numbered_directory_ids [] = []
numbered_directory_ids (e ∷ es) =
    let rest = numbered_directory_ids es in
    if is_decimal e.name && e.is_dir then int e.name ∷ rest else rest

-- `max(run_ids, default=-1) + 1`
unfoldable pub next_run_id : List ℕ → ℕ
next_run_id [] = 0
next_run_id (i ∷ ids) = max (i + 1) (next_run_id ids)

-- `os.mkdir` finds an entry of this name.
unfoldable pub exists : List ℕ → List Entry → Bool
exists n [] = false
exists n (e ∷ es) = codes_eq e.name n || exists n es

-- The `while True` loop. `present k` is the directory when the k-th attempt is made, since other
-- launchers create entries between two attempts. `none` means that the fuel ran out.
unfoldable pub allocate : (present : ℕ → List Entry) (fuel attempt next_id : ℕ) → Option (ℕ × ℕ)
allocate present zero attempt next_id = none
allocate present (suc fuel) attempt next_id =
    let retry = allocate present fuel (attempt + 1) (next_id + 1) in
    if exists (format_03d next_id) (present attempt) then retry else some (next_id, attempt)

-- The directory is scanned once, before the first attempt. The result is the ID and the attempt.
unfoldable pub make_rundir :
    (scanned : List Entry) (present : ℕ → List Entry) (fuel : ℕ) → Option (ℕ × ℕ)
make_rundir scanned present fuel =
    allocate present fuel 0 (next_run_id (numbered_directory_ids scanned))

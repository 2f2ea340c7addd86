-- ===== src/Tests/Rundirs.antt =====
-- Run directories: a root with two runs, and two launchers on an empty root.
use talents_parsl_checkpoint.Prelude.{
  codes_eq, ◌<◌, ℕ, ◌+◌, ◌≡◌, ◌≢◌, refl, true, false, some, List, [], ◌∷◌, All, arith,
}
use talents_parsl_checkpoint.Dataflow.Rundirs.Decimal.{is_decimal, int, format_03d, int-format_03d}
use talents_parsl_checkpoint.Dataflow.Rundirs.{
  allocate, Entry, numbered_directory_ids, next_run_id, exists, make_rundir,
}
use talents_parsl_checkpoint.Dataflow.Rundirs.Allocation.{
  make_rundir-fresh, make_rundir_total, IsBelow,
}
use talents_parsl_checkpoint.Dataflow.Rundirs.Race.{run, turn, operate, launchers_apart}

abbrev directory : ℕ → Entry
directory n = record { name = format_03d n; is_dir = true }

-- The runs 000 and 001.
abbrev two_runs : List Entry
two_runs = directory 0 ∷ directory 1 ∷ []

-- Another launcher has created 002 behind the scan.
abbrev overtaken : List Entry
overtaken = directory 2 ∷ two_runs

make_rundir-fresh_example :
    (exists (format_03d 3) overtaken ≡ false)
    × All (λ i. i < 3) (numbered_directory_ids two_runs)
    × (3 ≡ next_run_id (numbered_directory_ids two_runs) + 1)
unfolding make_rundir numbered_directory_ids next_run_id exists allocate is_decimal int format_03d
    codes_eq
make_rundir-fresh_example = make_rundir-fresh two_runs (λ k. overtaken) 2 3 1 refl

overtaken-IsBelow : IsBelow 3 overtaken
overtaken-IsBelow = (
  λ e. rw (int-format_03d 2) (omega arith),
  (λ e. rw (int-format_03d 0) (omega arith), (λ e. rw (int-format_03d 1) (omega arith), tt)),
)

make_rundir_total_example : (r : ℕ × ℕ) × (make_rundir two_runs (λ k. overtaken) 4 ≡ some r)
make_rundir_total_example = make_rundir_total two_runs (λ k. overtaken) 3 (λ k. overtaken-IsBelow)

launchers_apart_example : ◌≢◌ {A = ℕ} 0 1
unfolding run turn operate exists next_run_id numbered_directory_ids codes_eq format_03d
launchers_apart_example =
    launchers_apart [] 2 (0 ∷ 1 ∷ 0 ∷ 1 ∷ 1 ∷ []) 0 1 0 1 (λ e. omega arith) refl refl

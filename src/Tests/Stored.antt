-- ===== src/Tests/Stored.antt =====
-- Checkpoint files, memo entries, exceptions and dependencies.
use talents_parsl_checkpoint.Prelude.{
  false, true, ap, arith, ℕ, String, ◌≡◌, ◌≢◌, ◌↔◌, refl, Option, none, some, List, [], ◌∷◌, All,
}
use text.Mathlib.Text.{◌==◌ as str_eq}
use talents_parsl_checkpoint.Dataflow.Errors.{
  Exn, ok, err, app_error, bad_checkpoint, dependency_error, join_error, no_cause, cause,
}
use talents_parsl_checkpoint.Dataflow.Errors.Root.{
  find_any_root_cause, find_any_root_cause-Via, Via,
}
use talents_parsl_checkpoint.Dataflow.Values.{dict, field, end, Value, Heap, num}
use talents_parsl_checkpoint.Dataflow.Memo.{Table, from_result, materialize}
use talents_parsl_checkpoint.Dataflow.Memo.Identity.{id_for_memo}
use talents_parsl_checkpoint.Dataflow.Memo.Identity.Reordering.{Reordered, id_for_memo-Reordered}
use talents_parsl_checkpoint.Dataflow.Memo.Isolation.{materialize-from_result}
use talents_parsl_checkpoint.Dataflow.Memo.Loading.{load_file, load_checkpoints}
use talents_parsl_checkpoint.Dataflow.Memo.Loading.Roundtrip.{
  Dumped, load_file-Dumped, load_file_torn,
}
use talents_parsl_checkpoint.Dataflow.Memo.Loading.Entries.{add_all, IsLoaded}
use talents_parsl_checkpoint.Dataflow.Memo.Loading.Records.{
  Records, load_file-eq-ok, load_checkpoints-closed, IsCheckpoint,
}
use talents_parsl_checkpoint.Tests.Library.{toy, dumps}

-- Every reference holds the number 5.
abbrev fives : Heap
fives = record { size = 1; content = λ r. num 5 }

abbrev fresh : Table × Heap
fresh = ([], fives)

abbrev one_record : List (String × Value)
one_record = ("h", num 5) ∷ []

load_file-eq-ok_example :
    (load_file toy (some (1 ∷ 5 ∷ [])) fresh ≡ ok (add_all toy one_record fresh)) ↔ (
      (s : List ℕ) × (es : List (String × Value)) × (some (1 ∷ 5 ∷ []) ≡ some s)
      × (s ≢ [])
      × Records toy s es
      × (add_all toy one_record fresh ≡ add_all toy es fresh)
      × IsLoaded toy es fresh (add_all toy one_record fresh))
load_file-eq-ok_example =
    load_file-eq-ok toy (some (1 ∷ 5 ∷ [])) fresh (add_all toy one_record fresh)

abbrev no_files : String → Option (List ℕ)
no_files dir = none

not_there : ¬ All (IsCheckpoint toy no_files) ("runinfo/000" ∷ [])
not_there ((s, es, there, _, _), _) = cc

load_checkpoints-closed_example :
    load_checkpoints toy no_files ("runinfo/000" ∷ []) fresh ≡ err bad_checkpoint
load_checkpoints-closed_example =
    load_checkpoints-closed toy no_files ("runinfo/000" ∷ []) fresh not_there

-- User code has changed the result, and made another object.
abbrev changed : Heap
changed = record { size = 2; content = λ r. num 6 }

materialize-from_result_example :
    ((materialize toy (from_result toy 0 fives).0 changed).0 ≡ ok 2)
    × ((materialize toy (from_result toy 0 fives).0 changed).1.content 2 ≡ num 5)
    × ((materialize toy (from_result toy 0 fives).0 changed).1.size ≡ 3)
unfolding dumps
materialize-from_result_example = materialize-from_result toy 0 fives (0 ∷ 5 ∷ []) refl changed

-- A join app that waits for a task whose dependency has failed, and for another that has failed.
abbrev nested : Exn
nested =
    join_error
      (cause (dependency_error (cause (app_error 3) "task 0" no_cause) 1) "task 1"
        (cause (app_error 4) "task 5" no_cause))
      2

find_any_root_cause-Via_example :
    Via nested (find_any_root_cause nested).1 (find_any_root_cause nested).0
find_any_root_cause-Via_example = find_any_root_cause-Via nested

load_file-Dumped_example :
    (load_file toy (some (1 ∷ 5 ∷ [])) fresh ≡ ok (add_all toy one_record fresh))
    × IsLoaded toy one_record fresh (add_all toy one_record fresh)
unfolding dumps
load_file-Dumped_example =
    load_file-Dumped toy one_record (1 ∷ 5 ∷ []) fresh (λ e. cc)
      (Dumped.written "h" (num 5) (1 ∷ 5 ∷ []) refl Dumped.none_written)

-- The second record lacks its last byte.
load_file_torn_example : load_file toy (some (1 ∷ 5 ∷ 1 ∷ [])) fresh ≡ err bad_checkpoint
unfolding dumps
load_file_torn_example =
    load_file_torn toy one_record (1 ∷ 5 ∷ []) "h" (num 6) (1 ∷ 6 ∷ []) 1 fresh
      (Dumped.written "h" (num 5) (1 ∷ 5 ∷ []) refl Dumped.none_written) refl (omega arith)
      (omega arith)

-- The keyword arguments x and y, in either order.
x_then_y :
    Reordered
      (field "x" (num 1) (field "y" (num 2) end))
      (field "y" (num 2) (field "x" (num 1) end))
x_then_y =
    Reordered.swapped "x" "y" (num 1) (num 2) end
      (λ e. let test : false ≡ true = ap (λ s. str_eq s "y") e in cc)

id_for_memo-Reordered_example :
    id_for_memo toy (dict (field "x" (num 1) (field "y" (num 2) end))) false
    ≡ id_for_memo toy (dict (field "y" (num 2) (field "x" (num 1) end))) false
id_for_memo-Reordered_example =
    id_for_memo-Reordered toy false (field "x" (num 1) (field "y" (num 2) end))
      (field "y" (num 2) (field "x" (num 1) end)) x_then_y

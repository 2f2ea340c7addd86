-- ===== src/Dataflow/Recovery/Discovery.antt =====
-- Lemmas on the discovery of checkpoints (environment/parsl/utils.py, `get_all_checkpoints`).
use mathlib.Core.List.{Permᴰ}
use mathlib.Core.List.Permᴰ.{refl as Perm_refl}
use talents_parsl_checkpoint.Prelude.{
  ℕ, ◌≡◌, refl, Bool, true, false, some, List, [], ◌∷◌, Bool-cases, inl, inr, if◌then◌else◌,
}
use talents_parsl_checkpoint.Prelude.Sorting.{
  sorted, by_key, IsAscending, sorted-Perm, sorted-IsAscending,
}
use talents_parsl_checkpoint.Dataflow.Rundirs.Decimal.{is_decimal, int}
use talents_parsl_checkpoint.Dataflow.Recovery.{
  Run, name_le, with_checkpoint, get_all_checkpoints, numbered_checkpoints, number_of, discovered,
}

-- The numbered run of an entry, if it is one and has a checkpoint.
abbrev pub resumable : Run → Bool
resumable r = if r.has_checkpoint then is_decimal r.name else false

unfoldable pub resumable_runs : List Run → List (ℕ × List ℕ)
resumable_runs [] = []
resumable_runs (r ∷ rs) =
    let rest = resumable_runs rs in if resumable r then (int r.name, r.name) ∷ rest else rest

numbered-with_checkpoint :
    (rs : List Run) → numbered_checkpoints (with_checkpoint rs) ≡ resumable_runs rs
unfolding numbered_checkpoints with_checkpoint resumable_runs
numbered-with_checkpoint [] = refl
numbered-with_checkpoint (r ∷ rs) = elim (Bool-cases r.has_checkpoint) [
  | inl kept ↦ rw (kept, numbered-with_checkpoint rs) refl
  | inr dropped ↦ rw (dropped, numbered-with_checkpoint rs) refl
]

-- One entry in front of the runs that follow.
abbrev add_if : Bool → ℕ × List ℕ → List (ℕ × List ℕ) → List (ℕ × List ℕ)
add_if b x xs = if b then x ∷ xs else xs

add_if-Perm :
    (b : Bool) (x : ℕ × List ℕ) {xs ys : List (ℕ × List ℕ)}
    → Permᴰ xs ys
    → Permᴰ (add_if b x xs) (add_if b x ys)
add_if-Perm true x p = Permᴰ.cons refl p
add_if-Perm false x p = p

add_if_swap :
    (b c : Bool) (x y : ℕ × List ℕ) (xs : List (ℕ × List ℕ))
    → Permᴰ (add_if b x (add_if c y xs)) (add_if c y (add_if b x xs))
add_if_swap true true x y xs = Permᴰ.swap refl refl
add_if_swap true false x y xs = Perm_refl _
add_if_swap false c x y xs = Perm_refl _

resumable_runs-Perm :
    {rs ss : List Run} → Permᴰ rs ss → Permᴰ (resumable_runs rs) (resumable_runs ss)
unfolding resumable_runs
resumable_runs-Perm Permᴰ.nil = Permᴰ.nil
resumable_runs-Perm (Permᴰ.cons {a = r} {b = s} same p) =
    rw same (add_if-Perm (resumable s) (int s.name, s.name) (resumable_runs-Perm p))
resumable_runs-Perm (Permᴰ.swap {a = r} {b = s} {a' = u} {b' = v} {l = rs} same other) =
    rw (same, other)
      (add_if_swap (resumable v) (resumable u) (int v.name, v.name) (int u.name, u.name)
        (resumable_runs rs))
resumable_runs-Perm (Permᴰ.trans p q) = Permᴰ.trans (resumable_runs-Perm p) (resumable_runs-Perm q)

-- Whatever the order in which the entries are listed: the discovered checkpoints are those of the
-- entries with a decimal name and a directory `checkpoint`, each of them once for its entry, in
-- ascending order of the run's number.
pub discovered-IsAscending :
    (entries : List Run)
    → Permᴰ (discovered (some entries)) (resumable_runs entries)
      × IsAscending number_of (discovered (some entries))
unfolding discovered get_all_checkpoints
discovered-IsAscending entries =
    let found = numbered_checkpoints (with_checkpoint (sorted name_le entries)) in
    (
      Permᴰ.trans (sorted-Perm (by_key number_of) found) (
          rw (numbered-with_checkpoint (sorted name_le entries))
            (resumable_runs-Perm (sorted-Perm name_le entries))),
      sorted-IsAscending number_of found,
    )

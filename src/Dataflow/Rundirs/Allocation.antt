-- ===== src/Dataflow/Rundirs/Allocation.antt =====
-- Lemmas on the loop of `make_rundir` (solution/rundirs.py).
use talents_parsl_checkpoint.Prelude.{
  ℕ, zero, suc, ◌+◌, ◌≤◌, ◌<◌, ◌≡◌, true, false, some, List, [], ◌∷◌, arith, All, codes_eq,
  codes_eq_iff, Bool-cases, inl, inr,
}
use talents_parsl_checkpoint.Dataflow.Rundirs.Decimal.{
  is_decimal, int, format_03d, int-format_03d, is_decimal-format_03d,
}
use talents_parsl_checkpoint.Dataflow.Rundirs.{
  Entry, numbered_directory_ids, next_run_id, exists, allocate, make_rundir,
}

All-below-weaken : (a b : ℕ) (ids : List ℕ) → a ≤ b → All (λ i. i < a) ids → All (λ i. i < b) ids
All-below-weaken a b [] h p = tt
All-below-weaken a b (i ∷ ids) h p = (omega arith, All-below-weaken a b ids h p.1)

next_run_id-bound : (ids : List ℕ) → All (λ i. i < next_run_id ids) ids
unfolding next_run_id
next_run_id-bound [] = tt
next_run_id-bound (i ∷ ids) =
    (omega arith, All-below-weaken (next_run_id ids) _ ids (omega arith) (next_run_id-bound ids))

allocate-fresh :
    (present : ℕ → List Entry) (fuel attempt next_id n k : ℕ)
    → allocate present fuel attempt next_id ≡ some (n, k)
    → (exists (format_03d n) (present k) ≡ false) × (n + attempt ≡ next_id + k) × (attempt ≤ k)
unfolding allocate
allocate-fresh present zero attempt next_id n k e = cc
allocate-fresh present (suc fuel) attempt next_id n k e =
    elim (Bool-cases (exists (format_03d next_id) (present attempt))) [
      | inl taken ↦
          ground
            (arith, allocate-fresh present fuel (attempt + 1) (next_id + 1) n k (rw taken at e))
      | inr free ↦ ground arith
    ]

-- If `make_rundir` allocates the ID n at its attempt k, then the directory had no entry of that name
-- at that attempt, n lies above the ID of every run directory that was scanned, and n is the first
-- candidate plus the number of attempts that found their name taken.
pub make_rundir-fresh :
    (scanned : List Entry) (present : ℕ → List Entry) (fuel n k : ℕ)
    → make_rundir scanned present fuel ≡ some (n, k)
    → (exists (format_03d n) (present k) ≡ false)
      × All (λ i. i < n) (numbered_directory_ids scanned)
      × (n ≡ next_run_id (numbered_directory_ids scanned) + k)
unfolding make_rundir
make_rundir-fresh scanned present fuel n k e =
    let ids = numbered_directory_ids scanned in
    let h = allocate-fresh present fuel 0 (next_run_id ids) n k e in
    (
      h.0,
      All-below-weaken (next_run_id ids) n ids (omega arith) (next_run_id-bound ids),
      omega arith,
    )

-- No entry of the directory has a decimal name of M or more.
abbrev pub IsBelow : ℕ → List Entry → Type 0
IsBelow m es = All (λ e. is_decimal e.name ≡ true → int e.name < m) es

exists-lt : (m n : ℕ) (es : List Entry) → IsBelow m es → exists (format_03d n) es ≡ true → n < m
unfolding exists
exists-lt m n [] h e = cc
exists-lt m n (x ∷ es) h e = elim (Bool-cases (codes_eq x.name (format_03d n))) [
  | inl same ↦
      let named = (codes_eq_iff x.name (format_03d n)).0 same in
      let below = h.0 (rw named (is_decimal-format_03d n)) in
      let value : int x.name ≡ n = rw named (int-format_03d n) in omega arith
  | inr other ↦ exists-lt m n es h.1 (rw other at e)
]

allocate_total :
    (present : ℕ → List Entry) (m fuel attempt next_id : ℕ)
    → ((k : ℕ) → IsBelow m (present k))
    → 0 < fuel
    → m < fuel + next_id
    → (r : ℕ × ℕ) × (allocate present fuel attempt next_id ≡ some r)
unfolding allocate
allocate_total present m zero attempt next_id below pos h = absurd (omega arith)
allocate_total present m (suc fuel) attempt next_id below pos h =
    elim (Bool-cases (exists (format_03d next_id) (present attempt))) [
      | inl taken ↦
          let less = exists-lt m next_id (present attempt) (below attempt) taken in
          rw taken (
            allocate_total present m fuel (attempt + 1) (next_id + 1) below (omega arith)
              (omega arith))
      | inr free ↦ ((next_id, attempt), rw free)
    ]

-- Whatever other launchers create between the attempts, as long as no entry has a decimal name of m
-- or more: the loop ends, and m + 1 attempts are enough.
pub make_rundir_total :
    (scanned : List Entry) (present : ℕ → List Entry) (m : ℕ)
    → ((k : ℕ) → IsBelow m (present k))
    → (r : ℕ × ℕ) × (make_rundir scanned present (m + 1) ≡ some r)
unfolding make_rundir
make_rundir_total scanned present m below =
    allocate_total present m (m + 1) 0 _ below (omega arith) (omega arith)

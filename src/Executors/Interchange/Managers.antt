-- ===== src/Executors/Interchange/Managers.antt =====
-- Lemmas on the dict of the managers (environment/parsl/executors/high_throughput/interchange.py,
-- `_ready_managers`).
use talents_parsl_checkpoint.Prelude.{
  ℕ, ◌+◌, ◌≤◌, ◌==◌, ◌≡◌, none, some, List, [], ◌∷◌, count, arith, if◌then◌else◌,
}
use talents_parsl_checkpoint.Executors.Interchange.{
  ManagerRecord, ManagerTable, get_manager, assign, pop,
}

-- How often the managers hold a task.
unfoldable pub held : ℕ → ManagerTable → ℕ
held x [] = 0
held x ((k, m) ∷ t) = count x m.tasks + held x t

unfoldable pub keys : ManagerTable → List ℕ
keys [] = []
keys ((k, m) ∷ t) = k ∷ keys t

-- A dict has each key once.
abbrev pub IsDict : ManagerTable → Type 0
IsDict t = (j : ℕ) → count j (keys t) ≤ 1

module _ (x k : ℕ) (m n : ManagerRecord) where
  pub held-assign :
      (t : ManagerTable)
      → get_manager k t ≡ some m
      → held x (assign k n t) + count x m.tasks ≡ held x t + count x n.tasks
  unfolding held get_manager assign
  held-assign [] h = cc
  held-assign ((j, o) ∷ t) h = ground (arith, held-assign t)

  pub held-pop :
      (t : ManagerTable) → get_manager k t ≡ some m → held x (pop k t) + count x m.tasks ≡ held x t
  unfolding held get_manager pop
  held-pop [] h = cc
  held-pop ((j, o) ∷ t) h = ground (arith, held-pop t)

pub held-assign_new :
    (x k : ℕ) (m : ManagerRecord) (t : ManagerTable)
    → get_manager k t ≡ none
    → held x (assign k m t) ≡ held x t + count x m.tasks
unfolding held get_manager assign
held-assign_new x k m [] h = omega arith
held-assign_new x k m ((j, o) ∷ t) h = ground (arith, held-assign_new x k m t)

pub get_manager-assign :
    (k j : ℕ) (m : ManagerRecord) (t : ManagerTable)
    → get_manager j (assign k m t) ≡ (if k == j then some m else get_manager j t)
unfolding get_manager assign
get_manager-assign k j m [] = ground arith
get_manager-assign k j m ((i, o) ∷ t) = ground (arith, get_manager-assign k j m t)

get_manager-missing : (k : ℕ) (t : ManagerTable) → count k (keys t) ≡ 0 → get_manager k t ≡ none
unfolding get_manager keys
get_manager-missing k [] h = ground arith
get_manager-missing k ((i, o) ∷ t) h = ground (arith, get_manager-missing k t)

pub get_manager-pop :
    (k j : ℕ) (t : ManagerTable)
    → count k (keys t) ≤ 1
    → get_manager j (pop k t) ≡ (if k == j then none else get_manager j t)
unfolding get_manager pop keys
get_manager-pop k j [] h = ground arith
get_manager-pop k j ((i, o) ∷ t) h = ground (arith, get_manager-pop k j t, get_manager-missing k t)

count-keys-assign :
    (k j : ℕ) (m : ManagerRecord) (t : ManagerTable)
    → count j (keys t) ≤ 1
    → count j (keys (assign k m t)) ≤ (if k == j then 1 else count j (keys t))
unfolding assign keys
count-keys-assign k j m [] h = ground arith
count-keys-assign k j m ((i, o) ∷ t) h = ground (arith, count-keys-assign k j m t)

count-keys-pop : (k j : ℕ) (t : ManagerTable) → count j (keys (pop k t)) ≤ count j (keys t)
unfolding pop keys
count-keys-pop k j [] = omega arith
count-keys-pop k j ((i, o) ∷ t) = ground (arith, count-keys-pop k j t)

pub assign-IsDict :
    (k : ℕ) (m : ManagerRecord) (t : ManagerTable) → IsDict t → IsDict (assign k m t)
assign-IsDict k m t h j = ground (arith, count-keys-assign k j m t, h j)

pub pop-IsDict : (k : ℕ) (t : ManagerTable) → IsDict t → IsDict (pop k t)
pop-IsDict k t h j = omega (arith, count-keys-pop k j t, h j)

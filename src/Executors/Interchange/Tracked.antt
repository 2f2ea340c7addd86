-- ===== src/Executors/Interchange/Tracked.antt =====
-- What the interchange knows of its managers, and the changes of a single manager that keep it so
-- (environment/parsl/executors/high_throughput/interchange.py).

use talents_parsl_checkpoint.Prelude.{
  ℕ, ◌≤◌, ◌<◌, ◌≡◌, ◌≢◌, true, false, none, some, List, ◌∷◌, length, count, remove, count-remove,
  arith,
}
use talents_parsl_checkpoint.Executors.Interchange.{
  ManagerRecord, ManagerTable, get_manager, assign, pop, add_interesting,
}
use talents_parsl_checkpoint.Executors.Interchange.Managers.{
  IsDict, get_manager-assign, get_manager-pop, assign-IsDict, pop-IsDict,
}

-- A manager that can be given a task.
abbrev pub HasRoom : ManagerRecord → Type 0
HasRoom m = (length m.tasks < m.max_capacity) × (m.active ≡ true) × (m.draining ≡ false)

-- The interesting managers are registered, no manager has more tasks than it can hold, and one that can
-- be given a task is interesting. `seen` has the IDs that were ever registered.
pub record IsTracked (seen : List ℕ) (t : ManagerTable) (interesting : List ℕ) : Type 0 where
  pub dict : IsDict t
  pub once : (j : ℕ) → count j interesting ≤ 1
  pub known : (j : ℕ) → 0 < count j interesting → get_manager j t ≢ none
  pub bounded :
      (j : ℕ) (m : ManagerRecord) → get_manager j t ≡ some m → length m.tasks ≤ m.max_capacity
  pub registered : (j : ℕ) → get_manager j t ≢ none → 0 < count j seen
  pub served :
      (j : ℕ) (m : ManagerRecord) → get_manager j t ≡ some m → HasRoom m → 0 < count j interesting

-- The managers but k are as interesting as they were.
abbrev pub IsSameBut : ℕ → List ℕ → List ℕ → Type 0
IsSameBut k i i' = (j : ℕ) → k ≢ j → count j i' ≡ count j i

pub remove-IsSameBut : (k : ℕ) (i : List ℕ) → IsSameBut k i (remove k i)
remove-IsSameBut k i j h = ground (arith, count-remove j k i)

pub add_interesting-IsSameBut : (k : ℕ) (i : List ℕ) → IsSameBut k i (add_interesting k i)
unfolding add_interesting
add_interesting-IsSameBut k i j h = ground arith

pub count-add_interesting : (k : ℕ) (i : List ℕ) → count k i ≤ 1 → count k (add_interesting k i) ≡ 1
unfolding add_interesting
count-add_interesting k i h = ground arith

module _ (k : ℕ) (seen : List ℕ) (t : ManagerTable) (i i' : List ℕ) (h : IsTracked seen t i)
    (same : IsSameBut k i i') where
  -- The manager k is there, with the record m.
  pub assign-IsTracked :
      (m : ManagerRecord)
      → length m.tasks ≤ m.max_capacity
      → count k i' ≤ 1
      → (HasRoom m → 0 < count k i')
      → 0 < count k seen
      → IsTracked seen (assign k m t) i'
  assign-IsTracked m fits self room old = record {
    dict = assign-IsDict k m t h.dict;
    once = λ j. ground (arith, same j, h.once j);
    known = λ j p. ground (arith, same j, get_manager-assign k j m t, h.known j);
    bounded = λ j n e. ground (arith, get_manager-assign k j m t, h.bounded j n);
    registered = λ j p. ground (arith, get_manager-assign k j m t, h.registered j);
    served = λ j n e r. ground (arith, get_manager-assign k j m t, h.served j n, same j, room);
  }

  -- The manager k is gone.
  pub pop-IsTracked : count k i' ≡ 0 → IsTracked seen (pop k t) i'
  pop-IsTracked gone = record {
    dict = pop-IsDict k t h.dict;
    once = λ j. ground (arith, same j, h.once j);
    known = λ j p. ground (arith, same j, get_manager-pop k j t (h.dict k), h.known j);
    bounded = λ j n e. ground (arith, get_manager-pop k j t (h.dict k), h.bounded j n);
    registered = λ j p. ground (arith, get_manager-pop k j t (h.dict k), h.registered j);
    served = λ j n e r. ground (arith, get_manager-pop k j t (h.dict k), h.served j n, same j);
  }

  -- The manager k has no room, and is not interesting any more.
  pub drop-IsTracked :
      (m : ManagerRecord)
      → get_manager k t ≡ some m
      → ¬ HasRoom m
      → count k i' ≡ 0
      → IsTracked seen t i'
  drop-IsTracked m there full gone = record {
    dict = h.dict;
    once = λ j. ground (arith, same j, h.once j);
    known = λ j p. ground (arith, same j, h.known j);
    bounded = h.bounded;
    registered = h.registered;
    served = λ j n e r. ground (arith, h.served j n, same j);
  }

pub IsTracked-cons :
    (k : ℕ) (seen : List ℕ) (t : ManagerTable) (i : List ℕ)
    → IsTracked seen t i
    → IsTracked (k ∷ seen) t i
IsTracked-cons k seen t i h = record {
  dict = h.dict;
  once = h.once;
  known = h.known;
  bounded = h.bounded;
  registered = λ j p. omega (arith, h.registered j p);
  served = h.served;
}

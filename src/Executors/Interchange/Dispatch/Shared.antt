-- ===== src/Executors/Interchange/Dispatch/Shared.antt =====
-- What the selectors of managers give back (environment/parsl/executors/high_throughput/manager_selector.py).
use mathlib.Core.List.{reverse}
use mathlib.Core.List.{reverse-append}
use talents_parsl_checkpoint.Prelude.{
  ℕ, ◌<◌, ◌≡◌, ◌≢◌, refl, none, Option-cases, inl, inr, Bool, true, List, [], ◌∷◌, count,
  count-append, arith,
}
use talents_parsl_checkpoint.Prelude.Sorting.{sorted, insert_sorted}
use talents_parsl_checkpoint.Dataflow.Errors.{ok}
use talents_parsl_checkpoint.Executors.Interchange.{ManagerTable, get_manager}
use talents_parsl_checkpoint.Executors.Interchange.Dispatch.{
  Selector, le_manager, all_known, block_id_manager_selector, random_manager_selector,
}

-- The selector gives the interesting managers, each as often, if they are all registered.
pub record IsFair (select : Selector) : Type 0 where
  pub selected :
      (t : ManagerTable) (i : List ℕ)
      → ((j : ℕ) → 0 < count j i → get_manager j t ≢ none)
      → (ks : List ℕ) × (select t i ≡ ok ks) × ((j : ℕ) → count j ks ≡ count j i)

count-insert_sorted :
    (le : ℕ → ℕ → Bool) (j x : ℕ) (xs : List ℕ) → count j (insert_sorted le x xs) ≡ count j (x ∷ xs)
unfolding insert_sorted
count-insert_sorted le j x [] = refl
count-insert_sorted le j x (y ∷ ys) = ground (arith, count-insert_sorted le j x ys)

count-sorted : (le : ℕ → ℕ → Bool) (j : ℕ) (xs : List ℕ) → count j (sorted le xs) ≡ count j xs
unfolding sorted
count-sorted le j [] = refl
count-sorted le j (x ∷ xs) =
    omega (arith, count-insert_sorted le j x (sorted le xs), count-sorted le j xs)

pub count-reverse : (j : ℕ) (xs : List ℕ) → count j (reverse xs) ≡ count j xs
count-reverse j [] = refl
count-reverse j (x ∷ xs) =
    rw (reverse-append (x ∷ []) xs)
      (omega (arith, count-append j (reverse xs) (x ∷ []), count-reverse j xs))

all_known-eq-true :
    (t : ManagerTable) (i : List ℕ)
    → ((j : ℕ) → 0 < count j i → get_manager j t ≢ none)
    → all_known t i ≡ true
unfolding all_known
all_known-eq-true t [] h = refl
all_known-eq-true t (k ∷ i) h = elim (Option-cases (get_manager k t)) [
  | inl gone ↦ absurd (h k (ground arith) gone)
  | inr (m, there) ↦ rw there (all_known-eq-true t i (λ j p. h j (omega arith)))
]

pub block_id_manager_selector-IsFair : IsFair block_id_manager_selector
unfolding block_id_manager_selector
block_id_manager_selector-IsFair = record {
  selected = λ t i known.
      rw (all_known-eq-true t i known)
        (sorted (le_manager t) i, refl, λ j. count-sorted (le_manager t) j i);
}

pub random_manager_selector-IsFair :
    (shuffle : List ℕ → List ℕ)
    → ((xs : List ℕ) (j : ℕ) → count j (shuffle xs) ≡ count j xs)
    → IsFair (random_manager_selector shuffle)
unfolding random_manager_selector
random_manager_selector-IsFair shuffle same = record {
  selected = λ t i known. (shuffle i, refl, same i);
}

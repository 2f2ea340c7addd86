-- ===== src/Prelude/Sorting.antt =====
-- Python's `sorted`: stable, and ascending in the order of a Boolean test.
use Prim.Native.Nat.{ℕ, ◌≤◌}
use mathlib.Core.Path.{◌≡◌, refl}
use mathlib.Core.Logic.{inl, inr}
use mathlib.Core.Bool.{Bool, false}
use mathlib.Core.List.{List, [], ◌∷◌}
use mathlib.Core.List.{Permᴰ}
use mathlib.Core.List.Permᴰ.{refl as Perm_refl}
use native.Mathlib.Omega.{arith}
use talents_parsl_checkpoint.Prelude.Tests.{leb, leb→le, if◌then◌else◌, Bool-cases}
use talents_parsl_checkpoint.Prelude.Lists.{All}

module _ {ℓ} {A : Type ℓ} (le : A → A → Bool) where
  -- In front of the elements that are not below it.
  unfoldable pub insert_sorted : A → List A → List A
  insert_sorted x [] = x ∷ []
  insert_sorted x (y ∷ ys) =
      let rest = insert_sorted x ys in if le x y then x ∷ y ∷ ys else y ∷ rest

  unfoldable pub sorted : List A → List A
  sorted [] = []
  sorted (x ∷ xs) = insert_sorted x (sorted xs)

  insert_sorted-Perm : (x : A) (ys : List A) → Permᴰ (insert_sorted x ys) (x ∷ ys)
  unfolding insert_sorted
  insert_sorted-Perm x [] = Perm_refl (x ∷ [])
  insert_sorted-Perm x (y ∷ ys) = elim (Bool-cases (le x y)) [
    | inl below ↦ rw below (Perm_refl (x ∷ y ∷ ys))
    | inr above ↦
        rw above (Permᴰ.trans (Permᴰ.cons refl (insert_sorted-Perm x ys)) (Permᴰ.swap refl refl))
  ]

  pub sorted-Perm : (xs : List A) → Permᴰ (sorted xs) xs
  unfolding sorted
  sorted-Perm [] = Permᴰ.nil
  sorted-Perm (x ∷ xs) =
      Permᴰ.trans (insert_sorted-Perm x (sorted xs)) (Permᴰ.cons refl (sorted-Perm xs))

-- Ascending in a key.
module _ {ℓ} {A : Type ℓ} (key : A → ℕ) where
  unfoldable pub IsAscending : List A → Type 0
  IsAscending [] = Unit
  IsAscending (x ∷ xs) = All (λ y. key x ≤ key y) xs × IsAscending xs

  abbrev pub by_key : A → A → Bool
  by_key x y = leb (key x) (key y)

  All-insert_sorted :
      (n : ℕ) (x : A) (ys : List A)
      → n ≤ key x
      → All (λ y. n ≤ key y) ys
      → All (λ y. n ≤ key y) (insert_sorted by_key x ys)
  unfolding insert_sorted
  All-insert_sorted n x [] h a = (h, tt)
  All-insert_sorted n x (y ∷ ys) h a = elim (Bool-cases (leb (key x) (key y))) [
    | inl below ↦ rw below (h, a)
    | inr above ↦ rw above (a.0, All-insert_sorted n x ys h a.1)
  ]

  All-weaken : (m n : ℕ) (ys : List A) → m ≤ n → All (λ y. n ≤ key y) ys → All (λ y. m ≤ key y) ys
  All-weaken m n [] h a = tt
  All-weaken m n (y ∷ ys) h a = (omega arith, All-weaken m n ys h a.1)

  not_leb : (m n : ℕ) → leb m n ≡ false → n ≤ m
  not_leb m n h = ground arith

  pub insert_sorted-IsAscending :
      (x : A) (ys : List A) → IsAscending ys → IsAscending (insert_sorted by_key x ys)
  unfolding insert_sorted IsAscending
  insert_sorted-IsAscending x [] s = (tt, tt)
  insert_sorted-IsAscending x (y ∷ ys) s = elim (Bool-cases (leb (key x) (key y))) [
    | inl below ↦
        let le = leb→le (key x) (key y) below in
        rw below ((le, All-weaken (key x) (key y) ys le s.0), s)
    | inr above ↦ rw above (
      All-insert_sorted (key y) x ys (not_leb (key x) (key y) above) s.0,
      insert_sorted-IsAscending x ys s.1,
    )
  ]

  pub sorted-IsAscending : (xs : List A) → IsAscending (sorted by_key xs)
  unfolding sorted IsAscending
  sorted-IsAscending [] = tt
  sorted-IsAscending (x ∷ xs) =
      insert_sorted-IsAscending x (sorted by_key xs) (sorted-IsAscending xs)

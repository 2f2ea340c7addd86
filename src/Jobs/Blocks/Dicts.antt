-- ===== src/Jobs/Blocks/Dicts.antt =====
-- Python dicts with numbers as keys, in the order of insertion.
use talents_parsl_checkpoint.Prelude.{
  ℕ, ◌+◌, ◌≤◌, ◌==◌, ◌≡◌, ◌⊎◌, refl, sym, false, Option, none, some, List, [], ◌∷◌, count, arith,
  Bool-cases, inl, inr, ==_refl, ==_iff, if◌then◌else◌,
}

module _ {ℓ} {A : Type ℓ} where
  unfoldable pub find : ℕ → List (ℕ × A) → Option A
  find k [] = none
  find k ((j, v) ∷ d) = if k == j then some v else find k d

  -- `d[k] = v`
  unfoldable pub put : ℕ → A → List (ℕ × A) → List (ℕ × A)
  put k v [] = (k, v) ∷ []
  put k v ((j, w) ∷ d) = let rest = put k v d in if k == j then (k, v) ∷ d else (j, w) ∷ rest

  unfoldable pub keys : List (ℕ × A) → List ℕ
  keys [] = []
  keys ((k, v) ∷ d) = k ∷ keys d

  -- `d.update(e)`, as merge e d
  unfoldable pub merge : List (ℕ × A) → List (ℕ × A) → List (ℕ × A)
  merge [] d = d
  merge ((k, v) ∷ e) d = merge e (put k v d)

  pub find-put : (k : ℕ) (v : A) (d : List (ℕ × A)) → find k (put k v d) ≡ some v
  unfolding find put
  find-put k v [] = rw (==_refl k) refl
  find-put k v ((j, w) ∷ d) = elim (Bool-cases (k == j)) [
    | inl same ↦ rw (same, ==_refl k) refl
    | inr other ↦ rw (other, other) (find-put k v d)
  ]

  pub find-put_other :
      (k l : ℕ) (v : A) (d : List (ℕ × A)) → (l == k) ≡ false → find l (put k v d) ≡ find l d
  unfolding find put
  find-put_other k l v [] ne = rw ne refl
  find-put_other k l v ((j, w) ∷ d) ne = elim (Bool-cases (k == j)) [
    | inl same ↦
        let e : (l == j) ≡ false = ground (arith, (==_iff k j).0 same, ne) in rw (same, ne, e) refl
    | inr other ↦ elim (Bool-cases (l == j)) [
      | inl this ↦ rw (other, this) refl
      | inr that ↦ rw (other, that) (find-put_other k l v d ne)
    ]
  ]

  -- Each key stands once.
  abbrev pub IsDict : List (ℕ × A) → Type 0
  IsDict d = (k : ℕ) → count k (keys d) ≤ 1

  count-put :
      (k l : ℕ) (v : A) (d : List (ℕ × A))
      → count l (keys (put k v d)) ≤ (if l == k then 1 else 0) + count l (keys d)
  unfolding put keys
  count-put k l v [] = ground arith
  count-put k l v ((j, w) ∷ d) = ground (arith, count-put k l v d)

  count-put_same :
      (k : ℕ) (v : A) (d : List (ℕ × A)) → count k (keys d) ≤ 1 → count k (keys (put k v d)) ≤ 1
  unfolding put keys
  count-put_same k v [] h = ground arith
  count-put_same k v ((j, w) ∷ d) h = ground (arith, count-put_same k v d)

  pub put-IsDict : (k : ℕ) (v : A) (d : List (ℕ × A)) → IsDict d → IsDict (put k v d)
  put-IsDict k v d h l = elim (Bool-cases (l == k)) [
    | inl same ↦ rw ((==_iff l k).0 same) (count-put_same k v d (h k))
    | inr other ↦ let c = count-put k l v d in ground (arith, h l, other, c)
  ]

  pub find-none : (k : ℕ) (d : List (ℕ × A)) → count k (keys d) ≡ 0 → find k d ≡ none
  unfolding find keys
  find-none k [] h = refl
  find-none k ((j, w) ∷ d) h = elim (Bool-cases (k == j)) [
    | inl same ↦ absurd (ground (arith, h, (==_iff k j).0 same))
    | inr other ↦ rw other (find-none k d (ground (arith, h, other)))
  ]

  pub find-cases :
      (k : ℕ) (d : List (ℕ × A)) → (count k (keys d) ≡ 0) ⊎ ((v : A) × (find k d ≡ some v))
  unfolding find keys
  find-cases k [] = inl refl
  find-cases k ((j, w) ∷ d) = elim (Bool-cases (k == j)) [
    | inl same ↦ inr (w, rw same refl)
    | inr other ↦ elim (find-cases k d) [
      | inl absent ↦ inl (ground (arith, other, absent))
      | inr (v, there) ↦ inr (v, rw other there)
    ]
  ]

  abbrev pub or_else : Option A → Option A → Option A
  or_else none y = y
  or_else (some x) y = some x

  pub find-merge :
      (k : ℕ) (e d : List (ℕ × A))
      → count k (keys e) ≤ 1
      → find k (merge e d) ≡ or_else (find k e) (find k d)
  unfolding merge keys find
  find-merge k [] d h = refl
  find-merge k ((j, v) ∷ e) d h = elim (Bool-cases (k == j)) [
    | inl same ↦
        let this = (==_iff k j).0 same in
        let gone : count k (keys e) ≡ 0 = ground (arith, h, this) in
        rw (same, find-merge k e (put j v d) (omega (arith, gone)), find-none k e gone, sym this)
          (find-put k v d)
    | inr other ↦
        let less : count k (keys e) ≤ 1 = ground (arith, h, other) in
        rw (other, find-merge k e (put j v d) less, find-put_other j k v d other) refl
  ]

  pub merge-IsDict : (e d : List (ℕ × A)) → IsDict d → IsDict (merge e d)
  unfolding merge
  merge-IsDict [] d h = h
  merge-IsDict ((k, v) ∷ e) d h = merge-IsDict e (put k v d) (put-IsDict k v d h)

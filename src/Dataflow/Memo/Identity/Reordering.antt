-- ===== src/Dataflow/Memo/Identity/Reordering.antt =====
-- Lemmas on the order of the keyword arguments (solution/memoization.py, `id_for_memo_dict`).
use Prim.Native.Char.{code}
use text.Mathlib.TextEquality.{Char-path}
use talents_parsl_checkpoint.Prelude.{
  ℕ, String, ◌≡◌, ◌≢◌, refl, sym, ap, ◌∙◌, Bool, true, false, List, [], ◌∷◌, arith, Bool-cases, inl,
  inr,
}
use talents_parsl_checkpoint.Dataflow.Errors.{Result, ◌>>=◌}
use talents_parsl_checkpoint.Dataflow.Values.{Value, Fields, Runtime, list, dict, field}
use talents_parsl_checkpoint.Dataflow.Memo.Identity.{
  gather_ids, pickled, byte_items, codes, lex_le, insert_key, sort_keys, id_for_memo, fields_ids,
}

lex_le_total : (xs ys : List ℕ) → lex_le xs ys ≡ false → lex_le ys xs ≡ true
unfolding lex_le
lex_le_total [] ys h = cc
lex_le_total (x ∷ xs) [] h = refl
lex_le_total (x ∷ xs) (y ∷ ys) h = ground (arith, lex_le_total xs ys)

lex_le_trans : (xs ys zs : List ℕ) → lex_le xs ys ≡ true → lex_le ys zs ≡ true → lex_le xs zs ≡ true
unfolding lex_le
lex_le_trans [] ys zs h i = refl
lex_le_trans (x ∷ xs) [] zs h i = cc
lex_le_trans (x ∷ xs) (y ∷ ys) [] h i = cc
lex_le_trans (x ∷ xs) (y ∷ ys) (z ∷ zs) h i = ground (arith, lex_le_trans xs ys zs)

lex_le_antisym : (xs ys : List ℕ) → lex_le xs ys ≡ true → lex_le ys xs ≡ true → xs ≡ ys
unfolding lex_le
lex_le_antisym [] [] h i = refl
lex_le_antisym [] (y ∷ ys) h i = cc
lex_le_antisym (x ∷ xs) [] h i = cc
lex_le_antisym (x ∷ xs) (y ∷ ys) h i = ground (arith, lex_le_antisym xs ys)

codes_injective : (s t : String) → codes s ≡ codes t → s ≡ t
codes_injective String.[] String.[] h = refl
codes_injective String.[] (String.◌∷◌ d t) h = cc
codes_injective (String.◌∷◌ c s) String.[] h = cc
codes_injective (String.◌∷◌ c s) (String.◌∷◌ d t) h =
    let heads : code c ≡ code d = cc in
    let tails : codes s ≡ codes t = cc in rw (Char-path c d heads, codes_injective s t tails) refl

-- `k <= j` on keys.
abbrev key_le : String → String → Bool
key_le k j = lex_le (codes k) (codes j)

abbrev Ids : Type 0
Ids = List (String × Result (List ℕ))

module _ (k j : String) (b c : Result (List ℕ)) (apart : k ≢ j) where
  -- Of two keys, one is strictly below the other.
  below_above : key_le k j ≡ true → key_le j k ≡ false
  below_above h = elim (Bool-cases (key_le j k)) [
    | inl both ↦ absurd (apart (codes_injective k j (lex_le_antisym (codes k) (codes j) h both)))
    | inr above ↦ above
  ]

  insert_key_comm :
      (ids : Ids)
      → key_le k j ≡ true
      → insert_key k b (insert_key j c ids) ≡ insert_key j c (insert_key k b ids)
  unfolding insert_key
  insert_key_comm [] h = rw (h, below_above h) refl
  insert_key_comm ((i, a) ∷ ids) h = elim (Bool-cases (key_le j i)) [
    | inl second ↦
        let first = lex_le_trans (codes k) (codes j) (codes i) h second in
        rw (second, first) (rw (h, below_above h, second) refl)
    | inr third ↦ elim (Bool-cases (key_le k i)) [
      | inl first ↦ rw (third, first) (rw (below_above h, third) refl)
      | inr fourth ↦ rw (third, fourth) (rw third (ap (λ l. (i, a) ∷ l) (insert_key_comm ids h)))
    ]
  ]

insert_key_swap :
    (k j : String) (b c : Result (List ℕ)) (ids : Ids)
    → k ≢ j
    → insert_key k b (insert_key j c ids) ≡ insert_key j c (insert_key k b ids)
insert_key_swap k j b c ids apart = elim (Bool-cases (key_le k j)) [
  | inl below ↦ insert_key_comm k j b c apart ids below
  | inr above ↦
      sym
        (insert_key_comm j k c b (λ e. apart (sym e)) ids (lex_le_total (codes k) (codes j) above))
]

-- The same keyword arguments, in another order.
pub data Reordered : Fields → Fields → Type 0 where
  same : (fs : Fields) → Reordered fs fs
  swapped :
      (k j : String) (v w : Value) (fs : Fields)
      → k ≢ j
      → Reordered (field k v (field j w fs)) (field j w (field k v fs))
  below :
      (k : String) (v : Value) {fs gs : Fields}
      → Reordered fs gs
      → Reordered (field k v fs) (field k v gs)
  then : {fs gs hs : Fields} → Reordered fs gs → Reordered gs hs → Reordered fs hs

module _ (rt : Runtime) (output_ref : Bool) where
  sorted_ids :
      {fs gs : Fields}
      → Reordered fs gs
      → sort_keys (fields_ids rt fs output_ref) ≡ sort_keys (fields_ids rt gs output_ref)
  unfolding sort_keys fields_ids
  sorted_ids (Reordered.same fs) = refl
  sorted_ids (Reordered.swapped k j v w fs apart) =
      insert_key_swap k j (id_for_memo rt v output_ref) (id_for_memo rt w output_ref)
        (sort_keys (fields_ids rt fs output_ref)) apart
  sorted_ids (Reordered.below k v r) =
      ap (insert_key k (id_for_memo rt v output_ref)) (sorted_ids r)
  sorted_ids (Reordered.then r s) = sorted_ids r ∙ sorted_ids s

  -- A dict is identified by its items, whatever order they were put in: two dicts that differ in the
  -- order of their keys only have the same identification, or fail in the same way.
  pub id_for_memo-Reordered :
      (fs gs : Fields)
      → Reordered fs gs
      → id_for_memo rt (dict fs) output_ref ≡ id_for_memo rt (dict gs) output_ref
  unfolding id_for_memo
  id_for_memo-Reordered fs gs r =
      ap (λ ids. gather_ids rt ids >>= λ bs. pickled rt (list (byte_items bs))) (sorted_ids r)

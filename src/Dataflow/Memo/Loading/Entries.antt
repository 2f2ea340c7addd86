-- ===== src/Dataflow/Memo/Loading/Entries.antt =====
-- What the lookup table holds once records are put into it (solution/memoization.py,
-- `_load_checkpoints`).
use talents_parsl_checkpoint.Prelude.{
  ℕ, ◌≤◌, ◌<◌, String, ◌≡◌, refl, ap, ◌∙◌, Option, none, some, List, [], ◌∷◌, arith, Option-cases,
  Bool-cases, inl, inr, if◌then◌else◌, ==_refl,
}
use mathlib.Core.Path.{subst}
use text.Mathlib.Text.{◌==◌ as str_eq}
use text.Mathlib.TextEquality.{eq_iff}
use talents_parsl_checkpoint.Dataflow.Values.{Value, Runtime, Heap, alloc}
use talents_parsl_checkpoint.Dataflow.Memo.{MemoEntry, Table, lookup, insert, from_result}
use talents_parsl_checkpoint.Dataflow.Memo.Loading.{add_record}

lookup-insert :
    (k j : String) (e : MemoEntry) (t : Table)
    → lookup k (insert j e t) ≡ (if str_eq j k then some e else lookup k t)
unfolding lookup insert
lookup-insert k j e [] = refl
lookup-insert k j e ((i, d) ∷ t) =
    ground (arith, lookup-insert k j e t, eq_iff i j, eq_iff i k, eq_iff j k)

-- The value of the last record with the hash, if there is one.
unfoldable pub last_value : String → List (String × Value) → Option Value
last_value k [] = none
last_value k ((j, v) ∷ es) =
    let first = if str_eq j k then some v else none in
    elim (last_value k es) [ none ↦ first | some w ↦ some w ]

-- The heap has new objects, and the old ones are as they were.
pub record Extends (h g : Heap) : Type 0 where
  pub larger : h.size ≤ g.size
  pub same : (r : ℕ) → r < h.size → g.content r ≡ h.content r

Extends-refl : (h : Heap) → Extends h h
Extends-refl h = record { larger = omega arith; same = λ r less. refl }

Extends-trans : (h g f : Heap) → Extends h g → Extends g f → Extends h f
Extends-trans h g f first second = record {
  larger = omega (arith, first.larger, second.larger);
  same = λ r less. second.same r (omega (arith, first.larger)) ∙ first.same r less;
}

alloc-Extends : (v : Value) (h : Heap) → Extends h (alloc v h).1
unfolding alloc
alloc-Extends v h = record { larger = omega arith; same = λ r less. ground arith }

module _ (rt : Runtime) where
  -- The entry was made of the value: its payload is the pickle. If the value does not pickle, the
  -- entry refers to a copy of it, or, if that is not to be had either, to an object that holds it.
  pub data IsEntryOf (v : Value) (e : MemoEntry) (h : Heap) : Type 0 where
    pickled :
        (b : List ℕ)
        → rt.dumps v ≡ some b
        → e ≡ record { payload = some b; fallback = none; exception = none }
        → IsEntryOf v e h
    copied :
        (w : Value) (r : ℕ)
        → rt.dumps v ≡ none
        → rt.deepcopy v ≡ some w
        → e ≡ record { payload = none; fallback = some r; exception = none }
        → r < h.size
        → h.content r ≡ w
        → IsEntryOf v e h
    shared :
        (r : ℕ)
        → rt.dumps v ≡ none
        → rt.deepcopy v ≡ none
        → e ≡ record { payload = none; fallback = some r; exception = none }
        → r < h.size
        → h.content r ≡ v
        → IsEntryOf v e h

  -- What a key is found to have in the table `after` that was made of `before` by putting the records in:
  -- the entry of the last record with that hash, or what was there before if none has it.
  pub data Found (k : String) (es : List (String × Value)) (before after : Table × Heap)
      : Type 0 where
    loaded :
        (v : Value) (e : MemoEntry)
        → last_value k es ≡ some v
        → lookup k after.0 ≡ some e
        → IsEntryOf v e after.1
        → Found k es before after
    kept : last_value k es ≡ none → lookup k after.0 ≡ lookup k before.0 → Found k es before after

  -- The records are put into the table in the order of the stream.
  unfoldable pub add_all : List (String × Value) → Table × Heap → Table × Heap
  add_all [] state = state
  add_all (e ∷ es) state = add_all es (add_record rt e state)

  IsEntryOf-Extends :
      (v : Value) (e : MemoEntry) (h g : Heap) → Extends h g → IsEntryOf v e h → IsEntryOf v e g
  IsEntryOf-Extends v e h g x (IsEntryOf.pickled b pickles is) = IsEntryOf.pickled b pickles is
  IsEntryOf-Extends v e h g x (IsEntryOf.copied w r fails copies is less holds) =
      IsEntryOf.copied w r fails copies is (omega (arith, x.larger)) (x.same r less ∙ holds)
  IsEntryOf-Extends v e h g x (IsEntryOf.shared r fails uncopied is less holds) =
      IsEntryOf.shared r fails uncopied is (omega (arith, x.larger)) (x.same r less ∙ holds)

  alloc_content : (v : Value) (h : Heap) → (alloc v h).1.content h.size ≡ v
  unfolding alloc
  alloc_content v h = rw (==_refl h.size) refl

  from_result-IsEntryOf :
      (r : ℕ) (h : Heap)
      → r < h.size
      → IsEntryOf (h.content r) (from_result rt r h).0 (from_result rt r h).1
        × Extends h (from_result rt r h).1
  unfolding from_result alloc
  from_result-IsEntryOf r h less = elim (Option-cases (rt.dumps (h.content r))) [
    | inr (b, pickles) ↦ rw pickles (IsEntryOf.pickled b pickles refl, Extends-refl h)
    | inl fails ↦ elim (Option-cases (rt.deepcopy (h.content r))) [
      | inl uncopied ↦
          rw (fails, uncopied) (IsEntryOf.shared r fails uncopied refl less refl, Extends-refl h)
      | inr (w, copies) ↦
          rw (fails, copies)
            (
              IsEntryOf.copied w h.size fails copies refl (omega arith) (alloc_content w h),
              alloc-Extends w h,
            )
    ]
  ]

  -- What a record changes.
  record Put (k : String) (v : Value) (before after : Table × Heap) : Type 0 where
    new : MemoEntry
    table : after.0 ≡ insert k new before.0
    made : IsEntryOf v new after.1
    extends : Extends before.1 after.1

  add_record-Put :
      (k : String) (v : Value) (state : Table × Heap) → Put k v state (add_record rt (k, v) state)
  unfolding add_record alloc
  add_record-Put k v (table, h) =
      let (made, more) = from_result-IsEntryOf h.size (alloc v h).1 (omega arith) in
      record {
        new = (from_result rt h.size (alloc v h).1).0;
        table = refl;
        made =
            subst
              (λ w.
                IsEntryOf w (from_result rt h.size (alloc v h).1).0
                  (from_result rt h.size (alloc v h).1).1)
              (alloc_content v h) made;
        extends = Extends-trans h (alloc v h).1 _ (alloc-Extends v h) more;
      }

  add_all-Extends :
      (es : List (String × Value)) (state : Table × Heap) → Extends state.1 (add_all es state).1
  unfolding add_all
  add_all-Extends [] state = Extends-refl state.1
  add_all-Extends ((j, v) ∷ es) state =
      let mid = add_record rt (j, v) state in
      Extends-trans state.1 mid.1 (add_all es mid).1 (add_record-Put j v state).extends
        (add_all-Extends es mid)

  -- One record more in front.
  Found-cons :
      (k j : String) (v : Value) (es : List (String × Value)) (before mid after : Table × Heap)
      → Put j v before mid
      → Extends mid.1 after.1
      → Found k es mid after
      → Found k ((j, v) ∷ es) before after
  unfolding last_value
  Found-cons k j v es before mid after put x (Found.loaded w e last there made) =
      Found.loaded w e (rw last refl) there made
  Found-cons k j v es before mid after put x (Found.kept none_more same) =
      let at_mid : lookup k mid.0 ≡ (if str_eq j k then some put.new else lookup k before.0) =
        ap (lookup k) put.table ∙ lookup-insert k j put.new before.0 in
      elim (Bool-cases (str_eq j k)) [
        | inl this ↦
            Found.loaded v put.new (rw (none_more, this) refl) (same ∙ rw this at at_mid)
              (IsEntryOf-Extends v put.new mid.1 after.1 x put.made)
        | inr other ↦ Found.kept (rw (none_more, other) refl) (same ∙ rw other at at_mid)
      ]

  add_all-Found :
      (k : String) (es : List (String × Value)) (state : Table × Heap)
      → Found k es state (add_all es state)
  unfolding add_all last_value
  add_all-Found k [] state = Found.kept refl refl
  add_all-Found k ((j, v) ∷ es) state =
      let mid = add_record rt (j, v) state in
      Found-cons k j v es state mid (add_all es mid) (add_record-Put j v state)
        (add_all-Extends es mid) (add_all-Found k es mid)

  -- Every key is found as `Found` says, and the objects that were there are as they were.
  pub record IsLoaded (es : List (String × Value)) (before after : Table × Heap) : Type 0 where
    pub found : (k : String) → Found k es before after
    pub extends : Extends before.1 after.1

  pub add_all-IsLoaded :
      (es : List (String × Value)) (state : Table × Heap) → IsLoaded es state (add_all es state)
  add_all-IsLoaded es state = record {
    found = λ k. add_all-Found k es state;
    extends = add_all-Extends es state;
  }

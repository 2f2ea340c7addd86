-- ===== src/Dataflow/Kernel/Counts.antt =====
-- The counters of the task states (solution/dflow.py, `update_task_state`).
use talents_parsl_checkpoint.Prelude.{
  ℕ, zero, suc, ◌+◌, ◌≤◌, ◌==◌, ◌≡◌, ◌≢◌, refl, ap, false, Option, none, some, List, [], ◌∷◌, count,
  arith, Bool-cases, inl, inr, if◌then◌else◌, ==_refl, ==_iff,
}
use talents_parsl_checkpoint.Prelude.Int.{ℤ, pos}
use talents_parsl_checkpoint.Dataflow.States.{States, ◌is◌}
use talents_parsl_checkpoint.Dataflow.Tasks.{TaskRecord}
use talents_parsl_checkpoint.Dataflow.Kernel.{Dfk, update}
use talents_parsl_checkpoint.Dataflow.Kernel.Publish.{recount, update_task_state}

-- Whether the state of a task is s.
abbrev pub is_at : States → Option States → ℕ
is_at s none = 0
is_at s (some t) = if s is t then 1 else 0

unfoldable pub sum_of : (ℕ → ℕ) → List ℕ → ℕ
sum_of f [] = 0
sum_of f (t ∷ ts) = f t + sum_of f ts

-- How many of the tasks are in the state s.
abbrev pub tally : States → (ℕ → TaskRecord) → List ℕ → ℕ
tally s record_of ids = sum_of (λ t. is_at s (record_of t).status) ids

-- The tasks `ids` are those that have a state, and each counter is the number of them in its state.
pub record IsTallied (ids : List ℕ) (d : Dfk) : Type 0 where
  pub once : (t : ℕ) → count t ids ≤ 1
  pub others : (t : ℕ) → count t ids ≡ 0 → (d.record_of t).status ≡ none
  pub counts : (s : States) → d.task_state_counts s ≡ pos (tally s d.record_of ids)

recount_lem :
    (old : Option States) (new s : States) (counts : States → ℤ) (n m : ℕ)
    → counts s ≡ pos n
    → is_at s old ≤ n
    → m + is_at s old ≡ n + is_at s (some new)
    → recount old new counts s ≡ pos m
recount_lem none new s counts n m e le h = ground arith
recount_lem (some old) new s counts zero m e le h = ground arith
recount_lem (some old) new s counts (suc n) m e le h = ground arith

-- Sums of functions that differ at t only.
module _ (f g : ℕ → ℕ) (t : ℕ) (same : (u : ℕ) → t ≢ u → g u ≡ f u) where
  sum_of-other : (ids : List ℕ) → count t ids ≡ 0 → sum_of g ids ≡ sum_of f ids
  unfolding sum_of
  sum_of-other [] h = refl
  sum_of-other (u ∷ ids) h = ground (arith, same u, sum_of-other ids)

  sum_of-changed : (ids : List ℕ) → count t ids ≡ 1 → sum_of g ids + f t ≡ sum_of f ids + g t
  unfolding sum_of
  sum_of-changed [] h = absurd (omega arith)
  sum_of-changed (u ∷ ids) h = ground (arith, same u, sum_of-changed ids, sum_of-other ids)

le-sum_of : (f : ℕ → ℕ) (t : ℕ) (ids : List ℕ) → count t ids ≡ 1 → f t ≤ sum_of f ids
unfolding sum_of
le-sum_of f t [] h = absurd (omega arith)
le-sum_of f t (u ∷ ids) h = ground (arith, le-sum_of f t ids)

not_same : (t u : ℕ) → t ≢ u → (u == t) ≡ false
not_same t u ne = ground arith

module _ (t : ℕ) (new : States) (ids : List ℕ) (d : Dfk) (h : IsTallied ids d) where
  abbrev after : Dfk
  after = (update_task_state t new d).1

  abbrev changed : ℕ → TaskRecord
  changed = update d.record_of t (record (d.record_of t) { status = some new })

  at_other :
      (s : States) (u : ℕ) → t ≢ u → is_at s (changed u).status ≡ is_at s (d.record_of u).status
  at_other s u ne = rw (not_same t u ne) refl

  at_self : (s : States) → is_at s (changed t).status ≡ is_at s (some new)
  at_self s = rw (==_refl t) refl

  fresh-counts :
      (s : States)
      → count t ids ≡ 0
      → recount (d.record_of t).status new d.task_state_counts s ≡ pos (tally s changed (t ∷ ids))
  unfolding sum_of
  fresh-counts s fresh =
      let stateless = ap (is_at s) (h.others t fresh) in
      let at = at_self s in
      let rest =
        sum_of-other (λ u. is_at s (d.record_of u).status) (λ u. is_at s (changed u).status) t
          (at_other s) ids fresh in
      recount_lem (d.record_of t).status new s d.task_state_counts (tally s d.record_of ids)
        (tally s changed (t ∷ ids)) (h.counts s) (omega (arith, stateless))
        (omega (arith, stateless, at, rest))

  known-counts :
      (s : States)
      → count t ids ≡ 1
      → recount (d.record_of t).status new d.task_state_counts s ≡ pos (tally s changed ids)
  known-counts s known =
      let at = at_self s in
      let swap =
        sum_of-changed (λ u. is_at s (d.record_of u).status) (λ u. is_at s (changed u).status) t
          (at_other s) ids known in
      recount_lem (d.record_of t).status new s d.task_state_counts (tally s d.record_of ids)
        (tally s changed ids) (h.counts s)
        (le-sum_of (λ u. is_at s (d.record_of u).status) t ids known) (omega (arith, at, swap))

  others-update : (u : ℕ) → count u ids ≡ 0 → t ≢ u → (changed u).status ≡ none
  others-update u out ne = rw (not_same t u ne) (h.others u out)

  -- The task has a state after the update, the others as before.
  pub update_task_state-IsTallied : (later : List ℕ) × IsTallied later (update_task_state t new d).1
  unfolding update_task_state
  update_task_state-IsTallied = elim (Bool-cases (count t ids == 0)) [
    | inl fresh ↦ (
      t ∷ ids,
      record {
        once = λ u. ground (arith, h.once u);
        others = λ u out. others-update u (omega arith) (ground arith);
        counts = λ s. fresh-counts s ((==_iff (count t ids) 0).0 fresh);
      },
    )
    | inr known ↦ (
      ids,
      record {
        once = h.once;
        others = λ u out. others-update u out (λ e. ground (arith, e));
        counts = λ s. known-counts s (ground (arith, h.once t));
      },
    )
  ]

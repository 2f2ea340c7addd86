-- ===== src/Executors/Interchange/Queue/Order.antt =====
-- Lemmas on the pending queue: what goes in, and what a batch takes out
-- (environment/parsl/executors/high_throughput/interchange.py, `process_task_incoming`, `get_tasks`).
use talents_parsl_checkpoint.Prelude.{
  ℕ, zero, suc, ◌+◌, ◌≤◌, ◌==◌, ◌≡◌, refl, ap, ◌⊎◌, inl, inr, true, List, [], ◌∷◌, ◌++◌, length,
  All, count, count-append, arith, if◌then◌else◌,
}
use mathlib.Core.Path.{subst}
use talents_parsl_checkpoint.Prelude.{sym, and_both, leb→le, ==_iff, Bool-cases, ◌<◌}
use talents_parsl_checkpoint.Prelude.Int.{ℤ, pos, negsuc}
use talents_parsl_checkpoint.Executors.Interchange.{
  QueueEntry, pops_before, task_ids, Interchange, Priority, finite, infinite, le_ℤ, le_priority,
}
use talents_parsl_checkpoint.Executors.Interchange.Queue.{
  Inserted, IsOrdered, SortedList, TaskMessage, Batch, get_tasks, process_task_incoming,
}
use talents_parsl_checkpoint.Executors.Interchange.Sound.{IsSound}

task_ids-append : (q r : List QueueEntry) → task_ids (q ++ r) ≡ task_ids q ++ task_ids r
unfolding task_ids
task_ids-append [] r = refl
task_ids-append (e ∷ q) r = ap (λ l. e.task_id ∷ l) (task_ids-append q r)

All-append-cons {ℓ} :
    (P : QueueEntry → Type ℓ) (e : QueueEntry) (front back : List QueueEntry)
    → All P (front ++ back)
    → P e
    → All P (front ++ e ∷ back)
All-append-cons P e [] back h p = (p, h)
All-append-cons P e (f ∷ front) back h p = (h.0, All-append-cons P e front back h.1 p)

IsOrdered-append-cons :
    (e : QueueEntry) (front back : List QueueEntry)
    → IsOrdered (front ++ back)
    → All (λ f. pops_before f e ≡ true) front
    → All (λ f. pops_before e f ≡ true) back
    → IsOrdered (front ++ e ∷ back)
unfolding IsOrdered
IsOrdered-append-cons e [] back h before after = (after, h)
IsOrdered-append-cons e (f ∷ front) back h before after = (
  All-append-cons (λ g. pops_before f g ≡ true) e front back h.0 before.0,
  IsOrdered-append-cons e front back h.1 before.1 after,
)

module _ (e : QueueEntry) (q r : List QueueEntry) (put : Inserted e q r) where
  pub Inserted-IsOrdered : IsOrdered q → IsOrdered r
  Inserted-IsOrdered h =
      rw put.is (IsOrdered-append-cons e put.front put.back (rw put.was at h) put.before put.after)

  pub Inserted-count :
      (x : ℕ) → count x (task_ids r) ≡ (if e.task_id == x then 1 else 0) + count x (task_ids q)
  unfolding task_ids
  Inserted-count x =
      rw
        (
          put.is,
          put.was,
          task_ids-append put.front put.back,
          task_ids-append put.front (e ∷ put.back),
        )
        (omega (
          arith,
          count-append x (task_ids put.front) (task_ids put.back),
          count-append x (task_ids put.front) (e.task_id ∷ task_ids put.back),
        ))

pub process_task_incoming-IsSound :
    (sl : SortedList) (msg : TaskMessage) (seen : List ℕ) (s : Interchange)
    → IsSound seen s
    → IsSound seen (process_task_incoming sl msg s)
unfolding process_task_incoming
process_task_incoming-IsSound sl msg seen s h =
    let e : QueueEntry = record {
      priority = msg.priority;
      arrival = s.task_counter;
      task_id = msg.task_id;
    } in
    let q = s.pending_task_queue in
    let put = sl.add_inserts e q h.ordered in
    record {
      tracked = h.tracked;
      ordered = Inserted-IsOrdered e q (sl.add e q) put h.ordered;
      conserved = λ x. omega (arith, Inserted-count e q (sl.add e q) put x, h.conserved x);
    }

-- What a batch of at most n tasks leaves.
pub record Taken (n : ℕ) (q : List QueueEntry) (b : Batch) : Type 0 where
  pub entries : List QueueEntry
  pub are : b.tasks ≡ task_ids entries
  pub were : q ≡ entries ++ b.rest
  pub fits : length b.tasks ≤ n
  pub all : (b.rest ≡ []) ⊎ (length b.tasks ≡ n)

pub get_tasks-Taken : (n : ℕ) (q : List QueueEntry) → Taken n q (get_tasks n q)
unfolding get_tasks task_ids
get_tasks-Taken zero q = record {
  entries = [];
  are = refl;
  were = refl;
  fits = omega arith;
  all = inr refl;
}
get_tasks-Taken (suc n) [] = record {
  entries = [];
  are = refl;
  were = refl;
  fits = omega arith;
  all = inl refl;
}
get_tasks-Taken (suc n) (e ∷ q) =
    let more = get_tasks-Taken n q in
    record {
      entries = e ∷ more.entries;
      are = ap (λ l. e.task_id ∷ l) more.are;
      were = ap (λ l. e ∷ l) more.were;
      fits = omega (arith, more.fits);
      all = ground (arith, more.all);
    }

All-append_right {ℓ} : (P : QueueEntry → Type ℓ) (q r : List QueueEntry) → All P (q ++ r) → All P r
All-append_right P [] r h = h
All-append_right P (e ∷ q) r h = All-append_right P q r h.1

-- All that were taken are popped before all that stay.
pub IsOrdered-append :
    (q r : List QueueEntry)
    → IsOrdered (q ++ r)
    → IsOrdered r × All (λ e. All (λ f. pops_before e f ≡ true) r) q
unfolding IsOrdered
IsOrdered-append [] r h = (h, tt)
IsOrdered-append (e ∷ q) r h =
    let (ordered, all) = IsOrdered-append q r h.1 in
    (ordered, (All-append_right (λ f. pops_before e f ≡ true) q r h.0, all))

module _ {n : ℕ} {q : List QueueEntry} {b : Batch} (taken : Taken n q b) where
  pub Taken-IsOrdered : IsOrdered q → IsOrdered b.rest
  Taken-IsOrdered h = (IsOrdered-append taken.entries b.rest (rw taken.were at h)).0

  pub Taken-count : (x : ℕ) → count x (task_ids q) ≡ count x b.tasks + count x (task_ids b.rest)
  Taken-count x =
      rw (taken.are, taken.were, task_ids-append taken.entries b.rest)
        (count-append x (task_ids taken.entries) (task_ids b.rest))

-- The order of the integers.
pub data IsLess : ℤ → ℤ → Type 0 where
  positive : (m n : ℕ) → m < n → IsLess (pos m) (pos n)
  negative : (m n : ℕ) → n < m → IsLess (negsuc m) (negsuc n)
  across : (m n : ℕ) → IsLess (negsuc m) (pos n)

-- A lower number is more urgent, and no number is the least urgent.
pub data IsMoreUrgent : Priority → Priority → Type 0 where
  numbers : (m n : ℤ) → IsLess m n → IsMoreUrgent (finite m) (finite n)
  over_none : (m : ℤ) → IsMoreUrgent (finite m) infinite

-- The first of two tasks is more urgent, or it is as urgent and came no later.
abbrev pub IsServedFirst : QueueEntry → QueueEntry → Type 0
IsServedFirst e f =
    IsMoreUrgent e.priority f.priority ⊎ ((e.priority ≡ f.priority) × (e.arrival ≤ f.arrival))

le_ℤ-IsLess : (m n : ℤ) → le_ℤ m n ≡ true → IsLess m n ⊎ (m ≡ n)
le_ℤ-IsLess (pos m) (pos n) le = elim (Bool-cases (m == n)) [
  | inl same ↦ inr (ap pos ((==_iff m n).0 same))
  | inr other ↦ inl (IsLess.positive m n (ground (arith, leb→le m n le, other)))
]
le_ℤ-IsLess (pos m) (negsuc n) le = cc
le_ℤ-IsLess (negsuc m) (pos n) le = inl (IsLess.across m n)
le_ℤ-IsLess (negsuc m) (negsuc n) le = elim (Bool-cases (m == n)) [
  | inl same ↦ inr (ap negsuc ((==_iff m n).0 same))
  | inr other ↦ inl (IsLess.negative m n (ground (arith, leb→le n m le, other)))
]

le_priority-IsMoreUrgent : (p q : Priority) → le_priority p q ≡ true → IsMoreUrgent p q ⊎ (p ≡ q)
le_priority-IsMoreUrgent infinite infinite le = inr refl
le_priority-IsMoreUrgent (finite m) infinite le = inl (IsMoreUrgent.over_none m)
le_priority-IsMoreUrgent infinite (finite n) le = cc
le_priority-IsMoreUrgent (finite m) (finite n) le = elim (le_ℤ-IsLess m n le) [
  | inl less ↦ inl (IsMoreUrgent.numbers m n less)
  | inr same ↦ inr (ap finite same)
]

pops_before-IsServedFirst : (e f : QueueEntry) → pops_before e f ≡ true → IsServedFirst e f
pops_before-IsServedFirst e f pops =
    let both = and_both (le_priority e.priority f.priority) _ pops in
    elim (le_priority-IsMoreUrgent e.priority f.priority both.0) [
      | inl urgent ↦ inl urgent
      | inr same ↦
          let back : le_priority f.priority e.priority ≡ true =
            subst (λ p. le_priority f.priority p ≡ true) (sym same)
              (subst (λ p. le_priority p f.priority ≡ true) same both.0) in
          inr (same, leb→le e.arrival f.arrival (rw back at both.1))
    ]

All-imp {ℓ κ} :
    {P : QueueEntry → Type ℓ} {Q : QueueEntry → Type κ} (q : List QueueEntry)
    → ((e : QueueEntry) → P e → Q e)
    → All P q
    → All Q q
All-imp [] f h = tt
All-imp (e ∷ q) f h = (f e h.0, All-imp q f h.1)

-- For every queue that is in order and every number of tasks that are asked for: the batch is a front
-- part of the queue, it has as many tasks as were asked for or leaves none, and each task of it is
-- more urgent than each that stays, or as urgent and came no later. A task with a lower number is more
-- urgent, and one without a number is the least urgent.
pub get_tasks_first :
    (n : ℕ) (q : List QueueEntry)
    → IsOrdered q
    → let b = get_tasks n q in
      (taken : List QueueEntry) × (q ≡ taken ++ b.rest)
      × (b.tasks ≡ task_ids taken)
      × (length b.tasks ≤ n)
      × ((b.rest ≡ []) ⊎ (length b.tasks ≡ n))
      × All (λ e. All (λ f. IsServedFirst e f) b.rest) taken
get_tasks_first n q h =
    let t = get_tasks-Taken n q in
    let b = get_tasks n q in
    (
      t.entries,
      t.were,
      t.are,
      t.fits,
      t.all,
      All-imp t.entries
          (λ e stay. All-imp b.rest (λ f pops. pops_before-IsServedFirst e f pops) stay)
          (IsOrdered-append t.entries b.rest (rw t.were at h)).1,
    )

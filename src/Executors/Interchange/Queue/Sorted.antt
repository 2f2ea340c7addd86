-- ===== src/Executors/Interchange/Queue/Sorted.antt =====
-- A list that is sorted by insertion does what is asked of `SortedList`
-- (environment/parsl/executors/high_throughput/interchange.py, `pending_task_queue`).
use talents_parsl_checkpoint.Prelude.{
  ◌≡◌, refl, ap, true, false, List, [], ◌∷◌, All, arith, Bool-cases, inl, inr,
}
use talents_parsl_checkpoint.Prelude.Int.{pos, negsuc}
use talents_parsl_checkpoint.Prelude.Sorting.{insert_sorted}
use talents_parsl_checkpoint.Executors.Interchange.{
  Priority, finite, infinite, le_priority, QueueEntry, pops_before,
}
use talents_parsl_checkpoint.Executors.Interchange.Queue.{Inserted, IsOrdered, SortedList}

le_priority-total : (p q : Priority) → le_priority p q ≡ false → le_priority q p ≡ true
le_priority-total (finite (pos m)) (finite (pos n)) h = ground arith
le_priority-total (finite (pos m)) (finite (negsuc n)) h = refl
le_priority-total (finite (negsuc m)) (finite (pos n)) h = cc
le_priority-total (finite (negsuc m)) (finite (negsuc n)) h = ground arith
le_priority-total infinite (finite n) h = refl
le_priority-total p infinite h = cc

le_priority_trans :
    (p q r : Priority) → le_priority p q ≡ true → le_priority q r ≡ true → le_priority p r ≡ true
le_priority_trans p q infinite h k = refl
le_priority_trans p infinite (finite n) h k = cc
le_priority_trans infinite (finite m) (finite n) h k = cc
le_priority_trans (finite (pos l)) (finite (pos m)) (finite (pos n)) h k = ground arith
le_priority_trans (finite (pos l)) (finite (pos m)) (finite (negsuc n)) h k = cc
le_priority_trans (finite (pos l)) (finite (negsuc m)) (finite n) h k = cc
le_priority_trans (finite (negsuc l)) (finite m) (finite (pos n)) h k = refl
le_priority_trans (finite (negsuc l)) (finite (pos m)) (finite (negsuc n)) h k = cc
le_priority_trans (finite (negsuc l)) (finite (negsuc m)) (finite (negsuc n)) h k = ground arith

pops_before-total : (e f : QueueEntry) → pops_before e f ≡ false → pops_before f e ≡ true
pops_before-total e f h =
    ground (arith, le_priority-total e.priority f.priority, le_priority-total f.priority e.priority)

pops_before_trans :
    (e f g : QueueEntry) → pops_before e f ≡ true → pops_before f g ≡ true → pops_before e g ≡ true
pops_before_trans e f g h k = ground (
  arith,
  le_priority_trans e.priority f.priority g.priority,
  le_priority_trans g.priority e.priority f.priority,
  le_priority_trans f.priority g.priority e.priority,
)

All-pops_before :
    (e f : QueueEntry) (q : List QueueEntry)
    → pops_before e f ≡ true
    → All (λ g. pops_before f g ≡ true) q
    → All (λ g. pops_before e g ≡ true) q
All-pops_before e f [] h a = tt
All-pops_before e f (g ∷ q) h a = (pops_before_trans e f g h a.0, All-pops_before e f q h a.1)

pub insert_sorted-Inserted :
    (e : QueueEntry) (q : List QueueEntry)
    → IsOrdered q
    → Inserted e q (insert_sorted pops_before e q)
unfolding insert_sorted IsOrdered
insert_sorted-Inserted e [] h = record {
  front = [];
  back = [];
  was = refl;
  is = refl;
  before = tt;
  after = tt;
}
insert_sorted-Inserted e (f ∷ q) h = elim (Bool-cases (pops_before e f)) [
  | inl first ↦ rw first (record {
    front = [];
    back = f ∷ q;
    was = refl;
    is = refl;
    before = tt;
    after = (first, All-pops_before e f q first h.0);
  })
  | inr later ↦
      let i = insert_sorted-Inserted e q h.1 in
      rw later (record {
        front = f ∷ i.front;
        back = i.back;
        was = ap (λ l. f ∷ l) i.was;
        is = ap (λ l. f ∷ l) i.is;
        before = (pops_before-total e f later, i.before);
        after = i.after;
      })
]

abbrev pub by_insertion : SortedList
by_insertion = record { add = insert_sorted pops_before; add_inserts = insert_sorted-Inserted }

-- ===== src/Executors/Mpi/Nodes.antt =====
-- Lemmas on the free nodes and the backlog
-- (environment/parsl/executors/high_throughput/mpi_resource_management.py).
use mathlib.Core.Path.{subst}
use talents_parsl_checkpoint.Prelude.{
  length-drop, le→leb, lt→leb, ℕ, zero, suc, ◌+◌, ◌-◌, ◌≤◌, ◌<◌, ◌≡◌, refl, sym, ap, ◌∙◌, Option,
  none, some, List, [], ◌∷◌, length, leb, arith, Bool-cases, inl, inr, All,
}
use talents_parsl_checkpoint.Prelude.Sorting.{
  insert_sorted, by_key, IsAscending, insert_sorted-IsAscending,
}
use talents_parsl_checkpoint.Executors.Mpi.{
  Package, PrioritizedTask, priority_of, Scheduler, get_nodes, place, put_needing, put_task,
  schedule_from, schedule_backlog_tasks,
}

-- A waiting task asks for the nodes that it was put aside for.
abbrev pub IsWaiting : PrioritizedTask → Type 0
IsWaiting p = (p.task.num_nodes ≡ some p.priority) × (0 < p.priority)

-- The counter is the number of free nodes, the backlog is in order, and each of its tasks waits with
-- the number of nodes that it needs.
pub record IsCounted (s : Scheduler) : Type 0 where
  pub counter : s.free_node_counter ≡ length s.nodes_q
  pub ordered : IsAscending priority_of s.backlog_queue
  pub waiting : All IsWaiting s.backlog_queue

insert_sorted-IsWaiting :
    (p : PrioritizedTask) (ps : List PrioritizedTask)
    → IsWaiting p
    → All IsWaiting ps
    → All IsWaiting (insert_sorted (by_key priority_of) p ps)
unfolding insert_sorted
insert_sorted-IsWaiting p [] waits h = (waits, tt)
insert_sorted-IsWaiting p (q ∷ ps) waits h = elim (Bool-cases (leb p.priority q.priority)) [
  | inl front ↦ rw front (waits, h)
  | inr behind ↦ rw behind (h.0, insert_sorted-IsWaiting p ps waits h.1)
]

put_needing-IsCounted :
    (p : Package) (n : Option ℕ) (s : Scheduler)
    → p.num_nodes ≡ n
    → IsCounted s
    → IsCounted (put_needing p n s)
unfolding put_needing place get_nodes
put_needing-IsCounted p none s asks h = record {
  counter = h.counter;
  ordered = h.ordered;
  waiting = h.waiting;
}
put_needing-IsCounted p (some zero) s asks h = record {
  counter = h.counter;
  ordered = h.ordered;
  waiting = h.waiting;
}
put_needing-IsCounted p (some (suc n)) s asks h =
    elim (Bool-cases (leb (suc n) s.free_node_counter)) [
      | inl fits ↦ rw fits (record {
        counter = ap (λ c. c - suc n) h.counter ∙ sym (length-drop (suc n) s.nodes_q);
        ordered = h.ordered;
        waiting = h.waiting;
      })
      | inr waits ↦ rw waits (record {
        counter = h.counter;
        ordered = insert_sorted-IsAscending priority_of _ s.backlog_queue h.ordered;
        waiting =
            insert_sorted-IsWaiting (record { priority = suc n; task = p }) s.backlog_queue
              (asks, omega arith) h.waiting;
      })
    ]

pub put_task-IsCounted : (p : Package) (s : Scheduler) → IsCounted s → IsCounted (put_task p s)
unfolding put_task
put_task-IsCounted p s h = put_needing-IsCounted p p.num_nodes s refl h

put_needing-free :
    (p : Package) (n : ℕ) (s : Scheduler)
    → 0 < n
    → n ≤ s.free_node_counter
    → ((put_needing p (some n) s).backlog_queue ≡ s.backlog_queue)
      × ((put_needing p (some n) s).free_node_counter ≡ s.free_node_counter - n)
unfolding put_needing place get_nodes
put_needing-free p zero s positive fits = absurd (omega arith)
put_needing-free p (suc n) s positive fits = ground arith

abbrev pub nodes_needed : List PrioritizedTask → ℕ
nodes_needed [] = 0
nodes_needed (p ∷ ps) = p.priority + nodes_needed ps

-- The kernel of a pass: the first task, put again, in front of the others.
abbrev pass : ℕ → PrioritizedTask → List PrioritizedTask → Option ℕ → Scheduler → Option Scheduler
pass fuel p ps n s =
    let next = put_needing p.task n (record s { backlog_queue = ps }) in
    schedule_from fuel next.backlog_queue next

schedule_from-cons :
    (fuel : ℕ) (p : PrioritizedTask) (ps : List PrioritizedTask) (s : Scheduler)
    → p.task.num_nodes ≡ some p.priority
    → schedule_from (suc fuel) (p ∷ ps) s ≡ pass fuel p ps (some p.priority) s
unfolding schedule_from put_task
schedule_from-cons fuel p ps s same = ap (λ n. pass fuel p ps n s) same

schedule_from_total :
    (ps : List PrioritizedTask) (s : Scheduler)
    → s.backlog_queue ≡ ps
    → All IsWaiting ps
    → nodes_needed ps ≤ s.free_node_counter
    → (s' : Scheduler) × (schedule_from (suc (length ps)) ps s ≡ some s')
      × (s'.backlog_queue ≡ [])
      × (s'.free_node_counter + nodes_needed ps ≡ s.free_node_counter)
unfolding schedule_from
schedule_from_total [] s empty waiting fits = (s, refl, empty, omega arith)
schedule_from_total (p ∷ ps) s there waiting fits =
    let before : Scheduler = record s { backlog_queue = ps } in
    let (kept, left) = put_needing-free p.task p.priority before (waiting.0).1 (omega arith) in
    let next = put_needing p.task (some p.priority) before in
    let fits_others : nodes_needed ps ≤ next.free_node_counter = rw left (omega arith) in
    let (s', runs, drained, count) = schedule_from_total ps next kept waiting.1 fits_others in
    (
      s',
      schedule_from-cons (suc (length ps)) p ps s (waiting.0).0
          ∙ ap (λ l. schedule_from (suc (length ps)) l next) kept
          ∙ runs,
      drained,
      omega (arith, count, left),
    )

-- If there are enough free nodes for all of the backlog together, and each of its tasks waits for the
-- nodes that it asks for, the recursion ends, with one call more than there were tasks: the backlog is
-- empty, and the free nodes are fewer by what it needed.
pub schedule_backlog_tasks_total :
    (s : Scheduler)
    → All IsWaiting s.backlog_queue
    → nodes_needed s.backlog_queue ≤ s.free_node_counter
    → (s' : Scheduler) × (schedule_backlog_tasks (suc (length s.backlog_queue)) s ≡ some s')
      × (s'.backlog_queue ≡ [])
      × (s'.free_node_counter + nodes_needed s.backlog_queue ≡ s.free_node_counter)
unfolding schedule_backlog_tasks
schedule_backlog_tasks_total s waiting fits =
    schedule_from_total s.backlog_queue s refl waiting fits

-- A task that does not fit goes back to the front of the backlog.
insert_front :
    (p : PrioritizedTask) (ps : List PrioritizedTask)
    → IsAscending priority_of (p ∷ ps)
    → insert_sorted (by_key priority_of) p ps ≡ p ∷ ps
unfolding insert_sorted IsAscending
insert_front p [] h = refl
insert_front p (q ∷ ps) h = let below = (h.0).0 in rw (le→leb p.priority q.priority below) refl

put_needing_waits :
    (t : Package) (n : ℕ) (ps : List PrioritizedTask) (s : Scheduler)
    → IsAscending priority_of (record { priority = n; task = t } ∷ ps)
    → s.free_node_counter < n
    → put_needing t (some n) (record s { backlog_queue = ps })
      ≡ record s { backlog_queue = record { priority = n; task = t } ∷ ps }
unfolding put_needing place get_nodes
put_needing_waits t zero ps s h short = absurd (omega arith)
put_needing_waits t (suc n) ps s h short = rw (lt→leb s.free_node_counter (suc n) short) (
    ap (λ l. record s { backlog_queue = l })
      (insert_front (record { priority = suc n; task = t }) ps h))

schedule_from_diverges :
    (fuel : ℕ) (p : PrioritizedTask) (ps : List PrioritizedTask) (s : Scheduler)
    → p.task.num_nodes ≡ some p.priority
    → IsAscending priority_of (p ∷ ps)
    → s.free_node_counter < p.priority
    → schedule_from fuel (p ∷ ps) s ≡ none
unfolding schedule_from
schedule_from_diverges zero p ps s same h short = refl
schedule_from_diverges (suc fuel) p ps s same h short =
    schedule_from-cons fuel p ps s same
    ∙ ap (λ next. schedule_from fuel next.backlog_queue next)
        (put_needing_waits p.task p.priority ps s h short)
    ∙ schedule_from_diverges fuel p ps (record s { backlog_queue = p ∷ ps }) same h short

-- If the first task of a backlog that is in order waits for the nodes that it asks for, and these are
-- more than are free, the recursion does not end: no depth of it is enough.
pub schedule_backlog_tasks_diverges :
    (fuel : ℕ) (p : PrioritizedTask) (ps : List PrioritizedTask) (s : Scheduler)
    → s.backlog_queue ≡ p ∷ ps
    → p.task.num_nodes ≡ some p.priority
    → IsAscending priority_of s.backlog_queue
    → s.free_node_counter < p.priority
    → schedule_backlog_tasks fuel s ≡ none
unfolding schedule_backlog_tasks
schedule_backlog_tasks_diverges fuel p ps s there same h short =
    ap (λ l. schedule_from fuel l s) there
    ∙ schedule_from_diverges fuel p ps s same (subst (λ l. IsAscending priority_of l) there h) short

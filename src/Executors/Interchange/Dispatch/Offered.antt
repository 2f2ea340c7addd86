-- ===== src/Executors/Interchange/Dispatch/Offered.antt =====
-- Lemmas on the loop over the managers that are offered tasks
-- (environment/parsl/executors/high_throughput/interchange.py, `process_tasks_to_send`).
use mathlib.Core.List.{reverse}
use talents_parsl_checkpoint.Prelude.{
  ℕ, ◌+◌, ◌-◌, ◌<◌, ◌≤◌, ◌≡◌, ◌⊎◌, refl, sym, ap, ◌∙◌, true, none, some, List, [], ◌∷◌, ◌++◌,
  length, length-append, count, count-append, remove, count-remove, is_in, ltb, Bool-cases,
  Option-cases, inl, inr, arith,
}
use talents_parsl_checkpoint.Dataflow.Errors.{Result, ok}
use talents_parsl_checkpoint.Executors.Interchange.{
  ManagerRecord, QueueEntry, batch, Interchange, get_manager, assign, remove_interesting, task_ids,
}
use talents_parsl_checkpoint.Executors.Interchange.Queue.{Batch, get_tasks}
use talents_parsl_checkpoint.Executors.Interchange.Queue.Order.{
  Taken, get_tasks-Taken, Taken-IsOrdered, Taken-count,
}
use talents_parsl_checkpoint.Executors.Interchange.Managers.{held-assign}
use talents_parsl_checkpoint.Executors.Interchange.Tracked.{
  HasRoom, IsSameBut, assign-IsTracked, drop-IsTracked, remove-IsSameBut,
}
use talents_parsl_checkpoint.Executors.Interchange.Sound.{IsSound}
use talents_parsl_checkpoint.Executors.Interchange.Dispatch.{
  has_room, still_interesting, send, offer, is_empty, offer_all, process_tasks_to_send, Selector,
}
use talents_parsl_checkpoint.Executors.Interchange.Dispatch.Shared.{IsFair, count-reverse}

-- The manager k was offered tasks: it is not interesting any more, or no task is left.
pub record Offers (seen : List ℕ) (k : ℕ) (s : Interchange) (r : Result Interchange) : Type 0 where
  pub after : Interchange
  pub returns : r ≡ ok after
  pub sound : IsSound seen after
  pub same : IsSameBut k s.interesting_managers after.interesting_managers
  pub settled : (after.pending_task_queue ≡ []) ⊎ (count k after.interesting_managers ≡ 0)

task_ids-eq-nil : (q : List QueueEntry) → task_ids q ≡ [] → q ≡ []
unfolding task_ids
task_ids-eq-nil [] h = refl
task_ids-eq-nil (e ∷ q) h = cc

is_empty-eq-true : (q : List QueueEntry) → is_empty q ≡ true → q ≡ []
is_empty-eq-true [] h = refl
is_empty-eq-true (e ∷ q) h = cc

no_ids : (i : List ℕ) → is_empty i ≡ true → i ≡ []
no_ids [] h = refl
no_ids (k ∷ i) h = cc

still_to_visit {ℓ} :
    {P : Type ℓ} (k : ℕ) (ks i i' : List ℕ)
    → ((j : ℕ) → count j (k ∷ ks) ≡ count j i)
    → IsSameBut k i i'
    → count k i ≤ 1
    → P ⊎ (count k i' ≡ 0)
    → P ⊎ ((j : ℕ) → count j ks ≡ count j i')
still_to_visit k ks i i' all same once (inl p) = inl p
still_to_visit k ks i i' all same once (inr out) = inr (λ j. ground (arith, all j, same j))

module _ (seen : List ℕ) (s : Interchange) (h : IsSound seen s) (k : ℕ) (m : ManagerRecord)
    (there : get_manager k s.ready_managers ≡ some m)
    (interesting : 0 < count k s.interesting_managers) where
  gone : count k (remove k s.interesting_managers) ≡ 0
  gone = ground (arith, count-remove k k s.interesting_managers, h.tracked.once k)

  in_set : is_in k s.interesting_managers ≡ true
  in_set = ground arith

  full-Offers : ¬ HasRoom m → Offers seen k s (remove_interesting k s)
  unfolding remove_interesting
  full-Offers full = rw in_set (record {
    after = _;
    returns = refl;
    same = remove-IsSameBut k s.interesting_managers;
    settled = inr gone;
    sound = record {
      tracked =
          drop-IsTracked k seen s.ready_managers s.interesting_managers
            (remove k s.interesting_managers) h.tracked (remove-IsSameBut k s.interesting_managers)
            m there full gone;
      ordered = h.ordered;
      conserved = h.conserved;
    };
  })

  -- The state after a batch is sent, with the managers that are interesting then.
  module _ (ts : List ℕ) (rest : List QueueEntry)
      (taken : Taken
        (m.max_capacity - length m.tasks)
        s.pending_task_queue
        (record { tasks = ts; rest = rest })) where
    abbrev grown : ManagerRecord
    grown = record m { tasks = m.tasks ++ ts; idle_since = none }

    abbrev sent : Interchange
    sent = record s {
      pending_task_queue = rest;
      count_sent = s.count_sent + length ts;
      ready_managers = assign k grown s.ready_managers;
      manager_sock = s.manager_sock ++ (k, batch ts) ∷ [];
    }

    sent-IsSound :
        (i : List ℕ)
        → IsSameBut k s.interesting_managers i
        → count k i ≤ 1
        → (HasRoom grown → 0 < count k i)
        → IsSound seen (record sent { interesting_managers = i })
    sent-IsSound i same once room = record {
      tracked =
          assign-IsTracked k seen s.ready_managers s.interesting_managers i h.tracked same grown
            (omega (arith, taken.fits, length-append m.tasks ts, h.tracked.bounded k m there)) once
            room (h.tracked.registered k (cc));
      ordered = Taken-IsOrdered taken h.ordered;
      conserved = λ x. omega (
        arith,
        h.conserved x,
        Taken-count taken x,
        held-assign x k m grown s.ready_managers there,
        count-append x m.tasks ts,
      );
    }

    sent-Offers :
        Offers seen k s (still_interesting k (ltb (length (m.tasks ++ ts)) m.max_capacity) sent)
    unfolding remove_interesting
    sent-Offers = elim (Bool-cases (ltb (length (m.tasks ++ ts)) m.max_capacity)) [
      | inl more ↦ rw more (record {
        after = sent;
        returns = refl;
        same = λ j e. refl;
        settled = ground (arith, taken.all, length-append m.tasks ts);
        sound =
            sent-IsSound s.interesting_managers (λ j e. refl) (h.tracked.once k) (λ r. interesting);
      })
      | inr full ↦
          rw (full, in_set)
            (record {
              after = _;
              returns = refl;
              same = remove-IsSameBut k s.interesting_managers;
              settled = inr gone;
              sound =
                  sent-IsSound (remove k s.interesting_managers)
                    (remove-IsSameBut k s.interesting_managers) (omega (arith, gone))
                    (λ room. absurd (ground (arith, room.0)));
            })
    ]

  -- No task is left, if none is taken for a manager that has room.
  nothing_left :
      (b : Batch)
      → Taken (m.max_capacity - length m.tasks) s.pending_task_queue b
      → b.tasks ≡ []
      → length m.tasks < m.max_capacity
      → s.pending_task_queue ≡ []
  nothing_left b taken none_of room =
      ground (arith, taken.all, taken.were, taken.are, task_ids-eq-nil taken.entries)

  send_batch-Offers :
      (ts : List ℕ) (rest : List QueueEntry)
      → Taken
          (m.max_capacity - length m.tasks)
          s.pending_task_queue
          (record { tasks = ts; rest = rest })
      → length m.tasks < m.max_capacity
      → Offers seen k s (send k m ts rest s)
  unfolding send
  send_batch-Offers [] rest taken room = record {
    after = s;
    returns = refl;
    sound = h;
    same = λ j e. refl;
    settled = inl (nothing_left (record { tasks = []; rest = rest }) taken refl room);
  }
  send_batch-Offers (t ∷ ts) rest taken room = sent-Offers (t ∷ ts) rest taken

  offer-Offers : Offers seen k s (offer k (get_manager k s.ready_managers) s)
  unfolding offer
  offer-Offers = rw there (elim (Bool-cases (has_room m)) [
    | inl room ↦
        let b = get_tasks (m.max_capacity - length m.tasks) s.pending_task_queue in
        rw room (
          send_batch-Offers b.tasks b.rest
            (get_tasks-Taken (m.max_capacity - length m.tasks) s.pending_task_queue)
            (ground (arith, h.tracked.bounded k m there)))
    | inr full ↦ rw full (full-Offers (λ r. ground (arith, r)))
  ])

-- The end of the loop: if a task is left, no manager is interesting.
pub record IsServed (seen : List ℕ) (r : Result Interchange) : Type 0 where
  pub after : Interchange
  pub returns : r ≡ ok after
  pub sound : IsSound seen after
  pub used : (after.pending_task_queue ≡ []) ⊎ ((j : ℕ) → count j after.interesting_managers ≡ 0)

-- The managers that the loop has still to visit are the interesting ones, as long as a task is left.
offer_all-IsServed :
    (seen ks : List ℕ) (s : Interchange)
    → IsSound seen s
    → (s.pending_task_queue ≡ []) ⊎ ((j : ℕ) → count j ks ≡ count j s.interesting_managers)
    → IsServed seen (offer_all ks s)
unfolding offer_all
offer_all-IsServed seen [] s h (inl e) = record {
  after = s;
  returns = refl;
  sound = h;
  used = inl e;
}
offer_all-IsServed seen [] s h (inr all) = record {
  after = s;
  returns = refl;
  sound = h;
  used = inr (λ j. sym (all j));
}
offer_all-IsServed seen (k ∷ ks) s h (inl e) =
    let empty : is_empty s.pending_task_queue ≡ true = ap is_empty e in
    rw empty (record { after = s; returns = refl; sound = h; used = inl e })
offer_all-IsServed seen (k ∷ ks) s h (inr all) = elim (Bool-cases (is_empty s.pending_task_queue)) [
  | inl empty ↦ rw empty (record {
    after = s;
    returns = refl;
    sound = h;
    used = inl (is_empty-eq-true s.pending_task_queue empty);
  })
  | inr some_left ↦
      let interesting : 0 < count k s.interesting_managers = ground (arith, all k) in
      elim (Option-cases (get_manager k s.ready_managers)) [
        | inl missing ↦ absurd (h.tracked.known k interesting missing)
        | inr (m, there) ↦
            let o = offer-Offers seen s h k m there interesting in
            rw (some_left, o.returns)
              (offer_all-IsServed seen ks o.after o.sound (
                still_to_visit k ks s.interesting_managers o.after.interesting_managers all o.same
                  (h.tracked.once k) o.settled))
      ]
]

pub process_tasks_to_send-IsServed :
    (select : Selector) (seen : List ℕ) (s : Interchange)
    → IsFair select
    → IsSound seen s
    → IsServed seen (process_tasks_to_send select s)
unfolding process_tasks_to_send
process_tasks_to_send-IsServed select seen s fair h =
    let (ks, returns, same) =
      fair.selected s.ready_managers s.interesting_managers h.tracked.known in
    let to_do : (j : ℕ) → count j (reverse ks) ≡ count j s.interesting_managers =
      λ j. count-reverse j ks ∙ same j in
    elim (Bool-cases (is_empty s.interesting_managers)) [
      | inl none_interesting ↦ rw none_interesting (record {
        after = s;
        returns = refl;
        sound = h;
        used = inr (λ j. ap (count j) (no_ids s.interesting_managers none_interesting));
      })
      | inr some_interesting ↦ elim (Bool-cases (is_empty s.pending_task_queue)) [
        | inl empty ↦
            rw (some_interesting, empty)
              (record {
                after = s;
                returns = refl;
                sound = h;
                used = inl (is_empty-eq-true s.pending_task_queue empty);
              })
        | inr some_left ↦
            rw (some_interesting, some_left, returns)
              (offer_all-IsServed seen (reverse ks) s h (inr to_do))
      ]
    ]

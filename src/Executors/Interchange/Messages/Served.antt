-- ===== src/Executors/Interchange/Messages/Served.antt =====
-- Lemmas on the messages of the managers (environment/parsl/executors/high_throughput/interchange.py,
-- `process_command` and `process_manager_socket_message`).
use talents_parsl_checkpoint.Prelude.{
  ℕ, ◌+◌, ◌≡◌, refl, ap, Bool, true, false, Option, some, List, [], ◌∷◌, ◌++◌, length, count,
  remove, count-remove, length-remove, is_in, Bool-cases, Option-cases, inl, inr, arith,
}
use talents_parsl_checkpoint.Dataflow.Errors.{ok}
use talents_parsl_checkpoint.Executors.Interchange.{
  ManagerRecord, Interchange, get_manager, assign, add_interesting, set_manager,
}
use talents_parsl_checkpoint.Executors.Interchange.Managers.{held-assign}
use talents_parsl_checkpoint.Executors.Interchange.Tracked.{
  HasRoom, IsTracked-cons, assign-IsTracked, add_interesting-IsSameBut, count-add_interesting,
}
use talents_parsl_checkpoint.Executors.Interchange.Sound.{
  answered, answered-append, IsSound, Reaches, Reaches-ok,
}
use talents_parsl_checkpoint.Executors.Interchange.Messages.{
  CommandRequest, hold_worker, hold, process_command, Part, result_of, monitoring, other_part,
  ManagerMessage, unreadable, connection_probe, heartbeat, drain, other_type, registration, results,
  Settings, Returned, take_results, results_of, hand_on, serve_message,
}

-- A change of one manager that leaves its tasks, and who is interesting.
module _ (seen : List ℕ) (s : Interchange) (h : IsSound seen s) (k : ℕ) (m n : ManagerRecord)
    (there : get_manager k s.ready_managers ≡ some m) (tasks : n.tasks ≡ m.tasks) where
  pub set_manager-IsSound :
      (n.max_capacity ≡ m.max_capacity) → (HasRoom n → HasRoom m) → IsSound seen (set_manager k n s)
  set_manager-IsSound capacity room = record {
    tracked =
        assign-IsTracked k seen s.ready_managers s.interesting_managers s.interesting_managers
          h.tracked (λ j e. refl) n (rw (tasks, capacity) (h.tracked.bounded k m there))
          (h.tracked.once k) (λ r. h.tracked.served k m there (room r))
          (h.tracked.registered k (cc));
    ordered = h.ordered;
    conserved = λ x.
        omega
          (arith, h.conserved x, held-assign x k m n s.ready_managers there, ap (count x) tasks);
  }

pub process_command-IsSound :
    (port now : ℕ) (command : CommandRequest) (seen : List ℕ) (s : Interchange)
    → IsSound seen s
    → IsSound seen (process_command port now command s).1
unfolding process_command hold
process_command-IsSound port now (hold_worker k) seen s h =
    elim (Option-cases (get_manager k s.ready_managers)) [
      | inl gone ↦ rw gone h
      | inr (m, there) ↦ rw there (
          set_manager-IsSound seen s h k m (record m { active = false }) there refl refl
            (λ r. absurd (cc (r.1))))
    ]
process_command-IsSound port now command seen s h = h

-- What a batch of results does to the tasks of its manager.
pub record Split (tasks : List ℕ) (r : Returned) : Type 0 where
  pub counts : (x : ℕ) → count x tasks ≡ count x r.left + count x r.forwarded
  pub sizes : length tasks ≡ length r.left + length r.forwarded

-- The parts can be handled: monitoring parts come only if there is monitoring.
unfoldable pub AreExpected : (has_radio : Bool) → List Part → Type 0
AreExpected has_radio [] = Unit
AreExpected has_radio (monitoring ∷ ps) = (has_radio ≡ true) × AreExpected has_radio ps
AreExpected has_radio (p ∷ ps) = AreExpected has_radio ps

take_results-Split :
    (has_radio : Bool) (ps : List Part) (tasks : List ℕ)
    → AreExpected has_radio ps
    → (r : Returned) × (take_results has_radio ps tasks ≡ ok r) × Split tasks r
unfolding take_results AreExpected
take_results-Split has_radio [] tasks h = (
  record { left = tasks; forwarded = [] },
  refl,
  record { counts = λ x. omega arith; sizes = omega arith },
)
take_results-Split has_radio (result_of t ∷ ps) tasks h = elim (Bool-cases (is_in t tasks)) [
  | inl here ↦
      let (r, returns, split) = take_results-Split has_radio ps (remove t tasks) h in
      (
        record r { forwarded = t ∷ r.forwarded },
        rw (here, take_results, returns),
        record {
          counts = λ x. ground (arith, split.counts x, count-remove x t tasks);
          sizes = ground (arith, split.sizes, length-remove t tasks);
        },
      )
  | inr absent ↦ rw (absent, take_results) (take_results-Split has_radio ps tasks h)
]
take_results-Split true (monitoring ∷ ps) tasks h = take_results-Split true ps tasks h.1
take_results-Split false (monitoring ∷ ps) tasks h = cc (h.0)
take_results-Split has_radio (other_part ∷ ps) tasks h = take_results-Split has_radio ps tasks h

answered-results_of : (x : ℕ) (ts : List ℕ) → answered x (results_of ts) ≡ count x ts
unfolding answered results_of
answered-results_of x [] = refl
answered-results_of x (t ∷ ts) = omega (arith, answered-results_of x ts)

-- The manager k answers, with some results or with none.
module _ (now k : ℕ) (m : ManagerRecord) (r : Returned) (seen : List ℕ) (s : Interchange)
    (h : IsSound seen s) (there : get_manager k s.ready_managers ≡ some m)
    (split : Split m.tasks r) where
  none_handed_on-IsSound :
      r.forwarded ≡ [] → IsSound seen (set_manager k (record m { tasks = r.left }) s)
  none_handed_on-IsSound e = record {
    tracked =
        assign-IsTracked k seen s.ready_managers s.interesting_managers s.interesting_managers
          h.tracked (λ j n. refl) (record m { tasks = r.left })
          (omega (arith, split.sizes, h.tracked.bounded k m there)) (h.tracked.once k)
          (λ room.
            h.tracked.served k m there
              (omega (arith, split.sizes, ap length e, room.0), room.1, room.2))
          (h.tracked.registered k (cc));
    ordered = h.ordered;
    conserved = λ x. omega (
      arith,
      h.conserved x,
      split.counts x,
      ap (count x) e,
      held-assign x k m (record m { tasks = r.left }) s.ready_managers there,
    );
  }

  handed_on-IsSound :
      (idle : Option ℕ) (t : ℕ) (ts : List ℕ)
      → r.forwarded ≡ t ∷ ts
      → IsSound seen (record s {
        ready_managers = assign k (record m { tasks = r.left; idle_since = idle }) s.ready_managers;
        results_outgoing = s.results_outgoing ++ results_of (t ∷ ts);
        interesting_managers = add_interesting k s.interesting_managers;
      })
  handed_on-IsSound idle t ts e =
      let interesting = add_interesting k s.interesting_managers in
      let one = count-add_interesting k s.interesting_managers (h.tracked.once k) in
      let n : ManagerRecord = record m { tasks = r.left; idle_since = idle } in
      record {
        tracked =
            assign-IsTracked k seen s.ready_managers s.interesting_managers interesting h.tracked
              (add_interesting-IsSameBut k s.interesting_managers) n
              (omega (arith, split.sizes, h.tracked.bounded k m there)) (omega (arith, one))
              (λ room. omega (arith, one)) (h.tracked.registered k (cc));
        ordered = h.ordered;
        conserved = λ x. omega (
          arith,
          h.conserved x,
          split.counts x,
          ap (count x) e,
          held-assign x k m n s.ready_managers there,
          answered-append x s.results_outgoing (results_of (t ∷ ts)),
          answered-results_of x (t ∷ ts),
        );
      }

  hand_on-IsSound_for : (ts : List ℕ) → r.forwarded ≡ ts → IsSound seen (hand_on now k m r s)
  unfolding hand_on
  hand_on-IsSound_for [] e = rw (e, hand_on) (none_handed_on-IsSound e)
  hand_on-IsSound_for (t ∷ ts) e = rw (e, hand_on) (handed_on-IsSound _ t ts e)

-- What the environment is expected to send: a registration is of a manager with a block that never
-- registered before, and monitoring parts come only if there is monitoring.
abbrev pub IsExpected : Settings → List ℕ → ℕ → ManagerMessage → Type 0
IsExpected c seen k (registration r) =
    ((block : List ℕ) × (r.block_id ≡ some block)) × (count k seen ≡ 0)
IsExpected c seen k (results ps) = AreExpected c.has_monitoring_radio ps
IsExpected c seen k unreadable = Unit
IsExpected c seen k connection_probe = Unit
IsExpected c seen k heartbeat = Unit
IsExpected c seen k drain = Unit
IsExpected c seen k other_type = Unit

abbrev pub seen_after : ℕ → ManagerMessage → List ℕ → List ℕ
seen_after k (registration r) seen = k ∷ seen
seen_after k message seen = seen

pub serve_message-Reaches :
    (c : Settings) (now k : ℕ) (m : ManagerRecord) (message : ManagerMessage) (seen : List ℕ)
    (s : Interchange)
    → IsSound seen s
    → get_manager k s.ready_managers ≡ some m
    → IsExpected c seen k message
    → Reaches seen (serve_message c now k m message s)
unfolding serve_message
serve_message-Reaches c now k m (results ps) seen s h there x =
    let (r, returns, split) = take_results-Split c.has_monitoring_radio ps m.tasks x in
    rw returns (Reaches-ok (hand_on-IsSound_for now k m r seen s h there split r.forwarded refl))
serve_message-Reaches c now k m heartbeat seen s h there x =
    let n : ManagerRecord = record m { last_heartbeat = now } in
    let same = set_manager-IsSound seen s h k m n there refl refl (λ r. r) in
    Reaches-ok
      (record { tracked = same.tracked; ordered = same.ordered; conserved = same.conserved })
serve_message-Reaches c now k m drain seen s h there x = Reaches-ok (
    set_manager-IsSound seen s h k m (record m { draining = true }) there refl refl
      (λ r. absurd (cc (r.2))))
serve_message-Reaches c now k m other seen s h there x = Reaches-ok h

pub seen_more-IsSound :
    (k : ℕ) (seen : List ℕ) (s : Interchange) → IsSound seen s → IsSound (k ∷ seen) s
seen_more-IsSound k seen s h = record {
  tracked = IsTracked-cons k seen s.ready_managers s.interesting_managers h.tracked;
  ordered = h.ordered;
  conserved = h.conserved;
}

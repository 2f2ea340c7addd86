-- ===== src/Executors/Interchange/Expiry/Drained.antt =====
-- Lemmas on the managers that drain (environment/parsl/executors/high_throughput/interchange.py,
-- `expire_drained_managers`).
use talents_parsl_checkpoint.Prelude.{
  ℕ, ◌<◌, ◌≤◌, ◌==◌, ◌≡◌, refl, true, ◌&&◌, none, some, List, [], ◌∷◌, length, count, remove,
  count-remove, count-le-length, and_both, ==_iff, is_in, Bool-cases, Option-cases, inl, inr, arith,
  if◌then◌else◌,
}
use talents_parsl_checkpoint.Dataflow.Errors.{Result, ok, ◌>>=◌}
use talents_parsl_checkpoint.Executors.Interchange.{
  set_manager, ManagerRecord, Interchange, get_manager, remove_interesting,
}
use talents_parsl_checkpoint.Executors.Interchange.Managers.{
  get_manager-assign, held-pop, get_manager-pop,
}
use talents_parsl_checkpoint.Executors.Interchange.Tracked.{pop-IsTracked, remove-IsSameBut}
use talents_parsl_checkpoint.Executors.Interchange.Sound.{IsSound, Reaches, Visits, is_drained}
use talents_parsl_checkpoint.Executors.Interchange.Messages.{
  Settings, drain, serve_message, process_manager_socket_message,
}
use talents_parsl_checkpoint.Executors.Interchange.Messages.Served.{set_manager-IsSound}
use talents_parsl_checkpoint.Executors.Interchange.Expiry.{
  release, expire_if_drained, expire_drained, expire_drained_managers,
}

module _ (seen : List ℕ) (s : Interchange) (h : IsSound seen s) (k : ℕ) (m : ManagerRecord)
    (there : get_manager k s.ready_managers ≡ some m) where
  release-Visits :
      m.draining ≡ true
      → length m.tasks ≡ 0
      → 0 < count k s.interesting_managers
      → Visits seen k s (release k s)
  unfolding release remove_interesting
  release-Visits drained empty interesting =
      let is : is_in k s.interesting_managers ≡ true = ground arith in
      rw is (record {
        after = _;
        returns = refl;
        same = remove-IsSameBut k s.interesting_managers;
        looks =
            λ j. ground (arith, get_manager-pop k j s.ready_managers (h.tracked.dict k), drained);
        sound = record {
          tracked =
              pop-IsTracked k seen s.ready_managers s.interesting_managers
                (remove k s.interesting_managers) h.tracked
                (remove-IsSameBut k s.interesting_managers)
                (ground (arith, count-remove k k s.interesting_managers, h.tracked.once k));
          ordered = h.ordered;
          conserved = λ x. omega (
            arith,
            h.conserved x,
            held-pop x k m m s.ready_managers there,
            count-le-length x m.tasks,
          );
        };
      })

  expire_if_drained-Visits :
      0 < count k s.interesting_managers
      → Visits seen k s (expire_if_drained k (get_manager k s.ready_managers) s)
  unfolding expire_if_drained
  expire_if_drained-Visits interesting =
      rw there (elim (Bool-cases (m.draining && length m.tasks == 0)) [
        | inl drained ↦
            let both = and_both m.draining (length m.tasks == 0) drained in
            rw drained (release-Visits both.0 ((==_iff (length m.tasks) 0).0 both.1) interesting)
        | inr stays ↦ rw stays (record {
          after = s;
          returns = refl;
          sound = h;
          same = λ j e. refl;
          looks = λ j. ground arith;
        })
      ])

-- The loop returns, and has forgotten the managers of ks that are drained.
record Expires (seen ks : List ℕ) (s : Interchange) (r : Result Interchange) : Type 0 where
  after : Interchange
  returns : r ≡ ok after
  sound : IsSound seen after
  looks :
      (j : ℕ)
      → get_manager j after.ready_managers ≡ (
          if is_in j ks && is_drained (get_manager j s.ready_managers)
          then none
          else get_manager j s.ready_managers)

-- The managers that the loop has still to visit are interesting.
expire_drained-Expires :
    (seen ks : List ℕ) (s : Interchange)
    → IsSound seen s
    → ((j : ℕ) → count j ks ≤ count j s.interesting_managers)
    → Expires seen ks s (expire_drained ks s)
unfolding expire_drained
expire_drained-Expires seen [] s h to_do = record {
  after = s;
  returns = refl;
  sound = h;
  looks = λ j. refl;
}
expire_drained-Expires seen (k ∷ ks) s h to_do =
    let interesting : 0 < count k s.interesting_managers = ground (arith, to_do k) in
    elim (Option-cases (get_manager k s.ready_managers)) [
      | inl gone ↦ absurd (h.tracked.known k interesting gone)
      | inr (m, there) ↦
          let v = expire_if_drained-Visits seen s h k m there interesting in
          let rest =
            expire_drained-Expires seen ks v.after v.sound
              (λ j. ground (arith, to_do j, v.same j, h.tracked.once j)) in
          rw v.returns (record {
            after = rest.after;
            returns = rest.returns;
            sound = rest.sound;
            looks = λ j. ground (arith, v.looks j, rest.looks j);
          })
    ]

expire_drained_managers-Expires :
    (seen : List ℕ) (s : Interchange)
    → IsSound seen s
    → Expires seen s.interesting_managers s (expire_drained_managers s)
unfolding expire_drained_managers
expire_drained_managers-Expires seen s h =
    expire_drained-Expires seen s.interesting_managers s h (λ j. omega arith)

pub expire_drained_managers-Reaches :
    (seen : List ℕ) (s : Interchange) → IsSound seen s → Reaches seen (expire_drained_managers s)
expire_drained_managers-Reaches seen s h =
    let e = expire_drained_managers-Expires seen s h in
    record { after = e.after; returns = e.returns; sound = e.sound }

-- For every interchange whose invariant holds: the pass over the drained managers returns, and it
-- has forgotten exactly the managers that are interesting, are draining and have no task; the
-- others are registered as they were.
pub expire_drained_managers_exact :
    (seen : List ℕ) (s : Interchange)
    → IsSound seen s
    → (s' : Interchange) × (expire_drained_managers s ≡ ok s')
      × ((j : ℕ)
          → get_manager j s'.ready_managers ≡ (
              if is_in j s.interesting_managers && is_drained (get_manager j s.ready_managers)
              then none
              else get_manager j s.ready_managers))
expire_drained_managers_exact seen s h =
    let e = expire_drained_managers-Expires seen s h in (e.after, e.returns, e.looks)

-- For every manager that is not interesting, also one that has no task: when it asks to be drained, it
-- stays registered, draining.
pub uninteresting_manager_stays :
    (c : Settings) (now k : ℕ) (m : ManagerRecord) (seen : List ℕ) (s : Interchange)
    → IsSound seen s
    → get_manager k s.ready_managers ≡ some m
    → count k s.interesting_managers ≡ 0
    → (s' : Interchange) × ((process_manager_socket_message c now k drain s
          >>= expire_drained_managers)
        ≡ ok s')
      × (get_manager k s'.ready_managers ≡ some (record m { draining = true }))
unfolding process_manager_socket_message serve_message
uninteresting_manager_stays c now k m seen s h there dull =
    let n : ManagerRecord = record m { draining = true } in
    let sound = set_manager-IsSound seen s h k m n there refl refl (λ r. absurd (cc (r.2))) in
    let (s', returns, looks) = expire_drained_managers_exact seen (set_manager k n s) sound in
    (s', rw there returns, ground (arith, looks k, get_manager-assign k k n s.ready_managers))

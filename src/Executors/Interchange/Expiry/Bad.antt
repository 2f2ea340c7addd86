-- ===== src/Executors/Interchange/Expiry/Bad.antt =====
-- Lemmas on the managers whose heartbeats stopped (environment/parsl/executors/high_throughput/interchange.py,
-- `expire_bad_managers`).
use talents_parsl_checkpoint.Prelude.{
  ℕ, ◌+◌, ◌≤◌, ◌≡◌, refl, some, List, [], ◌∷◌, count, remove, count-remove, All, ltb, is_in,
  Bool-cases, inl, inr, arith, if◌then◌else◌,
}
use talents_parsl_checkpoint.Executors.Interchange.{
  ManagerRecord, Interchange, ManagerTable, get_manager, pop,
}
use talents_parsl_checkpoint.Executors.Interchange.Managers.{
  IsDict, keys, held-pop, get_manager-pop,
}
use talents_parsl_checkpoint.Executors.Interchange.Tracked.{IsSameBut, pop-IsTracked}
use talents_parsl_checkpoint.Executors.Interchange.Sound.{answered, answered-append, IsSound}
use talents_parsl_checkpoint.Executors.Interchange.Expiry.{
  losses, bad_managers, expire_bad, expire_all, expire_bad_managers,
}

answered-losses :
    (x k : ℕ) (m : ManagerRecord) (ts : List ℕ) → answered x (losses k m ts) ≡ count x ts
unfolding answered losses
answered-losses x k m [] = refl
answered-losses x k m (t ∷ ts) = omega (arith, answered-losses x k m ts)

less : ℕ → List ℕ → List ℕ
less k i = if is_in k i then remove k i else i

less-IsSameBut : (k : ℕ) (i : List ℕ) → IsSameBut k i (less k i)
unfolding less
less-IsSameBut k i j h = ground (arith, count-remove j k i)

count-less : (k : ℕ) (i : List ℕ) → count k i ≤ 1 → count k (less k i) ≡ 0
unfolding less
count-less k i h = ground (arith, count-remove k k i)

module _ (seen : List ℕ) (s : Interchange) (h : IsSound seen s) (k : ℕ) (m : ManagerRecord)
    (there : get_manager k s.ready_managers ≡ some m) where
  expire_bad-IsSound : IsSound seen (expire_bad k m s)
  unfolding expire_bad less
  expire_bad-IsSound = record {
    tracked =
        pop-IsTracked k seen s.ready_managers s.interesting_managers (less k s.interesting_managers)
          h.tracked (less-IsSameBut k s.interesting_managers)
          (count-less k s.interesting_managers (h.tracked.once k));
    ordered = h.ordered;
    conserved = λ x. omega (
      arith,
      h.conserved x,
      held-pop x k m m s.ready_managers there,
      answered-append x s.results_outgoing (losses k m m.tasks),
      answered-losses x k m m.tasks,
    );
  }

-- The managers of b are those of t.
abbrev AreFound : ManagerTable → ManagerTable → Type 0
AreFound b t = All (λ (e : ℕ × ManagerRecord). get_manager e.0 t ≡ some e.1) b

AreFound-cons :
    (k : ℕ) (m : ManagerRecord) (t b : ManagerTable)
    → count k (keys b) ≡ 0
    → AreFound b t
    → AreFound b ((k, m) ∷ t)
unfolding get_manager keys
AreFound-cons k m t [] new h = tt
AreFound-cons k m t ((j, n) ∷ b) new h =
    (ground (arith, h.0), AreFound-cons k m t b (omega arith) h.1)

AreFound-pop :
    (k : ℕ) (t b : ManagerTable)
    → IsDict t
    → count k (keys b) ≡ 0
    → AreFound b t
    → AreFound b (pop k t)
unfolding keys
AreFound-pop k t [] d new h = tt
AreFound-pop k t ((j, n) ∷ b) d new h =
    (ground (arith, h.0, get_manager-pop k j t (d k)), AreFound-pop k t b d (omega arith) h.1)

count-bad_managers :
    (threshold now j : ℕ) (t : ManagerTable)
    → count j (keys (bad_managers threshold now t)) ≤ count j (keys t)
unfolding bad_managers keys
count-bad_managers threshold now j [] = omega arith
count-bad_managers threshold now j ((k, m) ∷ t) =
    ground (arith, count-bad_managers threshold now j t)

bad_managers-AreFound :
    (threshold now : ℕ) (t : ManagerTable) → IsDict t → AreFound (bad_managers threshold now t) t
unfolding bad_managers keys get_manager
bad_managers-AreFound threshold now [] d = tt
bad_managers-AreFound threshold now ((k, m) ∷ t) d =
    let rest = bad_managers threshold now t in
    let new : count k (keys rest) ≡ 0 = ground (arith, d k, count-bad_managers threshold now k t) in
    let found =
      AreFound-cons k m t rest new
        (bad_managers-AreFound threshold now t (λ j. ground (arith, d j))) in
    elim (Bool-cases (ltb (m.last_heartbeat + threshold) now)) [
      | inl bad ↦ rw bad (ground arith, found)
      | inr good ↦ rw good found
    ]

expire_all-IsSound :
    (seen : List ℕ) (b : ManagerTable) (s : Interchange)
    → IsSound seen s
    → AreFound b s.ready_managers
    → IsDict b
    → IsSound seen (expire_all b s)
unfolding expire_all keys expire_bad
expire_all-IsSound seen [] s h found d = h
expire_all-IsSound seen ((k, m) ∷ b) s h found d =
    expire_all-IsSound seen b (expire_bad k m s) (expire_bad-IsSound seen s h k m found.0)
      (AreFound-pop k s.ready_managers b h.tracked.dict (ground (arith, d k)) found.1)
      (λ j. ground (arith, d j))

pub expire_bad_managers-IsSound :
    (threshold now : ℕ) (seen : List ℕ) (s : Interchange)
    → IsSound seen s
    → IsSound seen (expire_bad_managers threshold now s)
unfolding expire_bad_managers
expire_bad_managers-IsSound threshold now seen s h =
    expire_all-IsSound seen (bad_managers threshold now s.ready_managers) s h
      (bad_managers-AreFound threshold now s.ready_managers h.tracked.dict)
      (λ j. omega (arith, count-bad_managers threshold now j s.ready_managers, h.tracked.dict j))

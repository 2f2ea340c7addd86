-- ===== src/Executors/Interchange/Messages/Heard.antt =====
-- A message of a manager that may be registered or not
-- (environment/parsl/executors/high_throughput/interchange.py, `process_manager_socket_message`).
use talents_parsl_checkpoint.Prelude.{
  ℕ, ◌≡◌, refl, ap, true, none, some, List, [], ◌∷◌, length, count, Bool-cases, Option-cases, inl,
  inr, arith,
}
use talents_parsl_checkpoint.Executors.Interchange.{
  ManagerRecord, version_mismatch, Interchange, get_manager, add_interesting, to_client,
}
use talents_parsl_checkpoint.Executors.Interchange.Managers.{held-assign_new}
use talents_parsl_checkpoint.Executors.Interchange.Tracked.{
  assign-IsTracked, add_interesting-IsSameBut, count-add_interesting,
}
use talents_parsl_checkpoint.Executors.Interchange.Sound.{
  answered, answered-append, IsSound, Reaches, Reaches-ok,
}
use talents_parsl_checkpoint.Executors.Interchange.Messages.{
  Registration, ManagerMessage, unreadable, connection_probe, registration, Settings, mismatch,
  accept, register_manager, process_manager_socket_message,
}
use talents_parsl_checkpoint.Executors.Interchange.Messages.Served.{
  IsExpected, seen_after, serve_message-Reaches, seen_more-IsSound,
}

never_seen :
    (k : ℕ) (seen : List ℕ) (s : Interchange)
    → IsSound seen s
    → count k seen ≡ 0
    → get_manager k s.ready_managers ≡ none
never_seen k seen s h new = elim (Option-cases (get_manager k s.ready_managers)) [
  | inl gone ↦ gone
  | inr (m, there) ↦ let old = h.tracked.registered k (λ e. cc) in absurd (omega (arith))
]

module _ (c : Settings) (now k : ℕ) (seen : List ℕ) (s : Interchange) (h : IsSound seen s) where
  accept-Reaches :
      (m : ManagerRecord) (block : List ℕ)
      → m.tasks ≡ []
      → count k seen ≡ 0
      → Reaches (k ∷ seen) (accept k m (some block) s)
  accept-Reaches m block idle new =
      let h' = seen_more-IsSound k seen s h in
      let one = count-add_interesting k s.interesting_managers (h.tracked.once k) in
      Reaches-ok (record {
        tracked =
            assign-IsTracked k (k ∷ seen) s.ready_managers s.interesting_managers
              (add_interesting k s.interesting_managers) h'.tracked
              (add_interesting-IsSameBut k s.interesting_managers) m (omega (arith, ap length idle))
              (omega (arith, one)) (λ room. omega (arith, one)) (ground arith);
        ordered = h.ordered;
        conserved = λ x. omega (
          arith,
          h.conserved x,
          ap (count x) idle,
          held-assign_new x k m s.ready_managers (never_seen k seen s h new),
        );
      })

  refuse-IsSound :
      IsSound (k ∷ seen) (to_client (version_mismatch ∷ []) (record s { kill_event = true }))
  unfolding answered
  refuse-IsSound =
      let h' = seen_more-IsSound k seen s h in
      record {
        tracked = h'.tracked;
        ordered = h.ordered;
        conserved = λ x.
            omega
              (arith, h.conserved x, answered-append x s.results_outgoing (version_mismatch ∷ []));
      }

  register_manager-Reaches :
      (r : Registration)
      → IsExpected c seen k (registration r)
      → Reaches (k ∷ seen) (register_manager c now k r s)
  unfolding register_manager
  register_manager-Reaches r ((block, e), new) = elim (Bool-cases (mismatch c r)) [
    | inl bad ↦ rw bad (Reaches-ok refuse-IsSound)
    | inr good ↦ rw (good, e) (accept-Reaches _ block refl new)
  ]

  -- A message that is expected does not raise, and leaves the invariant true.
  pub process_manager_socket_message-Reaches :
      (message : ManagerMessage)
      → IsExpected c seen k message
      → Reaches (seen_after k message seen) (process_manager_socket_message c now k message s)
  unfolding process_manager_socket_message
  process_manager_socket_message-Reaches unreadable x = Reaches-ok h
  process_manager_socket_message-Reaches connection_probe x =
      Reaches-ok (record { tracked = h.tracked; ordered = h.ordered; conserved = h.conserved })
  process_manager_socket_message-Reaches (registration r) x = register_manager-Reaches r x
  process_manager_socket_message-Reaches message x =
      elim (Option-cases (get_manager k s.ready_managers)) [
        | inl gone ↦ rw gone (Reaches-ok h)
        | inr (m, there) ↦ rw there (serve_message-Reaches c now k m message seen s h there x)
      ]

-- ===== src/Executors/Interchange/Dispatch/Rounds.antt =====
-- Lemmas on the loop of `start` (environment/parsl/executors/high_throughput/interchange.py).
use talents_parsl_checkpoint.Prelude.{
  ℕ, ◌≡◌, ◌⊎◌, refl, Option, none, some, List, [], ◌∷◌, Bool-cases, inl, inr, arith,
}
use talents_parsl_checkpoint.Dataflow.Errors.{ok}
use talents_parsl_checkpoint.Executors.Interchange.{ManagerRecord, Interchange, get_manager}
use talents_parsl_checkpoint.Executors.Interchange.Queue.{SortedList, TaskMessage}
use talents_parsl_checkpoint.Executors.Interchange.Queue.Order.{process_task_incoming-IsSound}
use talents_parsl_checkpoint.Executors.Interchange.Messages.{
  Settings, CommandRequest, ManagerMessage,
}
use talents_parsl_checkpoint.Executors.Interchange.Messages.Served.{
  IsExpected, seen_after, process_command-IsSound,
}
use talents_parsl_checkpoint.Executors.Interchange.Messages.Heard.{
  process_manager_socket_message-Reaches,
}
use talents_parsl_checkpoint.Executors.Interchange.Expiry.Bad.{expire_bad_managers-IsSound}
use talents_parsl_checkpoint.Executors.Interchange.Expiry.Drained.{expire_drained_managers-Reaches}
use talents_parsl_checkpoint.Executors.Interchange.Tracked.{HasRoom}
use talents_parsl_checkpoint.Executors.Interchange.Sound.{IsSound, Reaches, Reaches-ok}
use talents_parsl_checkpoint.Executors.Interchange.Dispatch.{
  Selector, Poll, answer, receive, hear, round, start,
}
use talents_parsl_checkpoint.Executors.Interchange.Dispatch.Shared.{IsFair}
use talents_parsl_checkpoint.Executors.Interchange.Dispatch.Offered.{
  IsServed, process_tasks_to_send-IsServed,
}

abbrev pub IsExpectedPoll : Settings → List ℕ → Option (ℕ × ManagerMessage) → Type 0
IsExpectedPoll c seen none = Unit
IsExpectedPoll c seen (some (k, message)) = IsExpected c seen k message

abbrev pub seen_after_poll : Option (ℕ × ManagerMessage) → List ℕ → List ℕ
seen_after_poll none seen = seen
seen_after_poll (some (k, message)) seen = seen_after k message seen

-- What the rounds of the loop are expected to find, after the managers `seen` have registered.
unfoldable pub AreExpectedPolls : Settings → List ℕ → List Poll → Type 0
AreExpectedPolls c seen [] = Unit
AreExpectedPolls c seen (p ∷ ps) =
    IsExpectedPoll c seen p.from_manager
    × AreExpectedPolls c (seen_after_poll p.from_manager seen) ps

module _ (sl : SortedList) (select : Selector) (fair : IsFair select) (c : Settings) where
  answer-IsSound :
      (now : ℕ) (command : Option CommandRequest) (seen : List ℕ) (s : Interchange)
      → IsSound seen s
      → IsSound seen (answer sl select c now command s)
  answer-IsSound now none seen s h = h
  answer-IsSound now (some command) seen s h =
      process_command-IsSound c.worker_port now command seen s h

  receive-IsSound :
      (msg : Option TaskMessage) (seen : List ℕ) (s : Interchange)
      → IsSound seen s
      → IsSound seen (receive sl select c msg s)
  receive-IsSound none seen s h = h
  receive-IsSound (some msg) seen s h = process_task_incoming-IsSound sl msg seen s h

  hear-Reaches :
      (now : ℕ) (m : Option (ℕ × ManagerMessage)) (seen : List ℕ) (s : Interchange)
      → IsSound seen s
      → IsExpectedPoll c seen m
      → Reaches (seen_after_poll m seen) (hear sl select c now m s)
  hear-Reaches now none seen s h x = Reaches-ok h
  hear-Reaches now (some (k, message)) seen s h x =
      process_manager_socket_message-Reaches c now k seen s h message x

  round-IsServed :
      (p : Poll) (seen : List ℕ) (s : Interchange)
      → IsSound seen s
      → IsExpectedPoll c seen p.from_manager
      → IsServed (seen_after_poll p.from_manager seen) (round sl select c p s)
  unfolding round
  round-IsServed p seen s h x =
      let a = answer-IsSound p.now p.command seen s h in
      let r = receive-IsSound p.task seen (answer sl select c p.now p.command s) a in
      let heard = hear-Reaches p.now p.from_manager seen _ r x in
      let seen' = seen_after_poll p.from_manager seen in
      let bad =
        expire_bad_managers-IsSound c.heartbeat_threshold p.now seen' heard.after heard.sound in
      let left = expire_drained_managers-Reaches seen' _ bad in
      rw (heard.returns, left.returns)
        (process_tasks_to_send-IsServed select seen' left.after fair left.sound)

  -- For any sorted list, any fair selector, and whatever a round finds, as long as it is expected: the
  -- round returns, and after it no task is pending, or no manager that is registered, active and not
  -- draining has fewer tasks than it can hold.
  pub round-work_conserving :
      (p : Poll) (seen : List ℕ) (s : Interchange)
      → IsSound seen s
      → IsExpectedPoll c seen p.from_manager
      → (s' : Interchange) × (round sl select c p s ≡ ok s')
        × ((s'.pending_task_queue ≡ [])
            ⊎ ((k : ℕ) (m : ManagerRecord)
                → get_manager k s'.ready_managers ≡ some m
                → ¬ HasRoom m))
  round-work_conserving p seen s h x =
      let r = round-IsServed p seen s h x in
      (
        r.after,
        r.returns,
        elim r.used [
          | inl empty ↦ inl empty
          | inr none_left ↦ inr (λ k m there room.
              absurd (omega (arith, none_left k, r.sound.tracked.served k m there room)))
        ],
      )

  -- The loop returns, and the invariant holds: each task that was received is as often pending, with
  -- a manager or answered; no manager has more tasks than it can hold; the queue is in order.
  pub start-IsSound :
      (ps : List Poll) (seen : List ℕ) (s : Interchange)
      → IsSound seen s
      → AreExpectedPolls c seen ps
      → (s' : Interchange) × (start sl select c ps s ≡ ok s')
        × ((later : List ℕ) × IsSound later s')
  unfolding start AreExpectedPolls
  start-IsSound [] seen s h x = (s, refl, (seen, h))
  start-IsSound (p ∷ ps) seen s h x = elim (Bool-cases s.kill_event) [
    | inl killed ↦ (s, simp killed, (seen, h))
    | inr running ↦
        let r = round-IsServed p seen s h x.0 in
        let (s', returns, sound) =
          start-IsSound ps (seen_after_poll p.from_manager seen) r.after r.sound x.1 in
        (s', simp (running, r.returns) returns, sound)
  ]

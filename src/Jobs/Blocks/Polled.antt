-- ===== src/Jobs/Blocks/Polled.antt =====
-- A poll keeps the blocks, the jobs and the statuses together
-- (environment/parsl/executors/status_handling.py).
use mathlib.Core.Path.{subst}
use talents_parsl_checkpoint.Prelude.{
  ℕ, ◌≤◌, ◌≡◌, inl, inr, refl, ap, sym, ◌∙◌, true, false, Option, none, some, List, [], ◌∷◌, count,
  arith,
}
use talents_parsl_checkpoint.Jobs.Failures.{JobState, Status}
use talents_parsl_checkpoint.Jobs.Blocks.{
  BlockProviderExecutor, fill, make_status_dict, polled, poll_facade,
}
use talents_parsl_checkpoint.Jobs.Blocks.Dicts.{
  find, put, keys, merge, or_else, IsDict, find-put_other, put-IsDict, find-cases, find-merge,
  merge-IsDict,
}
use talents_parsl_checkpoint.Jobs.Blocks.Linked.{IsLinked, some_eq}

fill-none :
    (b : ℕ) (d r : Status) (bs : List ℕ) (xs : List JobState)
    → count b bs ≡ 0
    → find b d ≡ none
    → fill d bs xs ≡ some r
    → find b r ≡ none
unfolding fill
fill-none b d r [] [] absent e is = let same : d ≡ r = some_eq is in ap (find b) (sym same) ∙ e
fill-none b d r [] (x ∷ xs) absent e is = cc
fill-none b d r (c ∷ bs) [] absent e is = cc
fill-none b d r (c ∷ bs) (x ∷ xs) absent e is =
    fill-none b (put c x d) r bs xs (ground (arith, absent))
      (find-put_other c b x d (ground (arith, absent)) ∙ e) is

fill-IsDict :
    (d r : Status) (bs : List ℕ) (xs : List JobState) → IsDict d → fill d bs xs ≡ some r → IsDict r
unfolding fill
fill-IsDict d r [] [] h is = let same : d ≡ r = some_eq is in subst IsDict same h
fill-IsDict d r [] (x ∷ xs) h is = cc
fill-IsDict d r (c ∷ bs) [] h is = cc
fill-IsDict d r (c ∷ bs) (x ∷ xs) h is = fill-IsDict (put c x d) r bs xs (put-IsDict c x d h) is

polled-IsLinked :
    (r : Status) (s : BlockProviderExecutor)
    → ((b : ℕ) → count b (keys s.blocks_to_job_id) ≡ 0 → find b r ≡ none)
    → IsDict r
    → IsLinked s
    → IsLinked (record s { status = merge s.simulated_status r })
polled-IsLinked r s absent dict h =
    let says = λ (b : ℕ). find-merge b s.simulated_status r (h.once b) in
    record {
      active = λ b x e live. elim (find-cases b s.blocks_to_job_id) [
        | inr (j, there) ↦ (j, there)
        | inl gone ↦
            let made : find b s.simulated_status ≡ some x =
              only_left (find b s.simulated_status) (find b r) x (absent b gone)
                (sym (says b) ∙ e) in
            let clash : false ≡ true = sym live ∙ h.terminal b x made in cc
      ];
      back = h.back;
      sticky = λ b x e. says b ∙ ap (λ m. or_else m (find b r)) e;
      terminal = h.terminal;
      once = h.once;
      once_status = merge-IsDict s.simulated_status r dict;
      fresh_status = λ b le.
          says b ∙ ap (λ m. or_else m (find b r)) (h.fresh_simulated b le) ∙ absent b (no_key b le);
      fresh_simulated = h.fresh_simulated;
      fresh_block = h.fresh_block;
    }
  where
    only_left :
        (m k : Option JobState) (x : JobState) → k ≡ none → or_else m k ≡ some x → m ≡ some x
    only_left none k x e is = sym e ∙ is
    only_left (some y) k x e is = is

    no_key : (b : ℕ) → s.next_block ≤ b → count b (keys s.blocks_to_job_id) ≡ 0
    no_key b le = elim (find-cases b s.blocks_to_job_id) [
      | inl gone ↦ gone
      | inr (j, there) ↦ let clash : some j ≡ none = sym there ∙ h.fresh_block b le in cc
    ]

reported-IsLinked :
    (states : List JobState) (o : Option Status) (s s' : BlockProviderExecutor)
    → make_status_dict (keys s.blocks_to_job_id) states ≡ o
    → polled s o ≡ some s'
    → IsLinked s
    → IsLinked s'
unfolding find keys
reported-IsLinked states none s s' is e h = cc
reported-IsLinked states (some r) s s' is e h =
    let same : record s { status = merge s.simulated_status r } ≡ s' = some_eq e in
    subst IsLinked same (
      polled-IsLinked r s
        (λ b absent. fill-none b [] r (keys s.blocks_to_job_id) states absent refl is)
        (fill-IsDict [] r (keys s.blocks_to_job_id) states (λ k. omega arith) is) h)

pub poll_facade-IsLinked :
    (states : List JobState) (s s' : BlockProviderExecutor)
    → poll_facade states s ≡ some s'
    → IsLinked s
    → IsLinked s'
unfolding poll_facade
poll_facade-IsLinked states s s' e h =
    reported-IsLinked states (make_status_dict (keys s.blocks_to_job_id) states) s s' refl e h

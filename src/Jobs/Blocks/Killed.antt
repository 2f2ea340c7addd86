-- ===== src/Jobs/Blocks/Killed.antt =====
-- The jobs that scaling in cancels, and their blocks (environment/parsl/executors/status_handling.py).
use talents_parsl_checkpoint.Prelude.{
  All, sym, ap, ◌∙◌, if◌then◌else◌, ℕ, zero, suc, ◌≤◌, ◌<◌, ◌==◌, ◌≡◌, inl, inr, refl, Bool, true,
  false, some, List, [], ◌∷◌, take, length, count, arith, Bool-cases, ==_iff,
}
use talents_parsl_checkpoint.Jobs.Failures.{JobState, Status}
use talents_parsl_checkpoint.Jobs.Blocks.{
  is_terminal, BlockProviderExecutor, active_blocks, find_all, filter_scale_in_ids,
}
use talents_parsl_checkpoint.Jobs.Blocks.Dicts.{find, keys, IsDict}
use talents_parsl_checkpoint.Jobs.Blocks.Linked.{IsLinked, some_eq}

pub count-take : (b n : ℕ) (xs : List ℕ) → count b (take n xs) ≤ count b xs
count-take b zero xs = omega arith
count-take b (suc n) [] = omega arith
count-take b (suc n) (x ∷ xs) = ground (arith, count-take b n xs)

pub length-take_le : (n : ℕ) (xs : List ℕ) → length (take n xs) ≤ n
length-take_le zero xs = omega arith
length-take_le (suc n) [] = omega arith
length-take_le (suc n) (x ∷ xs) = omega (arith, length-take_le n xs)

active-keys : (b : ℕ) (d : Status) → count b (active_blocks d) ≤ count b (keys d)
unfolding active_blocks keys
active-keys b [] = omega arith
active-keys b ((c, x) ∷ d) = ground (arith, active-keys b d)

-- A block that is active has a status that is not terminal.
pub active-find :
    (b : ℕ) (d : Status)
    → IsDict d
    → 0 < count b (active_blocks d)
    → (x : JobState) × (find b d ≡ some x) × (is_terminal x ≡ false)
unfolding active_blocks find keys
active-find b [] h more = absurd (omega arith)
active-find b ((c, x) ∷ d) h more = elim (Bool-cases (b == c)) [
  | inl same ↦ elim (Bool-cases (is_terminal x)) [
    | inr live ↦ (x, rw same refl, live)
    | inl ends ↦ absurd (ground (arith, more, ends, h c, (==_iff b c).0 same, active-keys b d))
  ]
  | inr other ↦
      let (y, there, live) =
        active-find b d (λ k. ground (arith, h k)) (ground (arith, more, other)) in
      (y, rw other there, live)
]

-- A block that has ended is not one of the active blocks.
pub terminal-inactive :
    (b : ℕ) (x : JobState) (d : Status)
    → IsDict d
    → find b d ≡ some x
    → is_terminal x ≡ true
    → count b (active_blocks d) ≡ 0
terminal-inactive b x d dict now ends = elim (Bool-cases (count b (active_blocks d) == 0)) [
  | inl inactive ↦ (==_iff _ 0).0 inactive
  | inr more ↦
      let (y, there, live) = active-find b d dict (ground (arith, more)) in
      let same : x ≡ y = some_eq (sym now ∙ there) in
      let clash : true ≡ false = sym ends ∙ ap is_terminal same ∙ live in cc
]

-- The jobs js are those of the blocks bs, and lead back to them.
pub data Pairs (s : BlockProviderExecutor) : List ℕ → List ℕ → Type 0 where
  no_pairs : Pairs s [] []
  pair :
      (b j : ℕ) (bs js : List ℕ)
      → find b s.blocks_to_job_id ≡ some j
      → find j s.job_ids_to_block ≡ some b
      → Pairs s bs js
      → Pairs s (b ∷ bs) (j ∷ js)

pub jobs_of :
    (s : BlockProviderExecutor) (bs : List ℕ)
    → IsLinked s
    → ((b : ℕ) → 0 < count b bs → (j : ℕ) × (find b s.blocks_to_job_id ≡ some j))
    → (js : List ℕ) × Pairs s bs js
jobs_of s [] h has = ([], Pairs.no_pairs)
jobs_of s (b ∷ bs) h has =
    let (j, there) = has b (ground arith) in
    let (js, rest) = jobs_of s bs h (λ c more. has c (omega (arith, more))) in
    (j ∷ js, Pairs.pair b j bs js there (h.back b j there) rest)

pub Pairs-out :
    (s : BlockProviderExecutor) (bs js : List ℕ)
    → Pairs s bs js
    → find_all s.blocks_to_job_id bs ≡ some js
unfolding find_all
Pairs-out s _ _ (Pairs.no_pairs) = refl
Pairs-out s _ _ (Pairs.pair b j bs js there back rest) = rw (there, Pairs-out s bs js rest) refl

pub Pairs-back :
    (s : BlockProviderExecutor) (bs js : List ℕ)
    → Pairs s bs js
    → find_all s.job_ids_to_block js ≡ some bs
unfolding find_all
Pairs-back s _ _ (Pairs.no_pairs) = refl
Pairs-back s _ _ (Pairs.pair b j bs js there back rest) = rw (back, Pairs-back s bs js rest) refl

-- Some of the jobs are killed, and the blocks are those of these jobs.
pub record IsKilled (s : BlockProviderExecutor) (bs js : List ℕ) (flags : List Bool) : Type 0 where
  pub killed : List ℕ
  pub ids : List ℕ
  pub filters : filter_scale_in_ids js flags ≡ some killed
  pub pairs : Pairs s ids killed
  pub fewer : length ids ≤ length bs
  pub among : (b : ℕ) → count b ids ≤ count b bs
  pub whole : All (λ f. f ≡ true) flags → ids ≡ bs

kill_one :
    (s : BlockProviderExecutor) (b j : ℕ) (bs js : List ℕ) (f : Bool) (flags : List Bool)
    → find b s.blocks_to_job_id ≡ some j
    → find j s.job_ids_to_block ≡ some b
    → IsKilled s bs js flags
    → IsKilled s (b ∷ bs) (j ∷ js) (f ∷ flags)
unfolding filter_scale_in_ids
kill_one s b j bs js true flags there back x = record {
  killed = j ∷ x.killed;
  ids = b ∷ x.ids;
  filters = rw x.filters refl;
  pairs = Pairs.pair b j x.ids x.killed there back x.pairs;
  fewer = omega (arith, x.fewer);
  among = λ c. omega (arith, x.among c);
  whole = λ all. ap (λ l. b ∷ l) (x.whole all.1);
}
kill_one s b j bs js false flags there back x = record {
  killed = x.killed;
  ids = x.ids;
  filters = rw x.filters refl;
  pairs = x.pairs;
  fewer = omega (arith, x.fewer);
  among = λ c. omega (arith, x.among c);
  whole = λ all. let clash : false ≡ true = all.0 in cc;
}

pub kill :
    (s : BlockProviderExecutor) (bs js : List ℕ) (flags : List Bool)
    → Pairs s bs js
    → length flags ≡ length js
    → IsKilled s bs js flags
unfolding filter_scale_in_ids
kill s _ _ [] (Pairs.no_pairs) same = record {
  killed = [];
  ids = [];
  filters = refl;
  pairs = Pairs.no_pairs;
  fewer = omega arith;
  among = λ c. omega arith;
  whole = λ all. refl;
}
kill s _ _ (f ∷ flags) (Pairs.no_pairs) same = absurd (omega (arith, same))
kill s _ _ [] (Pairs.pair b j bs js there back rest) same = absurd (omega (arith, same))
kill s _ _ (f ∷ flags) (Pairs.pair b j bs js there back rest) same =
    kill_one s b j bs js f flags there back (kill s bs js flags rest (omega (arith, same)))

-- A block with a status that is not terminal is active.
pub find-active :
    (b : ℕ) (x : JobState) (d : Status)
    → find b d ≡ some x
    → is_terminal x ≡ false
    → 0 < count b (active_blocks d)
unfolding active_blocks find
find-active b x [] e live = cc
find-active b x ((c, y) ∷ d) e live = by_head (b == c) refl e (λ is. find-active b x d is live)
  where
    by_head :
        (t : Bool)
        → (b == c) ≡ t
        → (if t then some y else find b d) ≡ some x
        → (find b d ≡ some x → 0 < count b (active_blocks d))
        → 0 < count b (if is_terminal y then active_blocks d else c ∷ active_blocks d)
    by_head true same is below =
        let y_live : is_terminal y ≡ false = ap is_terminal (some_eq is) ∙ live in
        rw y_live (ground (arith, (==_iff b c).0 same))
    by_head false other is below =
        let rest = below is in
        elim (Bool-cases (is_terminal y)) [
          | inl ends ↦ rw ends rest
          | inr lives ↦ rw lives (omega (arith, rest))
        ]

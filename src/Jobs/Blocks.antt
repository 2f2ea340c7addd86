-- ===== src/Jobs/Blocks.antt =====
-- environment/parsl/executors/status_handling.py: the blocks of a `BlockProviderExecutor` with a provider.
-- The ID of a block is the number that it is printed from, and a job ID a number.
pub mod Dicts
pub mod Linked
pub mod Polled
pub mod Killed
pub mod Scaled
pub mod History
pub mod Lives
use talents_parsl_checkpoint.Prelude.{
  ℕ, ◌+◌, Bool, true, false, not, Option, none, some, List, [], ◌∷◌, ◌++◌, take, length, ◌==◌,
  if◌then◌else◌,
}
use talents_parsl_checkpoint.Jobs.Failures.{
  JobState, pending, cancelled, completed, failed, timeout, missing, scaled_in, Status,
}
use talents_parsl_checkpoint.Jobs.Blocks.Dicts.{find, put, keys, merge}

-- `TERMINAL_STATES`
abbrev pub is_terminal : JobState → Bool
is_terminal cancelled = true
is_terminal completed = true
is_terminal failed = true
is_terminal timeout = true
is_terminal missing = true
is_terminal scaled_in = true
is_terminal _ = false

-- The counter of `AtomicIDCounter`, the two maps between blocks and jobs, the status that the code
-- makes up, and the latest status.
pub record BlockProviderExecutor : Type 0 where
  pub next_block : ℕ
  pub blocks_to_job_id : List (ℕ × ℕ)
  pub job_ids_to_block : List (ℕ × ℕ)
  pub simulated_status : Status
  pub status : Status

-- One turn of the loop of `scale_out_facade`. The provider gives a job ID, or `none` where it raises or
-- gives no ID.
unfoldable pub launch_block : Option ℕ → BlockProviderExecutor → List ℕ × BlockProviderExecutor
launch_block (some job) s = (
  s.next_block ∷ [],
  record s {
    next_block = s.next_block + 1;
    blocks_to_job_id = put s.next_block job s.blocks_to_job_id;
    job_ids_to_block = put job s.next_block s.job_ids_to_block;
    status = put s.next_block pending s.status;
  },
)
launch_block none s = (
  [],
  record s {
    next_block = s.next_block + 1;
    simulated_status = put s.next_block failed s.simulated_status;
    status = put s.next_block failed s.status;
  },
)

-- `scale_out_facade`, with an answer of the provider for each block; it gives the new block IDs.
unfoldable pub scale_out_facade :
    List (Option ℕ) → BlockProviderExecutor → List ℕ × BlockProviderExecutor
scale_out_facade [] s = ([], s)
scale_out_facade (job ∷ jobs) s =
    let (ids, s1) = launch_block job s in
    let (more, s2) = scale_out_facade jobs s1 in (ids ++ more, s2)

-- `_make_status_dict` raises if the lists differ in size.
unfoldable pub fill : Status → List ℕ → List JobState → Option Status
fill d [] [] = some d
fill d (b ∷ bs) (x ∷ xs) = fill (put b x d) bs xs
fill d _ _ = none

abbrev pub make_status_dict : List ℕ → List JobState → Option Status
make_status_dict ids states = fill [] ids states

abbrev pub polled : BlockProviderExecutor → Option Status → Option BlockProviderExecutor
polled s none = none
polled s (some reported) = some (record s { status = merge s.simulated_status reported })

-- `poll_facade` at a time when a poll is due, with the answer of the provider on the jobs.
unfoldable pub poll_facade : List JobState → BlockProviderExecutor → Option BlockProviderExecutor
poll_facade states s = polled s (make_status_dict (keys s.blocks_to_job_id) states)

unfoldable pub active_blocks : Status → List ℕ
active_blocks [] = []
active_blocks ((b, x) ∷ rest) =
    let more = active_blocks rest in if is_terminal x then more else b ∷ more

abbrev pub both_found : Option ℕ → Option (List ℕ) → Option (List ℕ)
both_found (some v) (some vs) = some (v ∷ vs)
both_found _ _ = none

-- `[d[k] for k in ks]`, which raises KeyError for a key that is missing.
unfoldable pub find_all : List (ℕ × ℕ) → List ℕ → Option (List ℕ)
find_all d [] = some []
find_all d (k ∷ ks) = both_found (find k d) (find_all d ks)

-- `_filter_scale_in_ids` asserts that the lists are of one length.
unfoldable pub filter_scale_in_ids : List ℕ → List Bool → Option (List ℕ)
filter_scale_in_ids [] [] = some []
filter_scale_in_ids (j ∷ js) (k ∷ ks) = elim (filter_scale_in_ids js ks) [
  | none ↦ none
  | some rest ↦ some (if k then j ∷ rest else rest)
]
filter_scale_in_ids _ _ = none

-- The chaining of a `do` block: an exception leaves it at once.
module _ {ℓ κ} {A : Type ℓ} {B : Type κ} where
  infixl 5 ◌>>=◌
  abbrev pub ◌>>=◌ : Option A → (A → Option B) → Option B
  none >>= next = none
  some value >>= next = next value

-- `scale_in`: `cancel` is the provider's answer on the jobs that it is to kill.
unfoldable pub scale_in :
    ℕ → (cancel : List ℕ → List Bool) → BlockProviderExecutor → Option (List ℕ)
scale_in blocks cancel s = do
  jobs ← find_all s.blocks_to_job_id (take blocks (active_blocks s.status))
  killed ← filter_scale_in_ids jobs (cancel jobs)
  find_all s.job_ids_to_block killed

unfoldable pub mark_scaled_in : List ℕ → BlockProviderExecutor → BlockProviderExecutor
mark_scaled_in [] s = s
mark_scaled_in (b ∷ bs) s = mark_scaled_in bs (record s {
  status = put b scaled_in s.status;
  simulated_status = put b scaled_in s.simulated_status;
})

-- `scale_in_facade` without `max_idletime`; `none` is an exception, before which nothing has changed.
unfoldable pub scale_in_facade :
    ℕ → (List ℕ → List Bool) → BlockProviderExecutor → Option (List ℕ × BlockProviderExecutor)
scale_in_facade n cancel s = do ids ← scale_in n cancel s; some (ids, mark_scaled_in ids s)

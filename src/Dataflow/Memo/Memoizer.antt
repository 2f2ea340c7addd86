-- ===== src/Dataflow/Memo/Memoizer.antt =====
-- solution/memoization.py, class `Memoizer`: the check before a launch, and the update after a run.
use talents_parsl_checkpoint.Prelude.{
  false, Bool-cases, inl, inr, ◌≡◌, refl, String, Bool, not, ◌||◌, Option, none, some,
  if◌then◌else◌,
}
use talents_parsl_checkpoint.Dataflow.Errors.{Exn, Result, ok, err}
use talents_parsl_checkpoint.Dataflow.Values.{Runtime, Heap}
use talents_parsl_checkpoint.Dataflow.Tasks.{TaskRecord}
use talents_parsl_checkpoint.Dataflow.Memo.{
  MemoEntry, Outcome, Table, lookup, insert, from_result, from_exception, as_future, ℕ,
}
use talents_parsl_checkpoint.Dataflow.Memo.Identity.{make_hash}

-- `_eligible_hash`; `enabled` is the memoizer's own `memoize`.
unfoldable pub eligible_hash : Bool → TaskRecord → Option String
eligible_hash enabled t = if not enabled || not t.memoize then none else t.hashsum

-- A failed task is stored with its exception.
unfoldable pub prepare_failure : Bool → TaskRecord → Exn → Option MemoEntry
unfolding eligible_hash
prepare_failure enabled t x = elim (eligible_hash enabled t) [
  | none ↦ none
  | some h ↦ some (from_exception x)
]

unfoldable pub update_memo : Bool → TaskRecord → Option MemoEntry → Table → Table
unfolding eligible_hash
update_memo enabled t none table = table
update_memo enabled t (some entry) table = elim (eligible_hash enabled t) [
  | none ↦ table
  | some h ↦ insert h entry table
]

-- What `check_memo` gives back: the finished Future of a hit, or `none`, or what it raised; with
-- the task record, whose hashsum it sets, and the heap.
pub record Checked : Type 0 where
  pub found : Result (Option Outcome)
  pub task : TaskRecord
  pub heap : Heap

module _ (rt : Runtime) where
  freeze : MemoEntry × Heap → Option MemoEntry × Heap
  freeze (e, h) = (some e, h)

  -- `prepare_success`, on the reference of the result.
  unfoldable pub prepare_success : Bool → TaskRecord → ℕ → Heap → Option MemoEntry × Heap
  unfolding freeze eligible_hash
  prepare_success enabled t r h = elim (eligible_hash enabled t) [
    | none ↦ (none, h)
    | some k ↦ freeze (from_result rt r h)
  ]

  -- A hit makes the Future before the hashsum is set: if that raises, the task has none.
  hit : TaskRecord → String → Result Outcome × Heap → Checked
  hit t k (ok o, h) = record { found = ok (some o); task = record t { hashsum = some k }; heap = h }
  hit t k (err x, h) = record { found = err x; task = t; heap = h }

  look_up : TaskRecord → String → Option MemoEntry → Heap → Checked
  unfolding hit
  look_up t k none h = record { found = ok none; task = record t { hashsum = some k }; heap = h }
  look_up t k (some e) h = hit t k (as_future rt e h)

  hashed : TaskRecord → Result String → Table → Heap → Checked
  unfolding look_up
  hashed t (err x) table h = record { found = err x; task = t; heap = h }
  hashed t (ok k) table h = look_up t k (lookup k table) h

  unfoldable pub check_memo : Bool → TaskRecord → Table → Heap → Checked
  unfolding hashed
  check_memo enabled t table h =
      if not enabled || not t.memoize
      then record { found = ok none; task = record t { hashsum = none }; heap = h }
      else hashed t (make_hash rt t) table h

  -- The check leaves alone the state, the dependencies, and what the retries are counted with.
  pub record IsRehashed (t u : TaskRecord) : Type 0 where
    pub tries : u.try_id ≡ t.try_id
    pub cost : u.fail_cost ≡ t.fail_cost
    pub state : u.status ≡ t.status
    pub depends : u.depends ≡ t.depends

  hit-IsRehashed :
      (t : TaskRecord) (k : String) (o : Result Outcome × Heap) → IsRehashed t (hit t k o).task
  unfolding hit
  hit-IsRehashed t k (ok o, h) = record { tries = refl; cost = refl; state = refl; depends = refl }
  hit-IsRehashed t k (err x, h) = record { tries = refl; cost = refl; state = refl; depends = refl }

  look_up-IsRehashed :
      (t : TaskRecord) (k : String) (e : Option MemoEntry) (h : Heap)
      → IsRehashed t (look_up t k e h).task
  unfolding look_up
  look_up-IsRehashed t k none h = record { tries = refl; cost = refl; state = refl; depends = refl }
  look_up-IsRehashed t k (some e) h = hit-IsRehashed t k (as_future rt e h)

  hashed-IsRehashed :
      (t : TaskRecord) (k : Result String) (table : Table) (h : Heap)
      → IsRehashed t (hashed t k table h).task
  unfolding hashed
  hashed-IsRehashed t (err x) table h = record {
    tries = refl;
    cost = refl;
    state = refl;
    depends = refl;
  }
  hashed-IsRehashed t (ok k) table h = look_up-IsRehashed t k (lookup k table) h

  pub check_memo-IsRehashed :
      (enabled : Bool) (t : TaskRecord) (table : Table) (h : Heap)
      → IsRehashed t (check_memo enabled t table h).task
  unfolding check_memo
  check_memo-IsRehashed enabled t table h = elim (Bool-cases (not enabled || not t.memoize)) [
    | inl off ↦ rw off (record { tries = refl; cost = refl; state = refl; depends = refl })
    | inr on ↦ rw on (hashed-IsRehashed t (make_hash rt t) table h)
  ]

  -- A hit, given what its parts give.
  pub check_memo-hit :
      (enabled : Bool) (t : TaskRecord) (table : Table) (h h' : Heap) (k : String) (e : MemoEntry)
      (o : Outcome)
      → (not enabled || not t.memoize) ≡ false
      → make_hash rt t ≡ ok k
      → lookup k table ≡ some e
      → as_future rt e h ≡ (ok o, h')
      → check_memo enabled t table h
        ≡ record { found = ok (some o); task = record t { hashsum = some k }; heap = h' }
  unfolding check_memo
  check_memo-hit enabled t table h h' k e o on hashes known future =
      rw on (rw hashes (rw known (rw future refl)))

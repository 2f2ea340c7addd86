-- ===== src/Dataflow/Memo/Loading/Records.antt =====
-- What a checkpoint file may hold, and lemmas on its loading
-- (solution/memoization.py, `_load_checkpoints`).
use talents_parsl_checkpoint.Prelude.{
  ℕ, zero, suc, ◌≤◌, String, ◌≡◌, ◌≢◌, ◌↔◌, refl, sym, ap, ◌∙◌, Option, none, some, List, [], ◌∷◌,
  length, arith, Option-cases, inl, inr, All,
}
use native.Mathlib.Nat.{le_refl}
use mathlib.Core.Path.{subst}
use talents_parsl_checkpoint.Prelude.{All}
use talents_parsl_checkpoint.Dataflow.Errors.{
  Exn, >>=-eq-ok, Result-cases, ok, err, bad_checkpoint, Exn,
}
use talents_parsl_checkpoint.Dataflow.Values.{Value, Runtime, Heap}
use talents_parsl_checkpoint.Dataflow.Memo.{Table}
use talents_parsl_checkpoint.Dataflow.Memo.Loading.Entries.{add_all, IsLoaded, add_all-IsLoaded}
use talents_parsl_checkpoint.Dataflow.Memo.Loading.{
  record_of, add_record, load_stream, load_file, load_checkpoints,
}

-- The stream is the pickles of records, one after another, with nothing else.
pub data Records (rt : Runtime) : List ℕ → List (String × Value) → Type 0 where
  finish : Records rt [] []
  entry :
      (s rest : List ℕ) (v : Value) (e : String × Value) {es : List (String × Value)}
      → rt.load s ≡ some (v, rest)
      → record_of v ≡ some e
      → Records rt rest es
      → Records rt s (e ∷ es)

module _ (rt : Runtime) where
  load_stream_sound :
      (fuel : ℕ) (s : List ℕ) (state after : Table × Heap)
      → load_stream rt fuel s state ≡ ok after
      → (es : List (String × Value)) × Records rt s es × (after ≡ add_all rt es state)
  unfolding load_stream add_all
  load_stream_sound fuel [] state after h = ([], Records.finish, cc)
  load_stream_sound zero (x ∷ s) state after h = cc
  load_stream_sound (suc fuel) (x ∷ s) state after h = elim (Option-cases (rt.load (x ∷ s))) [
    | inl fails ↦ cc (rw (fails, load_stream) at h)
    | inr ((v, rest), read) ↦ elim (Option-cases (record_of v)) [
      | inl bad ↦ cc (rw (read, bad, load_stream) at h)
      | inr (e, good) ↦
          let (es, records, same) =
            load_stream_sound fuel rest (add_record rt e state) after
              (rw (read, good, load_stream) at h) in
          (e ∷ es, Records.entry (x ∷ s) rest v e read good records, same)
    ]
  ]

  load_stream_complete :
      (fuel : ℕ) (s : List ℕ) (state : Table × Heap) (es : List (String × Value))
      → Records rt s es
      → length s ≤ fuel
      → load_stream rt fuel s state ≡ ok (add_all rt es state)
  unfolding load_stream add_all
  load_stream_complete fuel [] state es (Records.finish) fits = refl
  load_stream_complete fuel [] state es (Records.entry s rest v e read good records) fits =
      absurd (omega (arith, rt.load-shorter [] rest v read))
  load_stream_complete zero (x ∷ s) state es records fits = absurd (omega arith)
  load_stream_complete (suc fuel) (x ∷ s) state es (Records.entry _ rest v e read good records)
        fits =
      rw (read, load_stream)
        (rw (good, load_stream)
          (load_stream_complete fuel rest (add_record rt e state) _ records
            (omega (arith, rt.load-shorter (x ∷ s) rest v read))))

-- Whatever the file and the table so far: loading succeeds exactly when the file is there, is not
-- empty, and is a stream of valid records with nothing behind them. The table is then the one so far with
-- every record put in, in the order of the stream: under each hash one finds an entry of the value of
-- the last record with that hash, made by pickling or else by copying it, and what was there before
-- under a hash that no record has. The objects that were there stay as they were.
pub load_file-eq-ok :
    (rt : Runtime) (file : Option (List ℕ)) (state after : Table × Heap)
    → (load_file rt file state ≡ ok after) ↔ (
        (s : List ℕ) × (es : List (String × Value)) × (file ≡ some s)
        × (s ≢ [])
        × Records rt s es
        × (after ≡ add_all rt es state)
        × IsLoaded rt es state after)
unfolding load_file
load_file-eq-ok rt file state after = (sound file, complete file)
  where
    sound :
        (file : Option (List ℕ))
        → load_file rt file state ≡ ok after
        → (s : List ℕ) × (es : List (String × Value)) × (file ≡ some s)
          × (s ≢ [])
          × Records rt s es
          × (after ≡ add_all rt es state)
          × IsLoaded rt es state after
    sound none h = cc
    sound (some []) h = cc
    sound (some (x ∷ s)) h =
        let (es, records, same) = load_stream_sound rt (length (x ∷ s)) (x ∷ s) state after h in
        (
          x ∷ s,
          es,
          refl,
          (λ e. cc),
          records,
          same,
          subst (IsLoaded rt es state) (sym same) (add_all-IsLoaded rt es state),
        )

    complete :
        (file : Option (List ℕ))
        → ((s : List ℕ) × (es : List (String × Value)) × (file ≡ some s)
            × (s ≢ [])
            × Records rt s es
            × (after ≡ add_all rt es state)
            × IsLoaded rt es state after)
        → load_file rt file state ≡ ok after
    complete none (s, es, there, _, _, _, _) = cc
    complete (some []) (s, es, there, not_empty, _, _, _) = absurd (not_empty (cc))
    complete (some (x ∷ t)) (s, es, there, _, records, same, _) =
        let same_stream : s ≡ x ∷ t = cc in
        load_stream_complete rt (length (x ∷ t)) (x ∷ t) state es
          (subst (λ l. Records rt l es) same_stream records) (le_refl _)
        ∙ ap ok (sym same)

load_stream-err :
    (rt : Runtime) (fuel : ℕ) (s : List ℕ) (state : Table × Heap) (x : Exn)
    → load_stream rt fuel s state ≡ err x
    → x ≡ bad_checkpoint
unfolding load_stream
load_stream-err rt fuel [] state x h = cc
load_stream-err rt zero (c ∷ s) state x h = cc
load_stream-err rt (suc fuel) (c ∷ s) state x h = elim (Option-cases (rt.load (c ∷ s))) [
  | inl fails ↦ cc (rw (fails, load_stream) at h)
  | inr ((v, rest), read) ↦ elim (Option-cases (record_of v)) [
    | inl bad ↦ cc (rw (read, bad, load_stream) at h)
    | inr (e, good) ↦
        load_stream-err rt fuel rest (add_record rt e state) x (rw (read, good, load_stream) at h)
  ]
]

pub load_file-err :
    (rt : Runtime) (file : Option (List ℕ)) (state : Table × Heap) (x : Exn)
    → load_file rt file state ≡ err x
    → x ≡ bad_checkpoint
unfolding load_file
load_file-err rt none state x h = cc
load_file-err rt (some []) state x h = cc
load_file-err rt (some (c ∷ s)) state x h = load_stream-err rt (length (c ∷ s)) (c ∷ s) state x h

-- The directory has a file that is a non-empty stream of valid records.
abbrev pub IsCheckpoint : Runtime → (String → Option (List ℕ)) → String → Type 0
IsCheckpoint rt read dir =
    (s : List ℕ) × (es : List (String × Value)) × (read dir ≡ some s) × (s ≢ []) × Records rt s es

module _ (rt : Runtime) (read : String → Option (List ℕ)) where
  load_checkpoints-ok :
      (dirs : List String) (state after : Table × Heap)
      → load_checkpoints rt read dirs state ≡ ok after
      → All (IsCheckpoint rt read) dirs
  unfolding load_checkpoints
  load_checkpoints-ok [] state after h = tt
  load_checkpoints-ok (dir ∷ dirs) state after h =
      let (mid, first, others) =
        >>=-eq-ok (load_file rt (read dir) state) (load_checkpoints rt read dirs) h in
      let (s, es, there, filled, records, _, _) =
        (load_file-eq-ok rt (read dir) state mid).0 first in
      ((s, es, there, filled, records), load_checkpoints-ok dirs mid after others)

  load_checkpoints-err :
      (dirs : List String) (state : Table × Heap) (x : Exn)
      → load_checkpoints rt read dirs state ≡ err x
      → x ≡ bad_checkpoint
  unfolding load_checkpoints
  load_checkpoints-err [] state x h = cc
  load_checkpoints-err (dir ∷ dirs) state x h =
      elim (Result-cases (load_file rt (read dir) state)) [
        | inl (mid, e) ↦ load_checkpoints-err dirs mid x (rw e at h)
        | inr (y, e) ↦ load_file-err rt (read dir) state x (cc (rw e at h))
      ]

  -- If one of the checkpoints that are asked for is not a non-empty stream of valid records, then
  -- loading gives no table: it raises BadCheckpoint.
  pub load_checkpoints-closed :
      (dirs : List String) (state : Table × Heap)
      → ¬ All (IsCheckpoint rt read) dirs
      → load_checkpoints rt read dirs state ≡ err bad_checkpoint
  load_checkpoints-closed dirs state broken =
      elim (Result-cases (load_checkpoints rt read dirs state)) [
        | inl (after, e) ↦ absurd (broken (load_checkpoints-ok dirs state after e))
        | inr (x, e) ↦ e ∙ ap err (load_checkpoints-err dirs state x e)
      ]

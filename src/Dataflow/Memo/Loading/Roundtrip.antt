-- ===== src/Dataflow/Memo/Loading/Roundtrip.antt =====
-- Lemmas on loading (solution/memoization.py) what solution/completion.py writes.

use mathlib.Core.Path.{subst}
use talents_parsl_checkpoint.Prelude.{
  zero, suc, none, append_assoc, ℕ, ◌<◌, String, ◌≡◌, ◌≢◌, refl, sym, ap, ◌∙◌, some, List, [], ◌∷◌,
  ◌++◌, length, take, arith, inl, inr,
}
use talents_parsl_checkpoint.Dataflow.Errors.{ok, err, bad_checkpoint, Result-cases}
use talents_parsl_checkpoint.Dataflow.Values.{Value, Runtime, Heap}
use talents_parsl_checkpoint.Dataflow.Memo.{Table}
use talents_parsl_checkpoint.Dataflow.Memo.Loading.{record_of, load_file}
use talents_parsl_checkpoint.Dataflow.Memo.Loading.Entries.{add_all, IsLoaded, add_all-IsLoaded}
use talents_parsl_checkpoint.Dataflow.Memo.Loading.Records.{Records, load_file-eq-ok, load_file-err}
use talents_parsl_checkpoint.Dataflow.Completion.{record_value}
use talents_parsl_checkpoint.Dataflow.Checkpoint.{content}

-- The stream that the records of some hashes and results make.
pub data Dumped (rt : Runtime) : List (String × Value) → List ℕ → Type 0 where
  none_written : Dumped rt [] []
  written :
      (k : String) (v : Value) (b : List ℕ) {es : List (String × Value)} {s : List ℕ}
      → rt.dumps (record_value k v) ≡ some b
      → Dumped rt es s
      → Dumped rt ((k, v) ∷ es) (b ++ s)

record_of-record_value : (k : String) (v : Value) → record_of (record_value k v) ≡ some (k, v)
unfolding record_of
record_of-record_value k v = refl

module _ (rt : Runtime) where
  Dumped-Records : (es : List (String × Value)) (s : List ℕ) → Dumped rt es s → Records rt s es
  Dumped-Records [] s (Dumped.none_written) = Records.finish
  Dumped-Records (e ∷ es) s (Dumped.written k v b {s = rest} dumped more) =
      Records.entry (b ++ rest) rest (record_value k v) (k, v)
        (rt.load-dumps (record_value k v) b rest dumped) (record_of-record_value k v)
        (Dumped-Records es rest more)

  -- The records of any results, under any hashes, load again: a file with at least one of them gives
  -- the table so far with all of them put in, in order. Under each of these hashes one then finds an
  -- entry of the last result that was recorded under it, made by pickling or else by copying it, and
  -- under any other hash what was there before. The objects that were there stay as they were.
  pub load_file-Dumped :
      (es : List (String × Value)) (s : List ℕ) (state : Table × Heap)
      → s ≢ []
      → Dumped rt es s
      → (load_file rt (some s) state ≡ ok (add_all rt es state))
        × IsLoaded rt es state (add_all rt es state)
  load_file-Dumped es s state filled dumped =
      let loaded = add_all-IsLoaded rt es state in
      (
        (load_file-eq-ok rt (some s) state (add_all rt es state)).1
            (s, es, refl, filled, Dumped-Records es s dumped, refl, loaded),
        loaded,
      )

  -- Behind a record that was dumped, a stream of records goes on.
  Records_tail :
      (k : String) (v : Value) (b rest s : List ℕ) (es : List (String × Value))
      → rt.dumps (record_value k v) ≡ some b
      → s ≡ b ++ rest
      → Records rt s es
      → (fs : List (String × Value)) × Records rt rest fs
  Records_tail k v b rest s es dumped same (Records.finish) = absurd (
      omega (
        arith,
        rt.load-shorter (b ++ rest) rest (record_value k v)
            (rt.load-dumps (record_value k v) b rest dumped),
        ap length same,
      ))
  Records_tail k v b rest s es dumped same (Records.entry _ others w e {es = fs} read good more) =
      let known = rt.load-dumps (record_value k v) b rest dumped in
      let equal : others ≡ rest = cc in (fs, subst (λ l. Records rt l fs) equal more)

  Records_torn :
      (es : List (String × Value)) (s t : List ℕ) (fs : List (String × Value))
      → Dumped rt es s
      → Records rt (s ++ t) fs
      → (gs : List (String × Value)) × Records rt t gs
  Records_torn [] s t fs (Dumped.none_written) records = (fs, records)
  Records_torn (e ∷ es) s t fs (Dumped.written k v b {s = rest} dumped more) records =
      let (gs, others) =
        Records_tail k v b (rest ++ t) _ fs dumped (append_assoc b rest t) records in
      Records_torn es rest t gs more others

  Records_unread :
      (s : List ℕ) (es : List (String × Value)) → s ≢ [] → rt.load s ≡ none → ¬ Records rt s es
  Records_unread s es filled unread (Records.finish) = filled refl
  Records_unread s es filled unread (Records.entry _ rest v e read good more) = cc

  take_filled : (n : ℕ) (b : List ℕ) → 0 < n → n < length b → take n b ≢ []
  take_filled n [] positive less e = absurd (omega arith)
  take_filled zero (x ∷ b) positive less e = absurd (omega arith)
  take_filled (suc n) (x ∷ b) positive less e = cc

  -- A file that ends within a record, whatever the whole records before it, is refused: loading
  -- raises BadCheckpoint.
  pub load_file_torn :
      (es : List (String × Value)) (s : List ℕ) (k : String) (v : Value) (b : List ℕ) (n : ℕ)
      (state : Table × Heap)
      → Dumped rt es s
      → rt.dumps (record_value k v) ≡ some b
      → 0 < n
      → n < length b
      → load_file rt (some (s ++ take n b)) state ≡ err bad_checkpoint
  load_file_torn es s k v b n state dumped last positive less =
      elim (Result-cases (load_file rt (some (s ++ take n b)) state)) [
        | inl (after, e) ↦
            let (s', fs, there, filled, records, _, _) =
              (load_file-eq-ok rt (some (s ++ take n b)) state after).0 e in
            let whole : s' ≡ s ++ take n b = sym (ap content there) in
            let (gs, rest) =
              Records_torn es s (take n b) fs dumped (subst (λ l. Records rt l fs) whole records) in
            absurd (
              Records_unread (take n b) gs (take_filled n b positive less)
                (rt.load-truncated (record_value k v) b n last less) rest)
        | inr (x, e) ↦ e ∙ ap err (load_file-err rt (some (s ++ take n b)) state x e)
      ]

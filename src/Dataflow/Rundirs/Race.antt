-- ===== src/Dataflow/Rundirs/Race.antt =====
-- Several launchers allocate run directories below one root (solution/rundirs.py, `make_rundir`).
-- A schedule says whose turn it is; a turn is one atomic operation on the root, the scan or a mkdir.
use talents_parsl_checkpoint.Prelude.{
  ℕ, zero, suc, ◌+◌, ◌≡◌, ◌≢◌, refl, sym, ap, ◌∙◌, Bool, true, false, Option, none, some, List, [],
  ◌∷◌, arith, get_elem?, set, get_elem?-set_cases, codes_eq_iff, inl, inr, if◌then◌else◌, ◌⊎◌,
  replicate,
}
use talents_parsl_checkpoint.Dataflow.Rundirs.Decimal.{format_03d}
use talents_parsl_checkpoint.Dataflow.Rundirs.{Entry, numbered_directory_ids, next_run_id, exists}

pub data Launcher : Type 0 where
  starting : Launcher
  trying : ℕ → Launcher
  allocated : ℕ → Launcher

pub record Root : Type 0 where
  pub entries : List Entry
  pub launchers : List Launcher

-- One operation of a launcher: the new directory and the launcher's new state.
unfoldable pub operate : List Entry → Launcher → List Entry × Launcher
operate es starting = (es, trying (next_run_id (numbered_directory_ids es)))
operate es (trying n) =
    if exists (format_03d n) es
    then (es, trying (n + 1))
    else (record { name = format_03d n; is_dir = true } ∷ es, allocated n)
operate es (allocated n) = (es, allocated n)

at_turn : Root → ℕ → Option Launcher → Root
at_turn r i none = r
at_turn r i (some l) =
    let (es, l') = operate r.entries l in record { entries = es; launchers = set r.launchers i l' }

unfoldable pub turn : Root → ℕ → Root
unfolding at_turn
turn r i = at_turn r i (get_elem? r.launchers i)

unfoldable pub run : Root → List ℕ → Root
run r [] = r
run r (i ∷ schedule) = run (turn r i) schedule

pub record IsSound (r : Root) : Type 0 where
  pub made :
      (i n : ℕ)
      → get_elem? r.launchers i ≡ some (allocated n)
      → exists (format_03d n) r.entries ≡ true
  pub apart :
      (i j n m : ℕ)
      → i ≢ j
      → get_elem? r.launchers i ≡ some (allocated n)
      → get_elem? r.launchers j ≡ some (allocated m)
      → n ≢ m

exists-cons :
    (name : List ℕ) (e : Entry) (es : List Entry)
    → exists name es ≡ true
    → exists name (e ∷ es) ≡ true
unfolding exists
exists-cons name e es h = ground arith

exists_head :
    (name : List ℕ) (d : Bool) (es : List Entry)
    → exists name (record { name = name; is_dir = d } ∷ es) ≡ true
unfolding exists
exists_head name d es = ground (arith, codes_eq_iff name name)

-- No operation removes an entry.
operate_keeps :
    (es : List Entry) (l : Launcher) (name : List ℕ)
    → exists name es ≡ true
    → exists name (operate es l).0 ≡ true
unfolding operate
operate_keeps es starting name h = h
operate_keeps es (allocated n) name h = h
operate_keeps es (trying n) name h =
    ground (arith, exists-cons name (record { name = format_03d n; is_dir = true }) es)

-- A launcher that comes to own an ID has just made a directory that was not there.
operate-allocated :
    (es : List Entry) (l : Launcher) (n : ℕ)
    → (operate es l).1 ≡ allocated n
    → (l ≡ allocated n)
      ⊎ (exists (format_03d n) es ≡ false) × (exists (format_03d n) (operate es l).0 ≡ true)
unfolding operate
operate-allocated es starting n e = cc
operate-allocated es (allocated m) n e = inl e
operate-allocated es (trying m) n e = ground (arith, exists_head (format_03d m) true es)

module _ (r : Root) (i : ℕ) (l : Launcher) (here : get_elem? r.launchers i ≡ some l)
    (s : IsSound r) where
  abbrev after : Root
  after = at_turn r i (some l)

  made_after :
      (j n : ℕ)
      → get_elem? after.launchers j ≡ some (allocated n)
      → exists (format_03d n) after.entries ≡ true
  unfolding at_turn
  made_after j n e =
      let l' = (operate r.entries l).1 in
      elim (get_elem?-set_cases r.launchers i j l' (allocated n) e) [
        | inl (_, now) ↦ elim (operate-allocated r.entries l n (sym now)) [
          | inl before ↦ operate_keeps r.entries l (format_03d n) (s.made i n (rw before at here))
          | inr (_, new) ↦ new
        ]
        | inr (_, old) ↦ operate_keeps r.entries l (format_03d n) (s.made j n old)
      ]

  -- A launcher whose turn it is against one that waits.
  mover_apart :
      (k n m : ℕ)
      → i ≢ k
      → (operate r.entries l).1 ≡ allocated n
      → get_elem? r.launchers k ≡ some (allocated m)
      → n ≢ m
  mover_apart k n m ne now other e = elim (operate-allocated r.entries l n now) [
    | inl before ↦ s.apart i k n m ne (rw before at here) other e
    | inr (absent, _) ↦
        cc (absent, s.made k m other, ap (λ (t : ℕ). exists (format_03d t) r.entries) e)
  ]

  apart_after :
      (j k n m : ℕ)
      → j ≢ k
      → get_elem? after.launchers j ≡ some (allocated n)
      → get_elem? after.launchers k ≡ some (allocated m)
      → n ≢ m
  unfolding at_turn
  apart_after j k n m ne ej ek same =
      let l' = (operate r.entries l).1 in
      elim (get_elem?-set_cases r.launchers i j l' (allocated n) ej) [
        | inl (ij, nj) ↦ elim (get_elem?-set_cases r.launchers i k l' (allocated m) ek) [
          | inl (ik, _) ↦ ne (sym ij ∙ ik)
          | inr (nik, old) ↦ mover_apart k n m nik (sym nj) old same
        ]
        | inr (nij, oldj) ↦ elim (get_elem?-set_cases r.launchers i k l' (allocated m) ek) [
          | inl (_, nk) ↦ mover_apart j m n nij (sym nk) oldj (sym same)
          | inr (_, oldk) ↦ s.apart j k n m ne oldj oldk same
        ]
      ]

  after-IsSound : IsSound after
  after-IsSound = record { made = made_after; apart = apart_after }

turn-IsSound : (r : Root) (i : ℕ) → IsSound r → IsSound (turn r i)
unfolding at_turn turn
turn-IsSound r i s = by_case (get_elem? r.launchers i) refl
  where
    by_case : (o : Option Launcher) → get_elem? r.launchers i ≡ o → IsSound (at_turn r i o)
    by_case none e = s
    by_case (some l) e = after-IsSound r i l e s

run-IsSound : (r : Root) (schedule : List ℕ) → IsSound r → IsSound (run r schedule)
unfolding run
run-IsSound r [] s = s
run-IsSound r (i ∷ schedule) s = run-IsSound (turn r i) schedule (turn-IsSound r i s)

not_allocated : (k i n : ℕ) → get_elem? (replicate k starting) i ≢ some (allocated n)
not_allocated zero i n e = cc
not_allocated (suc k) zero n e = cc
not_allocated (suc k) (suc i) n e = not_allocated k i n e

-- Any number of launchers start against a root with any entries, and take turns in any order: two
-- different launchers that have allocated a run directory have different IDs.
pub launchers_apart :
    (es : List Entry) (k : ℕ) (schedule : List ℕ) (i j n m : ℕ)
    → i ≢ j
    → get_elem?
        (run (record { entries = es; launchers = replicate k starting }) schedule).launchers
        i
      ≡ some (allocated n)
    → get_elem?
        (run (record { entries = es; launchers = replicate k starting }) schedule).launchers
        j
      ≡ some (allocated m)
    → n ≢ m
launchers_apart es k schedule i j n m ne =
    (run-IsSound (record { entries = es; launchers = replicate k starting }) schedule
        (record {
          made = λ a b e. absurd (not_allocated k a b e);
          apart = λ a b c d _ e _ _. not_allocated k a c e;
        })).apart
      i j n m ne

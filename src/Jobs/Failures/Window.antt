-- ===== src/Jobs/Failures/Window.antt =====
-- Which failures make an executor bad (environment/parsl/jobs/error_handlers.py).
use mathlib.Core.List.{Permᴰ}
use mathlib.Core.Path.{subst}
use talents_parsl_checkpoint.Prelude.{
  length-drop, length-append, sym, take, drop, ◌++◌, le→leb, and_both, ℕ, zero, suc, ◌-◌, ◌≤◌, ◌<◌,
  ◌≡◌, ◌↔◌, refl, ap, ◌∙◌, ==_iff, min, max, true, some, [], ◌∷◌, length, All, leb, leb→le, arith,
  Bool-cases, inl, inr,
}
use talents_parsl_checkpoint.Prelude.Sorting.{
  sorted, by_key, sorted-Perm, IsAscending, sorted-IsAscending,
}
use talents_parsl_checkpoint.Jobs.Failures.{
  JobState, Status, has_failed, failed_jobs, simple_error_handler, windowed_error_handler, window,
  block_id,
}

abbrev pub IsFailed : ℕ × JobState → Type 0
IsFailed item = has_failed item.1 ≡ true

failed_jobs-le : (status : Status) → failed_jobs status ≤ length status
unfolding failed_jobs
failed_jobs-le [] = omega arith
failed_jobs-le ((id, js) ∷ rest) = ground (arith, failed_jobs-le rest)

failed_jobs-IsFailed : (status : Status) → failed_jobs status ≡ length status → All IsFailed status
unfolding failed_jobs
failed_jobs-IsFailed [] e = tt
failed_jobs-IsFailed ((id, js) ∷ rest) e = elim (Bool-cases (has_failed js)) [
  | inl bad ↦ (bad, failed_jobs-IsFailed rest (ground (arith, rw bad at e)))
  | inr fine ↦ absurd (omega (arith, rw fine at e, failed_jobs-le rest))
]

IsFailed-failed_jobs : (status : Status) → All IsFailed status → failed_jobs status ≡ length status
unfolding failed_jobs
IsFailed-failed_jobs [] h = refl
IsFailed-failed_jobs ((id, js) ∷ rest) h = rw (h.0) (ap suc (IsFailed-failed_jobs rest h.1))

Perm-length : {xs ys : Status} → Permᴰ xs ys → length xs ≡ length ys
Perm-length Permᴰ.nil = refl
Perm-length (Permᴰ.cons e p) = ap suc (Perm-length p)
Perm-length (Permᴰ.swap e f) = refl
Perm-length (Permᴰ.trans p q) = Perm-length p ∙ Perm-length q

length-window : (n : ℕ) (xs : Status) → 0 < n → length (window n xs) ≡ min n (length xs)
length-window zero xs h = absurd (omega arith)
length-window (suc n) xs h = omega (arith, length-drop (length xs - suc n) xs)

-- In the order of their IDs, the n latest blocks are what is left behind the earlier ones.
pub record IsLatest (n : ℕ) (status latest : Status) : Type 0 where
  pub earlier : Status
  pub in_order : sorted (by_key block_id) status ≡ earlier ++ latest
  pub all : Permᴰ (earlier ++ latest) status
  pub later : All (λ a. All (λ b. block_id a ≤ block_id b) latest) earlier
  pub fits : length latest ≡ n

All-append_right {ℓ} : (P : ℕ × JobState → Type ℓ) (xs ys : Status) → All P (xs ++ ys) → All P ys
All-append_right P [] ys h = h
All-append_right P (x ∷ xs) ys h = All-append_right P xs ys h.1

IsAscending-append :
    (xs ys : Status)
    → IsAscending block_id (xs ++ ys)
    → All (λ a. All (λ b. block_id a ≤ block_id b) ys) xs
unfolding IsAscending
IsAscending-append [] ys h = tt
IsAscending-append (x ∷ xs) ys h =
    (All-append_right (λ b. block_id x ≤ block_id b) xs ys h.0, IsAscending-append xs ys h.1)

append-take-drop : (k : ℕ) (xs : Status) → take k xs ++ drop k xs ≡ xs
append-take-drop zero xs = refl
append-take-drop (suc k) [] = refl
append-take-drop (suc k) (x ∷ xs) = ap (λ l. x ∷ l) (append-take-drop k xs)

drop-append : (xs ys : Status) → drop (length xs) (xs ++ ys) ≡ ys
drop-append [] ys = refl
drop-append (x ∷ xs) ys = drop-append xs ys

window-append : (n : ℕ) (xs ys : Status) → 0 < n → length ys ≡ n → window n (xs ++ ys) ≡ ys
window-append zero xs ys positive fits = absurd (omega arith)
window-append (suc n) xs ys positive fits =
    let skipped : length (xs ++ ys) - suc n ≡ length xs =
      omega (arith, length-append xs ys, fits) in
    ap (λ k. drop k (xs ++ ys)) skipped ∙ drop-append xs ys

window-IsLatest :
    (n : ℕ) (status : Status)
    → 0 < n
    → n ≤ length status
    → IsLatest n status (window n (sorted (by_key block_id) status))
window-IsLatest zero status positive fits = absurd (omega arith)
window-IsLatest (suc n) status positive fits =
    let inorder = sorted (by_key block_id) status in
    let k = length inorder - suc n in
    let whole = append-take-drop k inorder in
    record {
      earlier = take k inorder;
      in_order = sym whole;
      all = subst (λ l. Permᴰ l status) (sym whole) (sorted-Perm (by_key block_id) status);
      later =
          IsAscending-append (take k inorder) (drop k inorder)
            (subst (IsAscending block_id) (sym whole) (sorted-IsAscending block_id status));
      fits =
          omega (
            arith,
            length-drop k inorder,
            Perm-length (sorted-Perm (by_key block_id) status),
            fits,
          );
    }

-- For a threshold of at least 1, the windowed handler makes an executor bad exactly when there are as
-- many latest blocks as the threshold that have all failed or gone missing: with the blocks in the order
-- of their IDs, these are the last, and the ID of none of them is below that of an earlier block.
pub windowed_error_handler_iff :
    (threshold : ℕ) (status : Status)
    → 0 < threshold
    → (windowed_error_handler threshold status ≡ true)
      ↔ ((latest : Status) × IsLatest threshold status latest × All IsFailed latest)
unfolding windowed_error_handler
windowed_error_handler_iff threshold status positive =
    let inorder = sorted (by_key block_id) status in
    let found = window threshold inorder in
    let size = length-window threshold inorder positive in
    let whole = Perm-length (sorted-Perm (by_key block_id) status) in
    let bound = failed_jobs-le found in
    (
      (λ bad.
          let count = (==_iff (failed_jobs found) threshold).0 bad in
          (
            found,
            window-IsLatest threshold status positive (omega arith),
            failed_jobs-IsFailed found (omega arith),
          )),
      (λ (latest, is, failed).
          let same =
            ap (window threshold) is.in_order
            ∙ window-append threshold is.earlier latest positive is.fits in
          let count = IsFailed-failed_jobs latest failed in
          (==_iff (failed_jobs found) threshold).1 (ap failed_jobs same ∙ count ∙ is.fits)),
    )

-- For a provider with initial blocks, the simple handler makes an executor bad exactly when there are
-- at least as many blocks as it started with, and at least one, and all of them have failed or gone
-- missing; the threshold that it is given does not count.
pub simple_error_handler_iff :
    (init threshold : ℕ) (status : Status)
    → (simple_error_handler (some init) threshold status ≡ true)
      ↔ ((max 1 init ≤ length status) × All IsFailed status)
unfolding simple_error_handler
simple_error_handler_iff init threshold status = (
  (λ bad.
      let both = and_both (leb (max 1 init) (length status)) _ bad in
      (
        leb→le (max 1 init) (length status) both.0,
        failed_jobs-IsFailed status ((==_iff (failed_jobs status) (length status)).0 both.1),
      )),
  (λ h.
      rw (le→leb (max 1 init) (length status) h.0)
        ((==_iff (failed_jobs status) (length status)).1 (IsFailed-failed_jobs status h.1))),
)

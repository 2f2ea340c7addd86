-- ===== src/Tests/Library.antt =====
-- A small library in place of `pickle`, `copy` and `hashlib`: it pickles numbers, the
-- checkpoint record of a number under the hash "h", and what identifies a call of one function
-- without arguments.
use talents_parsl_checkpoint.Prelude.{
  ℕ, zero, suc, ◌<◌, String, ◌≡◌, refl, sym, Bool-cases, inl, inr, Bool, true, false, ◌&&◌, Option,
  none, some, List, [], ◌∷◌, ◌++◌, length, take, arith, if◌then◌else◌,
}
use mathlib.Core.Path.{subst}
use text.Mathlib.Text.{◌==◌ as str_eq}
use text.Mathlib.TextEquality.{eq_iff}
use talents_parsl_checkpoint.Dataflow.Values.{
  list, nil, cons, Value, Runtime, none_value, num, str, dict, end, field,
}
use talents_parsl_checkpoint.Dataflow.Completion.{record_value}

-- The three keys and the hash.
is_record : String → String → String → String → Bool
is_record a b c k = (str_eq a "hash" && str_eq b "exception") && (str_eq c "result" && str_eq k "h")

-- What identifies the function `double` of the module `apps`.
abbrev function_id : Value
function_id = list (cons (str "types.FunctionType") (cons (str "double") (cons (str "apps") nil)))

is_function_id : String → String → String → Bool
is_function_id a b c = str_eq a "types.FunctionType" && (str_eq b "double" && str_eq c "apps")

unfoldable pub dumps : Value → Option (List ℕ)
unfolding is_record is_function_id
dumps (num n) = some (0 ∷ n ∷ [])
dumps (dict (field a (str k) (field b none_value (field c (num n) end)))) =
    if is_record a b c k then some (1 ∷ n ∷ []) else none
dumps (list nil) = some (2 ∷ [])
dumps (list (cons (str a) (cons (str b) (cons (str c) nil)))) =
    if is_function_id a b c then some (3 ∷ []) else none
dumps _ = none

unfoldable pub load : List ℕ → Option (Value × List ℕ)
load (zero ∷ n ∷ rest) = some (num n, rest)
load (suc zero ∷ n ∷ rest) = some (record_value "h" (num n), rest)
load (suc (suc zero) ∷ rest) = some (list nil, rest)
load (suc (suc (suc zero)) ∷ rest) = some (function_id, rest)
load _ = none

-- What is pickled starts with its tag.
pub data Pickled : Value → List ℕ → Type 0 where
  number : (n : ℕ) → Pickled (num n) (0 ∷ n ∷ [])
  empty : Pickled (list nil) (2 ∷ [])
  named : Pickled function_id (3 ∷ [])
  entry : (n : ℕ) → Pickled (record_value "h" (num n)) (1 ∷ n ∷ [])

and_left : (a b : Bool) → (a && b) ≡ true → a ≡ true
and_left true b h = refl
and_left false b h = h

and_right : (a b : Bool) → (a && b) ≡ true → b ≡ true
and_right true b h = h
and_right false b h = cc

is_record-eq :
    (a b c k : String) (n : ℕ)
    → is_record a b c k ≡ true
    → dict (field a (str k) (field b none_value (field c (num n) end))) ≡ record_value "h" (num n)
unfolding is_record
is_record-eq a b c k n h =
    let front = and_left (str_eq a "hash" && str_eq b "exception") _ h in
    let back = and_right (str_eq a "hash" && str_eq b "exception") _ h in
    let first = (eq_iff a "hash").0 (and_left (str_eq a "hash") _ front) in
    let second = (eq_iff b "exception").0 (and_right (str_eq a "hash") _ front) in
    let third = (eq_iff c "result").0 (and_left (str_eq c "result") _ back) in
    let fourth = (eq_iff k "h").0 (and_right (str_eq c "result") _ back) in
    rw (first, second, third, fourth) refl

is_function_id-eq :
    (a b c : String)
    → is_function_id a b c ≡ true
    → list (cons (str a) (cons (str b) (cons (str c) nil))) ≡ function_id
unfolding is_function_id
is_function_id-eq a b c h =
    let rest = and_right (str_eq a "types.FunctionType") _ h in
    let first = (eq_iff a "types.FunctionType").0 (and_left (str_eq a "types.FunctionType") _ h) in
    let second = (eq_iff b "double").0 (and_left (str_eq b "double") _ rest) in
    let third = (eq_iff c "apps").0 (and_right (str_eq b "double") _ rest) in
    rw (first, second, third) refl

pub dumps-Pickled : (v : Value) (b : List ℕ) → dumps v ≡ some b → Pickled v b
unfolding dumps
dumps-Pickled (num n) b e =
    let same : 0 ∷ n ∷ [] ≡ b = cc in subst (λ l. Pickled (num n) l) same (Pickled.number n)
dumps-Pickled (dict (field a (str k) (field b none_value (field c (num n) end)))) l e =
    elim (Bool-cases (is_record a b c k)) [
      | inl known ↦
          let same : 1 ∷ n ∷ [] ≡ l = cc (rw known at e) in
          rw (is_record-eq a b c k n known)
            (subst (λ l. Pickled (record_value "h" (num n)) l) same (Pickled.entry n))
      | inr unknown ↦ cc (rw unknown at e)
    ]
dumps-Pickled (list nil) b e =
    let same : 2 ∷ [] ≡ b = cc in subst (λ l. Pickled (list nil) l) same Pickled.empty
dumps-Pickled (list (cons (str a) (cons (str b) (cons (str c) nil)))) l e =
    elim (Bool-cases (is_function_id a b c)) [
      | inl known ↦
          let same : 3 ∷ [] ≡ l = cc (rw known at e) in
          rw (is_function_id-eq a b c known) (subst (λ l. Pickled function_id l) same Pickled.named)
      | inr unknown ↦ cc (rw unknown at e)
    ]
dumps-Pickled v b e = cc

pub Pickled-load :
    {v : Value} {b : List ℕ} (rest : List ℕ) → Pickled v b → load (b ++ rest) ≡ some (v, rest)
unfolding load
Pickled-load rest (Pickled.number n) = refl
Pickled-load rest Pickled.empty = refl
Pickled-load rest Pickled.named = refl
Pickled-load rest (Pickled.entry n) = refl

pub Pickled-truncated :
    {v : Value} {b : List ℕ} (n : ℕ) → Pickled v b → n < length b → load (take n b) ≡ none
unfolding load
Pickled-truncated zero (Pickled.number m) h = refl
Pickled-truncated (suc zero) (Pickled.number m) h = refl
Pickled-truncated (suc (suc n)) (Pickled.number m) h = absurd (omega arith)
Pickled-truncated zero Pickled.empty h = refl
Pickled-truncated (suc n) Pickled.empty h = absurd (omega arith)
Pickled-truncated zero Pickled.named h = refl
Pickled-truncated (suc n) Pickled.named h = absurd (omega arith)
Pickled-truncated zero (Pickled.entry m) h = refl
Pickled-truncated (suc zero) (Pickled.entry m) h = refl
Pickled-truncated (suc (suc n)) (Pickled.entry m) h = absurd (omega arith)

pub load-shorter : (s rest : List ℕ) (v : Value) → load s ≡ some (v, rest) → length rest < length s
unfolding load
load-shorter (zero ∷ n ∷ rest) r v e = let same : rest ≡ r = cc in rw (sym same) (omega arith)
load-shorter (suc zero ∷ n ∷ rest) r v e = let same : rest ≡ r = cc in rw (sym same) (omega arith)
load-shorter (suc (suc zero) ∷ rest) r v e = let same : rest ≡ r = cc in rw (sym same) (omega arith)
load-shorter (suc (suc (suc zero)) ∷ rest) r v e =
    let same : rest ≡ r = cc in rw (sym same) (omega arith)
load-shorter s r v e = cc

abbrev pub toy : Runtime
toy = record {
  dumps = dumps;
  load = load;
  deepcopy = λ v. some v;
  md5 = λ b. "h";
  load-dumps = λ v b rest e. Pickled-load rest (dumps-Pickled v b e);
  load-shorter = load-shorter;
  load-truncated = λ v b n e h. Pickled-truncated n (dumps-Pickled v b e) h;
}

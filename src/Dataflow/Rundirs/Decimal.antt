-- ===== src/Dataflow/Rundirs/Decimal.antt =====
-- Decimal names: `str.isascii() and str.isdecimal()`, `int` and the format `03d`.
use talents_parsl_checkpoint.Prelude.{
  ℕ, zero, suc, ◌+◌, ◌-◌, ◌*◌, ◌/◌, ◌%◌, ◌<◌, ◌≡◌, refl, Bool, true, false, ◌&&◌, List, [], ◌∷◌,
  ◌++◌, ◌∙◌, ◌≢◌, arith, ltb, leb, length, replicate, if◌then◌else◌,
}

is_digit : ℕ → Bool
is_digit c = leb b'0' c && leb c b'9'

all_digits : List ℕ → Bool
all_digits [] = true
all_digits (c ∷ cs) = is_digit c && all_digits cs

-- An empty name is not decimal.
unfoldable pub is_decimal : List ℕ → Bool
unfolding is_digit all_digits
is_decimal [] = false
is_decimal (c ∷ cs) = all_digits (c ∷ cs)

-- `int`, on a name of digits.
int_from : ℕ → List ℕ → ℕ
int_from n [] = n
int_from n (c ∷ cs) = int_from (n * 10 + (c - b'0')) cs

unfoldable pub int : List ℕ → ℕ
unfolding int_from
int = int_from 0

-- The decimal digits of a number below the fuel.
digits : ℕ → ℕ → List ℕ
digits zero n = []
digits (suc fuel) n =
    let front = digits fuel (n / 10) in
    if ltb n 10 then (b'0' + n) ∷ [] else front ++ (b'0' + n % 10) ∷ []

-- `f"{n:03d}"`
unfoldable pub format_03d : ℕ → List ℕ
unfolding digits
format_03d n = let ds = digits (suc n) n in replicate (3 - length ds) b'0' ++ ds

int_from-append : (n : ℕ) (xs ys : List ℕ) → int_from n (xs ++ ys) ≡ int_from (int_from n xs) ys
unfolding int_from
int_from-append n [] ys = refl
int_from-append n (x ∷ xs) ys = int_from-append (n * 10 + (x - b'0')) xs ys

int_from-digits : (fuel n : ℕ) → n < fuel → int_from 0 (digits fuel n) ≡ n
unfolding int_from digits
int_from-digits zero n h = elim h [ ]
int_from-digits (suc fuel) n h = ground (
  arith,
  int_from-digits fuel (n / 10),
  int_from-append 0 (digits fuel (n / 10)) ((b'0' + n % 10) ∷ []),
)

int_from-zeros : (k : ℕ) (xs : List ℕ) → int_from 0 (replicate k b'0' ++ xs) ≡ int_from 0 xs
unfolding int_from
int_from-zeros zero xs = refl
int_from-zeros (suc k) xs = int_from-zeros k xs

-- Reading a run directory's name gives its number back, also above 999.
pub int-format_03d : (n : ℕ) → int (format_03d n) ≡ n
unfolding int format_03d
int-format_03d n =
    int_from-zeros (3 - length (digits (suc n) n)) (digits (suc n) n)
    ∙ int_from-digits (suc n) n (omega arith)

all_digits-append :
    (xs ys : List ℕ) → all_digits xs ≡ true → all_digits ys ≡ true → all_digits (xs ++ ys) ≡ true
unfolding all_digits
all_digits-append [] ys hx hy = hy
all_digits-append (x ∷ xs) ys hx hy = ground (arith, all_digits-append xs ys)

all_digits-digits : (fuel n : ℕ) → all_digits (digits fuel n) ≡ true
unfolding all_digits is_digit digits
all_digits-digits zero n = refl
all_digits-digits (suc fuel) n = ground (
  arith,
  all_digits-digits fuel (n / 10),
  all_digits-append (digits fuel (n / 10)) ((b'0' + n % 10) ∷ []),
)

all_digits-replicate : (k : ℕ) → all_digits (replicate k b'0') ≡ true
unfolding all_digits is_digit
all_digits-replicate zero = refl
all_digits-replicate (suc k) = all_digits-replicate k

append_snoc-ne-nil : (xs : List ℕ) (x : ℕ) → xs ++ x ∷ [] ≢ []
append_snoc-ne-nil [] x e = cc
append_snoc-ne-nil (y ∷ xs) x e = cc

digits-ne-nil : (fuel n : ℕ) → n < fuel → digits fuel n ≢ []
unfolding digits
digits-ne-nil zero n h = elim h [ ]
digits-ne-nil (suc fuel) n h =
    ground (arith, append_snoc-ne-nil (digits fuel (n / 10)) (b'0' + n % 10))

append-ne-nil : (xs ys : List ℕ) → ys ≢ [] → xs ++ ys ≢ []
append-ne-nil [] ys h e = h e
append-ne-nil (x ∷ xs) ys h e = cc

is_decimal_of : (xs : List ℕ) → xs ≢ [] → all_digits xs ≡ true → is_decimal xs ≡ true
unfolding is_decimal
is_decimal_of [] h e = absurd (h refl)
is_decimal_of (x ∷ xs) h e = e

-- A run directory's own name takes part in the next scan.
pub is_decimal-format_03d : (n : ℕ) → is_decimal (format_03d n) ≡ true
unfolding format_03d
is_decimal-format_03d n =
    let ds = digits (suc n) n in
    is_decimal_of (replicate (3 - length ds) b'0' ++ ds)
      (append-ne-nil _ ds (digits-ne-nil (suc n) n (omega arith)))
      (all_digits-append _ ds (all_digits-replicate (3 - length ds)) (all_digits-digits (suc n) n))

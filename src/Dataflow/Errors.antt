-- ===== src/Dataflow/Errors.antt =====
-- The exceptions that the submit side raises and hands on, and environment/parsl/dataflow/errors.py.
pub mod Root
use talents_parsl_checkpoint.Prelude.{
  ◌≡◌, refl, ◌⊎◌, inl, inr, ℕ, String, Bool, true, false, List, [], ◌∷◌,
}

mutual
  pub data Exn : Type 0 where
    -- raised by an app's body, or by a retry handler
    app_error : ℕ → Exn
    os_error key_error invalid_state type_error value_error assertion_error : Exn
    pickling_error internal_consistency : Exn
    -- `NoDataFlowKernelError`
    no_data_flow_kernel : Exn
    -- a second call of `cleanup`
    already_cleaned_up : Exn
    -- `BadCheckpoint`
    bad_checkpoint : Exn
    -- `DependencyError` and `JoinError`, with the ID of the task that fails
    dependency_error : Causes → ℕ → Exn
    join_error : Causes → ℕ → Exn

  -- `dependent_exceptions_tids`: the exceptions, each with a description of the future it came from
  pub data Causes : Type 0 where
    no_cause : Causes
    cause : Exn → String → Causes → Causes

pub data Result {ℓ} (A : Type ℓ) : Type ℓ where
  ok : A → Result A
  err : Exn → Result A

-- The chaining of a `do` block: an exception leaves it at once.
module _ {ℓ κ} {A : Type ℓ} {B : Type κ} where
  infixl 5 ◌>>=◌
  abbrev pub ◌>>=◌ : Result A → (A → Result B) → Result B
  err x >>= next = err x
  ok value >>= next = next value

  -- What a chain that returns has been through.
  pub >>=-eq-ok :
      (first : Result A) (next : A → Result B) {after : B}
      → (first >>= next) ≡ ok after
      → (value : A) × (first ≡ ok value) × (next value ≡ ok after)
  >>=-eq-ok (err x) next returns = cc
  >>=-eq-ok (ok value) next returns = (value, refl, returns)

-- The two cases of a result, with the equation.
pub Result-cases {ℓ} :
    {A : Type ℓ} (r : Result A) → ((a : A) × (r ≡ ok a)) ⊎ ((x : Exn) × (r ≡ err x))
Result-cases (ok a) = inl (a, refl)
Result-cases (err x) = inr (x, refl)

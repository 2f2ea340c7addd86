-- ===== src/Dataflow/Dependencies.antt =====
-- environment/parsl/dataflow/dependency_resolvers.py: the Futures in a parameter, and its value. The
-- deep resolver is another instance of the record.
use talents_parsl_checkpoint.Prelude.{ℕ, Option, none, some, List, [], ◌∷◌}
use talents_parsl_checkpoint.Dataflow.Errors.{assertion_error, Result, ok, err}
use talents_parsl_checkpoint.Dataflow.Values.{Value, future}

unfoldable pub shallow_traverse_to_gather : Value → List ℕ
shallow_traverse_to_gather (future f) = f ∷ []
shallow_traverse_to_gather v = []

-- What `future.result()` gives: `none` for a Future that is not done, which the code asserts against.
abbrev awaited : Option (Result Value) → Result Value
awaited none = err assertion_error
awaited (some r) = r

module _ (result_of : ℕ → Option (Result Value)) where
  unfoldable pub shallow_traverse_to_unwrap : Value → Result Value
  shallow_traverse_to_unwrap (future f) = awaited (result_of f)
  shallow_traverse_to_unwrap v = ok v

-- `DependencyResolver`: the two functions of a resolver.
pub record DependencyResolver : Type 0 where
  pub traverse_to_gather : Value → List ℕ
  pub traverse_to_unwrap : (ℕ → Option (Result Value)) → Value → Result Value

abbrev pub shallow_dependency_resolver : DependencyResolver
shallow_dependency_resolver = record {
  traverse_to_gather = shallow_traverse_to_gather;
  traverse_to_unwrap = shallow_traverse_to_unwrap;
}

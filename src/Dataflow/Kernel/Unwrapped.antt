-- ===== src/Dataflow/Kernel/Unwrapped.antt =====
-- What a task is launched with, once its dependencies are done (solution/dflow.py, `_gather_all_deps`
-- and `_unwrap_futures`), with the shallow resolver of
-- environment/parsl/dataflow/dependency_resolvers.py.
pub mod Inputs
use mathlib.Core.Path.{subst}
use text.Mathlib.Text.{◌==◌ as str_eq}
use text.Mathlib.TextEquality.{eq_iff}
use talents_parsl_checkpoint.Prelude.{
  ℕ, String, ◌≡◌, ◌≢◌, refl, sym, ap, ◌∙◌, ◌⊎◌, inl, inr, Option, none, some, List, [], ◌∷◌, ◌++◌,
  All, arith, true, false, Bool-cases, if◌then◌else◌,
}
use talents_parsl_checkpoint.Dataflow.Errors.{
  Causes, no_cause, Result, ok, err, type_error, Result-cases,
}
use talents_parsl_checkpoint.Dataflow.Values.{
  Value, Items, Fields, none_value, boolean, num, str, bytes, list, tuple, dict, function, future,
  other, nil, cons, end, field,
}
use talents_parsl_checkpoint.Dataflow.Dependencies.{
  shallow_dependency_resolver, shallow_traverse_to_gather, shallow_traverse_to_unwrap,
}
use talents_parsl_checkpoint.Dataflow.Memo.{result}
use talents_parsl_checkpoint.Dataflow.Memo.Identity.{get_kwarg}
use talents_parsl_checkpoint.Dataflow.Kernel.{Config, Dfk}
use talents_parsl_checkpoint.Dataflow.Kernel.Launch.{
  input_items, gather_args, gather_kwargs, gather_all_deps, result_of, unwrap, unwrap_args,
  unwrap_kwargs, replace_kwarg, unwrap_inputs, join_unwrapped, unwrap_futures,
}

abbrev pub with_shallow : Config → Config
with_shallow cfg = record cfg { dependency_resolver = shallow_dependency_resolver }

module _ (d : Dfk) where
  -- The Future is done, with a result.
  abbrev pub HasResult : ℕ → Type 0
  HasResult f = (r : ℕ) × (d.futures f ≡ some (result r))

  -- In place of a Future stands what its result holds; another value stands for itself.
  pub data IsResolved (v w : Value) : Type 0 where
    awaited :
        (f r : ℕ)
        → v ≡ future f
        → d.futures f ≡ some (result r)
        → w ≡ d.heap.content r
        → IsResolved v w
    plain : ((f : ℕ) → v ≢ future f) → w ≡ v → IsResolved v w

  pub data AreResolved : Items → Items → Type 0 where
    nothing : AreResolved nil nil
    item :
        (v w : Value) (xs ys : Items)
        → IsResolved v w
        → AreResolved xs ys
        → AreResolved (cons v xs) (cons w ys)

  -- A keyword argument before and after; that with the name `inputs` is a list or a tuple, and a list
  -- of what its items stand for afterwards.
  pub data IsKwargResolved (k : String) (o p : Option Value) : Type 0 where
    absent : o ≡ none → p ≡ none → IsKwargResolved k o p
    named :
        (v w : Value)
        → k ≢ "inputs"
        → o ≡ some v
        → p ≡ some w
        → IsResolved v w
        → IsKwargResolved k o p
    inputs :
        (v : Value) (xs ys : Items)
        → k ≡ "inputs"
        → o ≡ some v
        → (v ≡ list xs) ⊎ (v ≡ tuple xs)
        → p ≡ some (list ys)
        → AreResolved xs ys
        → IsKwargResolved k o p

  pub All-append_left : (xs ys : List ℕ) → All HasResult (xs ++ ys) → All HasResult xs
  All-append_left [] ys h = tt
  All-append_left (x ∷ xs) ys h = (h.0, All-append_left xs ys h.1)

  pub All-append_right : (xs ys : List ℕ) → All HasResult (xs ++ ys) → All HasResult ys
  All-append_right [] ys h = h
  All-append_right (x ∷ xs) ys h = All-append_right xs ys h.1

  result_of-HasResult :
      (f r : ℕ) → d.futures f ≡ some (result r) → result_of d f ≡ some (ok (d.heap.content r))
  unfolding result_of
  result_of-HasResult f r done = rw (done, result_of) refl

  module _ (cfg : Config) where
    unwrap-IsResolved :
        (v : Value)
        → All HasResult (shallow_traverse_to_gather v)
        → (w : Value) × (unwrap (with_shallow cfg) d v ≡ ok w) × IsResolved v w
    unfolding shallow_traverse_to_gather shallow_traverse_to_unwrap
    unwrap-IsResolved (future f) ((r, done), _) = (
      d.heap.content r,
      rw (result_of-HasResult f r done) refl,
      IsResolved.awaited f r refl done refl,
    )
    unwrap-IsResolved none_value h = (_, refl, IsResolved.plain (λ f e. cc) refl)
    unwrap-IsResolved (boolean b) h = (_, refl, IsResolved.plain (λ f e. cc) refl)
    unwrap-IsResolved (num n) h = (_, refl, IsResolved.plain (λ f e. cc) refl)
    unwrap-IsResolved (str s) h = (_, refl, IsResolved.plain (λ f e. cc) refl)
    unwrap-IsResolved (bytes b) h = (_, refl, IsResolved.plain (λ f e. cc) refl)
    unwrap-IsResolved (list xs) h = (_, refl, IsResolved.plain (λ f e. cc) refl)
    unwrap-IsResolved (tuple xs) h = (_, refl, IsResolved.plain (λ f e. cc) refl)
    unwrap-IsResolved (dict fs) h = (_, refl, IsResolved.plain (λ f e. cc) refl)
    unwrap-IsResolved (function n m) h = (_, refl, IsResolved.plain (λ f e. cc) refl)
    unwrap-IsResolved (other n) h = (_, refl, IsResolved.plain (λ f e. cc) refl)

    pub unwrap_args-AreResolved :
        (xs : Items)
        → All HasResult (gather_args shallow_dependency_resolver xs)
        → (ys : Items) × (unwrap_args (with_shallow cfg) d xs ≡ (ys, no_cause)) × AreResolved xs ys
    unfolding gather_args unwrap_args
    unwrap_args-AreResolved nil h = (nil, refl, AreResolved.nothing)
    unwrap_args-AreResolved (cons v xs) h =
        let own = shallow_traverse_to_gather v in
        let (w, e, here) = unwrap-IsResolved v (All-append_left own _ h) in
        let (ys, es, rest) = unwrap_args-AreResolved xs (All-append_right own _ h) in
        (cons w ys, rw (e, unwrap_args, es) refl, AreResolved.item v w xs ys here rest)

  -- As a keyword argument is after its own unwrapping, before the items of `inputs` are.
  pub data IsSingleResolved (o p : Option Value) : Type 0 where
    absent : o ≡ none → p ≡ none → IsSingleResolved o p
    present : (v w : Value) → o ≡ some v → p ≡ some w → IsResolved v w → IsSingleResolved o p

  module _ (cfg : Config) where
    pub unwrap_kwargs-IsSingleResolved :
        (fs : Fields)
        → All HasResult (gather_kwargs shallow_dependency_resolver fs)
        → (gs : Fields) × (unwrap_kwargs (with_shallow cfg) d fs ≡ (gs, no_cause))
          × ((k : String) → IsSingleResolved (get_kwarg k fs) (get_kwarg k gs))
    unfolding gather_kwargs unwrap_kwargs
    unwrap_kwargs-IsSingleResolved end h = (end, refl, λ k. IsSingleResolved.absent refl refl)
    unwrap_kwargs-IsSingleResolved (field j v fs) h =
        let own = shallow_traverse_to_gather v in
        let (w, e, here) = unwrap-IsResolved cfg v (All-append_left own _ h) in
        let (gs, es, rest) = unwrap_kwargs-IsSingleResolved fs (All-append_right own _ h) in
        (
          field j w gs,
          rw (e, unwrap_kwargs, es) refl,
          λ k. elim (Bool-cases (str_eq j k)) [
            | inl this ↦ IsSingleResolved.present v w (rw this refl) (rw this refl) here
            | inr another ↦ rw another (rest k)
          ],
        )

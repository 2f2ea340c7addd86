-- ===== src/Dataflow/Kernel/Unwrapped/Inputs.antt =====
-- Lemmas on the unwrapping of `inputs`, and on the whole of it (solution/dflow.py, `_unwrap_futures`).
use mathlib.Core.Path.{subst}
use text.Mathlib.Text.{◌==◌ as str_eq}
use text.Mathlib.TextEquality.{eq_iff}
use talents_parsl_checkpoint.Prelude.{
  ℕ, String, ◌≡◌, ◌≢◌, refl, sym, ap, ◌∙◌, ◌⊎◌, inl, inr, Option, none, some, List, ◌++◌, All,
  arith, true, false, Bool-cases,
}
use talents_parsl_checkpoint.Dataflow.Errors.{no_cause, ok, Result-cases}
use talents_parsl_checkpoint.Dataflow.Values.{
  Value, Items, Fields, none_value, boolean, num, str, bytes, list, tuple, dict, function, future,
  other, end, field,
}
use talents_parsl_checkpoint.Dataflow.Dependencies.{shallow_dependency_resolver}
use talents_parsl_checkpoint.Dataflow.Memo.Identity.{get_kwarg}
use talents_parsl_checkpoint.Dataflow.Kernel.{Config, Dfk}
use talents_parsl_checkpoint.Dataflow.Kernel.Launch.{
  input_items, gather_args, gather_kwargs, gather_all_deps, unwrap_args, replace_kwarg,
  unwrap_inputs, join_unwrapped, unwrap_futures,
}
use talents_parsl_checkpoint.Dataflow.Kernel.Unwrapped.{
  with_shallow, HasResult, IsResolved, AreResolved, IsKwargResolved, IsSingleResolved,
  All-append_left, All-append_right, unwrap_args-AreResolved, unwrap_kwargs-IsSingleResolved,
}

input_items-cases :
    (o : Option Value) (xs : Items)
    → input_items o ≡ ok xs
    → (o ≡ none) ⊎ ((v : Value) × (o ≡ some v) × ((v ≡ list xs) ⊎ (v ≡ tuple xs)))
input_items-cases none xs e = inl refl
input_items-cases (some (list ys)) xs e = inr (list ys, refl, inl (cc))
input_items-cases (some (tuple ys)) xs e = inr (tuple ys, refl, inr (cc))
input_items-cases (some (none_value)) xs e = cc
input_items-cases (some (boolean b)) xs e = cc
input_items-cases (some (num n)) xs e = cc
input_items-cases (some (str s)) xs e = cc
input_items-cases (some (bytes b)) xs e = cc
input_items-cases (some (dict fs)) xs e = cc
input_items-cases (some (function n m)) xs e = cc
input_items-cases (some (future f)) xs e = cc
input_items-cases (some (other n)) xs e = cc

gather_all_deps-ok :
    (args : Items) (kwargs : Fields) (deps : List ℕ)
    → gather_all_deps shallow_dependency_resolver args kwargs ≡ ok deps
    → (xs : Items) × (input_items (get_kwarg "inputs" kwargs) ≡ ok xs)
      × (deps
          ≡ gather_args shallow_dependency_resolver args
            ++ (gather_kwargs shallow_dependency_resolver kwargs
                ++ gather_args shallow_dependency_resolver xs))
unfolding gather_all_deps
gather_all_deps-ok args kwargs deps e =
    elim (Result-cases (input_items (get_kwarg "inputs" kwargs))) [
      | inl (xs, found) ↦ (xs, found, cc (rw (found, gather_all_deps) at e))
      | inr (x, raises) ↦ cc (rw (raises, gather_all_deps) at e)
    ]

module _ (cfg : Config) (d : Dfk) where
  get_kwarg-replace_other :
      (k j : String) (w : Value) (fs : Fields)
      → str_eq k j ≡ false
      → get_kwarg k (replace_kwarg cfg d j w fs) ≡ get_kwarg k fs
  unfolding replace_kwarg
  get_kwarg-replace_other k j w end differ = refl
  get_kwarg-replace_other k j w (field i v fs) differ =
      ground
        (arith, get_kwarg-replace_other k j w fs differ, eq_iff i j, eq_iff i k, eq_iff k j, differ)

  get_kwarg-replace_self :
      (j : String) (v w : Value) (fs : Fields)
      → get_kwarg j fs ≡ some v
      → get_kwarg j (replace_kwarg cfg d j w fs) ≡ some w
  unfolding replace_kwarg
  get_kwarg-replace_self j v w end there = cc
  get_kwarg-replace_self j v w (field i u fs) there = elim (Bool-cases (str_eq i j)) [
    | inl this ↦ rw (this, replace_kwarg) (rw this refl)
    | inr differs ↦
        rw (differs, replace_kwarg)
          (rw differs (get_kwarg-replace_self j v w fs (rw differs at there)))
  ]

  other_name : (k j : String) → str_eq k j ≡ false → k ≢ j
  other_name k j differ e = let clash : true ≡ false = sym ((eq_iff k j).1 e) ∙ differ in cc

  -- A list or a tuple is resolved to itself.
  resolved_to_itself :
      (v w : Value) (xs : Items) → (v ≡ list xs) ⊎ (v ≡ tuple xs) → IsResolved d v w → w ≡ v
  resolved_to_itself v w xs sort (IsResolved.plain _ same) = same
  resolved_to_itself v w xs (inl is_list) (IsResolved.awaited f r is_future _ _) =
      let clash : list xs ≡ future f = sym is_list ∙ is_future in cc
  resolved_to_itself v w xs (inr is_tuple) (IsResolved.awaited f r is_future _ _) =
      let clash : tuple xs ≡ future f = sym is_tuple ∙ is_future in cc

  single-IsKwargResolved :
      (k : String) (o p : Option Value)
      → k ≢ "inputs"
      → IsSingleResolved d o p
      → IsKwargResolved d k o p
  single-IsKwargResolved k o p other_than (IsSingleResolved.absent before after) =
      IsKwargResolved.absent before after
  single-IsKwargResolved k o p other_than (IsSingleResolved.present v w before after resolved) =
      IsKwargResolved.named v w other_than before after resolved

  -- What `inputs` is when its items are to be unwrapped.
  single_inputs :
      (o p : Option Value) (v : Value) (xs : Items)
      → o ≡ some v
      → (v ≡ list xs) ⊎ (v ≡ tuple xs)
      → IsSingleResolved d o p
      → p ≡ some v
  single_inputs o p v xs there sort (IsSingleResolved.absent before after) = cc
  single_inputs o p v xs there sort (IsSingleResolved.present u w before after resolved) =
      let same : u ≡ v = cc in
      after ∙ ap some (resolved_to_itself v w xs sort (subst (λ x. IsResolved d x w) same resolved))

  no_inputs : (o p : Option Value) → o ≡ none → IsSingleResolved d o p → p ≡ none
  no_inputs o p there (IsSingleResolved.absent before after) = after
  no_inputs o p there (IsSingleResolved.present u w before after resolved) = cc

  -- `inputs` on its own, and the other names.
  by_name :
      (kwargs after : Fields)
      → IsKwargResolved d "inputs" (get_kwarg "inputs" kwargs) (get_kwarg "inputs" after)
      → ((k : String)
          → str_eq k "inputs" ≡ false
          → IsSingleResolved d (get_kwarg k kwargs) (get_kwarg k after))
      → (k : String) → IsKwargResolved d k (get_kwarg k kwargs) (get_kwarg k after)
  by_name kwargs after at_inputs others k = elim (Bool-cases (str_eq k "inputs")) [
    | inl this ↦
        subst (λ j. IsKwargResolved d j (get_kwarg j kwargs) (get_kwarg j after))
          (sym ((eq_iff k "inputs").0 this)) at_inputs
    | inr differs ↦ single-IsKwargResolved k _ _ (other_name k "inputs" differs) (others k differs)
  ]

  unwrap_inputs_items :
      (v : Value) (xs ys : Items) (gs : Fields)
      → (v ≡ list xs) ⊎ (v ≡ tuple xs)
      → unwrap_args (with_shallow cfg) d xs ≡ (ys, no_cause)
      → unwrap_inputs (with_shallow cfg) d (some v) gs
        ≡ ok (replace_kwarg (with_shallow cfg) d "inputs" (list ys) gs, no_cause)
  unfolding unwrap_inputs
  unwrap_inputs_items v xs ys gs (inl is_list) e = rw is_list (rw (e, unwrap_inputs) refl)
  unwrap_inputs_items v xs ys gs (inr is_tuple) e = rw is_tuple (rw (e, unwrap_inputs) refl)

module _ (cfg : Config) (d : Dfk) where
  -- The unwrapping of `inputs`, on keyword arguments that are unwrapped.
  inputs-IsKwargResolved :
      (xs : Items) (kwargs gs : Fields)
      → input_items (get_kwarg "inputs" kwargs) ≡ ok xs
      → All (HasResult d) (gather_args shallow_dependency_resolver xs)
      → ((k : String) → IsSingleResolved d (get_kwarg k kwargs) (get_kwarg k gs))
      → (after : Fields) × (unwrap_inputs (with_shallow cfg) d (get_kwarg "inputs" gs) gs
          ≡ ok (after, no_cause))
        × ((k : String) → IsKwargResolved d k (get_kwarg k kwargs) (get_kwarg k after))
  unfolding unwrap_inputs
  inputs-IsKwargResolved xs kwargs gs items done single =
      elim (input_items-cases (get_kwarg "inputs" kwargs) xs items) [
        | inl missing ↦
            let still = no_inputs cfg d _ _ missing (single "inputs") in
            (
              gs,
              rw (still, unwrap_inputs) refl,
              by_name cfg d kwargs gs (IsKwargResolved.absent missing still)
                  (λ k differs. single k),
            )
        | inr (v, there, sort) ↦
            let still = single_inputs cfg d _ _ v xs there sort (single "inputs") in
            let (ys, e, resolved) = unwrap_args-AreResolved d cfg xs done in
            let after = replace_kwarg (with_shallow cfg) d "inputs" (list ys) gs in
            (
              after,
              ap (λ o. unwrap_inputs (with_shallow cfg) d o gs) still
                  ∙ unwrap_inputs_items cfg d v xs ys gs sort e,
              by_name cfg d kwargs after
                  (IsKwargResolved.inputs v xs ys refl there sort
                    (get_kwarg-replace_self (with_shallow cfg) d "inputs" v (list ys) gs still)
                    resolved)
                  (λ k differs.
                    subst (λ o. IsSingleResolved d (get_kwarg k kwargs) o)
                      (sym (
                        get_kwarg-replace_other (with_shallow cfg) d k "inputs" (list ys) gs
                          differs))
                      (single k)),
            )
      ]

  -- With the shallow resolver, whatever the arguments: if the Futures that are gathered from them are
  -- done with results, then no parameter fails, and in place of each Future stands what its result
  -- holds: among the arguments, as a keyword argument, and in the list or tuple `inputs`, which becomes
  -- a list. The other parameters are as they were.
  pub unwrap_futures-AreResolved :
      (args : Items) (kwargs : Fields) (deps : List ℕ)
      → gather_all_deps shallow_dependency_resolver args kwargs ≡ ok deps
      → All (HasResult d) deps
      → (new : Items) × (after : Fields) × (unwrap_futures (with_shallow cfg) d args kwargs
          ≡ (ok (new, no_cause), after))
        × AreResolved d args new
        × ((k : String) → IsKwargResolved d k (get_kwarg k kwargs) (get_kwarg k after))
  unfolding unwrap_futures join_unwrapped
  unwrap_futures-AreResolved args kwargs deps gathers done =
      let (xs, items, are) = gather_all_deps-ok args kwargs deps gathers in
      let all = subst (All (HasResult d)) are done in
      let own = gather_args shallow_dependency_resolver args in
      let named = gather_kwargs shallow_dependency_resolver kwargs in
      let behind = All-append_right d own _ all in
      let (new, e, resolved) = unwrap_args-AreResolved d cfg args (All-append_left d own _ all) in
      let (gs, f, single) =
        unwrap_kwargs-IsSingleResolved d cfg kwargs (All-append_left d named _ behind) in
      let (after, g, named_resolved) =
        inputs-IsKwargResolved xs kwargs gs items (All-append_right d named _ behind) single in
      (new, after, rw (f, unwrap_futures) (rw (e, g) refl), resolved, named_resolved)

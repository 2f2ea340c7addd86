-- ===== src/Dataflow/Kernel/Keeps.antt =====
-- Rules for what an action leaves true, whether it returns or raises.
use talents_parsl_checkpoint.Prelude.{Bool, true, false, if◌then◌else◌}
use talents_parsl_checkpoint.Dataflow.Errors.{Exn, Result, ok, err}
use talents_parsl_checkpoint.Dataflow.Kernel.{
  Dfk, Action, pure, throw, gets, modify, and_then, settle, try_except, dropping, ◌>>=◌,
}

pub record Keeps {ℓ} {A : Type ℓ} (P : Dfk → Type 0) (m : Action A) : Type ℓ where
  pub at : (d : Dfk) → P d → P (m d).1

module _ {P : Dfk → Type 0} where
  pub Keeps-pure {ℓ} : {A : Type ℓ} (a : A) → Keeps P (pure a)
  Keeps-pure a = record { at = λ d h. h }

  pub Keeps-throw {ℓ} : {A : Type ℓ} (x : Exn) → Keeps P (throw {A = A} x)
  Keeps-throw x = record { at = λ d h. h }

  pub Keeps-gets {ℓ} : {A : Type ℓ} (f : Dfk → A) → Keeps P (gets f)
  Keeps-gets f = record { at = λ d h. h }

  pub Keeps-modify : (f : Dfk → Dfk) → ((d : Dfk) → P d → P (f d)) → Keeps P (modify f)
  Keeps-modify f h = record { at = h }

  pub Keeps-bind {ℓ κ} :
      {A : Type ℓ} {B : Type κ} (m : Action A) (f : A → Action B)
      → Keeps P m
      → ((a : A) → Keeps P (f a))
      → Keeps P (m >>= f)
  Keeps-bind {A} m f km kf = record { at = λ d h. let (r, d') = m d in go r d' (km.at d h) }
    where
      go : (r : Result A) (d' : Dfk) → P d' → P (and_then r f d').1
      go (ok a) d' h = (kf a).at d' h
      go (err x) d' h = h

  pub Keeps-try {ℓ κ} :
      {A : Type ℓ} {B : Type κ} (m : Action A) (f : A → Action B) (g : Exn → Action B)
      → Keeps P m
      → ((a : A) → Keeps P (f a))
      → ((x : Exn) → Keeps P (g x))
      → Keeps P (try_except m f g)
  Keeps-try {A} m f g km kf kg = record { at = λ d h. let (r, d') = m d in go r d' (km.at d h) }
    where
      go : (r : Result A) (d' : Dfk) → P d' → P (settle r f g d').1
      go (ok a) d' h = (kf a).at d' h
      go (err x) d' h = (kg x).at d' h

  pub Keeps-if {ℓ} :
      {A : Type ℓ} (b : Bool) (m n : Action A)
      → Keeps P m
      → Keeps P n
      → Keeps P (if b then m else n)
  Keeps-if true m n km kn = km
  Keeps-if false m n km kn = kn

module _ {P : Dfk → Type 0} where
  pub Keeps-dropping : (m : Action (Unit {0})) → Keeps P m → Keeps P (dropping m)
  Keeps-dropping m km = record { at = km.at }

pub ruleset keeps_rules = (
  Keeps-pure, Keeps-throw, Keeps-gets, Keeps-modify, Keeps-bind, Keeps-try, Keeps-if,
  Keeps-dropping,
)

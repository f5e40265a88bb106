-- ===== src/Orders/Steps.antt =====
-- Reasoning about a handler step by step: how a relation on worlds, and a fact about the result,
-- follow from those of its parts.
use mathlib.Core.Path.{subst}
use orders_microservice.World.{◌>>=◌, fail, on_error, M, ServiceError, pure, World}
use orders_microservice.Base.{throw, Result, ok, ◌≡◌, refl}

module _ (R : World → World → Type 0) where
  -- every run moves the world along `R`, and a result satisfies `Q`
  pub record Does {A : Type 0} (Q : A → Type 0) (m : M A) : Type 0 where
    pub run : (w : World) → R w (m w).0 × ((a : A) → (m w).1 ≡ ok a → Q a)

  abbrev pub IsReflexive : Type 0
  IsReflexive = (w : World) → R w w

  abbrev pub IsTransitive : Type 0
  IsTransitive = (u v w : World) → R u v → R v w → R u w

  pub pure-Does : {A : Type 0} (Q : A → Type 0) (a : A) → IsReflexive → Q a → Does Q (pure a)
  pure-Does Q a here q = record { run = λ w. (here w, λ b e. subst Q (cc e) q) }

  pub fail-Does : {A : Type 0} (Q : A → Type 0) (e : ServiceError) → IsReflexive → Does Q (fail e)
  fail-Does Q e here = record { run = λ w. (here w, λ b h. cc) }

  pub bind-Does :
      {A B : Type 0} (P : A → Type 0) (Q : B → Type 0) (m : M A) (f : A → M B)
      → IsTransitive
      → Does P m
      → ((a : A) → P a → Does Q (f a))
      → Does Q (m >>= f)
  bind-Does {A} {B} P Q m f trans hm hf = record {
    run = λ w. go w (m w).0 (m w).1 (hm.run w).0 (hm.run w).1;
  }
    where
      go :
          (w w' : World) (r : Result ServiceError A)
          → R w w'
          → ((a : A) → r ≡ ok a → P a)
          → let out : World × Result ServiceError B = elim r [
            | ok a ↦ f a w'
            | throw e ↦ (w', throw e)
          ] in
            R w out.0 × ((b : B) → out.1 ≡ ok b → Q b)
      go w w' (ok a) step p =
          let (later, q) = (hf a (p a refl)).run w' in (trans w w' _ step later, q)
      go w w' (throw e) step p = (step, λ b h. cc)

  pub on_error-Does :
      {A : Type 0} (Q : A → Type 0) (m : M A) (handler : World → World)
      → IsTransitive
      → ((w : World) → R w (handler w))
      → Does Q m
      → Does Q (on_error m handler)
  on_error-Does {A} Q m handler trans kept hm = record {
    run = λ w. go w (m w).0 (m w).1 (hm.run w).0 (hm.run w).1;
  }
    where
      go :
          (w w' : World) (r : Result ServiceError A)
          → R w w'
          → ((a : A) → r ≡ ok a → Q a)
          → let out : World × Result ServiceError A = elim r [
            | ok a ↦ (w', ok a)
            | throw e ↦ (handler w', throw e)
          ] in
            R w out.0 × ((b : A) → out.1 ≡ ok b → Q b)
      go w w' (ok a) step q = (step, q)
      go w w' (throw e) step q = (trans w w' _ step (kept w'), λ b h. cc)

-- ===== src/Base/Text/Laws.antt =====
-- Laws of the text operations.
use Prim.Native.Nat.{ℕ, ◌≤◌}
use mathlib.Core.Path.{◌≡◌, refl, ◌∙◌}
use mathlib.Core.Logic.{◌↔◌, inl, inr}
use mathlib.Core.Bool.{true, false}
use mathlib.Core.Option.{some}
use mathlib.Core.List.{List, [], ◌∷◌, ◌++◌, append_assoc}
use native.Mathlib.Omega.{arith}
use orders_microservice.Base.Tests.{Bool-cases}
use orders_microservice.Base.Lists.{length}
use orders_microservice.Base.Text.{
  Text, text_eq, trim_start, push_trimmed, trim_end, trim, lower_unit, to_lower_case,
  starts_with_space, find_named,
}

pub text_eq_iff : (s t : Text) → (text_eq s t ≡ true) ↔ (s ≡ t)
unfolding text_eq
text_eq_iff [] [] = ground arith
text_eq_iff [] (b ∷ t) = ground arith
text_eq_iff (a ∷ s) [] = ground arith
text_eq_iff (a ∷ s) (b ∷ t) = ground (arith, text_eq_iff s t)

pub text_eq_refl : (s : Text) → text_eq s s ≡ true
text_eq_refl s = (text_eq_iff s s).1 refl

pub text_eq_sym : (s t : Text) → text_eq s t ≡ text_eq t s
unfolding text_eq
text_eq_sym [] [] = refl
text_eq_sym [] (b ∷ t) = refl
text_eq_sym (a ∷ s) [] = refl
text_eq_sym (a ∷ s) (b ∷ t) = ground (arith, text_eq_sym s t)

module _ {ℓ} {A : Type ℓ} (name : A → Text) where
  pub find_named_sound :
      (xs : List A) (t : Text) {a : A} → find_named name xs t ≡ some a → name a ≡ t
  unfolding find_named
  find_named_sound [] t h = cc
  find_named_sound (x ∷ xs) t h = elim (Bool-cases (text_eq (name x) t)) [
    | inl same ↦ ground (arith, text_eq_iff (name x) t)
    | inr other ↦ find_named_sound xs t (rw other at h)
  ]

-- `trim` leaves a text alone that neither begins nor ends with white space.
pub trim_start_done : (s : Text) → starts_with_space (trim_start s) ≡ false
unfolding trim_start
trim_start_done [] = refl
trim_start_done (c ∷ s) = ground (arith, trim_start_done s)

trim_start_fixed : (s : Text) → starts_with_space s ≡ false → trim_start s ≡ s
unfolding trim_start
trim_start_fixed [] h = refl
trim_start_fixed (c ∷ s) h = rw h refl

trim_end-push_trimmed :
    (c : ℕ) (s : Text) → trim_end s ≡ s → trim_end (push_trimmed c s) ≡ push_trimmed c s
unfolding trim_end push_trimmed
trim_end-push_trimmed c [] h = ground arith
trim_end-push_trimmed c (d ∷ s) h = ground arith

trim_end_idempotent : (s : Text) → trim_end (trim_end s) ≡ trim_end s
unfolding trim_end
trim_end_idempotent [] = refl
trim_end_idempotent (c ∷ s) = trim_end-push_trimmed c (trim_end s) (trim_end_idempotent s)

starts_with_space-trim_end :
    (s : Text) → starts_with_space s ≡ false → starts_with_space (trim_end s) ≡ false
unfolding trim_end push_trimmed
starts_with_space-trim_end [] h = refl
starts_with_space-trim_end (c ∷ s) h = ground arith

pub trim_idempotent : (s : Text) → trim (trim s) ≡ trim s
unfolding trim
trim_idempotent s =
    rw
      (trim_start_fixed (trim_end (trim_start s))
        (starts_with_space-trim_end (trim_start s) (trim_start_done s)))
      (trim_end_idempotent (trim_start s))

length-trim_start-le : (s : Text) → length (trim_start s) ≤ length s
unfolding trim_start
length-trim_start-le [] = omega arith
length-trim_start-le (c ∷ s) = ground (arith, length-trim_start-le s)

length-trim_end-le : (s : Text) → length (trim_end s) ≤ length s
unfolding trim_end push_trimmed
length-trim_end-le [] = omega arith
length-trim_end-le (c ∷ s) = ground (arith, length-trim_end-le s)

pub length-trim-le : (s : Text) → length (trim s) ≤ length s
unfolding trim
length-trim-le s = omega (arith, length-trim_start-le s, length-trim_end-le (trim_start s))

to_lower_case_unit : (c : ℕ) → to_lower_case (lower_unit c) ≡ lower_unit c
unfolding to_lower_case
to_lower_case_unit c = ground arith

to_lower_case-append : (s t : Text) → to_lower_case (s ++ t) ≡ to_lower_case s ++ to_lower_case t
unfolding to_lower_case
to_lower_case-append [] t = refl
to_lower_case-append (c ∷ s) t = simp (to_lower_case-append s t, append_assoc)

pub to_lower_case_idempotent : (s : Text) → to_lower_case (to_lower_case s) ≡ to_lower_case s
unfolding to_lower_case
to_lower_case_idempotent [] = refl
to_lower_case_idempotent (c ∷ s) =
    to_lower_case-append (lower_unit c) (to_lower_case s)
    ∙ simp (to_lower_case_unit c, to_lower_case_idempotent s)

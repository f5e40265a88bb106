-- ===== src/Base/Counts.antt =====
-- Counts in a plain object, `acc[key] = (acc[key] || 0) + 1`, as `countBy` and
-- `incrementProductSalesCount` make them. A key that `Object.prototype` has is not absent: what it
-- holds there is made into a text, and `__proto__` is never set.
use Prim.Native.Nat.{ℕ, ◌+◌}
use mathlib.Core.Bool.{Bool, false, ◌||◌}
use mathlib.Core.Logic.{inl, inr}
use mathlib.Core.Path.{◌≡◌, refl, ◌∙◌, ap}
use mathlib.Core.List.{List, [], ◌∷◌}
use orders_microservice.Base.Tests.{if◌then◌else◌, Bool-cases, or_neither}
use orders_microservice.Base.Lists.{All}
use orders_microservice.Base.Group.{add_to_group, group_into}
use orders_microservice.Base.Text.{Text, text_eq, mem_text, lit}

-- a property's value: a count, or a text, which is not kept
pub data Tally : Type 0 where
  number : ℕ → Tally
  some_text : Tally

abbrev pub proto : Text
proto = lit "__proto__"

-- the other keys of `Object.prototype`
abbrev pub inherited_keys : List Text
inherited_keys =
    lit "constructor"
    ∷ lit "hasOwnProperty"
    ∷ lit "isPrototypeOf"
    ∷ lit "propertyIsEnumerable"
    ∷ lit "toLocaleString"
    ∷ lit "toString"
    ∷ lit "valueOf"
    ∷ lit "__defineGetter__"
    ∷ lit "__defineSetter__"
    ∷ lit "__lookupGetter__"
    ∷ lit "__lookupSetter__"
    ∷ []

unfoldable pub is_inherited : Text → Bool
unfolding mem_text text_eq
is_inherited key = text_eq key proto || mem_text key inherited_keys

-- `+ 1`, which makes a text longer
abbrev pub raise : Tally → Tally
raise (number n) = number (n + 1)
raise some_text = some_text

-- the first value of a key
abbrev pub first_tally : Text → Tally
unfolding mem_text text_eq
first_tally key = if mem_text key inherited_keys then some_text else number 1

unfoldable pub increment_key : Text → List (Text × Tally) → List (Text × Tally)
unfolding text_eq mem_text
increment_key key [] = if text_eq key proto then [] else (key, first_tally key) ∷ []
increment_key key ((k, t) ∷ gs) =
    let rest = increment_key key gs in if text_eq k key then (k, raise t) ∷ gs else (k, t) ∷ rest

-- an object with counts alone
abbrev pub numbers : List (Text × ℕ) → List (Text × Tally)
numbers [] = []
numbers ((k, n) ∷ gs) = (k, number n) ∷ numbers gs

module _ {ℓ} {A : Type ℓ} where
  abbrev pub count_one_more : A → ℕ → ℕ
  count_one_more item n = n + 1

  unfoldable pub increment_all : (A → Text) → List (Text × Tally) → List A → List (Text × Tally)
  unfolding increment_key
  increment_all key gs [] = gs
  increment_all key gs (a ∷ as') = increment_all key (increment_key (key a) gs) as'

  -- no key of the items is one of `Object.prototype`
  abbrev pub IsPlain : (A → Text) → A → Type 0
  IsPlain key a = is_inherited (key a) ≡ false

  increment_key-numbers :
      (key : A → Text) (a : A) (gs : List (Text × ℕ))
      → IsPlain key a
      → increment_key (key a) (numbers gs) ≡ numbers (add_to_group key count_one_more 0 a gs)
  unfolding increment_key add_to_group is_inherited
  increment_key-numbers key a [] plain =
      let (unlike, other) = or_neither (text_eq (key a) proto) _ plain in rw (unlike, other) refl
  increment_key-numbers key a ((k, n) ∷ gs) plain = elim (Bool-cases (text_eq k (key a))) [
    | inl same ↦ rw same refl
    | inr other ↦ rw other (ap (λ r. (k, number n) ∷ r) (increment_key-numbers key a gs plain))
  ]

  -- with plain keys the object holds what grouping the items gives
  pub increment_all-numbers :
      (key : A → Text) (gs : List (Text × ℕ)) (items : List A)
      → All (IsPlain key) items
      → increment_all key (numbers gs) items ≡ numbers (group_into key count_one_more 0 gs items)
  unfolding increment_all group_into
  increment_all-numbers key gs [] plain = refl
  increment_all-numbers key gs (a ∷ as') plain =
      ap (λ g. increment_all key g as') (increment_key-numbers key a gs plain.0)
      ∙ increment_all-numbers key (add_to_group key count_one_more 0 a gs) as' plain.1

pub All-of {ℓ κ} : {A : Type ℓ} {P : A → Type κ} → ((a : A) → P a) → (xs : List A) → All P xs
All-of h [] = tt
All-of h (x ∷ xs) = (h x, All-of h xs)

-- ===== src/Json.antt =====
-- A value that a request body may hold, as the source inspects it at run time: `typeof`, truthiness,
-- `Array.isArray` and `Object.keys`. A field that an object lacks reads as `undefined`.
use Prim.Native.Nat.{◌^◌}
use orders_microservice.Base.{
  ℕ, ◌==◌, ◌&&◌, ◌||◌, ◌*◌, ◌/◌, ◌%◌, Bool, true, false, not, List, [], ◌∷◌, if◌then◌else◌,
}
use orders_microservice.Base.Text.{Text, is_empty, text_eq}

-- A double: NaN, an infinity, or ± mantissa · 2 ^ up / 2 ^ down.
pub data Number : Type 0 where
  nan : Number
  infinite : (negative : Bool) → Number
  finite : (negative : Bool) → (mantissa up down : ℕ) → Number

mutual
  pub data Value : Type 0 where
    undefined null : Value
    bool : Bool → Value
    num : Number → Value
    text : Text → Value
    arr : Items → Value
    obj : Fields → Value

  pub data Items : Type 0 where
    nil : Items
    cons : Value → Items → Items

  pub data Fields : Type 0 where
    end : Fields
    field : Text → Value → Fields → Fields

-- `!value`
unfoldable pub is_falsy : Value → Bool
is_falsy undefined = true
is_falsy null = true
is_falsy (bool b) = not b
is_falsy (num nan) = true
is_falsy (num (infinite _)) = false
is_falsy (num (finite _ m _ _)) = m == 0
is_falsy (text s) = is_empty s
is_falsy (arr _) = false
is_falsy (obj _) = false

-- `value === undefined || value === null`
abbrev pub is_nullish : Value → Bool
is_nullish undefined = true
is_nullish null = true
is_nullish _ = false

-- `value !== 'literal'`
abbrev pub is_not_text : Value → Text → Bool
is_not_text (text s) t = not (text_eq s t)
is_not_text _ t = true

unfoldable pub get : Text → Fields → Value
get key end = undefined
get key (field k v fs) = if text_eq k key then v else get key fs

-- `Object.keys`
unfoldable pub keys : Fields → List Text
keys end = []
keys (field k _ fs) = k ∷ keys fs

-- `value.key` of a value that is neither null nor undefined, and `value?.key` of any
abbrev pub prop : Text → Value → Value
prop key (obj fs) = get key fs
prop key _ = undefined

-- `value ?? fallback`
abbrev pub or_default : Value → Value → Value
or_default undefined fallback = fallback
or_default null fallback = fallback
or_default value fallback = value

-- `value || fallback`
abbrev pub or_value : Value → Value → Value
or_value value fallback = if is_falsy value then fallback else value

abbrev pub elements : Items → List Value
elements nil = []
elements (cons v vs) = v ∷ elements vs

-- `Number.isFinite`
abbrev pub is_finite : Number → Bool
is_finite (finite _ _ _ _) = true
is_finite _ = false

-- `n < 0`
abbrev pub is_negative : Number → Bool
is_negative nan = false
is_negative (infinite negative) = negative
is_negative (finite negative m _ _) = negative && not (m == 0)

-- `n === 0`
abbrev pub is_zero_number : Number → Bool
is_zero_number (finite _ m _ _) = m == 0
is_zero_number _ = false

-- `Number.isInteger`
abbrev pub is_integer : Number → Bool
is_integer (finite _ m up down) = (m * 2 ^ up) % (2 ^ down) == 0
is_integer _ = false

-- the size of a finite number, without its fraction
abbrev pub whole_part : Number → ℕ
whole_part (finite _ m up down) = (m * 2 ^ up) / (2 ^ down)
whole_part _ = 0

-- `===` on numbers, where the two zeros are equal
abbrev pub number_eq : Number → Number → Bool
number_eq (infinite a) (infinite b) = if a then b else not b
number_eq (finite a m up down) (finite b n up' down') =
    m * 2 ^ up * 2 ^ down' == n * 2 ^ up' * 2 ^ down && (m == 0 || (if a then b else not b))
number_eq _ _ = false

-- ===== src/Create/Checks.antt =====
-- What the fields, the items and the customer of an accepted request satisfy, in
-- src/orders/create-order.dto.ts.
use orders_microservice.Base.{
  throw_if-eq-ok, ◌&&◌, inr, all, inl, not, ok_injective, length, sym, throw_if, >>=-eq-ok, All,
  Bool-cases, arith, Bool, List, Result, ◌≡◌, ◌≤◌, Option, ℕ, ◌/◌, ◌%◌, ◌*◌, ◌+◌, if◌then◌else◌,
  none, some, ok, throw, [], ◌∷◌, true, false, refl,
}
use orders_microservice.Create.Fields.{
  invalid_auth_subject, CreateError, items_not_array, is_uuid, normalize_integer, Arithmetic,
  normalize_string,
}
use orders_microservice.Base.Text.{text_eq, lit, trim, is_empty, Text}
use mathlib.Core.Path.{subst}
use orders_microservice.Base.Text.Laws.{length-trim-le, trim_idempotent}
use orders_microservice.Json.{
  elements, is_falsy, get, is_zero_number, whole_part, Value, is_integer, Number, nan, infinite,
  finite, undefined, null, bool, num, text, arr, obj,
}
use orders_microservice.Create.Parts.{
  normalize_item, normalize_items, NormalizedItem, agreed_subject, map_result, normalize_customer,
  normalize_customer_auth_subject,
}
use orders_microservice.Entities.{Customer}
use Prim.Native.Nat.{zero, suc, ◌^◌}
use native.Mathlib.Nat.{mod-add-div'}

-- a required text
pub record IsName (s : Text) : Type 0 where
  pub not_empty : is_empty s ≡ false
  pub trimmed : trim s ≡ s
  pub short : length s ≤ 500

pub record IsItem (item : NormalizedItem) : Type 0 where
  pub sold : 1 ≤ item.quantity
  pub product : IsName item.product_id
  pub titled : IsName item.title
  pub waits : item.fulfillment_status ≡ lit "pending"

abbrev pub IsSubject : Option Text → Type 0
IsSubject none = Unit
IsSubject (some s) = is_uuid s ≡ true

abbrev pub IsKnown : Option Customer → Type 0
IsKnown none = Unit
IsKnown (some c) = (c.subject ≡ c.auth_user_id) × IsSubject c.auth_user_id

pub normalize_string-IsName :
    (value : Value) (field : Text) {s : Text} → normalize_string value field ≡ ok s → IsName s
unfolding normalize_string
normalize_string-IsName (text t) field {s} h =
    let same : s ≡ trim t = ground arith in
    rw same (record {
      not_empty = ground arith;
      trimmed = trim_idempotent t;
      short = ground (arith, length-trim-le t);
    })
normalize_string-IsName undefined field h = cc
normalize_string-IsName null field h = cc
normalize_string-IsName (bool b) field h = cc
normalize_string-IsName (num n) field h = cc
normalize_string-IsName (arr vs) field h = cc
normalize_string-IsName (obj fs) field h = cc

pub map_result-All {ℓ} :
    {A : Type ℓ} {B : Type 0} (P : B → Type 0) (f : A → Result CreateError B)
    → ((x : A) (y : B) → f x ≡ ok y → P y)
    → (xs : List A) (ys : List B) → map_result f xs ≡ ok ys
    → All P ys × (length ys ≡ length xs)
unfolding map_result
map_result-All P f h [] ys e = rw (sym (ok_injective e)) (tt, refl)
map_result-All P f h (x ∷ xs) ys e =
    let (y, first, e') = >>=-eq-ok (f x) _ e in
    let (rest, others, e'') = >>=-eq-ok (map_result f xs) _ e' in
    let (p, n) = map_result-All P f h xs rest others in
    rw (sym (ok_injective e'')) ((h x y first, p), omega (arith, n))

mul_pos : (m k : ℕ) → 1 ≤ m → 1 ≤ k → 1 ≤ m * k
mul_pos zero k h h' = omega arith
mul_pos (suc m) k h h' = omega arith

pow_pos : (k : ℕ) → 1 ≤ 2 ^ k
pow_pos zero = omega arith
pow_pos (suc k) = omega (arith, pow_pos k)

quotient_pos : (q r y x : ℕ) → r + q * y ≡ x → r ≡ 0 → 1 ≤ x → 1 ≤ q
quotient_pos zero r y x e e' h = omega arith
quotient_pos (suc q) r y x e e' h = omega arith

whole_part_pos : (n : Number) → is_integer n ≡ true → is_zero_number n ≡ false → 1 ≤ whole_part n
whole_part_pos nan h h' = cc
whole_part_pos (infinite b) h h' = cc
whole_part_pos (finite b m up down) h h' =
    let x = m * 2 ^ up in
    quotient_pos (x / 2 ^ down) (x % 2 ^ down) (2 ^ down) x (mod-add-div' x (2 ^ down))
      (ground arith) (mul_pos m (2 ^ up) (ground arith) (pow_pos up))

module _ (a : Arithmetic) where
  normalize_integer_pos :
      (value : Value) (field : Text) {n : ℕ} → normalize_integer a value field ≡ ok n → 1 ≤ n
  unfolding normalize_integer
  normalize_integer_pos value field {n} h =
      let parsed = a.to_number value in
      let same : n ≡ whole_part parsed = ground arith in
      rw same (whole_part_pos parsed (ground arith) (ground arith))

  normalize_item-IsItem :
      (value : Value) (item : NormalizedItem) → normalize_item a value ≡ ok item → IsItem item
  unfolding normalize_item
  normalize_item-IsItem (obj fs) item h = record {
    sold = normalize_integer_pos (get (lit "quantity") fs) (lit "quantity") (ground arith);
    product = normalize_string-IsName (get (lit "productId") fs) (lit "productId") (ground arith);
    titled = normalize_string-IsName (get (lit "title") fs) (lit "title") (ground arith);
    waits = ground arith;
  }
  normalize_item-IsItem undefined item h = cc
  normalize_item-IsItem null item h = cc
  normalize_item-IsItem (bool b) item h = cc
  normalize_item-IsItem (num n) item h = cc
  normalize_item-IsItem (arr vs) item h = cc
  normalize_item-IsItem (text s) item h = cc

  none_given :
      (b : Bool) (items : List NormalizedItem)
      → (if b then ok [] else throw items_not_array) ≡ ok items
      → All IsItem items
  none_given true items h = rw (sym (ok_injective h)) tt
  none_given false items h = cc

  pub normalize_items-All :
      (value : Value) (items : List NormalizedItem)
      → normalize_items a value ≡ ok items
      → All IsItem items
  unfolding normalize_items
  normalize_items-All (arr vs) items h =
      (map_result-All IsItem (normalize_item a) normalize_item-IsItem (elements vs) items h).0
  normalize_items-All undefined items h = none_given true items h
  normalize_items-All null items h = none_given true items h
  normalize_items-All (bool b) items h = none_given (is_falsy (bool b)) items h
  normalize_items-All (num n) items h = none_given (is_falsy (num n)) items h
  normalize_items-All (text s) items h = none_given (is_falsy (text s)) items h
  normalize_items-All (obj fs) items h = none_given false items h

agreed_subject-IsSubject :
    (candidates : List Text) (s : Option Text) → agreed_subject candidates ≡ ok s → IsSubject s
unfolding agreed_subject
agreed_subject-IsSubject candidates none h = tt
agreed_subject-IsSubject [] (some s) h = cc
agreed_subject-IsSubject (first ∷ rest) (some s) h =
    let (u, fits, made) =
      >>=-eq-ok (throw_if (not (all (text_eq first) rest && is_uuid first)) invalid_auth_subject) _
        h in
    let same : first ≡ s = cc in
    let passed =
      throw_if-eq-ok (not (all (text_eq first) rest && is_uuid first)) invalid_auth_subject fits in
    subst (λ t. is_uuid t ≡ true) same (ground arith)

normalize_customer_auth_subject-IsSubject :
    (value : Value) (s : Option Text) → normalize_customer_auth_subject value ≡ ok s → IsSubject s
unfolding normalize_customer_auth_subject
normalize_customer_auth_subject-IsSubject value s h = search (agreed_subject-IsSubject)

pub normalize_customer-IsKnown :
    (value : Value) (c : Option Customer) → normalize_customer value ≡ ok c → IsKnown c
unfolding normalize_customer
normalize_customer-IsKnown value c h = elim (Bool-cases (is_falsy value)) [
  | inl absent ↦ subst IsKnown (ok_injective (rw absent at h)) tt
  | inr given ↦
      let (s, found, made) = >>=-eq-ok (normalize_customer_auth_subject value) _ (rw given at h) in
      subst IsKnown (ok_injective made)
        (refl, normalize_customer_auth_subject-IsSubject value s found)
]

-- ===== src/Create/Fields.antt =====
-- src/orders/create-order.dto.ts: the normalizers of single fields.
use orders_microservice.Json.{
  whole_part, is_zero_number, is_negative, is_finite, is_integer, Number, Value, text,
}
use orders_microservice.Base.{
  all, length, ltb, not, ◌||◌, leb, suc, throw_if, ◌&&◌, ◌==◌, Bool, Option, Result, List, ℕ, none,
  some, ok, throw, [], ◌∷◌, true, false, ◌>>=◌, ◌>>◌,
}
use orders_microservice.Base.Text.{
  is_lower, lit, is_empty, trim, is_digit, is_upper, non_empty, Text, mem_text, to_lower_case,
}
use Prim.Native.Nat.{zero}

-- One constructor for each way in which a request is refused. A field stands for its name in the
-- message, without the index of the item or the bundle that it is in. Both tests of a customer's
-- subject end in `invalid_auth_subject`.
pub data CreateError : Type 0 where
  body_not_object unsupported_contract_version initial_status invalid_currency : CreateError
  items_not_array item_not_object no_items invalid_ordered_at : CreateError
  unsupported_create_fields : List Text → CreateError
  unsupported_channel : Text → CreateError
  required too_long not_positive_integer not_amount not_uuid invalid_reference :
      (field : Text) → CreateError
  invalid_auth_subject : CreateError
  bundles_not_array too_many_bundles bundle_not_object bundle_version : CreateError
  unsupported_bundle_fields : List Text → CreateError
  bundle_product_count duplicate_products products_differ invalid_total_source : CreateError
  lead_not_object : CreateError
  unsupported_lead_fields : List Text → CreateError

-- `to_number` is `Number(value)`, `multiply` is `*`, `round_money` is `Math.round(x * 100) / 100`.
-- A column of scale 2 keeps a number as so many hundredths, and `from_hundredths` is the number
-- that is read back.
pub record Arithmetic : Type 0 where
  pub to_number : Value → Number
  pub multiply : Number → Number → Number
  pub round_money : Number → Number
  pub to_hundredths : Number → ℕ
  pub from_hundredths : ℕ → Number

unfoldable pub normalize_string : Value → Text → Result CreateError Text
normalize_string (text s) field = do
  throw_if (is_empty (trim s)) (required field)
  throw_if (ltb 500 (length s)) (too_long field)
  ok (trim s)
normalize_string _ field = throw (required field)

unfoldable pub normalize_optional_string : Value → Option Text
normalize_optional_string (text s) = non_empty (trim s)
normalize_optional_string _ = none

module _ (a : Arithmetic) where
  unfoldable pub normalize_integer : Value → Text → Result CreateError ℕ
  normalize_integer value field =
      let parsed = a.to_number value in
      do
        throw_if (not (is_integer parsed) || is_negative parsed || is_zero_number parsed)
            (not_positive_integer field)
        ok (whole_part parsed)

  unfoldable pub normalize_money : Value → Text → Result CreateError Number
  normalize_money value field =
      let parsed = a.to_number value in
      do
        throw_if (not (is_finite parsed) || is_negative parsed) (not_amount field)
        ok (a.round_money parsed)

abbrev pub is_hex : ℕ → Bool
is_hex c = is_digit c || (leb b'a' c && leb c b'f')

abbrev pub is_dash : ℕ → Bool
is_dash c = c == b'-'

abbrev pub is_version : ℕ → Bool
is_version c = leb b'1' c && leb c b'5'

abbrev pub is_variant : ℕ → Bool
is_variant c = c == b'8' || c == b'9' || c == b'a' || c == b'b'

abbrev pub copies : ℕ → (ℕ → Bool) → List (ℕ → Bool) → List (ℕ → Bool)
copies zero p rest = rest
copies (suc n) p rest = p ∷ copies n p rest

-- one test for each code unit, and no unit left
unfoldable pub matches : List (ℕ → Bool) → Text → Bool
matches [] [] = true
matches (p ∷ ps) (c ∷ s) = p c && matches ps s
matches _ _ = false

-- `/^[0-9a-f]{8}-[0-9a-f]{4}-[1-5][0-9a-f]{3}-[89ab][0-9a-f]{3}-[0-9a-f]{12}$/`
abbrev pub uuid_pattern : List (ℕ → Bool)
uuid_pattern = copies 8 is_hex (
    is_dash
    ∷ copies 4 is_hex (
        is_dash
        ∷ is_version
        ∷ copies 3 is_hex (is_dash ∷ is_variant ∷ copies 3 is_hex (is_dash ∷ copies 12 is_hex []))))

unfoldable pub is_uuid : Text → Bool
unfolding matches
is_uuid s = matches uuid_pattern s

unfoldable pub normalize_uuid : Value → Text → Result CreateError Text
unfolding normalize_string is_uuid to_lower_case
normalize_uuid value field = do
  given ← normalize_string value field
  throw_if (not (is_uuid (to_lower_case given))) (not_uuid field)
  ok (to_lower_case given)

abbrev pub is_reference_unit : ℕ → Bool
is_reference_unit c =
    is_upper c
    || is_lower c
    || is_digit c
    || c == b':'
    || c == b'_'
    || c == b'.'
    || c == b'/'
    || c == b'-'

unfoldable pub normalize_policy_ref : Value → Text → Result CreateError (Option Text)
unfolding normalize_optional_string
normalize_policy_ref value field = elim (normalize_optional_string value) [
  | none ↦ ok none
  | some s ↦ do
    throw_if (not (all is_reference_unit s) || ltb 200 (length s)) (invalid_reference field)
    ok (some s)
]

unfoldable pub normalize_server_total_source : Value → Result CreateError (Option Text)
unfolding normalize_optional_string mem_text
normalize_server_total_source value = elim (normalize_optional_string value) [
  | none ↦ ok none
  | some s ↦ do
    throw_if (not (mem_text s (lit "checkout_authoritative" ∷ lit "orders.create.v1" ∷ [])))
        invalid_total_source
    ok (some s)
]

unfoldable pub normalize_attribution_string : Value → Text → Result CreateError (Option Text)
unfolding normalize_optional_string
normalize_attribution_string value field = elim (normalize_optional_string value) [
  | none ↦ ok none
  | some s ↦ do throw_if (ltb 200 (length s)) (too_long field); ok (some s)
]

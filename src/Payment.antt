-- ===== src/Payment.antt =====
-- src/payments/payment-status.dto.ts: the payment status update as it is accepted from Payments.
-- How `new Date(value)` reads a value is implementation-defined for most texts: it is the
-- parameter `parse_date`, which answers nothing for an invalid date.
use orders_microservice.Base.{
  ℕ, not, ◌&&◌, ◌||◌, List, [], ◌∷◌, Option, none, some, Result, ok, throw, ◌>>=◌, ◌>>◌, throw_if,
  if◌then◌else◌, ltb, filter, length,
}
use orders_microservice.Base.Text.{
  Text, lit, trim, to_lower_case, is_empty, mem_text, has_control, find_named,
}
use orders_microservice.Json.{Value, text, obj, Fields, get, keys, is_falsy, is_not_text}

pub data OrdersPaymentStatus : Type 0 where
  pending processing paid failed cancelled : OrdersPaymentStatus

unfoldable pub payment_status_text : OrdersPaymentStatus → Text
payment_status_text pending = lit "pending"
payment_status_text processing = lit "processing"
payment_status_text paid = lit "paid"
payment_status_text failed = lit "failed"
payment_status_text cancelled = lit "cancelled"

pub record NormalizedPaymentStatusUpdate : Type 0 where
  pub payment_reference_id : Text
  pub payment_status : OrdersPaymentStatus
  pub payment_application_id : Option Text
  pub payment_method : Option Text
  pub payment_updated_at : ℕ

pub data PaymentError : Type 0 where
  not_an_object : PaymentError
  unsupported_fields : List Text → PaymentError
  payments_owned_field unsupported_contract_version refund_not_accepted : PaymentError
  unsupported_status invalid_date : PaymentError
  required invalid : (field : Text) → PaymentError

abbrev pub allowed_payment_status_keys : List Text
allowed_payment_status_keys =
    lit "contractVersion"
    ∷ lit "paymentId"
    ∷ lit "status"
    ∷ lit "applicationId"
    ∷ lit "paymentMethod"
    ∷ lit "occurredAt"
    ∷ []

abbrev pub forbidden_payment_fields : List Text
forbidden_payment_fields =
    lit "providerTransactionId"
    ∷ lit "variableSymbol"
    ∷ lit "providerResponse"
    ∷ lit "metadata"
    ∷ lit "refund"
    ∷ lit "refundId"
    ∷ lit "refundedAt"
    ∷ lit "amount"
    ∷ lit "currency"
    ∷ lit "customer"
    ∷ lit "card"
    ∷ lit "token"
    ∷ lit "secret"
    ∷ []

-- `PAYMENT_STATUS_MAP`: the name that Payments uses of each status
unfoldable pub payments_owned_text : OrdersPaymentStatus → Text
payments_owned_text pending = lit "pending"
payments_owned_text processing = lit "processing"
payments_owned_text paid = lit "completed"
payments_owned_text failed = lit "failed"
payments_owned_text cancelled = lit "cancelled"

abbrev pub payment_statuses : List OrdersPaymentStatus
payment_statuses = pending ∷ processing ∷ paid ∷ failed ∷ cancelled ∷ []

abbrev pub refund_statuses : List Text
refund_statuses = lit "refunded" ∷ lit "refund" ∷ lit "partially_refunded" ∷ []

unfoldable pub normalize_bounded_string : Value → Text → ℕ → Result PaymentError Text
normalize_bounded_string (text s) field most =
    let normalized = trim s in
    do
      throw_if (is_empty normalized) (required field)
      throw_if (ltb most (length normalized) || has_control normalized) (invalid field)
      ok normalized
normalize_bounded_string _ field most = throw (required field)

unfoldable pub normalize_optional_bounded_string : Value → ℕ → Option Text
normalize_optional_bounded_string (text s) most =
    let normalized = trim s in
    if is_empty normalized || ltb most (length normalized) || has_control normalized
    then none
    else some normalized
normalize_optional_bounded_string _ most = none

unfoldable pub normalize_payment_status : Value → Result PaymentError OrdersPaymentStatus
normalize_payment_status status = do
  bounded ← normalize_bounded_string status (lit "status") 50
  let normalized = to_lower_case bounded
  throw_if (mem_text normalized refund_statuses) refund_not_accepted
  elim (find_named payments_owned_text payment_statuses normalized) [
    | none ↦ throw unsupported_status
    | some s ↦ ok s
  ]

module _ (parse_date : Value → Option ℕ) (clock : ℕ) where
  unfoldable pub normalize_occurred_at : Value → Result PaymentError ℕ
  normalize_occurred_at value =
      if is_falsy value
      then ok clock
      else elim (parse_date value) [ none ↦ throw invalid_date | some t ↦ ok t ]

  -- the body's fields, once it is known to be an object
  unfoldable pub normalize_payment_fields :
      Fields → Result PaymentError NormalizedPaymentStatusUpdate
  normalize_payment_fields input =
      let unknown = filter (λ k. not (mem_text k allowed_payment_status_keys)) (keys input) in
      let forbidden = filter (λ k. mem_text k forbidden_payment_fields) (keys input) in
      let version = get (lit "contractVersion") input in
      do
        throw_if (not (is_empty unknown)) (unsupported_fields unknown)
        throw_if (not (is_empty forbidden)) payments_owned_field
        throw_if (not (is_falsy version) && is_not_text version (lit "orders.payment-status.v1"))
            unsupported_contract_version
        status ← normalize_payment_status (get (lit "status") input)
        updated_at ← normalize_occurred_at (get (lit "occurredAt") input)
        reference ← normalize_bounded_string (get (lit "paymentId") input) (lit "paymentId") 200
        ok (record {
          payment_reference_id = reference;
          payment_status = status;
          payment_application_id =
              normalize_optional_bounded_string (get (lit "applicationId") input) 100;
          payment_method = normalize_optional_bounded_string (get (lit "paymentMethod") input) 100;
          payment_updated_at = updated_at;
        })

  unfoldable pub normalize_payment_status_update :
      Value → Result PaymentError NormalizedPaymentStatusUpdate
  normalize_payment_status_update (obj input) = normalize_payment_fields input
  normalize_payment_status_update _ = throw not_an_object

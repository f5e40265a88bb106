-- ===== src/Fulfillment.antt =====
-- src/orders/warehouse-fulfillment-status.dto.ts: the status callback of the warehouse.
use orders_microservice.Base.{
  ℕ, ◌||◌, Option, none, some, Result, ok, throw, ◌>>=◌, if◌then◌else◌, ltb, length,
}
use orders_microservice.Base.Text.{
  Text, lit, trim, to_lower_case, is_empty, has_control, find_named,
}
use orders_microservice.Json.{Value, text, obj, arr, Fields, end, undefined, null, get}
use orders_microservice.Entities.{
  WarehouseFulfillmentStatus, fulfillment_status_text, warehouse_fulfillment_statuses,
}

pub record WarehouseFulfillmentStatusUpdate : Type 0 where
  pub status : WarehouseFulfillmentStatus
  pub reason_code : Option Text
  pub actor : Option Text
  pub reference : Option Text
  pub fulfillment_order_id : Option Text
  pub occurred_at : Option ℕ

pub data FulfillmentError : Type 0 where
  payload_required status_required unsupported_status invalid_timestamp : FulfillmentError
  not_a_string invalid_field : (field : Text) → FulfillmentError

unfoldable pub normalize_status : Value → Result FulfillmentError WarehouseFulfillmentStatus
normalize_status (text value) =
    elim (find_named fulfillment_status_text warehouse_fulfillment_statuses
      (to_lower_case (trim value))) [ none ↦ throw unsupported_status | some s ↦ ok s ]
normalize_status _ = throw status_required

unfoldable pub normalize_optional_field : Value → Text → Result FulfillmentError (Option Text)
normalize_optional_field undefined field = ok none
normalize_optional_field null field = ok none
normalize_optional_field (text value) field =
    let normalized = trim value in
    if is_empty normalized
    then ok none
    else if ltb 200 (length normalized) || has_control normalized
    then throw (invalid_field field)
    else ok (some normalized)
normalize_optional_field _ field = throw (not_a_string field)

-- How `Date.parse` reads a text is implementation-defined for most texts.
module _ (parse_text : Text → Option ℕ) where
  unfoldable pub normalize_optional_timestamp : Value → Result FulfillmentError (Option ℕ)
  normalize_optional_timestamp value = do
    normalized ← normalize_optional_field value (lit "occurredAt")
    elim normalized [
      | none ↦ ok none
      | some s ↦ elim (parse_text s) [ none ↦ throw invalid_timestamp | some t ↦ ok (some t) ]
    ]

  unfoldable pub normalize_fulfillment_fields :
      Fields → Result FulfillmentError WarehouseFulfillmentStatusUpdate
  normalize_fulfillment_fields input = do
    status ← normalize_status (get (lit "status") input)
    reason ← normalize_optional_field (get (lit "reasonCode") input) (lit "reasonCode")
    actor ← normalize_optional_field (get (lit "actor") input) (lit "actor")
    reference ← normalize_optional_field (get (lit "reference") input) (lit "reference")
    order_id ←
        normalize_optional_field (get (lit "fulfillmentOrderId") input) (lit "fulfillmentOrderId")
    occurred_at ← normalize_optional_timestamp (get (lit "occurredAt") input)
    ok (record {
      status = status;
      reason_code = reason;
      actor = actor;
      reference = reference;
      fulfillment_order_id = order_id;
      occurred_at = occurred_at;
    })

  -- An array is an object too, and has none of the fields.
  unfoldable pub normalize_warehouse_fulfillment_status_update :
      Value → Result FulfillmentError WarehouseFulfillmentStatusUpdate
  normalize_warehouse_fulfillment_status_update (obj input) = normalize_fulfillment_fields input
  normalize_warehouse_fulfillment_status_update (arr _) = normalize_fulfillment_fields end
  normalize_warehouse_fulfillment_status_update _ = throw payload_required

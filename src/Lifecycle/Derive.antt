-- ===== src/Lifecycle/Derive.antt =====
-- src/orders/order-lifecycle.ts: the state derived from a stored order.
use orders_microservice.Base.{
  Bool, not, ◌&&◌, ◌||◌, List, map, Option, none, some, if◌then◌else◌, all,
}
use orders_microservice.Base.Text.{Text, lit, trim, to_lower_case, is_empty, text_eq}
use orders_microservice.Entities.{
  Order, OrderItem, WarehouseHandoffStatus, WarehouseFulfillmentStatus,
}
use orders_microservice.Status.{OrderStatus}
use orders_microservice.Lifecycle.{
  OrderLifecycleStage, ordered_unpaid, payment_failed, paid_not_delivered,
  warehouse_fulfillment_requested, warehouse_collecting, warehouse_forming, warehouse_formed,
  handed_to_delivery, in_delivery, received, not_received, returned, cancelled,
}
use orders_microservice.Lifecycle.Labels.{
  FulfillmentLabel, DeliveryLabel, ExceptionLabel, is_cancelled, is_returned, is_fulfilled,
  derive_fulfillment_status, derive_delivery_status, derive_exception_state,
}

-- `normalizeOptionalString`
unfoldable pub normalize_optional_string : Option Text → Option Text
normalize_optional_string none = none
normalize_optional_string (some s) = let t = trim s in if is_empty t then none else some t

-- `normalizeStoredStatus`
unfoldable pub normalize_stored_status : Option Text → Text → Text
unfolding normalize_optional_string
normalize_stored_status none fallback = fallback
normalize_stored_status (some s) fallback =
    let t = to_lower_case (trim s) in if is_empty (trim s) || is_empty t then fallback else t

-- `FULFILLMENT_STATUS_TO_LIFECYCLE`
unfoldable pub fulfillment_status_to_lifecycle : WarehouseFulfillmentStatus → OrderLifecycleStage
fulfillment_status_to_lifecycle WarehouseFulfillmentStatus.requested =
    warehouse_fulfillment_requested
fulfillment_status_to_lifecycle WarehouseFulfillmentStatus.collecting = warehouse_collecting
fulfillment_status_to_lifecycle WarehouseFulfillmentStatus.forming = warehouse_forming
fulfillment_status_to_lifecycle WarehouseFulfillmentStatus.formed = warehouse_formed
fulfillment_status_to_lifecycle WarehouseFulfillmentStatus.handed_to_delivery = handed_to_delivery
fulfillment_status_to_lifecycle WarehouseFulfillmentStatus.in_delivery = in_delivery
fulfillment_status_to_lifecycle WarehouseFulfillmentStatus.delivered = received
fulfillment_status_to_lifecycle WarehouseFulfillmentStatus.not_delivered = not_received
fulfillment_status_to_lifecycle WarehouseFulfillmentStatus.cancelled = cancelled
fulfillment_status_to_lifecycle WarehouseFulfillmentStatus.returned = returned

-- `projectLifecycleStageToStatus`
unfoldable pub project_lifecycle_stage_to_status : OrderLifecycleStage → OrderStatus
project_lifecycle_stage_to_status ordered_unpaid = OrderStatus.pending
project_lifecycle_stage_to_status paid_not_delivered = OrderStatus.confirmed
project_lifecycle_stage_to_status warehouse_fulfillment_requested = OrderStatus.confirmed
project_lifecycle_stage_to_status warehouse_collecting = OrderStatus.processing
project_lifecycle_stage_to_status warehouse_forming = OrderStatus.processing
project_lifecycle_stage_to_status warehouse_formed = OrderStatus.processing
project_lifecycle_stage_to_status handed_to_delivery = OrderStatus.shipped
project_lifecycle_stage_to_status in_delivery = OrderStatus.shipped
project_lifecycle_stage_to_status not_received = OrderStatus.shipped
project_lifecycle_stage_to_status received = OrderStatus.delivered
project_lifecycle_stage_to_status payment_failed = OrderStatus.cancelled
project_lifecycle_stage_to_status returned = OrderStatus.cancelled
project_lifecycle_stage_to_status cancelled = OrderStatus.cancelled

pub record OrderLifecycleState : Type 0 where
  pub lifecycle_stage : OrderLifecycleStage
  pub status : Text
  pub status_projection : OrderStatus
  pub payment_status : Text
  pub fulfillment_status : FulfillmentLabel
  pub delivery_status : DeliveryLabel
  pub exception_state : Option ExceptionLabel

-- `warehouseHandoff?.status`; the stored values are the literals of the type, which trimming and
-- lower case leave as they are
abbrev pub warehouse_status : Order → Option WarehouseHandoffStatus
warehouse_status order = elim order.warehouse_handoff [ none ↦ none | some h ↦ h.status ]

-- `warehouseHandoff?.fulfillmentOrderHandoff?.warehouseStatus`
abbrev pub fulfillment_order_status : Order → Option WarehouseFulfillmentStatus
fulfillment_order_status order = elim order.warehouse_handoff [
  | none ↦ none
  | some h ↦ elim h.fulfillment_order_handoff [ none ↦ none | some f ↦ f.warehouse_status ]
]

unfoldable pub normalize_item_statuses : List OrderItem → List Text
normalize_item_statuses items =
    map (λ item. normalize_stored_status item.fulfillment_status (lit "pending")) items

abbrev pub is_shipped_text : Text → Bool
is_shipped_text value = text_eq value (lit "shipped") || text_eq value (lit "delivered")

unfoldable pub all_items_shipped : List OrderItem → Bool
unfolding normalize_item_statuses
all_items_shipped items =
    not (is_empty items) && all is_shipped_text (normalize_item_statuses items)

unfoldable pub all_items_delivered : List OrderItem → Bool
unfolding normalize_item_statuses
all_items_delivered items =
    not (is_empty items)
    && all (λ value. text_eq value (lit "delivered")) (normalize_item_statuses items)

abbrev pub is_failed_payment : Text → Bool
is_failed_payment s = text_eq s (lit "failed") || text_eq s (lit "cancelled")

-- the branches below the fulfillment order, on the values that they read
unfoldable pub derive_stage :
    (status payment : Text)
    → Option WarehouseHandoffStatus
    → (shipped delivered : Bool) → OrderLifecycleStage
derive_stage status payment warehouse shipped delivered =
    if text_eq status (lit "cancelled") || is_cancelled warehouse
    then cancelled
    else if is_returned warehouse
    then returned
    else if text_eq status (lit "delivered") || delivered
    then received
    else if text_eq status (lit "shipped") || shipped
    then handed_to_delivery
    else if is_failed_payment payment
        && not (text_eq status (lit "cancelled") || text_eq status (lit "delivered"))
    then payment_failed
    else if text_eq payment (lit "paid")
    then (if text_eq status (lit "processing")
        then warehouse_collecting
        else if is_fulfilled warehouse
        then warehouse_fulfillment_requested
        else paid_not_delivered)
    else ordered_unpaid

-- the stage: the fulfillment order's status if there is one, else the branches above
unfoldable pub lifecycle_stage : Order → OrderLifecycleStage
lifecycle_stage order = elim (fulfillment_order_status order) [
  | some f ↦ fulfillment_status_to_lifecycle f
  | none ↦
      derive_stage (normalize_stored_status (some order.status) (lit "pending"))
        (normalize_stored_status order.payment_status (lit "unpaid")) (warehouse_status order)
        (all_items_shipped order.items) (all_items_delivered order.items)
]

unfoldable pub derive_order_lifecycle_state : Order → OrderLifecycleState
derive_order_lifecycle_state order =
    let stage = lifecycle_stage order in
    record {
      lifecycle_stage = stage;
      status = normalize_stored_status (some order.status) (lit "pending");
      status_projection = project_lifecycle_stage_to_status stage;
      payment_status = normalize_stored_status order.payment_status (lit "unpaid");
      fulfillment_status =
          derive_fulfillment_status stage (warehouse_status order)
            (normalize_item_statuses order.items);
      delivery_status = derive_delivery_status stage;
      exception_state = derive_exception_state stage (warehouse_status order);
    }

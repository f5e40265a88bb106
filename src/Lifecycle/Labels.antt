-- ===== src/Lifecycle/Labels.antt =====
-- src/orders/order-lifecycle.ts: the labels shown beside a stage.
use orders_microservice.Base.{
  Bool, true, false, not, ◌&&◌, ◌||◌, List, Option, none, some, if◌then◌else◌, all,
}
use orders_microservice.Base.Text.{Text, lit, is_empty, text_eq}
use orders_microservice.Entities.{WarehouseHandoffStatus}
use orders_microservice.Lifecycle.{
  OrderLifecycleStage, warehouse_fulfillment_requested, warehouse_collecting, warehouse_forming,
  warehouse_formed,
}

pub data FulfillmentLabel : Type 0 where
  fulfillment_requested collecting forming formed fulfilled returned cancelled : FulfillmentLabel
  reserved_waiting_for_payment not_requested : FulfillmentLabel

pub data DeliveryLabel : Type 0 where
  handed_to_delivery in_delivery received not_received returned not_started : DeliveryLabel

pub data ExceptionLabel : Type 0 where
  payment_failed delivery_not_received returned cancelled warehouse_handoff_failed : ExceptionLabel

-- `warehouseStatus === '…'`
abbrev pub is_cancelled : Option WarehouseHandoffStatus → Bool
is_cancelled (some WarehouseHandoffStatus.cancelled) = true
is_cancelled _ = false

abbrev pub is_returned : Option WarehouseHandoffStatus → Bool
is_returned (some WarehouseHandoffStatus.returned) = true
is_returned _ = false

abbrev pub is_fulfilled : Option WarehouseHandoffStatus → Bool
is_fulfilled (some WarehouseHandoffStatus.fulfilled) = true
is_fulfilled _ = false

abbrev pub is_reserved : Option WarehouseHandoffStatus → Bool
is_reserved (some WarehouseHandoffStatus.reserved) = true
is_reserved _ = false

abbrev pub is_failed : Option WarehouseHandoffStatus → Bool
is_failed (some WarehouseHandoffStatus.failed) = true
is_failed _ = false

unfoldable pub derive_fulfillment_status :
    OrderLifecycleStage → Option WarehouseHandoffStatus → List Text → FulfillmentLabel
derive_fulfillment_status warehouse_fulfillment_requested warehouse statuses = fulfillment_requested
derive_fulfillment_status warehouse_collecting warehouse statuses = collecting
derive_fulfillment_status warehouse_forming warehouse statuses = forming
derive_fulfillment_status warehouse_formed warehouse statuses = formed
derive_fulfillment_status OrderLifecycleStage.handed_to_delivery warehouse statuses = fulfilled
derive_fulfillment_status OrderLifecycleStage.in_delivery warehouse statuses = fulfilled
derive_fulfillment_status OrderLifecycleStage.received warehouse statuses = fulfilled
derive_fulfillment_status OrderLifecycleStage.returned warehouse statuses =
    FulfillmentLabel.returned
derive_fulfillment_status OrderLifecycleStage.cancelled warehouse statuses =
    FulfillmentLabel.cancelled
derive_fulfillment_status _ warehouse statuses =
    if is_reserved warehouse
      || (not (is_empty statuses) && all (λ value. text_eq value (lit "reserved")) statuses)
    then reserved_waiting_for_payment
    else not_requested

unfoldable pub derive_delivery_status : OrderLifecycleStage → DeliveryLabel
derive_delivery_status OrderLifecycleStage.handed_to_delivery = DeliveryLabel.handed_to_delivery
derive_delivery_status OrderLifecycleStage.in_delivery = DeliveryLabel.in_delivery
derive_delivery_status OrderLifecycleStage.received = DeliveryLabel.received
derive_delivery_status OrderLifecycleStage.not_received = DeliveryLabel.not_received
derive_delivery_status OrderLifecycleStage.returned = DeliveryLabel.returned
derive_delivery_status _ = not_started

unfoldable pub derive_exception_state :
    OrderLifecycleStage → Option WarehouseHandoffStatus → Option ExceptionLabel
derive_exception_state OrderLifecycleStage.payment_failed warehouse =
    some ExceptionLabel.payment_failed
derive_exception_state OrderLifecycleStage.not_received warehouse = some delivery_not_received
derive_exception_state OrderLifecycleStage.returned warehouse = some ExceptionLabel.returned
derive_exception_state OrderLifecycleStage.cancelled warehouse = some ExceptionLabel.cancelled
derive_exception_state _ warehouse =
    if is_failed warehouse then some warehouse_handoff_failed else none

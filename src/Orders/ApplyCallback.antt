-- ===== src/Orders/ApplyCallback.antt =====
-- src/orders/orders.service.ts: `applyWarehouseFulfillmentStatus`.
use orders_microservice.Base.{ℕ, Option, none, some, ok, throw, length}
use orders_microservice.Base.Text.{Text, lit}
use orders_microservice.Entities.{Order, WarehouseHandoffSummary, FulfillmentOrderHandoff}
use orders_microservice.Status.{status_text}
use orders_microservice.Lifecycle.Derive.{derive_order_lifecycle_state, lifecycle_stage}
use orders_microservice.Json.{Value}
use orders_microservice.Fulfillment.{
  WarehouseFulfillmentStatusUpdate, normalize_warehouse_fulfillment_status_update,
}
use orders_microservice.World.{
  Env, M, ◌>>=◌, ◌>>◌, pure, fail, audit, save, find_one, success, fulfillment_update,
  invalid_fulfillment,
}
use orders_microservice.Orders.Publish.{publish_lifecycle_changed_if_needed, or_previous}

-- the summary that the callback starts when the order has none
abbrev pub callback_summary : Env → Order → WarehouseHandoffSummary
callback_summary env order = elim order.warehouse_handoff [
  | some summary ↦ summary
  | none ↦ record {
    status = none;
    attempted_at = env.clock;
    completed_at = none;
    item_count = length order.items;
    reserved_count = 0;
    failed_count = 0;
    reason_code = lit "WAREHOUSE_FULFILLMENT_STATUS";
    actor = lit "orders-microservice";
    skip_reason = none;
    failure_code = none;
    compensated_count = none;
    compensation_failed_count = none;
    fulfillment_order_handoff = none;
  }
]

abbrev pub empty_handoff : FulfillmentOrderHandoff
empty_handoff = record {
  status = none;
  attempted_at = none;
  completed_at = none;
  warehouse_status = none;
  updated_at = none;
  reason_code = none;
  actor = none;
  reference = none;
  fulfillment_order_id = none;
  skip_reason = none;
  item_count = none;
  handed_off_count = none;
  failure_code = none;
}

abbrev pub text_or : Option Text → Text → Option Text
text_or none t = some t
text_or (some s) t = some s

abbrev pub time_or : Option ℕ → ℕ → Option ℕ
time_or none t = some t
time_or (some s) t = some s

-- the fulfillment order as the callback leaves it: `skipReason` is dropped
abbrev pub callback_handoff :
    Env → FulfillmentOrderHandoff → WarehouseFulfillmentStatusUpdate → FulfillmentOrderHandoff
callback_handoff env previous update = record previous {
  status = some (lit "updated");
  warehouse_status = some update.status;
  updated_at = time_or update.occurred_at env.clock;
  reason_code = text_or update.reason_code (lit "WAREHOUSE_FULFILLMENT_STATUS");
  actor = text_or update.actor (lit "warehouse-microservice");
  reference = or_previous update.reference previous.reference;
  fulfillment_order_id = or_previous update.fulfillment_order_id previous.fulfillment_order_id;
  skip_reason = none;
}

abbrev pub previous_handoff : WarehouseHandoffSummary → FulfillmentOrderHandoff
previous_handoff summary = elim summary.fulfillment_order_handoff [
  | none ↦ empty_handoff
  | some h ↦ h
]

abbrev pub with_handoff : Env → Order → WarehouseFulfillmentStatusUpdate → Order
with_handoff env order update =
    let summary = callback_summary env order in
    record order {
      warehouse_handoff = some (record summary {
        fulfillment_order_handoff = some (callback_handoff env (previous_handoff summary) update);
      });
    }

-- the order as the callback saves it, its status projected from the new stage
unfoldable pub with_callback : Env → Order → WarehouseFulfillmentStatusUpdate → Order
with_callback env order update =
    let handed = with_handoff env order update in
    record handed { status = status_text (derive_order_lifecycle_state handed).status_projection }

unfoldable pub commit_callback : Env → Order → WarehouseFulfillmentStatusUpdate → M Order
unfolding save publish_lifecycle_changed_if_needed
commit_callback env order update = do
  let changed = with_callback env order update
  save env changed
  publish_lifecycle_changed_if_needed changed (some (lifecycle_stage order))
  audit fulfillment_update order.id success
  pure changed

-- once the order is found
unfoldable pub process_callback : Env → Value → Order → M Order
unfolding normalize_warehouse_fulfillment_status_update commit_callback
process_callback env body order =
    elim (normalize_warehouse_fulfillment_status_update env.parse_text body) [
      | ok update ↦ commit_callback env order update
      | throw e ↦ fail (invalid_fulfillment e)
    ]

unfoldable pub apply_warehouse_fulfillment_status : Env → Text → Value → M Order
unfolding find_one process_callback
apply_warehouse_fulfillment_status env id body = do
  order ← find_one id
  process_callback env body order

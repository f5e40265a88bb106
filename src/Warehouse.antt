-- ===== src/Warehouse.antt =====
-- src/warehouse/warehouse-reservation.client.ts: reserving, releasing, fulfilling and cancelling
-- the items of an order at the warehouse. A time that the source reads is `env.clock`.
pub mod Reserve
pub mod Action
use orders_microservice.Base.{
  ℕ, ◌+◌, ◌-◌, Bool, true, false, not, ◌||◌, List, [], ◌∷◌, ◌++◌, Option, none, some, if◌then◌else◌,
  any, length,
}
use orders_microservice.Base.Text.{Text, lit, trim, is_empty}
use orders_microservice.Entities.{
  Order, OrderItem, WarehouseHandoffStatus, WarehouseHandoffSummary, SkipReason,
  reservation_disabled, missing_order_items, missing_warehouse_id,
}
use orders_microservice.World.{World, Env}
use orders_microservice.Requests.{
  Call, reserve_call, action_call, ReservationPayload, WarehouseReservationAction, release, fulfill,
  cancel, expire, return,
}

-- `ACTION_STATUS`
unfoldable pub action_status : WarehouseReservationAction → WarehouseHandoffStatus
action_status release = WarehouseHandoffStatus.released
action_status fulfill = WarehouseHandoffStatus.fulfilled
action_status cancel = WarehouseHandoffStatus.cancelled
action_status expire = WarehouseHandoffStatus.expired
action_status return = WarehouseHandoffStatus.returned

-- `ACTION_REASON`
unfoldable pub action_reason : WarehouseReservationAction → Text
action_reason release = lit "PAYMENT_FAILED_RELEASE"
action_reason fulfill = lit "PAYMENT_CONFIRMED"
action_reason cancel = lit "ORDER_CANCELLED"
action_reason expire = lit "RESERVATION_EXPIRED"
action_reason return = lit "ORDER_RETURNED"

abbrev pub reserve_reason_code : Text
reserve_reason_code = lit "ORDER_CREATE_RESERVATION"

abbrev pub reservation_compensation_reason_code : Text
reservation_compensation_reason_code = lit "ORDER_CREATE_RESERVATION_COMPENSATION"

unfoldable pub has_warehouse_id : OrderItem → Bool
has_warehouse_id item = elim item.warehouse_id [ none ↦ false | some s ↦ not (is_empty (trim s)) ]

-- `order.externalOrderId || order.id`
abbrev pub order_reference : Order → Text
order_reference order = elim order.external_order_id [
  | none ↦ order.id
  | some s ↦ if is_empty s then order.id else s
]

unfoldable pub build_lifecycle_payload : Order → OrderItem → Text → ReservationPayload
build_lifecycle_payload order item reason = record {
  product_id = item.product_id;
  warehouse_id = item.warehouse_id;
  order_id = order.id;
  channel = order.channel;
  reason_code = reason;
  reference = order_reference order;
  quantity = none;
  expires_at = none;
}

unfoldable pub build_release_payload : Order → OrderItem → Text → ReservationPayload
unfolding build_lifecycle_payload
build_release_payload order item reason =
    let payload = build_lifecycle_payload order item reason in
    record payload { quantity = some item.quantity }

unfoldable pub build_reserve_payload : Order → OrderItem → ℕ → ReservationPayload
unfolding build_lifecycle_payload
build_reserve_payload order item expires_at =
    let payload = build_lifecycle_payload order item reserve_reason_code in
    record payload { quantity = some item.quantity; expires_at = some expires_at }

-- `httpService.post`: the request goes out, and the warehouse accepts it or not
unfoldable pub post : Env → Call → World → World × Bool
post env call w = (record w { calls = call ∷ w.calls }, env.post_ok w call)

-- the summary that every branch starts from
abbrev pub base_summary : Env → Order → Text → WarehouseHandoffSummary
base_summary env order reason = record {
  status = none;
  attempted_at = env.clock;
  completed_at = none;
  item_count = length order.items;
  reserved_count = 0;
  failed_count = 0;
  reason_code = reason;
  actor = lit "orders-microservice";
  skip_reason = none;
  failure_code = none;
  compensated_count = none;
  compensation_failed_count = none;
  fulfillment_order_handoff = none;
}

abbrev pub skipped_summary :
    Env → Order → Text → WarehouseHandoffStatus → SkipReason → WarehouseHandoffSummary
skipped_summary env order reason status skip =
    let base = base_summary env order reason in
    record base { status = some status; skip_reason = some skip }

-- the guards that both entry points share
unfoldable pub skip_check : Env → Order → Option (WarehouseHandoffStatus × SkipReason)
skip_check env order =
    if not env.reservation_enabled
    then some (WarehouseHandoffStatus.disabled, reservation_disabled)
    else if is_empty order.items
    then some (WarehouseHandoffStatus.skipped, missing_order_items)
    else if any (λ item. not (has_warehouse_id item)) order.items
    then some (WarehouseHandoffStatus.skipped, missing_warehouse_id)
    else none

-- a loop's end: the items that went through, and whether all did
pub record Progress : Type 0 where
  pub succeeded : List OrderItem
  pub complete : Bool

-- the loop of `reserveOrderItems`, which stops at the first refusal
unfoldable pub reserve_items :
    Env → Order → ℕ → List OrderItem → List OrderItem → World → World × Progress
unfolding post
reserve_items env order expires_at done [] w = (w, record { succeeded = done; complete = true })
reserve_items env order expires_at done (item ∷ items) w =
    let (w', accepted) = post env (reserve_call (build_reserve_payload order item expires_at)) w in
    elim accepted [
      | true ↦ reserve_items env order expires_at (done ++ item ∷ []) items w'
      | false ↦ (w', record { succeeded = done; complete = false })
    ]

-- `releaseReservedItems`: every item is tried, and both outcomes are counted
unfoldable pub release_reserved_items :
    Env → Order → Text → ℕ → ℕ → List OrderItem → World → World × ℕ × ℕ
unfolding post
release_reserved_items env order reason succeeded failed [] w = (w, succeeded, failed)
release_reserved_items env order reason succeeded failed (item ∷ items) w =
    let (w', accepted) =
      post env (action_call release (build_release_payload order item reason)) w in
    release_reserved_items env order reason (if accepted then succeeded + 1 else succeeded)
      (if accepted then failed else failed + 1) items w'

-- the `catch` of `reserveOrderItems`
unfoldable pub compensate : Env → Order → List OrderItem → World → World × WarehouseHandoffSummary
unfolding release_reserved_items
compensate env order reserved w =
    let base = base_summary env order reserve_reason_code in
    let (w', succeeded, failed) =
      release_reserved_items env order reservation_compensation_reason_code 0 0 reserved w in
    (
      w',
      record base {
        status = some WarehouseHandoffStatus.failed;
        completed_at = some env.clock;
        reserved_count = length reserved;
        failed_count = length order.items - length reserved;
        failure_code = some (lit "warehouse_request_failed");
        compensated_count = some succeeded;
        compensation_failed_count = some failed;
      },
    )

-- the end of the `try` block, or its `catch`
unfoldable pub finish_reservation : Env → Order → World × Progress → World × WarehouseHandoffSummary
unfolding compensate
finish_reservation env order run =
    let base = base_summary env order reserve_reason_code in
    let (w', progress) = run in
    if progress.complete
    then (
      w',
      record base {
        status = some WarehouseHandoffStatus.reserved;
        completed_at = some env.clock;
        reserved_count = length progress.succeeded;
      },
    )
    else compensate env order progress.succeeded w'

unfoldable pub reserve_order_items : Env → Order → World → World × WarehouseHandoffSummary
unfolding skip_check reserve_items finish_reservation
reserve_order_items env order w = elim (skip_check env order) [
  | some (status, reason) ↦ (w, skipped_summary env order reserve_reason_code status reason)
  | none ↦
      finish_reservation env order
        (reserve_items env order (env.clock + env.ttl_milliseconds) [] order.items w)
]

abbrev pub action_payload :
    WarehouseReservationAction → Order → OrderItem → Text → ReservationPayload
action_payload release order item reason = build_release_payload order item reason
action_payload _ order item reason = build_lifecycle_payload order item reason

-- the loop of `applyReservationAction`, which stops at the first refusal
unfoldable pub apply_items :
    Env → WarehouseReservationAction → Order → Text → ℕ → List OrderItem → World → World × ℕ × Bool
unfolding post
apply_items env action order reason succeeded [] w = (w, succeeded, true)
apply_items env action order reason succeeded (item ∷ items) w =
    let (w', accepted) =
      post env (action_call action (action_payload action order item reason)) w in
    elim accepted [
      | true ↦ apply_items env action order reason (succeeded + 1) items w'
      | false ↦ (w', succeeded, false)
    ]

-- the end of the `try` block, or its `catch`
unfoldable pub finish_action :
    Env → WarehouseReservationAction → Order → World × ℕ × Bool → World × WarehouseHandoffSummary
unfolding action_status action_reason
finish_action env action order run =
    let base = base_summary env order (action_reason action) in
    let (w', succeeded, complete) = run in
    if complete
    then (
      w',
      record base {
        status = some (action_status action);
        completed_at = some env.clock;
        reserved_count = succeeded;
      },
    )
    else (
      w',
      record base {
        status = some WarehouseHandoffStatus.failed;
        completed_at = some env.clock;
        reserved_count = succeeded;
        failed_count = length order.items - succeeded;
        failure_code = some (lit "warehouse_request_failed");
      },
    )

unfoldable pub apply_reservation_action :
    Env → WarehouseReservationAction → Order → World → World × WarehouseHandoffSummary
unfolding skip_check apply_items finish_action
apply_reservation_action env action order w = elim (skip_check env order) [
  | some (status, reason) ↦ (w, skipped_summary env order (action_reason action) status reason)
  | none ↦
      finish_action env action order
        (apply_items env action order (action_reason action) 0 order.items w)
]

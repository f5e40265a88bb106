-- ===== src/Orders/UpdateStatus.antt =====
-- src/orders/orders.service.ts: `updateStatus`. The `order.id` of an order that was found is the
-- identifier asked for.
use orders_microservice.Base.{
  Bool, false, ◌&&◌, List, map, Option, none, some, ok, throw, if◌then◌else◌,
}
use orders_microservice.Base.Text.{Text, text_eq}
use orders_microservice.Entities.{Order, OrderItem}
use orders_microservice.Status.{OrderStatus, status_text, status_eq}
use orders_microservice.Status.Approval.{OrderStatusTransitionContext}
use orders_microservice.Status.Validate.{
  OrderItemFulfillmentSnapshot, OrderStatusTransitionResult,
  validate_order_status_transition_with_audit,
}
use orders_microservice.Lifecycle.Derive.{lifecycle_stage}
use orders_microservice.Requests.{cancel}
use orders_microservice.Warehouse.{apply_reservation_action}
use orders_microservice.World.{
  Env, M, ◌>>=◌, ◌>>◌, pure, fail, on_error, record_audit, audit, save, find_one, success, rejected,
  failure, status_update, status_key_replay, status_replay, invalid_status,
}
use orders_microservice.Orders.Publish.{publish_lifecycle_changed_if_needed, publish_order_updated}

-- `hasMatchingStatusIdempotencyKey`
unfoldable pub has_matching_status_idempotency_key : Order → Text → OrderStatus → Bool
has_matching_status_idempotency_key order key resulting = elim order.status_transition_audit [
  | none ↦ false
  | some a ↦ elim a.idempotency_key [
    | none ↦ false
    | some k ↦ text_eq k key && status_eq a.resulting_status resulting
  ]
]

abbrev pub is_key_replay : Order → OrderStatusTransitionResult → Bool
is_key_replay order transition = elim transition.approval_audit [
  | none ↦ false
  | some a ↦ elim a.idempotency_key [
    | none ↦ false
    | some key ↦ has_matching_status_idempotency_key order key transition.status
  ]
]

abbrev pub snapshots : List OrderItem → List OrderItemFulfillmentSnapshot
snapshots items = map (λ item. record { fulfillment_status = item.fulfillment_status }) items

-- the order as `updateStatus` saves it first
abbrev pub with_transition : Order → OrderStatusTransitionResult → Order
with_transition order transition = elim transition.approval_audit [
  | none ↦ record order { status = status_text transition.status }
  | some a ↦ record order {
    status = status_text transition.status;
    status_transition_audit = some a;
  }
]

-- the cancellation's request to the warehouse, and the second save
unfoldable pub cancel_reservations : Env → Order → M Order
unfolding apply_reservation_action
cancel_reservations env order w =
    let (w', handoff) = apply_reservation_action env cancel order w in
    let updated : Order = record order { warehouse_handoff = some handoff } in
    (do save env updated; pure updated) w'

-- `previousStatus` of the metadata, which only a cancellation has
abbrev pub announced_status : Order → OrderStatusTransitionResult → Option Text
announced_status order transition = elim transition.approval_audit [
  | none ↦ none
  | some _ ↦ some order.status
]

-- the `try` block of `updateStatus`
unfoldable pub apply_transition : Env → Order → OrderStatusTransitionResult → M Order
unfolding save cancel_reservations publish_lifecycle_changed_if_needed publish_order_updated
apply_transition env order transition = do
  let changed = with_transition order transition
  save env changed
  updated ←
      if status_eq transition.status OrderStatus.cancelled
      then cancel_reservations env changed
      else pure changed
  publish_lifecycle_changed_if_needed updated (some (lifecycle_stage order))
  publish_order_updated order.id transition.status (announced_status order transition)
      transition.approval_audit
  audit status_update order.id success
  pure updated

-- `updateStatus` once the transition is valid
unfoldable pub commit_transition : Env → Order → OrderStatusTransitionResult → M Order
unfolding has_matching_status_idempotency_key apply_transition
commit_transition env order transition =
    if is_key_replay order transition
    then (do audit status_key_replay order.id success; pure order)
    else if text_eq (status_text transition.status) order.status
    then (do audit status_replay order.id success; pure order)
    else on_error (apply_transition env order transition) (
        record_audit
          (record { operation = status_update; resource_id = order.id; outcome = failure }))

-- `updateStatus` once the order is found
unfoldable pub update_found : Env → Text → Text → OrderStatusTransitionContext → Order → M Order
unfolding validate_order_status_transition_with_audit commit_transition
update_found env id status context order =
    elim (validate_order_status_transition_with_audit order.status status (snapshots order.items)
      context) [
        | ok transition ↦ commit_transition env order transition
        | throw e ↦ (do audit status_update id rejected; fail (invalid_status e))
      ]

unfoldable pub update_status : Env → Text → Text → OrderStatusTransitionContext → M Order
unfolding find_one update_found
update_status env id status context = do
  order ← find_one id
  update_found env id status context order

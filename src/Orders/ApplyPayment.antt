-- ===== src/Orders/ApplyPayment.antt =====
-- src/orders/orders.service.ts: `applyPaymentStatus`.
use orders_microservice.Base.{
  Bool, true, false, not, ◌&&◌, Option, none, some, ok, throw, if◌then◌else◌,
}
use orders_microservice.Base.Text.{Text, lit, text_eq, is_empty}
use orders_microservice.Entities.{Order, FulfillmentOrderHandoff}
use orders_microservice.Status.{OrderStatus, status_text}
use orders_microservice.Lifecycle.Derive.{lifecycle_stage}
use orders_microservice.Events.{build_order_paid_event}
use orders_microservice.Requests.{release, fulfill}
use orders_microservice.Warehouse.{apply_reservation_action}
use orders_microservice.Handoff.{create_after_payment_fulfillment}
use orders_microservice.Json.{Value}
use orders_microservice.Payment.{
  OrdersPaymentStatus, NormalizedPaymentStatusUpdate, payment_status_text,
  normalize_payment_status_update,
}
use orders_microservice.World.{
  Env, M, ◌>>=◌, ◌>>◌, pure, fail, on_error, record_audit, audit, publish, save, find_one, success,
  rejected, payment_update, invalid_payment, cancelled_order_paid, paid_order_changed,
  paid_reference_replaced,
}
use orders_microservice.Orders.Publish.{
  publish_lifecycle_changed_if_needed, publish_order_updated, or_previous,
}

abbrev pub is_text : Option Text → Text → Bool
is_text none t = false
is_text (some s) t = text_eq s t

abbrev pub is_paid : OrdersPaymentStatus → Bool
is_paid OrdersPaymentStatus.paid = true
is_paid _ = false

abbrev pub is_lost : OrdersPaymentStatus → Bool
is_lost OrdersPaymentStatus.failed = true
is_lost OrdersPaymentStatus.cancelled = true
is_lost _ = false

-- `order.paymentReferenceId && order.paymentReferenceId !== reference`
abbrev pub has_other_reference : Order → Text → Bool
has_other_reference order reference = elim order.payment_reference_id [
  | none ↦ false
  | some s ↦ not (is_empty s) && not (text_eq s reference)
]

-- the three refusals of `applyPaymentStatus`
unfoldable pub check_payment : Order → NormalizedPaymentStatusUpdate → M (Unit {0})
check_payment order update =
    let was_paid = is_text order.payment_status (lit "paid") in
    if text_eq order.status (lit "cancelled") && is_paid update.payment_status
    then fail cancelled_order_paid
    else if was_paid && not (is_paid update.payment_status)
    then fail paid_order_changed
    else if was_paid
        && is_paid update.payment_status
        && has_other_reference order update.payment_reference_id
    then fail paid_reference_replaced
    else pure tt

-- `shouldConfirmOrder`
abbrev pub should_confirm : Order → NormalizedPaymentStatusUpdate → Bool
should_confirm order update = is_paid update.payment_status && text_eq order.status (lit "pending")

-- the order as `applyPaymentStatus` saves it first
abbrev pub with_payment : Order → NormalizedPaymentStatusUpdate → Order
with_payment order update = record order {
  payment_reference_id = some update.payment_reference_id;
  payment_application_id = or_previous update.payment_application_id order.payment_application_id;
  payment_method = or_previous update.payment_method order.payment_method;
  payment_status = some (payment_status_text update.payment_status);
  payment_updated_at = some update.payment_updated_at;
  status = if should_confirm order update then status_text OrderStatus.confirmed else order.status;
}

-- `{ ...updated.warehouseHandoff, fulfillmentOrderHandoff }`
abbrev pub with_fulfillment_order : Order → FulfillmentOrderHandoff → Order
with_fulfillment_order order handoff = elim order.warehouse_handoff [
  | none ↦ order
  | some summary ↦ record order {
    warehouse_handoff = some (record summary { fulfillment_order_handoff = some handoff });
  }
]

-- a paid order: its reservations are fulfilled, and a fulfillment order is asked for
unfoldable pub hand_over : Env → Order → M Order
unfolding apply_reservation_action create_after_payment_fulfillment
hand_over env order w =
    let (w1, summary) = apply_reservation_action env fulfill order w in
    let fulfilled : Order = record order { warehouse_handoff = some summary } in
    let (w2, handoff) = create_after_payment_fulfillment env fulfilled w1 in
    if env.handoff_configured
    then (do
      save env (with_fulfillment_order fulfilled handoff)
      pure (with_fulfillment_order fulfilled handoff))
        w2
    else (do save env fulfilled; pure fulfilled) w1

-- a lost payment: the reservations are released
unfoldable pub release_reservations : Env → Order → M Order
unfolding apply_reservation_action
release_reservations env order w =
    let (w', summary) = apply_reservation_action env release order w in
    let released : Order = record order { warehouse_handoff = some summary } in
    (do save env released; pure released) w'

-- `paymentStatusChanged`
abbrev pub payment_changed : Order → NormalizedPaymentStatusUpdate → Bool
payment_changed order update =
    not (is_text order.payment_status (payment_status_text update.payment_status))

-- what `applyPaymentStatus` asks of the warehouse, on the order that it has just saved
unfoldable pub settle_reservations : Env → Order → NormalizedPaymentStatusUpdate → Order → M Order
unfolding hand_over release_reservations
settle_reservations env order update changed =
    if is_paid update.payment_status && payment_changed order update
    then hand_over env changed
    else if is_lost update.payment_status && payment_changed order update
    then release_reservations env changed
    else pure changed

-- `applyPaymentStatus` once the payment is saved
unfoldable pub finish_payment : Env → Order → NormalizedPaymentStatusUpdate → M Order
unfolding settle_reservations publish_lifecycle_changed_if_needed publish_order_updated
    build_order_paid_event
finish_payment env order update = do
  updated ← settle_reservations env order update (with_payment order update)
  publish_lifecycle_changed_if_needed updated (some (lifecycle_stage order))
  if should_confirm order update
      then publish_order_updated order.id OrderStatus.confirmed (some order.status) none
      else pure tt
  if is_paid update.payment_status && not (is_text order.payment_status (lit "paid"))
      then publish (build_order_paid_event order.id (some update.payment_reference_id))
      else pure tt
  audit payment_update order.id success
  pure updated

-- `applyPaymentStatus` once the request is normalized
unfoldable pub commit_payment : Env → Order → NormalizedPaymentStatusUpdate → M Order
unfolding check_payment save finish_payment
commit_payment env order update = do
  check_payment order update
  save env (with_payment order update)
  finish_payment env order update

-- the `try` block
unfoldable pub process_payment : Env → Order → Value → M Order
unfolding normalize_payment_status_update commit_payment
process_payment env order body =
    elim (normalize_payment_status_update env.parse_date env.clock body) [
      | ok update ↦ commit_payment env order update
      | throw e ↦ fail (invalid_payment e)
    ]

-- the `try` block with its `catch`
unfoldable pub try_payment : Env → Text → Value → Order → M Order
unfolding process_payment
try_payment env id body order =
    on_error (process_payment env order body)
      (record_audit (record { operation = payment_update; resource_id = id; outcome = rejected }))

unfoldable pub apply_payment_status : Env → Text → Value → M Order
unfolding find_one try_payment
apply_payment_status env id body = do order ← find_one id; try_payment env id body order

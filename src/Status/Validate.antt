-- ===== src/Status/Validate.antt =====
-- src/orders/status-transitions.ts: the validators of an order's and of an item's transition.
use orders_microservice.Base.{
  Bool, true, false, not, ◌||◌, List, Option, none, some, Result, ok, throw, ◌>>=◌, ◌>>◌, throw_if,
  if◌then◌else◌, ltb, any,
}
use orders_microservice.Base.Text.{Text, mem_text, text_or_empty}
use orders_microservice.Status.{
  OrderStatus, cancelled, ItemFulfillmentStatus, status_eq, item_status_eq, cancellation_sources,
  refund_like_order_statuses, refund_like_item_statuses, order_transitions,
  item_fulfillment_transitions, item_fulfillment_rank, normalize_order_status,
  normalize_item_fulfillment_status, normalized_text,
}
use orders_microservice.Status.Approval.{
  OrderStatusTransitionContext, OrderStatusApprovalAudit, StatusError, refund_like_order,
  unrecognized_order_status, unrecognized_current_status, terminal_correction, invalid_transition,
  items_not_shipped, items_not_delivered, validate_cancellation_approval,
}

-- an item as the validators read it: its `fulfillmentStatus`, which may be absent
pub record OrderItemFulfillmentSnapshot : Type 0 where
  pub fulfillment_status : Option Text

pub record OrderStatusTransitionResult : Type 0 where
  pub status : OrderStatus
  pub approval_audit : Option OrderStatusApprovalAudit

abbrev pub item_status : OrderItemFulfillmentSnapshot → Option ItemFulfillmentStatus
item_status item = normalize_item_fulfillment_status (text_or_empty item.fulfillment_status)

abbrev pub before_shipped : Option ItemFulfillmentStatus → Bool
before_shipped none = true
before_shipped (some s) =
    ltb (item_fulfillment_rank s) (item_fulfillment_rank ItemFulfillmentStatus.shipped)

abbrev pub not_delivered : Option ItemFulfillmentStatus → Bool
not_delivered (some ItemFulfillmentStatus.delivered) = false
not_delivered _ = true

unfoldable pub validate_items_at_least_shipped :
    List OrderItemFulfillmentSnapshot → Result StatusError (Unit {0})
validate_items_at_least_shipped items =
    throw_if (any (λ item. before_shipped (item_status item)) items) items_not_shipped

unfoldable pub validate_items_delivered :
    List OrderItemFulfillmentSnapshot → Result StatusError (Unit {0})
validate_items_delivered items =
    throw_if (any (λ item. not_delivered (item_status item)) items) items_not_delivered

abbrev pub is_terminal : OrderStatus → Bool
is_terminal s = status_eq s OrderStatus.delivered || status_eq s cancelled

-- the two guards on the items, which look at the requested status
unfoldable pub check_items :
    OrderStatus → List OrderItemFulfillmentSnapshot → Result StatusError (Unit {0})
check_items OrderStatus.shipped items = validate_items_at_least_shipped items
check_items OrderStatus.delivered items = validate_items_delivered items
check_items _ items = ok tt

-- the branch of a request for `cancelled`
unfoldable pub cancel_order :
    OrderStatus
    → OrderStatus
    → OrderStatusTransitionContext
    → Result StatusError OrderStatusTransitionResult
cancel_order current requested context = do
  throw_if (not (any (status_eq current) cancellation_sources))
      (invalid_transition current requested)
  audit ← validate_cancellation_approval current requested context
  ok (record { status = requested; approval_audit = some audit })

-- the branch that consults the table
unfoldable pub advance_order :
    OrderStatus
    → OrderStatus
    → List OrderItemFulfillmentSnapshot
    → Result StatusError OrderStatusTransitionResult
unfolding check_items order_transitions
advance_order current requested items = do
  throw_if (not (any (status_eq requested) (order_transitions current)))
      (invalid_transition current requested)
  check_items requested items
  ok (record { status = requested; approval_audit = none })

-- the function once both statuses are recognized
unfoldable pub decide_transition :
    OrderStatus
    → OrderStatus
    → List OrderItemFulfillmentSnapshot
    → OrderStatusTransitionContext
    → Result StatusError OrderStatusTransitionResult
unfolding cancel_order advance_order
decide_transition current requested items context =
    if status_eq requested current
    then ok (record { status = requested; approval_audit = none })
    else if is_terminal current
    then throw terminal_correction
    else if status_eq requested cancelled
    then cancel_order current requested context
    else advance_order current requested items

unfoldable pub validate_order_status_transition_with_audit :
    Text
    → Text
    → List OrderItemFulfillmentSnapshot
    → OrderStatusTransitionContext
    → Result StatusError OrderStatusTransitionResult
validate_order_status_transition_with_audit current_status requested_status items context =
    elim (normalize_order_status requested_status) [
      | none ↦
          if mem_text (normalized_text requested_status) refund_like_order_statuses
          then throw refund_like_order
          else throw (unrecognized_order_status requested_status)
      | some requested ↦ elim (normalize_order_status current_status) [
        | none ↦ throw (unrecognized_current_status current_status)
        | some current ↦ decide_transition current requested items context
      ]
    ]

unfoldable pub validate_order_status_transition :
    Text
    → Text
    → List OrderItemFulfillmentSnapshot
    → OrderStatusTransitionContext
    → Result StatusError OrderStatus
unfolding validate_order_status_transition_with_audit
validate_order_status_transition current_status requested_status items context = do
  result ← validate_order_status_transition_with_audit current_status requested_status items context
  ok result.status

pub data ItemStatusError : Type 0 where
  refund_like_item : ItemStatusError
  unrecognized_item_status unrecognized_current_item_status : Text → ItemStatusError
  terminal_item : ItemFulfillmentStatus → ItemFulfillmentStatus → ItemStatusError
  invalid_item_transition : ItemFulfillmentStatus → ItemFulfillmentStatus → ItemStatusError

unfoldable pub decide_item_transition :
    ItemFulfillmentStatus → ItemFulfillmentStatus → Result ItemStatusError ItemFulfillmentStatus
unfolding item_fulfillment_transitions
decide_item_transition current requested =
    if item_status_eq requested current
    then ok requested
    else if item_status_eq current ItemFulfillmentStatus.delivered
    then throw (terminal_item current requested)
    else if any (item_status_eq requested) (item_fulfillment_transitions current)
    then ok requested
    else throw (invalid_item_transition current requested)

unfoldable pub validate_item_fulfillment_transition :
    Text → Text → Result ItemStatusError ItemFulfillmentStatus
validate_item_fulfillment_transition current_status requested_status =
    elim (normalize_item_fulfillment_status requested_status) [
      | none ↦
          if mem_text (normalized_text requested_status) refund_like_item_statuses
          then throw refund_like_item
          else throw (unrecognized_item_status requested_status)
      | some requested ↦ elim (normalize_item_fulfillment_status current_status) [
        | none ↦ throw (unrecognized_current_item_status current_status)
        | some current ↦ decide_item_transition current requested
      ]
    ]

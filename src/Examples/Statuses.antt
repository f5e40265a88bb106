-- ===== src/Examples/Statuses.antt =====
-- The theorems on statuses.
use orders_microservice.Status.Items.{item_guards_iff, IsDelivered, IsShipped}
use orders_microservice.Status.Names.{status_names_iff}
use orders_microservice.Status.ItemMoves.{validate_item_fulfillment_transition_iff, IsItemStep}
use orders_microservice.Status.Validate.{
  validate_item_fulfillment_transition, OrderItemFulfillmentSnapshot, OrderStatusTransitionResult,
  validate_items_at_least_shipped, validate_items_delivered,
  validate_order_status_transition_with_audit,
}
use orders_microservice.Status.Approval.{
  normalize_idempotency_key, validate_cancellation_side_effects, safe_reason_code,
  normalize_reason_code, sanitize_actor_value, approve, OrderStatusApprovalAudit,
  OrderStatusApprovalInput, validate_cancellation_approval,
}
use orders_microservice.Base.Text.{
  to_upper_case, has_bearer, has_control, text_eq, trim, to_lower_case, lit,
}
use orders_microservice.Status.{
  item_status_text, status_text, ItemFulfillmentStatus, OrderStatus,
  normalize_item_fulfillment_status, normalize_order_status, cancelled,
}
use orders_microservice.Status.Cancellation.{validate_cancellation_approval-IsApproved, IsApproved}
use orders_microservice.Base.{All, ok, ◌↔◌, ◌≡◌, List, none, some, [], ◌∷◌, refl}
use orders_microservice.Status.Diagram.{validate_order_status_transition_iff, Accepted}
use orders_microservice.Examples.Data.{with_approval}

status_names_iff_example :
    ((normalize_order_status (lit " Shipped ") ≡ some OrderStatus.shipped)
      ↔ (to_lower_case (trim (lit " Shipped ")) ≡ status_text OrderStatus.shipped))
    × ((normalize_item_fulfillment_status (lit " Shipped ") ≡ some ItemFulfillmentStatus.shipped)
        ↔ (to_lower_case (trim (lit " Shipped ")) ≡ item_status_text ItemFulfillmentStatus.shipped))
status_names_iff_example =
    status_names_iff (lit " Shipped ") OrderStatus.shipped ItemFulfillmentStatus.shipped

abbrev shipped_items : List OrderItemFulfillmentSnapshot
shipped_items = record { fulfillment_status = some (lit "shipped") } ∷ []

item_guards_iff_example :
    ((validate_items_at_least_shipped shipped_items ≡ ok tt) ↔ All IsShipped shipped_items)
    × ((validate_items_delivered shipped_items ≡ ok tt) ↔ All IsDelivered shipped_items)
item_guards_iff_example = item_guards_iff shipped_items

abbrev approved : OrderStatusApprovalAudit
approved = record {
  approved_by = lit "ann";
  actor_id = none;
  actor_email = none;
  reason_code = lit "CUSTOMER_REQUEST";
  idempotency_key = none;
  previous_status = OrderStatus.pending;
  requested_status = cancelled;
  resulting_status = cancelled;
  approved_at = 9;
}

approval_passes :
    validate_cancellation_approval OrderStatus.pending cancelled with_approval ≡ ok approved
unfolding validate_cancellation_approval approve text_eq sanitize_actor_value trim has_control
    has_bearer normalize_reason_code safe_reason_code to_upper_case
    validate_cancellation_side_effects normalize_idempotency_key
approval_passes = refl

validate_cancellation_approval-IsApproved_example :
    (a : OrderStatusApprovalInput) × (with_approval.approval ≡ some a)
    × IsApproved a OrderStatus.pending cancelled approved
validate_cancellation_approval-IsApproved_example =
    validate_cancellation_approval-IsApproved OrderStatus.pending cancelled with_approval approved
      approval_passes

abbrev cancellation : OrderStatusTransitionResult
cancellation = record { status = cancelled; approval_audit = some approved }

validate_order_status_transition_iff_example :
    (validate_order_status_transition_with_audit (lit "pending") (lit "cancelled") [] with_approval
      ≡ ok cancellation)
    ↔ ((c : OrderStatus) × (normalize_order_status (lit "pending") ≡ some c)
        × (normalize_order_status (lit "cancelled") ≡ some cancelled)
        × Accepted [] with_approval c cancelled (some approved))
validate_order_status_transition_iff_example =
    validate_order_status_transition_iff [] with_approval (lit "pending") (lit "cancelled")
      cancellation

validate_item_fulfillment_transition_iff_example :
    (validate_item_fulfillment_transition (lit "reserved") (lit " Shipped ")
      ≡ ok ItemFulfillmentStatus.shipped)
    ↔ ((normalize_item_fulfillment_status (lit " Shipped ") ≡ some ItemFulfillmentStatus.shipped)
        × (current : ItemFulfillmentStatus) × (normalize_item_fulfillment_status (lit "reserved")
            ≡ some current)
        × IsItemStep current ItemFulfillmentStatus.shipped)
validate_item_fulfillment_transition_iff_example =
    validate_item_fulfillment_transition_iff (lit "reserved") (lit " Shipped ")
      ItemFulfillmentStatus.shipped

-- ===== src/Events.antt =====
-- src/orders/order-event-contracts.ts and `buildOrderLifecycleChangedPayload` of
-- src/orders/order-lifecycle.ts: what each published event carries. The envelope's random id and
-- time stamp, and the constant fields of a payload, are left out.
use orders_microservice.Base.Text.{
  trim, Text, lit, to_upper_case, is_empty, non_empty, text_or_empty,
}
use orders_microservice.Create.Parts.{CreateOrderLeadAttribution}
use orders_microservice.Base.{ℕ, Bool, not, ◌&&◌, List, map, Option, none, some, ltb, filter}
use orders_microservice.Entities.{Order, OrderItem, WarehouseHandoffSummary}
use orders_microservice.Status.Approval.{OrderStatusApprovalAudit}
use orders_microservice.Lifecycle.{OrderLifecycleStage}
use orders_microservice.Lifecycle.Labels.{FulfillmentLabel, DeliveryLabel}
use orders_microservice.Lifecycle.Derive.{
  derive_order_lifecycle_state, normalize_optional_string, normalize_stored_status,
}
pub mod Envelope

pub record SafeApprovalMetadata : Type 0 where
  pub reason_code : Text
  pub approved_at : ℕ

unfoldable pub to_safe_approval_metadata :
    Option OrderStatusApprovalAudit → Option SafeApprovalMetadata
to_safe_approval_metadata none = none
to_safe_approval_metadata (some a) =
    some (record { reason_code = a.reason_code; approved_at = a.approved_at })

pub record OrderLifecycleEventItemSnapshot : Type 0 where
  pub product_id : Text
  pub sku : Option Text
  pub quantity : ℕ
  pub unit_price : ℕ
  pub total_price : ℕ

pub record OrderLifecycleChangedPayload : Type 0 where
  pub order_id : Text
  pub order_number : Text
  pub channel : Text
  pub channel_account_id : Option Text
  pub external_order_id : Option Text
  pub previous_lifecycle_stage : Option OrderLifecycleStage
  pub lifecycle_stage : OrderLifecycleStage
  pub status : Text
  pub payment_status : Text
  pub fulfillment_status : FulfillmentLabel
  pub delivery_status : DeliveryLabel
  pub total : ℕ
  pub currency : Text
  pub items : List OrderLifecycleEventItemSnapshot
  pub warehouse_handoff : Option WarehouseHandoffSummary

abbrev pub truthy : Option Text → Option Text
truthy none = none
truthy (some s) = non_empty s

abbrev pub trimmed_sku : Option Text → Option Text
trimmed_sku none = none
trimmed_sku (some s) = some (trim s)

-- one row of `buildLifecycleItemSnapshots`
unfoldable pub item_snapshot : OrderItem → OrderLifecycleEventItemSnapshot
item_snapshot item = record {
  product_id = text_or_empty (normalize_optional_string (some item.product_id));
  sku = truthy item.sku;
  quantity = item.quantity;
  unit_price = item.unit_price;
  total_price = item.total_price;
}

abbrev pub is_sold : OrderLifecycleEventItemSnapshot → Bool
is_sold item = not (is_empty item.product_id) && ltb 0 item.quantity

unfoldable pub build_lifecycle_item_snapshots :
    List OrderItem → List OrderLifecycleEventItemSnapshot
unfolding item_snapshot
build_lifecycle_item_snapshots items = filter is_sold (map item_snapshot items)

unfoldable pub get_order_number : Order → Text
get_order_number order = elim (normalize_optional_string order.external_order_id) [
  | none ↦ order.id
  | some s ↦ s
]

-- `normalizeStoredStatus(order.currency, 'CZK').toUpperCase()`
abbrev pub order_currency : Order → Text
order_currency order = to_upper_case (normalize_stored_status (some order.currency) (lit "CZK"))

unfoldable pub build_order_lifecycle_changed_payload :
    Order → Option OrderLifecycleStage → OrderLifecycleChangedPayload
unfolding derive_order_lifecycle_state
build_order_lifecycle_changed_payload order previous =
    let state = derive_order_lifecycle_state order in
    record {
      order_id = order.id;
      order_number = get_order_number order;
      channel = normalize_stored_status (some order.channel) (lit "unknown");
      channel_account_id = normalize_optional_string order.channel_account_id;
      external_order_id = normalize_optional_string order.external_order_id;
      previous_lifecycle_stage = previous;
      lifecycle_stage = state.lifecycle_stage;
      status = state.status;
      payment_status = state.payment_status;
      fulfillment_status = state.fulfillment_status;
      delivery_status = state.delivery_status;
      total = order.total;
      currency = order_currency order;
      items = build_lifecycle_item_snapshots order.items;
      warehouse_handoff = order.warehouse_handoff;
    }

-- One constructor for each routing key that the orders handlers use.
pub data DomainEvent : Type 0 where
  created :
      (order_id channel : Text)
      → (items : List OrderLifecycleEventItemSnapshot) → (currency : Option Text)
      → (lead_attribution : Option CreateOrderLeadAttribution) → DomainEvent
  updated :
      (order_id status : Text)
      → (previous_status : Option Text) → (approval : Option SafeApprovalMetadata) → DomainEvent
  order_cancelled :
      (order_id : Text)
      → (previous_status : Option Text) → (approval : Option SafeApprovalMetadata) → DomainEvent
  paid : (order_id : Text) → (payment_reference_id : Option Text) → DomainEvent
  lifecycle_changed : OrderLifecycleChangedPayload → DomainEvent

-- one row of `normalizeCreatedItemSnapshots`
abbrev pub created_snapshot : OrderLifecycleEventItemSnapshot → OrderLifecycleEventItemSnapshot
created_snapshot item = record item {
  product_id = trim item.product_id;
  sku = trimmed_sku (truthy item.sku);
}

-- a quantity is finite here
unfoldable pub normalize_created_item_snapshots :
    List OrderLifecycleEventItemSnapshot → List OrderLifecycleEventItemSnapshot
unfolding trim
normalize_created_item_snapshots items = filter is_sold (map created_snapshot items)

unfoldable pub build_order_created_event :
    Text
    → Text
    → Option CreateOrderLeadAttribution
    → List OrderLifecycleEventItemSnapshot
    → Text
    → DomainEvent
unfolding normalize_created_item_snapshots
build_order_created_event order_id channel lead_attribution items currency =
    created order_id channel (normalize_created_item_snapshots items) (non_empty currency)
      lead_attribution

unfoldable pub build_order_updated_event :
    Text → Text → Option Text → Option OrderStatusApprovalAudit → DomainEvent
unfolding to_safe_approval_metadata
build_order_updated_event order_id status previous approval =
    updated order_id status (truthy previous) (to_safe_approval_metadata approval)

unfoldable pub build_order_cancelled_event :
    Text → Option Text → Option OrderStatusApprovalAudit → DomainEvent
unfolding to_safe_approval_metadata
build_order_cancelled_event order_id previous approval =
    order_cancelled order_id (truthy previous) (to_safe_approval_metadata approval)

unfoldable pub build_order_paid_event : Text → Option Text → DomainEvent
build_order_paid_event order_id reference = paid order_id (truthy reference)

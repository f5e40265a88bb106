-- ===== src/Events/Envelope.antt =====
-- The envelope of src/orders/order-event-contracts.ts, and the events that no handler publishes. The
-- random identifier and the time are parameters.
use orders_microservice.Base.{Bool, true, ℕ}
use orders_microservice.Base.Text.{Text, lit}
use orders_microservice.Events.{OrderLifecycleChangedPayload}

pub data OrderEventType : Type 0 where
  order_created order_updated order_paid order_shipped order_cancelled order_lifecycle_changed :
      OrderEventType

unfoldable pub order_event_type_text : OrderEventType → Text
order_event_type_text order_created = lit "orders.order.created.v1"
order_event_type_text order_updated = lit "orders.order.updated.v1"
order_event_type_text order_paid = lit "orders.order.paid.v1"
order_event_type_text order_shipped = lit "orders.order.shipped.v1"
order_event_type_text order_cancelled = lit "orders.order.cancelled.v1"
order_event_type_text order_lifecycle_changed = lit "orders.order.lifecycle_changed.v1"

pub record OrderEventEnvelope {ℓ} (P : Type ℓ) : Type ℓ where
  pub event_type : OrderEventType
  pub event_version : ℕ
  pub event_id : Text
  pub occurred_at : ℕ
  pub source : Text
  pub payload : P

pub record OrderShippedPayload : Type 0 where
  pub order_id : Text
  pub shipment_status : Text
  pub shipment_lookup_required : Bool

-- the payload, with the envelope's identifier and time
pub record StampedPayload : Type 0 where
  pub event_id : Text
  pub occurred_at : ℕ
  pub body : OrderLifecycleChangedPayload

module _ (random_id : Text) (clock : ℕ) where
  unfoldable pub create_envelope {ℓ} : {P : Type ℓ} → OrderEventType → P → OrderEventEnvelope P
  create_envelope type payload = record {
    event_type = type;
    event_version = 1;
    event_id = random_id;
    occurred_at = clock;
    source = lit "orders-microservice";
    payload = payload;
  }

  unfoldable pub build_order_shipped_event : Text → OrderEventEnvelope OrderShippedPayload
  unfolding create_envelope
  build_order_shipped_event order_id = create_envelope order_shipped (record {
    order_id = order_id;
    shipment_status = lit "shipped";
    shipment_lookup_required = true;
  })

  unfoldable pub build_order_lifecycle_changed_event :
      OrderLifecycleChangedPayload → OrderEventEnvelope StampedPayload
  unfolding create_envelope
  build_order_lifecycle_changed_event body =
      create_envelope order_lifecycle_changed
        (record { event_id = random_id; occurred_at = clock; body = body })

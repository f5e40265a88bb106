-- ===== src/Reads/Stored.antt =====
-- The other reads of src/orders/orders.service.ts: the list of orders, the order of a channel, and
-- the read model of one order. The table is a list of orders.
use orders_microservice.Reads.Filters.{order_not_found, ReadError}
use orders_microservice.Reads.{
  SafeAddress, serialize_order_lifecycle_read_model, OrderLifecycleReadModel,
}
use orders_microservice.Lifecycle.Labels.{ExceptionLabel, DeliveryLabel, FulfillmentLabel}
use orders_microservice.Base.{
  filter, take, is_some, newest_first, Option, Result, Bool, List, ℕ, none, some, [], ◌∷◌, ok,
  throw, if◌then◌else◌, true, ◌&&◌, ◌||◌,
}
use orders_microservice.Base.Text.{text_or_empty, is_empty, Text, text_eq}
use orders_microservice.Status.{OrderStatus}
use orders_microservice.Entities.{Order}
use orders_microservice.Lifecycle.{OrderLifecycleStage}

-- a filter that is absent or empty is none
abbrev pub equals_if_given : Text → Text → Bool
equals_if_given wanted value = is_empty wanted || text_eq value wanted

abbrev pub created_date : Order → ℕ
created_date order = elim order.created_at [ none ↦ 0 | some t ↦ t ]

unfoldable pub find_all : Text → Text → List Order → List Order
unfolding newest_first text_eq
find_all channel status rows = take 100 (
    newest_first created_date (
      filter (λ order. equals_if_given channel order.channel && equals_if_given status order.status)
        rows))

-- the first row that passes the test
unfoldable pub first_row : (Order → Bool) → List Order → Option Order
first_row test [] = none
first_row test (o ∷ os) = if test o then some o else first_row test os

unfoldable pub find_by_external_id : Text → Text → List Order → Option Order
unfolding first_row text_eq
find_by_external_id external_order_id channel rows =
    first_row
      (λ order.
        is_some order.external_order_id
        && text_eq (text_or_empty order.external_order_id) external_order_id
        && text_eq order.channel channel)
      rows

-- The fields that `getLifecycleReadModel` puts over the model's; the object has the model's other
-- fields too.
pub record LifecycleView : Type 0 where
  pub model : OrderLifecycleReadModel
  pub lifecycle_stage : OrderLifecycleStage
  pub status : OrderLifecycleStage
  pub raw_status : Text
  pub raw_lifecycle_status : Text
  pub status_projection : OrderStatus
  pub payment_status : Text
  pub fulfillment_status : FulfillmentLabel
  pub delivery_status : DeliveryLabel
  pub exception_status : Option ExceptionLabel
  pub currency : Text
  pub subtotal : ℕ
  pub shipping_cost : ℕ
  pub tax : ℕ
  pub total : ℕ
  pub delivery_address : Option SafeAddress

unfoldable pub lifecycle_view : Order → LifecycleView
unfolding serialize_order_lifecycle_read_model
lifecycle_view order =
    let model =
      serialize_order_lifecycle_read_model
        (record {
          include_customer = true;
          include_delivery_address = true;
          include_warehouse_handoff = true;
        })
        order in
    record {
      model = model;
      lifecycle_stage = model.lifecycle.lifecycle_stage;
      status = model.lifecycle.lifecycle_stage;
      raw_status = model.status;
      raw_lifecycle_status = model.lifecycle.status;
      status_projection = model.lifecycle.status_projection;
      payment_status = model.lifecycle.payment_status;
      fulfillment_status = model.lifecycle.fulfillment_status;
      delivery_status = model.lifecycle.delivery_status;
      exception_status = model.lifecycle.exception_state;
      currency = model.totals.currency;
      subtotal = model.totals.subtotal;
      shipping_cost = model.totals.shipping_cost;
      tax = model.totals.tax_amount;
      total = model.totals.total;
      delivery_address = model.delivery_address;
    }

unfoldable pub get_lifecycle_read_model : Text → List Order → Result ReadError LifecycleView
unfolding first_row text_eq lifecycle_view
get_lifecycle_read_model id rows = elim (first_row (λ order. text_eq order.id id) rows) [
  | none ↦ throw (order_not_found id)
  | some order ↦ ok (lifecycle_view order)
]

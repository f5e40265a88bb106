-- ===== src/Reads.antt =====
-- The read model of an order and its timeline, of src/orders/order-lifecycle.ts.
use orders_microservice.Base.{
  map, leb, any, not, throw_if, ltb, or_else, Option, Result, Bool, List, ℕ, none, some, [], ◌∷◌,
  ◌++◌, ok, throw, if◌then◌else◌, ◌>>=◌, ◌>>◌, true, false, ◌&&◌, ◌||◌,
}
use orders_microservice.Events.{order_currency, get_order_number, truthy}
use orders_microservice.Json.{is_negative, whole_part, is_integer, Number}
use orders_microservice.Lifecycle.Derive.{
  normalize_stored_status, derive_order_lifecycle_state, normalize_optional_string,
  OrderLifecycleState,
}
use orders_microservice.Base.Text.{to_lower_case, is_empty, text_or_empty, Text, text_eq, lit}
use orders_microservice.Entities.{
  fulfilled, Order, OrderItem, Address, Customer, WarehouseHandoffSummary,
}
use orders_microservice.Lifecycle.{
  normalize_order_lifecycle_stage, stage_eq, OrderLifecycleStage, LifecycleError,
}
use orders_microservice.Lifecycle.Labels.{is_fulfilled}
pub mod Filters
pub mod Aggregates
pub mod Queries
pub mod Timeline
pub mod Answer
pub mod Scope
pub mod Counts
pub mod Stored

pub record TimelineEntry : Type 0 where
  pub lifecycle_stage : OrderLifecycleStage
  pub status : Text
  pub occurred_at : Option ℕ
  pub source : Text

abbrev pub ordered_entry : Order → TimelineEntry
ordered_entry order = record {
  lifecycle_stage = OrderLifecycleStage.ordered_unpaid;
  status = lit "pending";
  occurred_at = or_else order.ordered_at order.created_at;
  source = lit "orders.create.v1";
}

-- `order.paymentStatus === 'paid'`
unfoldable pub is_paid : Order → Bool
unfolding text_eq
is_paid order = text_eq (text_or_empty order.payment_status) (lit "paid")

unfoldable pub paid_entries : Order → List TimelineEntry
unfolding is_paid
paid_entries order =
    if is_paid order
    then record {
      lifecycle_stage = OrderLifecycleStage.paid_not_delivered;
      status = lit "confirmed";
      occurred_at = or_else order.payment_updated_at order.updated_at;
      source = lit "orders.payment-status.v1";
    }
      ∷ []
    else []

unfoldable pub fulfilled_entries : Order → List TimelineEntry
fulfilled_entries order = elim order.warehouse_handoff [
  | none ↦ []
  | some handoff ↦
      if is_fulfilled handoff.status
      then record {
        lifecycle_stage = OrderLifecycleStage.warehouse_fulfillment_requested;
        status = lit "confirmed";
        occurred_at = or_else handoff.completed_at order.updated_at;
        source = lit "warehouse.fulfill";
      }
        ∷ []
      else []
]

abbrev pub has_stage : OrderLifecycleStage → TimelineEntry → Bool
has_stage stage entry = stage_eq entry.lifecycle_stage stage

abbrev pub current_entry : Order → OrderLifecycleState → TimelineEntry
current_entry order state = record {
  lifecycle_stage = state.lifecycle_stage;
  status = state.status;
  occurred_at = order.updated_at;
  source = lit "orders.lifecycle.derived";
}

unfoldable pub current_entries :
    Order → OrderLifecycleState → List TimelineEntry → List TimelineEntry
current_entries order state entries =
    if any (has_stage state.lifecycle_stage) entries then [] else current_entry order state ∷ []

unfoldable pub build_lifecycle_timeline : Order → OrderLifecycleState → List TimelineEntry
unfolding paid_entries fulfilled_entries current_entries
build_lifecycle_timeline order state =
    let entries = ordered_entry order ∷ (paid_entries order ++ fulfilled_entries order) in
    entries ++ current_entries order state entries

pub record SafeAddress : Type 0 where
  pub name : Option Text
  pub street : Option Text
  pub city : Option Text
  pub postal_code : Option Text
  pub country : Option Text

unfoldable pub sanitize_address : Address → SafeAddress
unfolding normalize_optional_string
sanitize_address a = record {
  name = normalize_optional_string a.name;
  street = normalize_optional_string a.street;
  city = normalize_optional_string a.city;
  postal_code = normalize_optional_string a.postal_code;
  country = normalize_optional_string a.country;
}

pub record SafeCustomer : Type 0 where
  pub name : Option Text
  pub email : Option Text
  pub phone : Option Text

unfoldable pub sanitize_customer : Customer → SafeCustomer
unfolding normalize_optional_string
sanitize_customer c = record {
  name = normalize_optional_string c.name;
  email = normalize_optional_string c.email;
  phone = normalize_optional_string c.phone;
}

pub record Totals : Type 0 where
  pub subtotal : ℕ
  pub shipping_cost : ℕ
  pub tax_amount : ℕ
  pub total : ℕ
  pub currency : Text

pub record OrderLifecycleReadModelOptions : Type 0 where
  pub include_customer : Bool
  pub include_delivery_address : Bool
  pub include_warehouse_handoff : Bool

pub record ItemModel : Type 0 where
  pub id : Text
  pub product_id : Text
  pub sku : Option Text
  pub title : Text
  pub quantity : ℕ
  pub unit_price : ℕ
  pub total_price : ℕ
  pub fulfillment_status : Option Text
  pub warehouse_id : Option Text

-- A part that the options leave out, or that is null in the order, is nothing.
pub record OrderLifecycleReadModel : Type 0 where
  pub id : Text
  pub order_number : Text
  pub channel : Text
  pub channel_account_id : Option Text
  pub external_order_id : Option Text
  pub lifecycle : OrderLifecycleState
  pub status : Text
  pub payment_status : Option Text
  pub totals : Totals
  pub shipping_method : Option Text
  pub delivery_address : Option SafeAddress
  pub customer : Option SafeCustomer
  pub items : List ItemModel
  pub warehouse_handoff : Option WarehouseHandoffSummary
  pub timeline : List TimelineEntry
  pub created_at : Option ℕ
  pub updated_at : Option ℕ
  pub ordered_at : Option ℕ

abbrev pub item_model : OrderItem → ItemModel
item_model item = record {
  id = item.id;
  product_id = item.product_id;
  sku = truthy item.sku;
  title = item.title;
  quantity = item.quantity;
  unit_price = item.unit_price;
  total_price = item.total_price;
  fulfillment_status = item.fulfillment_status;
  warehouse_id = truthy item.warehouse_id;
}

-- a part of the model, if it is asked for
abbrev pub included {ℓ κ} : {A : Type ℓ} {B : Type κ} → Bool → (A → B) → Option A → Option B
included true f (some a) = some (f a)
included true f none = none
included false f _ = none

unfoldable pub serialize_order_lifecycle_read_model :
    OrderLifecycleReadModelOptions → Order → OrderLifecycleReadModel
unfolding derive_order_lifecycle_state build_lifecycle_timeline get_order_number
    normalize_stored_status normalize_optional_string sanitize_address sanitize_customer
serialize_order_lifecycle_read_model options order =
    let state = derive_order_lifecycle_state order in
    record {
      id = order.id;
      order_number = get_order_number order;
      channel = normalize_stored_status (some order.channel) (lit "unknown");
      channel_account_id = normalize_optional_string order.channel_account_id;
      external_order_id = normalize_optional_string order.external_order_id;
      lifecycle = state;
      status = order.status;
      payment_status = truthy order.payment_status;
      totals = record {
        subtotal = order.subtotal;
        shipping_cost = order.shipping_cost;
        tax_amount = order.tax_amount;
        total = order.total;
        currency = order_currency order;
      };
      shipping_method = truthy order.shipping_method;
      delivery_address =
          included options.include_delivery_address sanitize_address order.shipping_address;
      customer = included options.include_customer sanitize_customer order.customer;
      items = map item_model order.items;
      warehouse_handoff =
          included options.include_warehouse_handoff (λ h. h) order.warehouse_handoff;
      timeline = build_lifecycle_timeline order state;
      created_at = order.created_at;
      updated_at = order.updated_at;
      ordered_at = order.ordered_at;
    }

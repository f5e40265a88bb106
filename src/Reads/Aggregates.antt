-- ===== src/Reads/Aggregates.antt =====
-- The aggregates of src/orders/order-lifecycle.ts. Money is in hundredths, in which the rounded sums
-- are exact. The totals of a currency are grouped as in an object without a prototype: a currency has
-- three letters, and no key of `Object.prototype` has.
use orders_microservice.Base.Text.{is_empty, lit, Text}
use orders_microservice.Base.{
  increment_all, Tally, if◌then◌else◌, filter, length, group_into, Bool, List, ℕ, [], ◌+◌,
}
use orders_microservice.Lifecycle.{stage_text, stage_eq, OrderLifecycleStage}
use orders_microservice.Lifecycle.Labels.{DeliveryLabel}
use orders_microservice.Reads.{OrderLifecycleReadModel}

-- `selector(item) || 'unknown'`
abbrev pub key_or_unknown {ℓ} : {A : Type ℓ} → (A → Text) → A → Text
key_or_unknown selector item = if is_empty (selector item) then lit "unknown" else selector item

unfoldable pub count_by {ℓ} : {A : Type ℓ} → List A → (A → Text) → List (Text × Tally)
unfolding increment_all
count_by items selector = increment_all (key_or_unknown selector) [] items

pub record CurrencyTotals : Type 0 where
  pub order_count : ℕ
  pub total : ℕ
  pub shipping_cost : ℕ
  pub tax_amount : ℕ

abbrev pub no_totals : CurrencyTotals
no_totals = record { order_count = 0; total = 0; shipping_cost = 0; tax_amount = 0 }

abbrev pub model_currency : OrderLifecycleReadModel → Text
model_currency model =
    if is_empty model.totals.currency then lit "UNKNOWN" else model.totals.currency

abbrev pub add_totals : OrderLifecycleReadModel → CurrencyTotals → CurrencyTotals
add_totals model t = record {
  order_count = t.order_count + 1;
  total = t.total + model.totals.total;
  shipping_cost = t.shipping_cost + model.totals.shipping_cost;
  tax_amount = t.tax_amount + model.totals.tax_amount;
}

unfoldable pub build_totals_by_currency :
    List OrderLifecycleReadModel → List (Text × CurrencyTotals)
unfolding group_into
build_totals_by_currency models = group_into model_currency add_totals no_totals [] models

-- the values of `deriveDeliveryStatus`
unfoldable pub delivery_label_text : DeliveryLabel → Text
delivery_label_text DeliveryLabel.handed_to_delivery = lit "handed_to_delivery"
delivery_label_text DeliveryLabel.in_delivery = lit "in_delivery"
delivery_label_text DeliveryLabel.received = lit "received"
delivery_label_text DeliveryLabel.not_received = lit "not_received"
delivery_label_text DeliveryLabel.returned = lit "returned"
delivery_label_text DeliveryLabel.not_started = lit "not_started"

abbrev pub is_at : OrderLifecycleStage → OrderLifecycleReadModel → Bool
is_at stage model = stage_eq model.lifecycle.lifecycle_stage stage

pub record ExceptionCounts : Type 0 where
  pub payment_failed : ℕ
  pub not_received : ℕ
  pub returned : ℕ
  pub cancelled : ℕ

unfoldable pub count_stage : OrderLifecycleStage → List OrderLifecycleReadModel → ℕ
count_stage stage models = length (filter (is_at stage) models)

pub record LifecycleAggregates : Type 0 where
  pub total_orders : ℕ
  pub by_lifecycle_stage : List (Text × Tally)
  pub by_payment_status : List (Text × Tally)
  pub by_channel : List (Text × Tally)
  pub by_delivery_status : List (Text × Tally)
  pub exception_counts : ExceptionCounts
  pub totals_by_currency : List (Text × CurrencyTotals)

abbrev pub model_stage : OrderLifecycleReadModel → Text
unfolding stage_text
model_stage model = stage_text model.lifecycle.lifecycle_stage

abbrev pub model_payment_status : OrderLifecycleReadModel → Text
model_payment_status model = model.lifecycle.payment_status

abbrev pub model_channel : OrderLifecycleReadModel → Text
model_channel model = model.channel

abbrev pub model_delivery_status : OrderLifecycleReadModel → Text
unfolding delivery_label_text
model_delivery_status model = delivery_label_text model.lifecycle.delivery_status

unfoldable pub build_lifecycle_aggregates : List OrderLifecycleReadModel → LifecycleAggregates
unfolding count_by count_stage build_totals_by_currency
build_lifecycle_aggregates models = record {
  total_orders = length models;
  by_lifecycle_stage = count_by models model_stage;
  by_payment_status = count_by models model_payment_status;
  by_channel = count_by models model_channel;
  by_delivery_status = count_by models model_delivery_status;
  exception_counts = record {
    payment_failed = count_stage OrderLifecycleStage.payment_failed models;
    not_received = count_stage OrderLifecycleStage.not_received models;
    returned = count_stage OrderLifecycleStage.returned models;
    cancelled = count_stage OrderLifecycleStage.cancelled models;
  };
  totals_by_currency = build_totals_by_currency models;
}

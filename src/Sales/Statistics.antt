-- ===== src/Sales/Statistics.antt =====
-- `buildProductSalesLifecycleStatistics` of src/orders/orders.service.ts: the loop over the orders.
-- `localeCompare` is a parameter, as the order of the channels. The counts are plain objects, the
-- rows of the channels a `Map`.
use orders_microservice.Reads.Aggregates.{delivery_label_text}
use orders_microservice.Base.Text.{is_empty, to_lower_case, trim, Text, lit}
use orders_microservice.Lifecycle.{stage_text, stage_eq, OrderLifecycleStage}
use orders_microservice.Base.{
  Tally, increment_key, add_to_group, length, Bool, List, ℕ, [], ◌∷◌, ◌+◌, if◌then◌else◌, ◌||◌,
}
use orders_microservice.Lifecycle.Derive.{derive_order_lifecycle_state, lifecycle_stage}
use orders_microservice.Entities.{Order}

-- `normalizeProductSalesAggregateKey(value, 'unknown')`
unfoldable pub aggregate_key : Text → Text
unfolding trim to_lower_case
aggregate_key value =
    if is_empty (to_lower_case (trim value)) then lit "unknown" else to_lower_case (trim value)

pub record SalesExceptions : Type 0 where
  pub payment_failed : ℕ
  pub not_received : ℕ
  pub returned : ℕ
  pub cancelled : ℕ
  pub delayed : ℕ
  pub unfulfilled : ℕ

pub record ChannelExceptions : Type 0 where
  pub not_received : ℕ
  pub returned : ℕ
  pub delayed : ℕ
  pub unfulfilled : ℕ

pub record ChannelRow : Type 0 where
  pub by_lifecycle_stage : List (Text × Tally)
  pub exception_counts : ChannelExceptions

pub record SalesLifecycle : Type 0 where
  pub by_lifecycle_stage : List (Text × Tally)
  pub by_payment_status : List (Text × Tally)
  pub by_delivery_status : List (Text × Tally)
  pub exception_counts : SalesExceptions
  pub channel_lifecycle : List (Text × ChannelRow)

unfoldable pub is_product_sales_unfulfilled_stage : OrderLifecycleStage → Bool
is_product_sales_unfulfilled_stage stage =
    stage_eq stage OrderLifecycleStage.paid_not_delivered
    || stage_eq stage OrderLifecycleStage.warehouse_fulfillment_requested
    || stage_eq stage OrderLifecycleStage.warehouse_collecting
    || stage_eq stage OrderLifecycleStage.warehouse_forming
    || stage_eq stage OrderLifecycleStage.warehouse_formed

unfoldable pub increment_product_sales_count : Text → List (Text × Tally) → List (Text × Tally)
unfolding aggregate_key increment_key
increment_product_sales_count raw_key target = increment_key (aggregate_key raw_key) target

abbrev pub one_if : Bool → ℕ → ℕ
one_if test n = if test then n + 1 else n

abbrev pub order_stage : Order → OrderLifecycleStage
unfolding lifecycle_stage
order_stage order = (derive_order_lifecycle_state order).lifecycle_stage

abbrev pub stage_key : Order → Text
unfolding derive_order_lifecycle_state stage_text
stage_key order = stage_text (order_stage order)

abbrev pub payment_key : Order → Text
unfolding derive_order_lifecycle_state
payment_key order = (derive_order_lifecycle_state order).payment_status

abbrev pub delivery_key : Order → Text
unfolding derive_order_lifecycle_state delivery_label_text
delivery_key order = delivery_label_text (derive_order_lifecycle_state order).delivery_status

-- `normalizeProductSalesAggregateKey(order.channel, 'unknown')`
abbrev pub channel_key : Order → Text
unfolding aggregate_key
channel_key order = aggregate_key order.channel

abbrev pub stage_is : OrderLifecycleStage → Order → Bool
stage_is stage order = stage_eq (order_stage order) stage

abbrev pub is_unfulfilled : Order → Bool
unfolding is_product_sales_unfulfilled_stage
is_unfulfilled order = is_product_sales_unfulfilled_stage (order_stage order)

-- what the loop does to the row of the order's channel
unfoldable pub add_channel_order : Order → ChannelRow → ChannelRow
unfolding increment_product_sales_count
add_channel_order order row =
    let e = row.exception_counts in
    record {
      by_lifecycle_stage = increment_product_sales_count (stage_key order) row.by_lifecycle_stage;
      exception_counts = record {
        not_received = one_if (stage_is OrderLifecycleStage.not_received order) e.not_received;
        returned = one_if (stage_is OrderLifecycleStage.returned order) e.returned;
        delayed = e.delayed;
        unfulfilled = one_if (is_unfulfilled order) e.unfulfilled;
      };
    }

-- the row that `getProductSalesChannelLifecycle` creates
abbrev pub new_channel_row : ChannelRow
new_channel_row = record {
  by_lifecycle_stage = [];
  exception_counts = record { not_received = 0; returned = 0; delayed = 0; unfulfilled = 0 };
}

-- one round of the loop
unfoldable pub add_order : Order → SalesLifecycle → SalesLifecycle
unfolding increment_product_sales_count add_channel_order add_to_group
add_order order s =
    let e = s.exception_counts in
    record {
      by_lifecycle_stage = increment_product_sales_count (stage_key order) s.by_lifecycle_stage;
      by_payment_status = increment_product_sales_count (payment_key order) s.by_payment_status;
      by_delivery_status = increment_product_sales_count (delivery_key order) s.by_delivery_status;
      exception_counts = record {
        payment_failed =
            one_if (stage_is OrderLifecycleStage.payment_failed order) e.payment_failed;
        not_received = one_if (stage_is OrderLifecycleStage.not_received order) e.not_received;
        returned = one_if (stage_is OrderLifecycleStage.returned order) e.returned;
        cancelled = one_if (stage_is OrderLifecycleStage.cancelled order) e.cancelled;
        delayed = e.delayed;
        unfulfilled = one_if (is_unfulfilled order) e.unfulfilled;
      };
      channel_lifecycle =
          add_to_group channel_key add_channel_order new_channel_row order s.channel_lifecycle;
    }

unfoldable pub add_orders : List Order → SalesLifecycle → SalesLifecycle
unfolding add_order
add_orders [] s = s
add_orders (o ∷ os) s = add_orders os (add_order o s)

abbrev pub no_sales : SalesLifecycle
no_sales = record {
  by_lifecycle_stage = [];
  by_payment_status = [];
  by_delivery_status = [];
  exception_counts = record {
    payment_failed = 0;
    not_received = 0;
    returned = 0;
    cancelled = 0;
    delayed = 0;
    unfulfilled = 0;
  };
  channel_lifecycle = [];
}

pub record ProductSalesLifecycleStatistics : Type 0 where
  pub order_count : ℕ
  pub sampled_order_limit : ℕ
  pub counts : SalesLifecycle

module _ (by_locale : List (Text × ChannelRow) → List (Text × ChannelRow)) where
  unfoldable pub build_product_sales_lifecycle_statistics :
      List Order → ProductSalesLifecycleStatistics
  unfolding add_orders
  build_product_sales_lifecycle_statistics orders =
      let counts = add_orders orders no_sales in
      record {
        order_count = length orders;
        sampled_order_limit = 1000;
        counts = record counts { channel_lifecycle = by_locale counts.channel_lifecycle };
      }

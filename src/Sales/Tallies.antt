-- ===== src/Sales/Tallies.antt =====
-- What the lifecycle statistics of src/orders/orders.service.ts count.
use orders_microservice.Lifecycle.Labels.{DeliveryLabel}
use orders_microservice.Base.Text.{
  mem_text, lower_unit, to_lower_case, is_space, push_trimmed, trim_end, trim_start, trim, text_eq,
  Text,
}
use orders_microservice.Lifecycle.Derive.{lifecycle_stage, derive_order_lifecycle_state}
use orders_microservice.Lifecycle.{stage_text, OrderLifecycleStage}
use orders_microservice.Sales.Statistics.{
  is_unfulfilled, delivery_key, no_sales, increment_product_sales_count, new_channel_row,
  payment_key, stage_is, add_channel_order, add_order, channel_key, stage_key, ChannelRow,
  ProductSalesLifecycleStatistics, SalesLifecycle, add_orders, aggregate_key,
  build_product_sales_lifecycle_statistics, one_if,
}
use orders_microservice.Base.{
  All, numbers, Tally, increment_all, increment_all-numbers, is_inherited, false, IsPlain,
  count_one_more, length-map, group_at-group_into, Bool-cases, in_group, map, add_all, filter,
  group_at, group_into, length, Bool, List, ℕ, [], ◌∷◌, ◌+◌, ◌≡◌, refl, arith, inl, inr,
}
use orders_microservice.Reads.Counts.{group_sizes-group_into, add_all-count_one_more, group_sizes}
use orders_microservice.Reads.Aggregates.{delivery_label_text}
use orders_microservice.Entities.{Order}

-- the keys of the orders, as the counts have them
abbrev pub keys_of : (Order → Text) → List Order → List Text
keys_of key orders = map (λ order. aggregate_key (key order)) orders

abbrev pub own_key : Text → Text
own_key key = key

-- The object holds counts alone; each is the number of the orders with its key, and they add up to
-- all of the orders.
pub record IsTally (key : Order → Text) (orders : List Order) (counts : List (Text × Tally))
    : Type 0 where
  pub counted : List (Text × ℕ)
  pub alone : counts ≡ numbers counted
  pub each :
      (k : Text)
      → group_at own_key count_one_more 0 k counted
        ≡ length (filter (λ t. text_eq t k) (keys_of key orders))
  pub together : group_sizes counted ≡ length orders

-- no order's key is one of `Object.prototype`
abbrev pub HasPlainKeys : (Order → Text) → List Order → Type 0
HasPlainKeys key orders = All (IsPlain own_key) (keys_of key orders)

increment_all-IsTally :
    (key : Order → Text) (orders : List Order)
    → HasPlainKeys key orders
    → IsTally key orders (increment_all own_key [] (keys_of key orders))
unfolding group_at
increment_all-IsTally key orders plain = record {
  counted = group_into own_key count_one_more 0 [] (keys_of key orders);
  alone = increment_all-numbers own_key [] (keys_of key orders) plain;
  each = λ k. omega (
    arith,
    group_at-group_into own_key count_one_more 0 k [] (keys_of key orders),
    add_all-count_one_more own_key 0 (filter (λ t. text_eq t k) (keys_of key orders)),
  );
  together = omega (
    arith,
    group_sizes-group_into own_key [] (keys_of key orders),
    length-map (λ order. aggregate_key (key order)) orders,
  );
}

-- the names of stages and of the statuses of deliveries are plain
stage_plain : (s : OrderLifecycleStage) → is_inherited (aggregate_key (stage_text s)) ≡ false
unfolding is_inherited stage_text aggregate_key trim trim_start trim_end push_trimmed is_space
    to_lower_case lower_unit mem_text text_eq
stage_plain OrderLifecycleStage.ordered_unpaid = refl
stage_plain OrderLifecycleStage.payment_failed = refl
stage_plain OrderLifecycleStage.paid_not_delivered = refl
stage_plain OrderLifecycleStage.warehouse_fulfillment_requested = refl
stage_plain OrderLifecycleStage.warehouse_collecting = refl
stage_plain OrderLifecycleStage.warehouse_forming = refl
stage_plain OrderLifecycleStage.warehouse_formed = refl
stage_plain OrderLifecycleStage.handed_to_delivery = refl
stage_plain OrderLifecycleStage.in_delivery = refl
stage_plain OrderLifecycleStage.received = refl
stage_plain OrderLifecycleStage.not_received = refl
stage_plain OrderLifecycleStage.returned = refl
stage_plain OrderLifecycleStage.cancelled = refl

delivery_plain : (d : DeliveryLabel) → is_inherited (aggregate_key (delivery_label_text d)) ≡ false
unfolding is_inherited delivery_label_text aggregate_key trim trim_start trim_end push_trimmed
    is_space to_lower_case lower_unit mem_text text_eq
delivery_plain DeliveryLabel.handed_to_delivery = refl
delivery_plain DeliveryLabel.in_delivery = refl
delivery_plain DeliveryLabel.received = refl
delivery_plain DeliveryLabel.not_received = refl
delivery_plain DeliveryLabel.returned = refl
delivery_plain DeliveryLabel.not_started = refl

stages_plain : (orders : List Order) → HasPlainKeys stage_key orders
unfolding derive_order_lifecycle_state stage_text lifecycle_stage
stages_plain [] = tt
stages_plain (o ∷ os) = (stage_plain (lifecycle_stage o), stages_plain os)

deliveries_plain : (orders : List Order) → HasPlainKeys delivery_key orders
unfolding derive_order_lifecycle_state delivery_label_text
deliveries_plain [] = tt
deliveries_plain (o ∷ os) =
    (delivery_plain (derive_order_lifecycle_state o).delivery_status, deliveries_plain os)

abbrev pub count_of : (Order → Bool) → List Order → ℕ
count_of test orders = length (filter test orders)

one_if-count_of :
    (test : Order → Bool) (n : ℕ) (o : Order) (os : List Order)
    → one_if (test o) n + count_of test os ≡ n + count_of test (o ∷ os)
one_if-count_of test n o os = elim (Bool-cases (test o)) [
  | inl counted ↦ rw counted (omega arith)
  | inr passed ↦ rw passed (omega arith)
]

-- a channel's row, with more orders
record Extends (row row' : ChannelRow) (orders : List Order) : Type 0 where
  stages :
      row'.by_lifecycle_stage
      ≡ increment_all own_key row.by_lifecycle_stage (keys_of stage_key orders)
  not_received :
      row'.exception_counts.not_received
      ≡ row.exception_counts.not_received
        + count_of (stage_is OrderLifecycleStage.not_received) orders
  returned :
      row'.exception_counts.returned
      ≡ row.exception_counts.returned + count_of (stage_is OrderLifecycleStage.returned) orders
  delayed : row'.exception_counts.delayed ≡ row.exception_counts.delayed
  unfulfilled :
      row'.exception_counts.unfulfilled
      ≡ row.exception_counts.unfulfilled + count_of is_unfulfilled orders

add_all-Extends :
    (row : ChannelRow) (orders : List Order)
    → Extends row (add_all channel_key add_channel_order new_channel_row row orders) orders
unfolding increment_all add_channel_order increment_product_sales_count
add_all-Extends row [] = record {
  stages = refl;
  not_received = omega arith;
  returned = omega arith;
  delayed = refl;
  unfulfilled = omega arith;
}
add_all-Extends row (o ∷ os) =
    let rest = add_all-Extends (add_channel_order o row) os in
    let e = row.exception_counts in
    record {
      stages = rest.stages;
      not_received = omega (
        arith,
        rest.not_received,
        one_if-count_of (stage_is OrderLifecycleStage.not_received) e.not_received o os,
      );
      returned = omega (
        arith,
        rest.returned,
        one_if-count_of (stage_is OrderLifecycleStage.returned) e.returned o os,
      );
      delayed = rest.delayed;
      unfulfilled =
          omega (arith, rest.unfulfilled, one_if-count_of is_unfulfilled e.unfulfilled o os);
    }

-- the loop, as groupings and counts apart
record Tallied (s s' : SalesLifecycle) (orders : List Order) : Type 0 where
  stages :
      s'.by_lifecycle_stage ≡ increment_all own_key s.by_lifecycle_stage (keys_of stage_key orders)
  payments :
      s'.by_payment_status ≡ increment_all own_key s.by_payment_status (keys_of payment_key orders)
  deliveries :
      s'.by_delivery_status
      ≡ increment_all own_key s.by_delivery_status (keys_of delivery_key orders)
  failed :
      s'.exception_counts.payment_failed
      ≡ s.exception_counts.payment_failed
        + count_of (stage_is OrderLifecycleStage.payment_failed) orders
  not_received :
      s'.exception_counts.not_received
      ≡ s.exception_counts.not_received
        + count_of (stage_is OrderLifecycleStage.not_received) orders
  returned :
      s'.exception_counts.returned
      ≡ s.exception_counts.returned + count_of (stage_is OrderLifecycleStage.returned) orders
  cancelled :
      s'.exception_counts.cancelled
      ≡ s.exception_counts.cancelled + count_of (stage_is OrderLifecycleStage.cancelled) orders
  delayed : s'.exception_counts.delayed ≡ s.exception_counts.delayed
  unfulfilled :
      s'.exception_counts.unfulfilled
      ≡ s.exception_counts.unfulfilled + count_of is_unfulfilled orders
  channels :
      s'.channel_lifecycle
      ≡ group_into channel_key add_channel_order new_channel_row s.channel_lifecycle orders

add_orders-Tallied :
    (orders : List Order) (s : SalesLifecycle) → Tallied s (add_orders orders s) orders
unfolding add_orders add_order increment_product_sales_count increment_all group_into
add_orders-Tallied [] s = record {
  stages = refl;
  payments = refl;
  deliveries = refl;
  failed = omega arith;
  not_received = omega arith;
  returned = omega arith;
  cancelled = omega arith;
  delayed = refl;
  unfulfilled = omega arith;
  channels = refl;
}
add_orders-Tallied (o ∷ os) s =
    let rest = add_orders-Tallied os (add_order o s) in
    let e = s.exception_counts in
    record {
      stages = rest.stages;
      payments = rest.payments;
      deliveries = rest.deliveries;
      failed = omega (
        arith,
        rest.failed,
        one_if-count_of (stage_is OrderLifecycleStage.payment_failed) e.payment_failed o os,
      );
      not_received = omega (
        arith,
        rest.not_received,
        one_if-count_of (stage_is OrderLifecycleStage.not_received) e.not_received o os,
      );
      returned = omega (
        arith,
        rest.returned,
        one_if-count_of (stage_is OrderLifecycleStage.returned) e.returned o os,
      );
      cancelled = omega (
        arith,
        rest.cancelled,
        one_if-count_of (stage_is OrderLifecycleStage.cancelled) e.cancelled o os,
      );
      delayed = rest.delayed;
      unfulfilled =
          omega (arith, rest.unfulfilled, one_if-count_of is_unfulfilled e.unfulfilled o os);
      channels = rest.channels;
    }

abbrev pub orders_of : Text → List Order → List Order
orders_of channel orders =
    filter (in_group channel_key add_channel_order new_channel_row channel) orders

-- the row of a channel
pub record IsChannelTally (row : ChannelRow) (orders : List Order) : Type 0 where
  pub stages : IsTally stage_key orders row.by_lifecycle_stage
  pub not_received :
      row.exception_counts.not_received
      ≡ count_of (stage_is OrderLifecycleStage.not_received) orders
  pub returned :
      row.exception_counts.returned ≡ count_of (stage_is OrderLifecycleStage.returned) orders
  pub unfulfilled : row.exception_counts.unfulfilled ≡ count_of is_unfulfilled orders

channel_lem :
    (orders : List Order)
    → IsChannelTally
        (add_all channel_key add_channel_order new_channel_row new_channel_row orders)
        orders
channel_lem orders =
    let all_added = add_all-Extends new_channel_row orders in
    record {
      stages = rw (all_added.stages) (increment_all-IsTally stage_key orders (stages_plain orders));
      not_received = omega (arith, all_added.not_received);
      returned = omega (arith, all_added.returned);
      unfulfilled = omega (arith, all_added.unfulfilled);
    }

-- what the statistics say of the orders
pub record IsStatistics (orders : List Order) (s : ProductSalesLifecycleStatistics) : Type 0 where
  pub order_count : s.order_count ≡ length orders
  pub stages : IsTally stage_key orders s.counts.by_lifecycle_stage
  pub payments : IsTally payment_key orders s.counts.by_payment_status
  pub deliveries : IsTally delivery_key orders s.counts.by_delivery_status
  pub failed :
      s.counts.exception_counts.payment_failed
      ≡ count_of (stage_is OrderLifecycleStage.payment_failed) orders
  pub not_received :
      s.counts.exception_counts.not_received
      ≡ count_of (stage_is OrderLifecycleStage.not_received) orders
  pub returned :
      s.counts.exception_counts.returned ≡ count_of (stage_is OrderLifecycleStage.returned) orders
  pub cancelled :
      s.counts.exception_counts.cancelled ≡ count_of (stage_is OrderLifecycleStage.cancelled) orders
  pub delayed : s.counts.exception_counts.delayed ≡ 0
  pub unfulfilled : s.counts.exception_counts.unfulfilled ≡ count_of is_unfulfilled orders
  pub channels :
      (channel : Text)
      → IsChannelTally
          (group_at channel_key add_channel_order new_channel_row channel
            s.counts.channel_lifecycle)
          (orders_of channel orders)

-- If sorting the channels keeps the row of each, and no payment status of an order, trimmed and in
-- lower case, is a key of `Object.prototype`: each count by stage, payment status and delivery status
-- is the number of the orders with that value, and the counts of each kind add up to the number of
-- all orders; the exceptions are the numbers of the orders at their stages, where none is delayed;
-- and a channel's row counts the orders of that channel in the same way.
pub build_product_sales_lifecycle_statistics-IsStatistics :
    (by_locale : List (Text × ChannelRow) → List (Text × ChannelRow))
    → (keeps_rows : (channel : Text) (rows : List (Text × ChannelRow))
        → group_at channel_key add_channel_order new_channel_row channel (by_locale rows)
          ≡ group_at channel_key add_channel_order new_channel_row channel rows)
    → (orders : List Order) → HasPlainKeys payment_key orders
    → IsStatistics orders (build_product_sales_lifecycle_statistics by_locale orders)
unfolding build_product_sales_lifecycle_statistics group_at
build_product_sales_lifecycle_statistics-IsStatistics by_locale keeps_rows orders plain =
    let all_counted = add_orders-Tallied orders no_sales in
    record {
      order_count = refl;
      stages =
          rw (all_counted.stages) (increment_all-IsTally stage_key orders (stages_plain orders));
      payments = rw (all_counted.payments) (increment_all-IsTally payment_key orders plain);
      deliveries =
          rw (all_counted.deliveries)
            (increment_all-IsTally delivery_key orders (deliveries_plain orders));
      failed = omega (arith, all_counted.failed);
      not_received = omega (arith, all_counted.not_received);
      returned = omega (arith, all_counted.returned);
      cancelled = omega (arith, all_counted.cancelled);
      delayed = all_counted.delayed;
      unfulfilled = omega (arith, all_counted.unfulfilled);
      channels = λ channel. rw (keeps_rows channel (add_orders orders no_sales).channel_lifecycle) (
          rw (all_counted.channels) (
            rw (group_at-group_into channel_key add_channel_order new_channel_row channel [] orders)
              (channel_lem (orders_of channel orders))));
    }

-- ===== src/Reads/Counts.antt =====
-- What the aggregates of src/orders/order-lifecycle.ts count.
use orders_microservice.Base.Text.{lit, is_empty, text_eq, mem_text, Text}
use orders_microservice.Lifecycle.Labels.{DeliveryLabel}
use orders_microservice.Lifecycle.{OrderLifecycleStage, stage_text}
use orders_microservice.Base.{
  increment_all-numbers, add_to_group, group_into, group_at-group_into, in_group, filter, length,
  group_at, add_all, List, All, All-of, numbers, Tally, increment_all, is_inherited, if◌then◌else◌,
  false, IsPlain, count_one_more, ℕ, [], ◌∷◌, ◌+◌, ◌≡◌, refl, arith,
}
use orders_microservice.Reads.Aggregates.{
  count_stage, delivery_label_text, is_at, model_delivery_status, model_channel,
  model_payment_status, build_totals_by_currency, model_stage, LifecycleAggregates,
  build_lifecycle_aggregates, no_totals, add_totals, key_or_unknown, model_currency, CurrencyTotals,
  count_by,
}
use orders_microservice.Reads.{OrderLifecycleReadModel}

-- what the groups hold between them
abbrev pub group_sizes : List (Text × ℕ) → ℕ
group_sizes [] = 0
group_sizes ((k, n) ∷ gs) = n + group_sizes gs

module _ {ℓ} {A : Type ℓ} where
  abbrev pub sum_of : (A → ℕ) → List A → ℕ
  sum_of f [] = 0
  sum_of f (x ∷ xs) = f x + sum_of f xs

  module _ (key : A → Text) where
    pub add_all-count_one_more :
        (n : ℕ) (xs : List A) → add_all key count_one_more 0 n xs ≡ n + length xs
    add_all-count_one_more n [] = omega arith
    add_all-count_one_more n (x ∷ xs) = omega (arith, add_all-count_one_more (n + 1) xs)

    group_sizes-add_to_group :
        (x : A) (gs : List (Text × ℕ))
        → group_sizes (add_to_group key count_one_more 0 x gs) ≡ group_sizes gs + 1
    unfolding add_to_group
    group_sizes-add_to_group x [] = omega arith
    group_sizes-add_to_group x ((k, n) ∷ gs) = ground (arith, group_sizes-add_to_group x gs)

    pub group_sizes-group_into :
        (gs : List (Text × ℕ)) (xs : List A)
        → group_sizes (group_into key count_one_more 0 gs xs) ≡ group_sizes gs + length xs
    unfolding group_into
    group_sizes-group_into gs [] = omega arith
    group_sizes-group_into gs (x ∷ xs) = omega (
      arith,
      group_sizes-group_into (add_to_group key count_one_more 0 x gs) xs,
      group_sizes-add_to_group x gs,
    )

  -- the object holds counts alone; each is the number of the items with its key, and they add up to
  -- all of the items
  pub record IsCount (items : List A) (selector : A → Text) (counts : List (Text × Tally))
      : Type ℓ where
    pub counted : List (Text × ℕ)
    pub alone : counts ≡ numbers counted
    pub each :
        (k : Text)
        → group_at (key_or_unknown selector) count_one_more 0 k counted
          ≡ length (filter (in_group (key_or_unknown selector) count_one_more 0 k) items)
    pub together : group_sizes counted ≡ length items

  count_by-IsCount :
      (items : List A) (selector : A → Text)
      → All (IsPlain (key_or_unknown selector)) items
      → IsCount items selector (count_by items selector)
  unfolding count_by group_at group_into increment_all
  count_by-IsCount items selector plain = record {
    counted = group_into (key_or_unknown selector) count_one_more 0 [] items;
    alone = increment_all-numbers (key_or_unknown selector) [] items plain;
    each = λ k. omega (
      arith,
      group_at-group_into (key_or_unknown selector) count_one_more 0 k [] items,
      add_all-count_one_more (key_or_unknown selector) 0
          (filter (in_group (key_or_unknown selector) count_one_more 0 k) items),
    );
    together = omega (arith, group_sizes-group_into (key_or_unknown selector) [] items);
  }

-- the name of a stage or of a delivery's status is not one of `Object.prototype`
stage_plain :
    (s : OrderLifecycleStage)
    → is_inherited (if is_empty (stage_text s) then lit "unknown" else stage_text s) ≡ false
unfolding is_inherited stage_text mem_text text_eq
stage_plain OrderLifecycleStage.ordered_unpaid = refl
stage_plain OrderLifecycleStage.payment_failed = refl
stage_plain OrderLifecycleStage.paid_not_delivered = refl
stage_plain OrderLifecycleStage.warehouse_fulfillment_requested = refl
stage_plain OrderLifecycleStage.warehouse_collecting = refl
stage_plain OrderLifecycleStage.warehouse_forming = refl
stage_plain OrderLifecycleStage.warehouse_formed = refl
stage_plain OrderLifecycleStage.handed_to_delivery = refl
stage_plain OrderLifecycleStage.in_delivery = refl
stage_plain OrderLifecycleStage.received = refl
stage_plain OrderLifecycleStage.not_received = refl
stage_plain OrderLifecycleStage.returned = refl
stage_plain OrderLifecycleStage.cancelled = refl

delivery_plain :
    (d : DeliveryLabel)
    → is_inherited
        (if is_empty (delivery_label_text d) then lit "unknown" else delivery_label_text d)
      ≡ false
unfolding is_inherited delivery_label_text mem_text text_eq
delivery_plain DeliveryLabel.handed_to_delivery = refl
delivery_plain DeliveryLabel.in_delivery = refl
delivery_plain DeliveryLabel.received = refl
delivery_plain DeliveryLabel.not_received = refl
delivery_plain DeliveryLabel.returned = refl
delivery_plain DeliveryLabel.not_started = refl

-- the second totals are the first with the models added
pub record AddsUp (t u : CurrencyTotals) (models : List OrderLifecycleReadModel) : Type 0 where
  pub orders : u.order_count ≡ t.order_count + length models
  pub total : u.total ≡ t.total + sum_of (λ m. m.totals.total) models
  pub shipping : u.shipping_cost ≡ t.shipping_cost + sum_of (λ m. m.totals.shipping_cost) models
  pub tax : u.tax_amount ≡ t.tax_amount + sum_of (λ m. m.totals.tax_amount) models

add_all-AddsUp :
    (t : CurrencyTotals) (models : List OrderLifecycleReadModel)
    → AddsUp t (add_all model_currency add_totals no_totals t models) models
add_all-AddsUp t [] = record {
  orders = omega arith;
  total = omega arith;
  shipping = omega arith;
  tax = omega arith;
}
add_all-AddsUp t (m ∷ ms) =
    let rest = add_all-AddsUp (add_totals m t) ms in
    record {
      orders = omega (arith, rest.orders);
      total = omega (arith, rest.total);
      shipping = omega (arith, rest.shipping);
      tax = omega (arith, rest.tax);
    }

abbrev pub models_in : Text → List OrderLifecycleReadModel → List OrderLifecycleReadModel
models_in currency models = filter (in_group model_currency add_totals no_totals currency) models

-- what the aggregates say of the orders
pub record IsAggregate (models : List OrderLifecycleReadModel) (a : LifecycleAggregates)
    : Type 0 where
  pub total_orders : a.total_orders ≡ length models
  pub stages : IsCount models model_stage a.by_lifecycle_stage
  pub payments : IsCount models model_payment_status a.by_payment_status
  pub channels : IsCount models model_channel a.by_channel
  pub deliveries : IsCount models model_delivery_status a.by_delivery_status
  pub failed :
      a.exception_counts.payment_failed
      ≡ length (filter (is_at OrderLifecycleStage.payment_failed) models)
  pub not_received :
      a.exception_counts.not_received
      ≡ length (filter (is_at OrderLifecycleStage.not_received) models)
  pub returned :
      a.exception_counts.returned ≡ length (filter (is_at OrderLifecycleStage.returned) models)
  pub cancelled :
      a.exception_counts.cancelled ≡ length (filter (is_at OrderLifecycleStage.cancelled) models)
  pub currencies :
      (currency : Text)
      → AddsUp no_totals
          (group_at model_currency add_totals no_totals currency a.totals_by_currency)
          (models_in currency models)

-- Where no payment status, channel or currency of an order is a key of `Object.prototype`: each count
-- by stage, payment status, channel and delivery status is the number of the orders with that value,
-- the counts of each kind add up to the number of all orders, the exceptions are the numbers of the
-- orders at the four stages, and the totals of each currency are the number and the sums of the
-- orders in it.
pub build_lifecycle_aggregates-IsAggregate :
    (models : List OrderLifecycleReadModel)
    → All (IsPlain (key_or_unknown model_payment_status)) models
    → All (IsPlain (key_or_unknown model_channel)) models
    → All (IsPlain model_currency) models
    → IsAggregate models (build_lifecycle_aggregates models)
unfolding build_lifecycle_aggregates build_totals_by_currency group_at count_stage stage_text
    delivery_label_text
build_lifecycle_aggregates-IsAggregate models plain_payments plain_channels plain_currencies =
    record {
      total_orders = refl;
      stages =
          count_by-IsCount models model_stage
            (All-of (λ m. stage_plain m.lifecycle.lifecycle_stage) models);
      payments = count_by-IsCount models model_payment_status plain_payments;
      channels = count_by-IsCount models model_channel plain_channels;
      deliveries =
          count_by-IsCount models model_delivery_status
            (All-of (λ m. delivery_plain m.lifecycle.delivery_status) models);
      failed = refl;
      not_received = refl;
      returned = refl;
      cancelled = refl;
      currencies = λ currency.
          rw (group_at-group_into model_currency add_totals no_totals currency [] models)
            (add_all-AddsUp no_totals (models_in currency models));
    }

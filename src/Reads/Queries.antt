-- ===== src/Reads/Queries.antt =====
-- The lifecycle reads of src/orders/orders.service.ts. The table is a list of orders, as the database
-- gives them with their items; `LOWER` is the database's and a parameter. The column `createdAt` of a
-- stored order is not null.
use orders_microservice.Reads.Filters.{
  subject_required, ReadError, OrderLifecycleReadFilters, normalize_order_lifecycle_read_filters,
  NormalizedOrderLifecycleReadFilters, Readers,
}
use orders_microservice.Create.Fields.{is_uuid}
use orders_microservice.Reads.Aggregates.{is_at, build_lifecycle_aggregates, LifecycleAggregates}
use orders_microservice.Base.{
  filter, map, leb, length, newest_first, or_else, take, Option, Result, Bool, List, ℕ, none, some,
  ok, throw, if◌then◌else◌, ◌>>=◌, true, false, ◌&&◌, ◌||◌, ◌*◌,
}
use orders_microservice.Base.Text.{to_lower_case, trim, Text, text_eq}
use orders_microservice.Reads.{
  OrderLifecycleReadModelOptions, serialize_order_lifecycle_read_model, OrderLifecycleReadModel,
}
use orders_microservice.Entities.{Order}
use orders_microservice.Lifecycle.{OrderLifecycleStage}

-- `normalizeActorSubject`, for the subject of the token or the empty text
unfoldable pub normalize_actor_subject : Text → Option Text
unfolding trim to_lower_case is_uuid
normalize_actor_subject sub =
    let subject = to_lower_case (trim sub) in if is_uuid subject then some subject else none

-- `COALESCE(orders.orderedAt, orders.createdAt)`
abbrev pub order_date : Order → ℕ
order_date order = elim (or_else order.ordered_at order.created_at) [ none ↦ 0 | some t ↦ t ]

-- a condition that is only added for a filter that is given
abbrev pub if_given {ℓ} : {A : Type ℓ} → Option A → (A → Bool) → Bool
if_given none test = true
if_given (some a) test = test a

-- `LOWER(column) = :value`, which null does not satisfy
abbrev pub lower_is : (Text → Text) → Option Text → Text → Bool
lower_is lower none value = false
lower_is lower (some s) value = text_eq (lower s) value

module _ (lower : Text → Text) where
  unfoldable pub is_wanted : NormalizedOrderLifecycleReadFilters → Order → Bool
  unfolding text_eq
  is_wanted filters order =
      if_given filters.channel (λ v. lower_is lower (some order.channel) v)
      && if_given filters.status (λ v. lower_is lower (some order.status) v)
      && if_given filters.payment_status (λ v. lower_is lower order.payment_status v)
      && if_given filters.from_date (λ t. leb t (order_date order))
      && if_given filters.to_date (λ t. leb (order_date order) t)

  -- the condition of `applyCustomerIdentityScope`
  unfoldable pub is_customers : Text → Order → Bool
  unfolding text_eq
  is_customers subject order = elim order.customer [
    | none ↦ false
    | some c ↦ lower_is lower c.auth_user_id subject || lower_is lower c.subject subject
  ]

  -- `take(filters.limit * (filters.lifecycleStage ? 3 : 1))`
  abbrev pub query_limit : NormalizedOrderLifecycleReadFilters → ℕ
  query_limit filters = elim filters.lifecycle_stage [
    | none ↦ filters.limit
    | some _ ↦ filters.limit * 3
  ]

  -- `buildLifecycleQuery` with one more condition, and `getMany`
  unfoldable pub run_lifecycle_query :
      NormalizedOrderLifecycleReadFilters → (Order → Bool) → List Order → List Order
  unfolding is_wanted newest_first
  run_lifecycle_query filters scope rows =
      take (query_limit filters)
        (newest_first order_date (filter (λ order. is_wanted filters order && scope order) rows))

  unfoldable pub filter_lifecycle_models :
      List OrderLifecycleReadModel → Option OrderLifecycleStage → ℕ → List OrderLifecycleReadModel
  filter_lifecycle_models models none limit = take limit models
  filter_lifecycle_models models (some stage) limit = take limit (filter (is_at stage) models)

  abbrev pub customer_options : OrderLifecycleReadModelOptions
  customer_options = record {
    include_customer = false;
    include_delivery_address = true;
    include_warehouse_handoff = true;
  }

  abbrev pub admin_options : OrderLifecycleReadModelOptions
  admin_options = record {
    include_customer = true;
    include_delivery_address = true;
    include_warehouse_handoff = true;
  }

  -- the models of both reads
  unfoldable pub lifecycle_models :
      OrderLifecycleReadModelOptions
      → NormalizedOrderLifecycleReadFilters
      → (Order → Bool)
      → List Order
      → List OrderLifecycleReadModel
  unfolding run_lifecycle_query serialize_order_lifecycle_read_model filter_lifecycle_models
  lifecycle_models options filters scope rows =
      filter_lifecycle_models
        (map (serialize_order_lifecycle_read_model options)
          (run_lifecycle_query filters scope rows))
        filters.lifecycle_stage filters.limit

  -- the time of the answer is left out
  pub record CustomerOrders : Type 0 where
    pub subject : Text
    pub filters : NormalizedOrderLifecycleReadFilters
    pub count : ℕ
    pub orders : List OrderLifecycleReadModel

  pub record AdminOrders : Type 0 where
    pub filters : NormalizedOrderLifecycleReadFilters
    pub count : ℕ
    pub aggregates : LifecycleAggregates
    pub orders : List OrderLifecycleReadModel

  abbrev pub customer_orders :
      Text → List Order → NormalizedOrderLifecycleReadFilters → CustomerOrders
  unfolding lifecycle_models is_customers
  customer_orders subject rows filters =
      let models = lifecycle_models customer_options filters (is_customers subject) rows in
      record { subject = subject; filters = filters; count = length models; orders = models }

  abbrev pub admin_orders : List Order → NormalizedOrderLifecycleReadFilters → AdminOrders
  unfolding lifecycle_models build_lifecycle_aggregates
  admin_orders rows filters =
      let models = lifecycle_models admin_options filters (λ order. true) rows in
      record {
        filters = filters;
        count = length models;
        aggregates = build_lifecycle_aggregates models;
        orders = models;
      }

  module _ (readers : Readers) where
    unfoldable pub get_customer_lifecycle_orders :
        Text → OrderLifecycleReadFilters → List Order → Result ReadError CustomerOrders
    unfolding normalize_actor_subject normalize_order_lifecycle_read_filters lifecycle_models
        is_customers
    get_customer_lifecycle_orders sub filters rows = elim (normalize_actor_subject sub) [
      | none ↦ throw subject_required
      | some subject ↦ normalize_order_lifecycle_read_filters readers filters >>= λ normalized.
          ok (customer_orders subject rows normalized)
    ]

    unfoldable pub get_admin_lifecycle_orders :
        OrderLifecycleReadFilters → List Order → Result ReadError AdminOrders
    unfolding normalize_order_lifecycle_read_filters lifecycle_models build_lifecycle_aggregates
    get_admin_lifecycle_orders filters rows =
        normalize_order_lifecycle_read_filters readers filters >>= λ normalized.
        ok (admin_orders rows normalized)

-- ===== src/Examples/Reading.antt =====
-- The theorems on reads, at a table of one order.
use orders_microservice.Lifecycle.Derive.{lifecycle_stage, derive_order_lifecycle_state}
use orders_microservice.Base.Text.{trim, to_lower_case, to_upper_case, text_eq, mem_text, Text, lit}
use orders_microservice.Base.{is_inherited, refl, ◌≡◌, ok, none, false, List, some, [], ◌∷◌}
use orders_microservice.Reads.Queries.{
  customer_orders, CustomerOrders, is_customers, get_customer_lifecycle_orders, lifecycle_models,
  customer_options,
}
use orders_microservice.Reads.Scope.{get_customer_lifecycle_orders-IsCustomerPage, IsCustomerPage}
use orders_microservice.Reads.Filters.{
  NormalizedOrderLifecycleReadFilters, OrderLifecycleReadFilters, Readers,
}
use orders_microservice.Examples.Data.{new_order, paid_order}
use orders_microservice.Reads.Timeline.{build_lifecycle_timeline-IsTimeline, IsTimeline}
use orders_microservice.Reads.{
  build_lifecycle_timeline, OrderLifecycleReadModel, serialize_order_lifecycle_read_model,
}
use orders_microservice.Reads.Counts.{build_lifecycle_aggregates-IsAggregate, IsAggregate}
use orders_microservice.Reads.Aggregates.{build_lifecycle_aggregates}
use orders_microservice.Entities.{Order}
use orders_microservice.Json.{finite}

abbrev customer_id : Text
customer_id = lit "11111111-1111-4111-8111-111111111111"

abbrev bought : Order
bought = record paid_order {
  customer = some (record {
    auth_user_id = none;
    subject = some customer_id;
    name = some (lit "Anna");
    email = none;
    phone = none;
  });
}

abbrev no_filters : OrderLifecycleReadFilters
no_filters = record {
  channel = [];
  status = [];
  lifecycle_stage = [];
  payment_status = [];
  from_date = [];
  to_date = [];
  limit = lit "7";
}

abbrev plain_readers : Readers
plain_readers = record { parse_date = λ s. none; to_number = λ s. finite false 7 0 0 }

abbrev same_text : Text → Text
same_text = λ s. s

build_lifecycle_timeline-IsTimeline_example :
    let state = derive_order_lifecycle_state paid_order in
    IsTimeline paid_order state.lifecycle_stage (build_lifecycle_timeline paid_order state)
build_lifecycle_timeline-IsTimeline_example =
    build_lifecycle_timeline-IsTimeline paid_order (derive_order_lifecycle_state paid_order)

abbrev two_models : List OrderLifecycleReadModel
unfolding serialize_order_lifecycle_read_model
two_models =
    serialize_order_lifecycle_read_model (customer_options same_text) bought
    ∷ serialize_order_lifecycle_read_model (customer_options same_text) new_order
    ∷ []

build_lifecycle_aggregates-IsAggregate_example :
    IsAggregate two_models (build_lifecycle_aggregates two_models)
unfolding is_inherited mem_text text_eq serialize_order_lifecycle_read_model
    derive_order_lifecycle_state lifecycle_stage trim to_lower_case to_upper_case
build_lifecycle_aggregates-IsAggregate_example =
    build_lifecycle_aggregates-IsAggregate two_models (refl, (refl, tt)) (refl, (refl, tt))
      (refl, (refl, tt))

abbrev seven : NormalizedOrderLifecycleReadFilters
seven = record {
  channel = none;
  status = none;
  lifecycle_stage = none;
  payment_status = none;
  from_date = none;
  to_date = none;
  limit = 7;
}

abbrev page : CustomerOrders same_text
unfolding lifecycle_models is_customers
page = customer_orders same_text customer_id (bought ∷ []) seven

page_lem :
    get_customer_lifecycle_orders same_text plain_readers customer_id no_filters (bought ∷ [])
    ≡ ok page
unfolding get_customer_lifecycle_orders
page_lem = refl

get_customer_lifecycle_orders-IsCustomerPage_example :
    IsCustomerPage plain_readers same_text customer_id (bought ∷ []) page
get_customer_lifecycle_orders-IsCustomerPage_example =
    get_customer_lifecycle_orders-IsCustomerPage plain_readers same_text customer_id no_filters
      (bought ∷ []) {page = page} page_lem

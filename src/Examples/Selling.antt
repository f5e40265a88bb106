-- ===== src/Examples/Selling.antt =====
-- The theorems on sales, at a table of one order.
use orders_microservice.Lifecycle.Derive.{
  normalize_stored_status, lifecycle_stage, derive_order_lifecycle_state,
}
use orders_microservice.Sales.Statistics.{
  aggregate_key, build_product_sales_lifecycle_statistics, ChannelRow,
}
use orders_microservice.Base.Text.{mem_text, text_eq, Text, lit}
use orders_microservice.Base.{is_inherited, List, none, some, [], ◌∷◌, refl, ok, ◌≡◌}
use orders_microservice.Sales.Accepted.{
  normalize_product_sales_statistics_filters-IsSalesFilter, IsSalesFilter,
}
use orders_microservice.Sales.Replay.{
  replay_answer, ReplayCandidates, replay_events, OrderAffinityReplayFilters,
  get_order_affinity_replay_candidates, replay_orders,
}
use orders_microservice.Sales.Tallies.{
  build_product_sales_lifecycle_statistics-IsStatistics, IsStatistics,
}
use orders_microservice.Examples.Data.{new_order, one_item, paid_order}
use orders_microservice.Sales.{
  unique_from, NormalizedProductSalesStatisticsFilters, ProductSalesStatisticsFilters,
  normalize_product_sales_statistics_filters,
}
use orders_microservice.Sales.Candidates.{get_order_affinity_replay_candidates-IsReplay, IsReplay}
use orders_microservice.Entities.{Order}

abbrev sold_order : Order
sold_order = record paid_order {
  status = lit "confirmed";
  items = one_item ∷ record one_item { product_id = lit "p9" } ∷ [];
}

abbrev unsorted : List (Text × ChannelRow) → List (Text × ChannelRow)
unsorted = λ rows. rows

build_product_sales_lifecycle_statistics-IsStatistics_example :
    IsStatistics
      (sold_order ∷ new_order ∷ [])
      (build_product_sales_lifecycle_statistics unsorted (sold_order ∷ new_order ∷ []))
unfolding is_inherited mem_text text_eq derive_order_lifecycle_state lifecycle_stage aggregate_key
    normalize_stored_status
build_product_sales_lifecycle_statistics-IsStatistics_example =
    build_product_sales_lifecycle_statistics-IsStatistics unsorted (λ channel rows. refl)
      (sold_order ∷ new_order ∷ []) (refl, (refl, tt))

abbrev replay_filters : OrderAffinityReplayFilters
replay_filters = record { from_date = []; to_date = []; channel = []; limit = lit "5" }

abbrev as_is : Text → Text
as_is = λ s. s

abbrev stored_order : List Order → List Order
stored_order = λ rows. rows

abbrev replayed : ReplayCandidates
unfolding replay_orders replay_events
replayed =
    replay_answer as_is stored_order (sold_order ∷ [])
      (record { channel = []; from_date = none; to_date = none; limit = 5 })

replayed_lem :
    get_order_affinity_replay_candidates as_is stored_order
      (λ s. none)
      replay_filters
      (sold_order ∷ [])
    ≡ ok replayed
unfolding get_order_affinity_replay_candidates
replayed_lem = refl

get_order_affinity_replay_candidates-IsReplay_example :
    IsReplay as_is stored_order (λ xs order i. i) (sold_order ∷ []) replayed
get_order_affinity_replay_candidates-IsReplay_example =
    get_order_affinity_replay_candidates-IsReplay as_is stored_order (λ xs order i. i) (λ s. none)
      replay_filters (sold_order ∷ []) {answer = replayed} replayed_lem

abbrev sales_filters : ProductSalesStatisticsFilters
sales_filters = record {
  from_date = [];
  to_date = [];
  channel = lit "Allegro";
  status = lit "shipped,shipped, pending";
}

abbrev sales_filter : NormalizedProductSalesStatisticsFilters
sales_filter = record {
  product_id = lit "p1";
  from_date = none;
  to_date = none;
  channel = some (lit "allegro");
  statuses = lit "shipped" ∷ lit "pending" ∷ [];
}

sales_filter_lem :
    normalize_product_sales_statistics_filters (λ s. none) (lit " p1") sales_filters
    ≡ ok sales_filter
unfolding normalize_product_sales_statistics_filters unique_from text_eq
sales_filter_lem = refl

normalize_product_sales_statistics_filters-IsSalesFilter_example : IsSalesFilter sales_filter
normalize_product_sales_statistics_filters-IsSalesFilter_example =
    normalize_product_sales_statistics_filters-IsSalesFilter (λ s. none) (lit " p1") sales_filters
      {filters = sales_filter} sales_filter_lem

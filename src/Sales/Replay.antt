-- ===== src/Sales/Replay.antt =====
-- The replay of orders of src/orders/orders.service.ts. The table is a list of orders; `LOWER` and the
-- order of the rows are the database's, and parameters. A column of scale 2 is in hundredths.
use orders_microservice.Base.{
  ◌&&◌, leb, ltb, throw_if, map, filter, length, not, take, Option, Result, Bool, List, ℕ, none,
  some, [], ◌∷◌, ◌++◌, ok, if◌then◌else◌, ◌>>=◌, ◌>>◌, ◌||◌,
}
use orders_microservice.Reads.Filters.{is_after}
use orders_microservice.Base.Text.{
  non_empty, is_empty, mem_text, to_lower_case, trim, trim_start, Text, text_eq, lit,
}
use orders_microservice.Reads.Queries.{order_date, if_given, lower_is}
use orders_microservice.Sales.{
  sales_from_after_to, unsupported_channel_filter, product_sales_allowed_channels, unique,
  normalize_product_sales_date, unique_from, SalesError, product_sales_default_statuses,
}
use orders_microservice.Base.ParseInt.{clamp, parse_signed}
use orders_microservice.Events.{truthy, trimmed_sku}
use orders_microservice.Entities.{Order, OrderItem}

-- an absent filter is the empty text
pub record OrderAffinityReplayFilters : Type 0 where
  pub from_date : Text
  pub to_date : Text
  pub channel : Text
  pub limit : Text

pub record NormalizedReplayFilters : Type 0 where
  pub channel : Text
  pub from_date : Option ℕ
  pub to_date : Option ℕ
  pub limit : ℕ

unfoldable pub replay_limit : Text → ℕ
unfolding trim_start parse_signed
replay_limit limit = elim (parse_signed (trim_start limit)) [ none ↦ 100 | some n ↦ clamp 500 n ]

unfoldable pub normalize_order_affinity_replay_filters :
    (Text → Option ℕ) → OrderAffinityReplayFilters → Result SalesError NormalizedReplayFilters
unfolding trim to_lower_case mem_text normalize_product_sales_date replay_limit
normalize_order_affinity_replay_filters parse_date filters =
    let channel = to_lower_case (trim filters.channel) in
    do
      throw_if (not (is_empty channel) && not (mem_text channel product_sales_allowed_channels))
          (unsupported_channel_filter channel)
      from_date ← normalize_product_sales_date parse_date filters.from_date (lit "from")
      to_date ← normalize_product_sales_date parse_date filters.to_date (lit "to")
      throw_if (is_after from_date to_date) sales_from_after_to
      ok (record {
        channel = channel;
        from_date = from_date;
        to_date = to_date;
        limit = replay_limit filters.limit;
      })

pub record ReplayItem : Type 0 where
  pub product_id : Text
  pub sku : Option Text
  pub quantity : ℕ
  pub unit_price : ℕ
  pub total_price : ℕ

-- The envelope's constant fields are left out. A stored order has the date of its creation at least.
pub record ReplayEvent : Type 0 where
  pub event_id : Text
  pub occurred_at : ℕ
  pub order_id : Text
  pub channel : Text
  pub items : List ReplayItem
  pub currency : Option Text

unfoldable pub replay_item : OrderItem → ReplayItem
unfolding trim
replay_item item = record {
  product_id = trim item.product_id;
  sku = trimmed_sku (truthy item.sku);
  quantity = item.quantity;
  unit_price = item.unit_price;
  total_price = item.total_price;
}

abbrev pub is_replayed : ReplayItem → Bool
is_replayed item = not (is_empty item.product_id) && ltb 0 item.quantity

unfoldable pub replay_items : Order → List ReplayItem
unfolding replay_item
replay_items order = filter is_replayed (map replay_item order.items)

abbrev pub product_of : ReplayItem → Text
product_of item = item.product_id

unfoldable pub to_order_affinity_replay_event : Order → Option ReplayEvent
unfolding replay_items to_lower_case unique_from
to_order_affinity_replay_event order =
    let items = replay_items order in
    if ltb (length (unique (map product_of items))) 2
    then none
    else some (record {
      event_id = lit "orders.order.created.v1:historical:" ++ order.id;
      occurred_at = order_date order;
      order_id = lit "historical:" ++ order.id;
      channel = to_lower_case order.channel;
      items = items;
      currency = non_empty order.currency;
    })

-- `orders.map(toOrderAffinityReplayEvent).filter(Boolean)`
unfoldable pub replay_events : List Order → List ReplayEvent
unfolding to_order_affinity_replay_event
replay_events [] = []
replay_events (o ∷ os) =
    let rest = replay_events os in
    elim (to_order_affinity_replay_event o) [ none ↦ rest | some event ↦ event ∷ rest ]

abbrev pub order_affinity_replay_statuses : List Text
order_affinity_replay_statuses = product_sales_default_statuses

pub record ReplayCandidates : Type 0 where
  pub filters : NormalizedReplayFilters
  pub count : ℕ
  pub events : List ReplayEvent

module _ (lower : Text → Text) (oldest_first : List Order → List Order) where
  unfoldable pub is_replay_order : NormalizedReplayFilters → Order → Bool
  unfolding mem_text text_eq
  is_replay_order filters order =
      mem_text (lower order.status) order_affinity_replay_statuses
      && lower_is lower order.payment_status (lit "paid")
      && (is_empty filters.channel || text_eq (lower order.channel) filters.channel)
      && if_given filters.from_date (λ t. leb t (order_date order))
      && if_given filters.to_date (λ t. leb (order_date order) t)

  unfoldable pub replay_orders : NormalizedReplayFilters → List Order → List Order
  unfolding is_replay_order
  replay_orders filters rows =
      take filters.limit (oldest_first (filter (is_replay_order filters) rows))

  abbrev pub replay_answer : List Order → NormalizedReplayFilters → ReplayCandidates
  unfolding replay_orders replay_events
  replay_answer rows filters =
      let events = replay_events (replay_orders filters rows) in
      record { filters = filters; count = length events; events = events }

  unfoldable pub get_order_affinity_replay_candidates :
      (Text → Option ℕ)
      → OrderAffinityReplayFilters
      → List Order
      → Result SalesError ReplayCandidates
  unfolding normalize_order_affinity_replay_filters replay_orders replay_events
  get_order_affinity_replay_candidates parse_date filters rows =
      normalize_order_affinity_replay_filters parse_date filters >>= λ normalized.
      ok (replay_answer rows normalized)

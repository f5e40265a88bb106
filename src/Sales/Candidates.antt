-- ===== src/Sales/Candidates.antt =====
-- Which orders src/orders/orders.service.ts gives for a replay.
use orders_microservice.Base.{
  ◌&&◌, refl, throw_if, not, filter-keeps, ok_injective, >>=-eq-ok, All-pair, ok, All-map, take-All,
  ℕ, Option, filter, length-take-le, filter-All, some_injective, ltb, Bool-cases, Option-cases, All,
  map, length, List, some, [], ◌∷◌, true, ◌≡◌, ◌≤◌, inl, inr, arith,
}
use orders_microservice.Sales.{
  sales_from_after_to, normalize_product_sales_date, unsupported_channel_filter,
  product_sales_allowed_channels, unique,
}
use orders_microservice.Reads.Filters.{is_after}
use orders_microservice.Base.Text.{lit, mem_text, is_empty, trim, to_lower_case, trim_start, Text}
use orders_microservice.Reads.Answer.{every_row, All-IsIn, IsIn}
use orders_microservice.Sales.Replay.{
  OrderAffinityReplayFilters, ReplayCandidates, get_order_affinity_replay_candidates,
  normalize_order_affinity_replay_filters, replay_limit, replay_orders, replay_item, is_replayed,
  product_of, is_replay_order, replay_events, ReplayEvent, replay_items, NormalizedReplayFilters,
  to_order_affinity_replay_event,
}
use orders_microservice.Base.ParseInt.{parse_signed}
use mathlib.Core.Path.{subst}
use orders_microservice.Entities.{Order}

-- an event of the answer, with its order
pub record IsCandidate (lower : Text → Text) (oldest_first : List Order → List Order)
    (filters : NormalizedReplayFilters) (rows : List Order) (event : ReplayEvent) : Type 0 where
  pub order : Order
  pub stored : IsIn order rows
  pub wanted : is_replay_order lower oldest_first filters order ≡ true
  pub shown : to_order_affinity_replay_event order ≡ some event
  pub several : 2 ≤ length (unique (map product_of event.items))
  pub sold : All (λ item. is_replayed item ≡ true) event.items

replay_event_several :
    (order : Order) (event : ReplayEvent)
    → to_order_affinity_replay_event order ≡ some event
    → (2 ≤ length (unique (map product_of event.items)))
      × All (λ item. is_replayed item ≡ true) event.items
unfolding to_order_affinity_replay_event replay_items
replay_event_several order event h =
    let items = replay_items order in
    elim (Bool-cases (ltb (length (unique (map product_of items))) 2)) [
      | inl few ↦ let e = rw (few, to_order_affinity_replay_event) at h in cc
      | inr many ↦
          subst
            (λ x.
              (2 ≤ length (unique (map product_of x.items)))
              × All (λ item. is_replayed item ≡ true) x.items)
            (some_injective (rw (many, to_order_affinity_replay_event) at h))
            (ground (arith, many), filter-All is_replayed (map replay_item order.items))
    ]

module _ (lower : Text → Text) (oldest_first : List Order → List Order)
    (permutes : (xs : List Order) (order : Order)
      → IsIn order (oldest_first xs)
      → IsIn order xs) where
  replay_events-All :
      (filters : NormalizedReplayFilters) (rows orders : List Order)
      → All (λ o. IsIn o rows × (is_replay_order lower oldest_first filters o ≡ true)) orders
      → All (IsCandidate lower oldest_first filters rows) (replay_events orders)
        × (length (replay_events orders) ≤ length orders)
  unfolding replay_events
  replay_events-All filters rows [] h = (tt, omega arith)
  replay_events-All filters rows (o ∷ os) h =
      let (rest, fewer) = replay_events-All filters rows os h.1 in
      elim (Option-cases (to_order_affinity_replay_event o)) [
        | inl passed ↦ rw (passed, replay_events) (rest, omega (arith, fewer))
        | inr (event, given) ↦
            let (several, sold) = replay_event_several o event given in
            rw (given, replay_events)
              (
                (
                  record {
                    order = o;
                    stored = h.0.0;
                    wanted = h.0.1;
                    shown = given;
                    several = several;
                    sold = sold;
                  },
                  rest,
                ),
                omega (arith, fewer),
              )
      ]

  replay_orders-All :
      (filters : NormalizedReplayFilters) (rows : List Order)
      → All
          (λ o. IsIn o rows × (is_replay_order lower oldest_first filters o ≡ true))
          (replay_orders lower oldest_first filters rows)
  unfolding replay_orders
  replay_orders-All filters rows =
      let found = filter (is_replay_order lower oldest_first filters) rows in
      let Fits : Order → Type 0 =
        λ o. IsIn o rows × (is_replay_order lower oldest_first filters o ≡ true) in
      take-All Fits filters.limit (oldest_first found) (
        All-map (λ o. IsIn o (oldest_first found)) Fits (oldest_first found)
          (λ o i.
            All-IsIn Fits found
              (All-pair (λ x. IsIn x rows)
                (λ x. is_replay_order lower oldest_first filters x ≡ true) Fits found
                (λ x a b. (a, b))
                (filter-keeps (λ x. IsIn x rows) (is_replay_order lower oldest_first filters) rows
                  (every_row rows))
                (filter-All (is_replay_order lower oldest_first filters) rows))
              (permutes found o i))
          (every_row (oldest_first found)))

  replay_orders_short :
      (filters : NormalizedReplayFilters) (rows : List Order)
      → length (replay_orders lower oldest_first filters rows) ≤ filters.limit
  unfolding replay_orders
  replay_orders_short filters rows =
      length-take-le filters.limit
        (oldest_first (filter (is_replay_order lower oldest_first filters) rows))

  -- what a replay gives
  pub record IsReplay (rows : List Order) (answer : ReplayCandidates) : Type 0 where
    pub at_least : 1 ≤ answer.filters.limit
    pub at_most : answer.filters.limit ≤ 500
    pub counted : answer.count ≡ length answer.events
    pub short : answer.count ≤ answer.filters.limit
    pub candidates : All (IsCandidate lower oldest_first answer.filters rows) answer.events

  replay_limit_between : (limit : Text) → (1 ≤ replay_limit limit) × (replay_limit limit ≤ 500)
  unfolding replay_limit
  replay_limit_between limit = elim (Option-cases (parse_signed (trim_start limit))) [
    | inl unread ↦ rw (unread, replay_limit) (omega arith, omega arith)
    | inr (n, read) ↦ rw (read, replay_limit) (ground arith, ground arith)
  ]

  normalize_order_affinity_replay_filters_limit :
      (parse_date : Text → Option ℕ) (given : OrderAffinityReplayFilters)
      (filters : NormalizedReplayFilters)
      → normalize_order_affinity_replay_filters parse_date given ≡ ok filters
      → filters.limit ≡ replay_limit given.limit
  unfolding normalize_order_affinity_replay_filters
  normalize_order_affinity_replay_filters_limit parse_date given filters h =
      let channel = to_lower_case (trim given.channel) in
      let wrong = not (is_empty channel) && not (mem_text channel product_sales_allowed_channels) in
      let (_, e1, h1) = >>=-eq-ok (throw_if wrong (unsupported_channel_filter channel)) _ h in
      let (from_date, e2, h2) =
        >>=-eq-ok (normalize_product_sales_date parse_date given.from_date (lit "from")) _ h1 in
      let (to_date, e3, h3) =
        >>=-eq-ok (normalize_product_sales_date parse_date given.to_date (lit "to")) _ h2 in
      let (_, e4, h4) =
        >>=-eq-ok (throw_if (is_after from_date to_date) sales_from_after_to) _ h3 in
      subst (λ f. f.limit ≡ replay_limit given.limit) (ok_injective h4) refl

  -- If the database gives each row of its order once, a replay that answers gives as many events as
  -- its limit at most, which is from 1 to 500; and each is the event of an order of the table that is
  -- paid and confirmed, processing, shipped or delivered, and that the filters let through, with two
  -- products at least and every quantity above zero.
  pub get_order_affinity_replay_candidates-IsReplay :
      (parse_date : Text → Option ℕ) (given : OrderAffinityReplayFilters) (rows : List Order)
      {answer : ReplayCandidates}
      → get_order_affinity_replay_candidates lower oldest_first parse_date given rows ≡ ok answer
      → IsReplay rows answer
  unfolding get_order_affinity_replay_candidates
  get_order_affinity_replay_candidates-IsReplay parse_date given rows h =
      let (filters, read, h1) =
        >>=-eq-ok (normalize_order_affinity_replay_filters parse_date given) _ h in
      let limit = normalize_order_affinity_replay_filters_limit parse_date given filters read in
      let (least, most) = replay_limit_between given.limit in
      let (events, fewer) =
        replay_events-All filters rows (replay_orders lower oldest_first filters rows)
          (replay_orders-All filters rows) in
      subst (IsReplay rows) (ok_injective h1) (record {
        at_least = omega (arith, least, limit);
        at_most = omega (arith, most, limit);
        counted = refl;
        short = omega (arith, fewer, replay_orders_short filters rows);
        candidates = events;
      })

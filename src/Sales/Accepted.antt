-- ===== src/Sales/Accepted.antt =====
-- What accepted filters of the product sales statistics satisfy, in src/orders/orders.service.ts.
use orders_microservice.Sales.{
  sales_from_after_to, normalize_product_sales_date, ProductSalesStatisticsFilters, split_commas,
  find_unsupported, normalize_product_sales_statistics_filters, normalize_statuses,
  refuse_unsupported, sales_statuses, field_too_long, field_required, unsupported_channel_filter,
  normalize_product_sales_string, normalize_sales_channel, product_sales_allowed_channels,
  product_sales_allowed_statuses, NormalizedProductSalesStatisticsFilters, unique_from,
}
use orders_microservice.Base.{
  ℕ, ◌++◌, refl, ltb, throw_if-eq-ok, ok_injective, throw_if, >>=-eq-ok, not, All, Bool-cases,
  length, Option, List, none, some, [], ◌∷◌, ok, true, false, ◌≡◌, ◌≤◌, inl, inr, arith, ◌&&◌,
}
use orders_microservice.Base.Text.{
  lower_unit, to_lower_case, trim, text_eq, is_empty, mem_text, Text, lit,
}
use orders_microservice.Base.Text.Laws.{text_eq_iff, text_eq_refl}
use mathlib.Core.Path.{subst}
use orders_microservice.Reads.Filters.{is_after}

abbrev pub IsAllowedStatus : Text → Type 0
IsAllowedStatus s = mem_text s product_sales_allowed_statuses ≡ true

-- no text stands in the list twice
abbrev pub IsUnique : List Text → Type 0
IsUnique [] = Unit
IsUnique (t ∷ ts) = (mem_text t ts ≡ false) × IsUnique ts

abbrev pub IsAllowedChannel : Option Text → Type 0
IsAllowedChannel none = Unit
IsAllowedChannel (some c) = is_empty c ≡ false → mem_text c product_sales_allowed_channels ≡ true

-- the filters that a request may have
pub record IsSalesFilter (filters : NormalizedProductSalesStatisticsFilters) : Type 0 where
  pub product : is_empty filters.product_id ≡ false
  pub short : length filters.product_id ≤ 500
  pub channel : IsAllowedChannel filters.channel
  pub statuses : All IsAllowedStatus filters.statuses
  pub once : IsUnique filters.statuses
  pub ordered : is_after filters.from_date filters.to_date ≡ false

unique_from-All :
    (seen ts : List Text) → All IsAllowedStatus ts → All IsAllowedStatus (unique_from seen ts)
unfolding unique_from
unique_from-All seen [] h = tt
unique_from-All seen (t ∷ ts) h = elim (Bool-cases (mem_text t seen)) [
  | inl known ↦ rw known (unique_from-All seen ts h.1)
  | inr new ↦ rw new (h.0, unique_from-All (t ∷ seen) ts h.1)
]

text_eq_other :
    (t u : Text) (seen : List Text)
    → mem_text t seen ≡ false
    → mem_text u seen ≡ true
    → text_eq t u ≡ false
text_eq_other t u seen no_t yes_u = elim (Bool-cases (text_eq t u)) [
  | inl same ↦
      let e : mem_text u seen ≡ false =
        subst (λ x. mem_text x seen ≡ false) ((text_eq_iff t u).0 same) no_t in
      cc
  | inr other ↦ other
]

-- what was seen is not kept again
unique_from-fresh :
    (u : Text) (seen ts : List Text)
    → mem_text u seen ≡ true
    → mem_text u (unique_from seen ts) ≡ false
unfolding unique_from mem_text
unique_from-fresh u seen [] h = refl
unique_from-fresh u seen (t ∷ ts) h = elim (Bool-cases (mem_text t seen)) [
  | inl known ↦ rw known (unique_from-fresh u seen ts h)
  | inr new ↦
      let unlike : text_eq t u ≡ false = text_eq_other t u seen new h in
      rw new (ground (arith, unlike, unique_from-fresh u (t ∷ seen) ts (ground (arith, h))))
]

unique_from-IsUnique : (seen ts : List Text) → IsUnique (unique_from seen ts)
unfolding unique_from mem_text
unique_from-IsUnique seen [] = tt
unique_from-IsUnique seen (t ∷ ts) = elim (Bool-cases (mem_text t seen)) [
  | inl known ↦ rw known (unique_from-IsUnique seen ts)
  | inr new ↦ rw new (
    unique_from-fresh t (t ∷ seen) ts (ground (arith, text_eq_refl t)),
    unique_from-IsUnique (t ∷ seen) ts,
  )
]

allowed :
    (key : Text)
    → (not (is_empty key) && not (mem_text key product_sales_allowed_channels)) ≡ false
    → is_empty key ≡ false
    → mem_text key product_sales_allowed_channels ≡ true
allowed key right full = ground (arith, right, full)

normalize_product_sales_string-fits :
    (value name : Text) (given : Text)
    → normalize_product_sales_string value name ≡ ok given
    → (is_empty given ≡ false) × (length given ≤ 500)
unfolding normalize_product_sales_string
normalize_product_sales_string-fits value name given h =
    let (_, e1, h1) = >>=-eq-ok (throw_if (is_empty (trim value)) (field_required name)) _ h in
    let (_, e2, h2) =
      >>=-eq-ok (throw_if (ltb 500 (length (trim value))) (field_too_long name)) _ h1 in
    let full = throw_if-eq-ok (is_empty (trim value)) (field_required name) e1 in
    let short = throw_if-eq-ok (ltb 500 (length (trim value))) (field_too_long name) e2 in
    subst (λ s. (is_empty s ≡ false) × (length s ≤ 500)) (ok_injective h2)
      (full, ground (arith, short))

normalize_sales_channel-IsAllowedChannel :
    (value : Text) (channel : Option Text)
    → normalize_sales_channel value ≡ ok channel
    → IsAllowedChannel channel
unfolding normalize_sales_channel
normalize_sales_channel-IsAllowedChannel [] channel h = subst IsAllowedChannel (ok_injective h) tt
normalize_sales_channel-IsAllowedChannel (c ∷ s) channel h =
    let (given, e1, h1) = >>=-eq-ok (normalize_product_sales_string (c ∷ s) (lit "channel")) _ h in
    let key = to_lower_case given in
    let wrong = not (is_empty key) && not (mem_text key product_sales_allowed_channels) in
    let (_, e2, h2) = >>=-eq-ok (throw_if wrong (unsupported_channel_filter key)) _ h1 in
    let right = throw_if-eq-ok wrong (unsupported_channel_filter key) e2 in
    subst IsAllowedChannel (ok_injective h2) (allowed key right)

lower_unit_full : (c : ℕ) → is_empty (lower_unit c) ≡ false
unfolding lower_unit
lower_unit_full c = ground arith

append_full : (s t : Text) → is_empty s ≡ false → is_empty (s ++ t) ≡ false
append_full [] t h = cc
append_full (c ∷ s) t h = refl

to_lower_case_full : (s : Text) → is_empty s ≡ false → is_empty (to_lower_case s) ≡ false
unfolding to_lower_case
to_lower_case_full [] h = cc
to_lower_case_full (c ∷ s) h = append_full (lower_unit c) (to_lower_case s) (lower_unit_full c)

abbrev IsFull : Text → Type 0
IsFull t = is_empty t ≡ false

normalize_statuses-All : (ss ts : List Text) → normalize_statuses ss ≡ ok ts → All IsFull ts
unfolding normalize_statuses
normalize_statuses-All [] ts h = subst (All IsFull) (ok_injective h) tt
normalize_statuses-All (s ∷ ss) ts h =
    let (first, e1, h1) = >>=-eq-ok (normalize_product_sales_string s (lit "status")) _ h in
    let (rest, e2, h2) = >>=-eq-ok (normalize_statuses ss) _ h1 in
    subst (All IsFull) (ok_injective h2) (
      to_lower_case_full first (normalize_product_sales_string-fits s (lit "status") first e1).0,
      normalize_statuses-All ss rest e2,
    )

sales_statuses-All : (value : Text) (ts : List Text) → sales_statuses value ≡ ok ts → All IsFull ts
unfolding sales_statuses
sales_statuses-All [] ts h = subst (All IsFull) (ok_injective h) (refl, (refl, (refl, (refl, tt))))
sales_statuses-All (c ∷ s) ts h = normalize_statuses-All (split_commas (c ∷ s)) ts h

refused_full :
    (t : Text)
    → is_empty t ≡ false
    → refuse_unsupported (some t) ≡ ok tt
    → mem_text t product_sales_allowed_statuses ≡ true
refused_full [] full h = cc
refused_full (c ∷ s) full h = cc

find_unsupported-All :
    (ts : List Text)
    → All IsFull ts
    → refuse_unsupported (find_unsupported ts) ≡ ok tt
    → All IsAllowedStatus ts
unfolding find_unsupported
find_unsupported-All [] full h = tt
find_unsupported-All (t ∷ ts) full h =
    elim (Bool-cases (mem_text t product_sales_allowed_statuses)) [
      | inl known ↦ (known, find_unsupported-All ts full.1 (rw (known, find_unsupported) at h))
      | inr unknown ↦ let e = refused_full t full.0 (rw (unknown, find_unsupported) at h) in cc
    ]

-- Accepted filters of the statistics have a product id that is not empty and not longer than 500
-- units, a channel of the supported ones or none, statuses of the supported ones, each once, and no
-- first date after the last.
pub normalize_product_sales_statistics_filters-IsSalesFilter :
    (parse_date : Text → Option ℕ) (product_id : Text) (given : ProductSalesStatisticsFilters)
    {filters : NormalizedProductSalesStatisticsFilters}
    → normalize_product_sales_statistics_filters parse_date product_id given ≡ ok filters
    → IsSalesFilter filters
unfolding normalize_product_sales_statistics_filters
normalize_product_sales_statistics_filters-IsSalesFilter parse_date product_id given h =
    let (product, e1, h1) =
      >>=-eq-ok (normalize_product_sales_string product_id (lit "productId")) _ h in
    let (channel, e2, h2) = >>=-eq-ok (normalize_sales_channel given.channel) _ h1 in
    let (statuses, e3, h3) = >>=-eq-ok (sales_statuses given.status) _ h2 in
    let (_, e4, h4) = >>=-eq-ok (refuse_unsupported (find_unsupported statuses)) _ h3 in
    let (from_date, e5, h5) =
      >>=-eq-ok (normalize_product_sales_date parse_date given.from_date (lit "from")) _ h4 in
    let (to_date, e6, h6) =
      >>=-eq-ok (normalize_product_sales_date parse_date given.to_date (lit "to")) _ h5 in
    let (_, e7, h7) = >>=-eq-ok (throw_if (is_after from_date to_date) sales_from_after_to) _ h6 in
    let (full, short) =
      normalize_product_sales_string-fits product_id (lit "productId") product e1 in
    subst IsSalesFilter (ok_injective h7) (record {
      product = full;
      short = short;
      channel = normalize_sales_channel-IsAllowedChannel given.channel channel e2;
      statuses =
          unique_from-All [] statuses
            (find_unsupported-All statuses (sales_statuses-All given.status statuses e3) e4);
      once = unique_from-IsUnique [] statuses;
      ordered = throw_if-eq-ok (is_after from_date to_date) sales_from_after_to e7;
    })

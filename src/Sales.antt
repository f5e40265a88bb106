-- ===== src/Sales.antt =====
-- src/orders/orders.service.ts: the filters of the product sales statistics and of the replay of
-- orders. `new Date` is a parameter.
use orders_microservice.Base.{
  length, ltb, not, throw_if, Option, Result, Bool, List, ℕ, none, some, [], ◌∷◌, ok, throw,
  if◌then◌else◌, ◌>>=◌, ◌>>◌, true, false, ◌&&◌, ◌||◌, ◌==◌,
}
use orders_microservice.Reads.Filters.{is_after}
use orders_microservice.Base.Text.{is_empty, mem_text, to_lower_case, trim, Text, text_eq, lit}
pub mod Statistics
pub mod Tallies
pub mod Replay
pub mod Candidates
pub mod Accepted

pub data SalesError : Type 0 where
  field_required field_too_long sales_date_invalid : (field : Text) → SalesError
  unsupported_channel_filter unsupported_status_filter : Text → SalesError
  sales_from_after_to : SalesError

abbrev pub product_sales_default_statuses : List Text
product_sales_default_statuses =
    lit "confirmed" ∷ lit "processing" ∷ lit "shipped" ∷ lit "delivered" ∷ []

abbrev pub product_sales_allowed_statuses : List Text
product_sales_allowed_statuses =
    lit "pending"
    ∷ lit "confirmed"
    ∷ lit "processing"
    ∷ lit "shipped"
    ∷ lit "delivered"
    ∷ lit "cancelled"
    ∷ []

abbrev pub product_sales_allowed_channels : List Text
product_sales_allowed_channels =
    lit "flipflop" ∷ lit "allegro" ∷ lit "aukro" ∷ lit "bazos" ∷ lit "heureka" ∷ lit "cliplot" ∷ []

-- an absent filter is the empty text
pub record ProductSalesStatisticsFilters : Type 0 where
  pub from_date : Text
  pub to_date : Text
  pub channel : Text
  pub status : Text

pub record NormalizedProductSalesStatisticsFilters : Type 0 where
  pub product_id : Text
  pub from_date : Option ℕ
  pub to_date : Option ℕ
  pub channel : Option Text
  pub statuses : List Text

unfoldable pub normalize_product_sales_string : Text → Text → Result SalesError Text
unfolding trim
normalize_product_sales_string value name = do
  throw_if (is_empty (trim value)) (field_required name)
  throw_if (ltb 500 (length (trim value))) (field_too_long name)
  ok (trim value)

-- `split(',')`: the part before the first comma, and the parts after it
abbrev pub push_unit : ℕ → List Text → List Text
push_unit c [] = (c ∷ []) ∷ []
push_unit c (part ∷ parts) = (c ∷ part) ∷ parts

unfoldable pub split_commas : Text → List Text
split_commas [] = [] ∷ []
split_commas (c ∷ s) =
    let rest = split_commas s in if c == b',' then [] ∷ rest else push_unit c rest

unfoldable pub normalize_statuses : List Text → Result SalesError (List Text)
unfolding normalize_product_sales_string to_lower_case
normalize_statuses [] = ok []
normalize_statuses (s ∷ ss) = do
  first ← normalize_product_sales_string s (lit "status")
  rest ← normalize_statuses ss
  ok (to_lower_case first ∷ rest)

-- `statuses.find((status) => !ALLOWED.has(status))`
unfoldable pub find_unsupported : List Text → Option Text
unfolding mem_text
find_unsupported [] = none
find_unsupported (s ∷ ss) =
    let rest = find_unsupported ss in
    if mem_text s product_sales_allowed_statuses then rest else some s

-- `Array.from(new Set(texts))`, with the texts that are there already
unfoldable pub unique_from : List Text → List Text → List Text
unfolding mem_text
unique_from seen [] = []
unique_from seen (t ∷ ts) =
    let known = mem_text t seen in
    let rest = unique_from (if known then seen else t ∷ seen) ts in if known then rest else t ∷ rest

abbrev pub unique : List Text → List Text
unique ts = unique_from [] ts

-- `filters.channel ? normalizeProductSalesString(…).toLowerCase() : undefined`, and its test
unfoldable pub normalize_sales_channel : Text → Result SalesError (Option Text)
unfolding normalize_product_sales_string to_lower_case mem_text
normalize_sales_channel [] = ok none
normalize_sales_channel (c ∷ s) = do
  given ← normalize_product_sales_string (c ∷ s) (lit "channel")
  throw_if
      (not (is_empty (to_lower_case given))
        && not (mem_text (to_lower_case given) product_sales_allowed_channels))
      (unsupported_channel_filter (to_lower_case given))
  ok (some (to_lower_case given))

unfoldable pub sales_statuses : Text → Result SalesError (List Text)
unfolding normalize_statuses split_commas
sales_statuses [] = ok product_sales_default_statuses
sales_statuses (c ∷ s) = normalize_statuses (split_commas (c ∷ s))

-- an empty status is not thrown for, but no status is empty here
abbrev pub refuse_unsupported : Option Text → Result SalesError (Unit {0})
refuse_unsupported none = ok tt
refuse_unsupported (some []) = ok tt
refuse_unsupported (some (c ∷ s)) = throw (unsupported_status_filter (c ∷ s))

module _ (parse_date : Text → Option ℕ) where
  -- `normalizeProductSalesDate` and `parseOptionalDate`
  unfoldable pub normalize_product_sales_date : Text → Text → Result SalesError (Option ℕ)
  normalize_product_sales_date value name =
      if is_empty value
      then ok none
      else elim (parse_date value) [ none ↦ throw (sales_date_invalid name) | some d ↦ ok (some d) ]

  unfoldable pub normalize_product_sales_statistics_filters :
      Text
      → ProductSalesStatisticsFilters
      → Result SalesError NormalizedProductSalesStatisticsFilters
  unfolding normalize_product_sales_string normalize_sales_channel sales_statuses find_unsupported
      normalize_product_sales_date
  normalize_product_sales_statistics_filters product_id filters = do
    product ← normalize_product_sales_string product_id (lit "productId")
    channel ← normalize_sales_channel filters.channel
    statuses ← sales_statuses filters.status
    refuse_unsupported (find_unsupported statuses)
    from_date ← normalize_product_sales_date filters.from_date (lit "from")
    to_date ← normalize_product_sales_date filters.to_date (lit "to")
    throw_if (is_after from_date to_date) sales_from_after_to
    ok (record {
      product_id = product;
      from_date = from_date;
      to_date = to_date;
      channel = channel;
      statuses = unique statuses;
    })

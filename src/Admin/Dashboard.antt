-- ===== src/Admin/Dashboard.antt =====
-- src/admin/admin.service.ts: the dashboard. `new Date` is a parameter, as is the database's `ILIKE`,
-- of a text and of the trimmed search between two `%`; the limit is the number of rows it comes to.
use orders_microservice.Base.{
  length, take, filter, leb, is_some, map, ltb, newest_first, Option, Bool, List, ℕ, none, some, [],
  ◌∷◌, if◌then◌else◌, true, false, ◌&&◌, ◌||◌, ◌==◌,
}
use orders_microservice.Reads.Stored.{created_date}
use orders_microservice.Base.Text.{
  text_or_empty, to_lower_case, trim, is_empty, mem_text, Text, text_eq,
}
use orders_microservice.Admin.{
  text_or, get_source_meta, serialize_order_summary, source_catalog, OrderSummary,
}
use orders_microservice.Admin.Overview.{get_metrics, Metrics}
use orders_microservice.Sales.{unique, unique_from}
use orders_microservice.Entities.{Order}

-- an absent filter is the empty text
pub record OrderFilters : Type 0 where
  pub application : Text
  pub service : Text
  pub state : Text
  pub status : Text
  pub channel : Text
  pub search : Text
  pub from_date : Text
  pub to_date : Text

-- `!normalized || value.toLowerCase() === normalized`
abbrev pub same_folded : Text → Text → Bool
same_folded wanted value = is_empty wanted || text_eq (to_lower_case value) (to_lower_case wanted)

unfoldable pub resolve_source_channels : OrderFilters → List Text
unfolding source_catalog to_lower_case text_eq
resolve_source_channels filters =
    map (λ e. e.channel)
      (filter (λ e. same_folded filters.service e.service)
        (filter (λ e. same_folded filters.application e.application) source_catalog))

-- a date that cannot be read is no condition
abbrev pub if_date : (Text → Option ℕ) → Text → (ℕ → Bool) → Bool
if_date parse_date value test = elim (parse_date value) [
  | none ↦ true
  | some t ↦ is_empty value || test t
]

-- `sort()` on texts, by their units
unfoldable pub text_below : Text → Text → Bool
text_below [] t = true
text_below (c ∷ s) [] = false
text_below (c ∷ s) (d ∷ t) = let rest = text_below s t in if c == d then rest else ltb c d

unfoldable pub insert_text : Text → List Text → List Text
unfolding text_below
insert_text t [] = t ∷ []
insert_text t (u ∷ us) =
    let rest = insert_text t us in if text_below t u then t ∷ u ∷ us else u ∷ rest

unfoldable pub sort_texts : List Text → List Text
unfolding insert_text
sort_texts [] = []
sort_texts (t ∷ ts) = insert_text t (sort_texts ts)

pub record FilterOptions : Type 0 where
  pub applications : List Text
  pub services : List Text
  pub states : List Text
  pub channels : List Text

unfoldable pub get_filter_options : List Order → FilterOptions
unfolding sort_texts unique_from get_source_meta
get_filter_options orders = record {
  applications = sort_texts (unique (map (λ o. (get_source_meta o).application) orders));
  services = sort_texts (unique (map (λ o. (get_source_meta o).service) orders));
  states = sort_texts (unique (map (λ o. o.status) orders));
  channels = sort_texts (unique (map (λ o. o.channel) orders));
}

pub record Dashboard : Type 0 where
  pub filters : FilterOptions
  pub metrics : Metrics
  pub orders : List OrderSummary
  pub total_matching : ℕ
  pub limit : ℕ

module _ (parse_date : Text → Option ℕ) (ilike : Text → Text → Bool) where
  abbrev pub is_found : Text → Order → Bool
  is_found search order =
      is_empty search
      || ilike order.id (trim search)
      || (is_some order.external_order_id
          && ilike (text_or_empty order.external_order_id) (trim search))
      || ilike order.channel (trim search)
      || (is_some order.channel_account_id
          && ilike (text_or_empty order.channel_account_id) (trim search))

  -- `applyFilters`, as the test of a row; where no source is asked for, its channel is to be of the catalog too
  unfoldable pub passes_filters : OrderFilters → Order → Bool
  unfolding resolve_source_channels mem_text text_eq trim
  passes_filters filters order =
      let state = text_or filters.state filters.status in
      (is_empty state || text_eq order.status state)
      && mem_text order.channel (resolve_source_channels filters)
      && (is_empty filters.channel || text_eq order.channel filters.channel)
      && if_date parse_date filters.from_date (λ t. leb t (created_date order))
      && if_date parse_date filters.to_date (λ t. leb (created_date order) t)
      && is_found filters.search order

  unfoldable pub get_dashboard : OrderFilters → ℕ → List Order → Dashboard
  unfolding passes_filters newest_first serialize_order_summary get_filter_options get_metrics
  get_dashboard filters limit rows =
      let found = filter (passes_filters filters) rows in
      let summaries = map serialize_order_summary (take limit (newest_first created_date found)) in
      record {
        filters = get_filter_options rows;
        metrics = get_metrics rows summaries (length found);
        orders = summaries;
        total_matching = length found;
        limit = limit;
      }

-- ===== src/Admin.antt =====
-- src/admin/admin.service.ts: the application and the service an order comes from, and the summary of
-- an order. Amounts are in minor units.
use orders_microservice.Base.{
  length, ltb, take, any, map, not, Option, Result, Bool, List, ℕ, none, some, [], ◌∷◌, ◌++◌, ok,
  throw, if◌then◌else◌, true, false, ◌&&◌, ◌||◌, ◌+◌, ◌-◌, ◌==◌,
}
use orders_microservice.Base.Text.{
  text_or, is_digit, is_space, is_upper, text_or_empty, is_empty, is_lower, to_lower_case, trim,
  Text, text_eq, lit,
}
use orders_microservice.Events.{truthy}
use orders_microservice.Pricing.Response.{collapse}
use orders_microservice.Entities.{Order, OrderItem}
use orders_microservice.Status.Approval.{OrderStatusApprovalInput}
use orders_microservice.World.{World, Env}
pub mod Overview
pub mod Diagnostics
pub mod Actions
pub mod Dashboard
pub mod Detail

pub record SourceEntry : Type 0 where
  pub channel : Text
  pub application : Text
  pub service : Text

-- `SOURCE_CATALOG`
unfoldable pub source_catalog : List SourceEntry
source_catalog =
    record {
      channel = lit "flipflop";
      application = lit "FlipFlop Storefront";
      service = lit "flipflop-service";
    }
    ∷ record {
      channel = lit "allegro";
      application = lit "Allegro Marketplace";
      service = lit "allegro-service";
    }
    ∷ record {
      channel = lit "aukro";
      application = lit "Aukro Marketplace";
      service = lit "aukro-service";
    }
    ∷ record {
      channel = lit "bazos";
      application = lit "Bazos Classifieds";
      service = lit "bazos-service";
    }
    ∷ record {
      channel = lit "heureka";
      application = lit "Heureka Marketplace";
      service = lit "heureka-service";
    }
    ∷ record {
      channel = lit "cliplot";
      application = lit "Cliplot Storefront";
      service = lit "cliplot";
    }
    ∷ []

pub record SourceMeta : Type 0 where
  pub application : Text
  pub service : Text
  pub channel : Text
  pub account_id : Option Text
  pub external_order_id : Option Text

unfoldable pub find_source : Text → List SourceEntry → Option SourceEntry
unfolding text_eq
find_source channel [] = none
find_source channel (e ∷ es) = if text_eq e.channel channel then some e else find_source channel es

-- `/[-_]/` and `\w`
abbrev pub is_joiner : ℕ → Bool
is_joiner c = c == b'-' || c == b'_'

abbrev pub is_word_unit : ℕ → Bool
is_word_unit c = is_lower c || is_upper c || is_digit c || c == b'_'

-- `replace(/\b\w/g, …toUpperCase())`; `inside` says whether the unit before is of a word
unfoldable pub capitalize : Bool → Text → Text
capitalize inside [] = []
capitalize inside (c ∷ s) =
    let rest = capitalize (is_word_unit c) s in
    if is_lower c && not inside then (c - 32) ∷ rest else c ∷ rest

abbrev pub spaced_unit : ℕ → ℕ
spaced_unit c = if is_joiner c then b' ' else c

unfoldable pub to_title : Text → Text
unfolding capitalize collapse trim is_space
to_title value = capitalize false (trim (collapse is_space false (map spaced_unit value)))

unfoldable pub get_source_meta : Order → SourceMeta
unfolding find_source source_catalog to_title to_lower_case
get_source_meta order =
    let channel = text_or order.channel (lit "unknown") in
    let known = find_source (to_lower_case channel) source_catalog in
    record {
      application = elim known [
        | none ↦ to_title (channel ++ lit " application")
        | some e ↦ e.application
      ];
      service = elim known [ none ↦ to_lower_case channel ++ lit "-service" | some e ↦ e.service ];
      channel = channel;
      account_id = truthy order.channel_account_id;
      external_order_id = truthy order.external_order_id;
    }

-- the sum of the items' quantities
abbrev pub item_count : List OrderItem → ℕ
item_count [] = 0
item_count (i ∷ is) = i.quantity + item_count is

abbrev pub short_id : Text → Text
short_id id = text_or (take 8 id) (lit "unknown")

abbrev pub is_named : Order → Bool
is_named order = elim order.customer [
  | none ↦ false
  | some c ↦ not (is_empty (text_or_empty c.name)) || not (is_empty (text_or_empty c.email))
]

unfoldable pub get_customer_label : Order → Text
get_customer_label order =
    if is_named order then lit "Customer " ++ short_id order.id else lit "Unknown customer"

abbrev pub is_past_pending : OrderItem → Bool
is_past_pending item = not (text_eq (text_or_empty item.fulfillment_status) (lit "pending"))

unfoldable pub get_log_indicators : Order → List Text
unfolding text_eq
get_log_indicators order =
    lit "created"
    ∷ (lit "state:" ++ order.status)
    ∷ ((if is_empty (text_or_empty order.payment_status) then [] else lit "payment:recorded" ∷ [])
        ++ (if any is_past_pending order.items then lit "fulfillment" ∷ [] else []))

abbrev pub recorded_or_unknown : Option Text → Text
recorded_or_unknown value = if is_empty (text_or_empty value) then lit "unknown" else lit "recorded"

pub record OrderSummary : Type 0 where
  pub id : Text
  pub external_order_id : Option Text
  pub state : Text
  pub source : SourceMeta
  pub customer_label : Text
  pub total : ℕ
  pub currency : Text
  pub payment_status : Text
  pub shipping_method : Text
  pub item_count : ℕ
  pub ordered_at : Option ℕ
  pub created_at : Option ℕ
  pub updated_at : Option ℕ
  pub log_indicators : List Text

unfoldable pub serialize_order_summary : Order → OrderSummary
unfolding get_source_meta get_customer_label get_log_indicators
serialize_order_summary order = record {
  id = order.id;
  external_order_id = truthy order.external_order_id;
  state = order.status;
  source = get_source_meta order;
  customer_label = get_customer_label order;
  total = order.total;
  currency = order.currency;
  payment_status = recorded_or_unknown order.payment_status;
  shipping_method = text_or (text_or_empty order.shipping_method) (lit "unknown");
  item_count = item_count order.items;
  ordered_at = order.ordered_at;
  created_at = order.created_at;
  updated_at = order.updated_at;
  log_indicators = get_log_indicators order;
}

-- ===== src/Create/Request.antt =====
-- src/orders/create-order.dto.ts: the whole request for an order.
use orders_microservice.Create.Fields.{
  no_items, unsupported_contract_version, unsupported_create_fields, initial_status,
  invalid_currency, unsupported_channel, body_not_object, invalid_ordered_at, CreateError,
  normalize_money, normalize_optional_string, Arithmetic, normalize_string,
}
use orders_microservice.Json.{
  is_not_text, keys, or_default, is_falsy, prop, get, or_value, Value, Fields, Number, num, obj,
}
use orders_microservice.Base.Text.{
  is_empty, is_upper, mem_text, lit, to_lower_case, to_upper_case, Text,
}
use orders_microservice.Base.{
  filter, not, throw_if, ◌&&◌, Result, ℕ, Bool, List, Option, if◌then◌else◌, none, some, ok, throw,
  [], ◌∷◌, false, ◌>>=◌, ◌>>◌,
}
use orders_microservice.Create.Parts.{
  normalize_lead_attribution, normalize_address, whole_number, normalize_customer, normalize_items,
  CreateOrderLeadAttribution, NormalizedItem,
}
use orders_microservice.Create.Bundles.{normalize_bundle_evidence}
use orders_microservice.Entities.{BundleEvidence, Address, Customer}

-- `order` of a normalized request
pub record NormalizedOrder : Type 0 where
  pub external_order_id : Text
  pub channel : Text
  pub channel_account_id : Option Text
  pub status : Text
  pub customer : Option Customer
  pub shipping_address : Option Address
  pub billing_address : Option Address
  pub subtotal : Number
  pub shipping_cost : Number
  pub tax_amount : Number
  pub total : Number
  pub currency : Text
  pub payment_method : Option Text
  pub payment_status : Option Text
  pub shipping_method : Option Text
  pub customer_note : Option Text
  pub bundle_evidence : List BundleEvidence
  pub ordered_at : Option ℕ

pub record NormalizedCreateOrder : Type 0 where
  pub order : NormalizedOrder
  pub items : List NormalizedItem
  pub lead_attribution : Option CreateOrderLeadAttribution

abbrev pub allowed_create_keys : List Text
allowed_create_keys =
    lit "contractVersion"
    ∷ lit "channel"
    ∷ lit "externalOrderId"
    ∷ lit "channelAccountId"
    ∷ lit "leadAttribution"
    ∷ lit "bundleEvidence"
    ∷ lit "orderedAt"
    ∷ lit "status"
    ∷ lit "customer"
    ∷ lit "shippingAddress"
    ∷ lit "billingAddress"
    ∷ lit "items"
    ∷ lit "totals"
    ∷ lit "payment"
    ∷ lit "shipping"
    ∷ lit "notes"
    ∷ lit "subtotal"
    ∷ lit "shippingCost"
    ∷ lit "taxAmount"
    ∷ lit "total"
    ∷ lit "currency"
    ∷ lit "paymentMethod"
    ∷ lit "paymentStatus"
    ∷ lit "shippingMethod"
    ∷ lit "customerNote"
    ∷ []

abbrev pub allowed_channels : List Text
allowed_channels =
    lit "flipflop" ∷ lit "allegro" ∷ lit "aukro" ∷ lit "bazos" ∷ lit "heureka" ∷ lit "cliplot" ∷ []

abbrev pub allowed_initial_statuses : List Text
allowed_initial_statuses = lit "pending" ∷ lit "confirmed" ∷ []

-- `/^[A-Z]{3}$/`
unfoldable pub is_currency : Text → Bool
is_currency (a ∷ b ∷ c ∷ []) = is_upper a && is_upper b && is_upper c
is_currency _ = false

-- `value || 'pending'`
abbrev pub or_pending : Option Text → Text
or_pending none = lit "pending"
or_pending (some s) = s

pub record Totals : Type 0 where
  pub subtotal : Number
  pub shipping_cost : Number
  pub tax_amount : Number
  pub total : Number
  pub currency : Text

unfoldable pub normalize_channel : Value → Result CreateError Text
unfolding normalize_string to_lower_case mem_text
normalize_channel value = do
  given ← normalize_string value (lit "channel")
  let channel = to_lower_case given
  throw_if (not (mem_text channel allowed_channels)) (unsupported_channel channel)
  ok channel

unfoldable pub normalize_initial_status : Value → Result CreateError Text
unfolding normalize_optional_string mem_text
normalize_initial_status value =
    let status = or_pending (normalize_optional_string value) in
    do throw_if (not (mem_text status allowed_initial_statuses)) initial_status; ok status

unfoldable pub normalize_currency : Value → Result CreateError Text
unfolding normalize_string to_upper_case is_currency
normalize_currency value = do
  given ← normalize_string value (lit "totals.currency")
  throw_if (not (is_currency (to_upper_case given))) invalid_currency
  ok (to_upper_case given)

-- `input.totals || { … }`
abbrev pub total_of : Fields → Text → Value
total_of input key =
    let totals = get (lit "totals") input in
    if is_falsy totals then get key input else prop key totals

-- `input.<group>?.<key> || input.<flat>`
abbrev pub grouped : Fields → Text → Text → Text → Option Text
grouped input group key flat =
    normalize_optional_string (or_value (prop key (get group input)) (get flat input))

module _ (a : Arithmetic) (parse_date : Value → Option ℕ) where
  unfoldable pub normalize_totals : Fields → Result CreateError Totals
  unfolding normalize_money normalize_currency is_falsy get
  normalize_totals input = do
    subtotal ← normalize_money a (total_of input (lit "subtotal")) (lit "totals.subtotal")
    shipping_cost ←
        normalize_money a (or_default (total_of input (lit "shippingCost")) (num (whole_number 0)))
          (lit "totals.shippingCost")
    tax_amount ←
        normalize_money a (or_default (total_of input (lit "taxAmount")) (num (whole_number 0)))
          (lit "totals.taxAmount")
    total ← normalize_money a (total_of input (lit "total")) (lit "totals.total")
    currency ← normalize_currency (total_of input (lit "currency"))
    ok (record {
      subtotal = subtotal;
      shipping_cost = shipping_cost;
      tax_amount = tax_amount;
      total = total;
      currency = currency;
    })

  unfoldable pub normalize_ordered_at : Value → Result CreateError (Option ℕ)
  normalize_ordered_at value =
      if is_falsy value
      then ok none
      else elim (parse_date value) [ none ↦ throw invalid_ordered_at | some t ↦ ok (some t) ]

  unfoldable pub normalize_create_fields : Fields → Result CreateError NormalizedCreateOrder
  unfolding normalize_totals normalize_ordered_at normalize_channel normalize_initial_status
      normalize_items normalize_customer normalize_address normalize_bundle_evidence
      normalize_lead_attribution normalize_string normalize_optional_string
  normalize_create_fields input =
      let unknown = filter (λ k. not (mem_text k allowed_create_keys)) (keys input) in
      let version = get (lit "contractVersion") input in
      do
        throw_if (not (is_empty unknown)) (unsupported_create_fields unknown)
        throw_if (not (is_falsy version) && is_not_text version (lit "orders.create.v1"))
            unsupported_contract_version
        channel ← normalize_channel (get (lit "channel") input)
        external_order_id ←
            normalize_string (get (lit "externalOrderId") input) (lit "externalOrderId")
        status ← normalize_initial_status (get (lit "status") input)
        totals ← normalize_totals input
        items ← normalize_items a (get (lit "items") input)
        throw_if (is_empty items) no_items
        ordered_at ← normalize_ordered_at (get (lit "orderedAt") input)
        customer ← normalize_customer (get (lit "customer") input)
        bundle_evidence ← normalize_bundle_evidence (get (lit "bundleEvidence") input) items
        lead_attribution ← normalize_lead_attribution (get (lit "leadAttribution") input)
        ok (record {
          order = record {
            external_order_id = external_order_id;
            channel = channel;
            channel_account_id = normalize_optional_string (get (lit "channelAccountId") input);
            status = status;
            customer = customer;
            shipping_address = normalize_address (get (lit "shippingAddress") input);
            billing_address = normalize_address (get (lit "billingAddress") input);
            subtotal = totals.subtotal;
            shipping_cost = totals.shipping_cost;
            tax_amount = totals.tax_amount;
            total = totals.total;
            currency = totals.currency;
            payment_method = grouped input (lit "payment") (lit "method") (lit "paymentMethod");
            payment_status = grouped input (lit "payment") (lit "status") (lit "paymentStatus");
            shipping_method = grouped input (lit "shipping") (lit "method") (lit "shippingMethod");
            customer_note = grouped input (lit "notes") (lit "customerNote") (lit "customerNote");
            bundle_evidence = bundle_evidence;
            ordered_at = ordered_at;
          };
          items = items;
          lead_attribution = lead_attribution;
        })

  unfoldable pub normalize_create_order_request : Value → Result CreateError NormalizedCreateOrder
  unfolding normalize_create_fields
  normalize_create_order_request (obj input) = normalize_create_fields input
  normalize_create_order_request _ = throw body_not_object

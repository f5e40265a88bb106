-- ===== src/Create/Replay.antt =====
-- src/orders/create-order.dto.ts: the key of a request for an order, and whether an order that has the
-- key is what the request asked for.
use orders_microservice.Create.Fields.{required, CreateError, Arithmetic}
use orders_microservice.Base.Text.{text_or_empty, lit, is_empty, Text, text_eq, trim}
use orders_microservice.Base.{
  throw_if, ◌==◌, List, Result, ◌&&◌, Bool, Option, if◌then◌else◌, none, some, ok, [], ◌∷◌, true,
  false, ◌>>=◌, ◌>>◌,
}
use orders_microservice.Create.Parts.{whole_number, NormalizedItem}
use orders_microservice.Create.Request.{NormalizedOrder, NormalizedCreateOrder}
use orders_microservice.Entities.{BundleEvidence, Order, OrderItem, Address, Customer}
use orders_microservice.Create.Bundles.{texts_eq}
use orders_microservice.Json.{nan, number_eq, Number}

pub record CreateOrderIdempotencyKey : Type 0 where
  pub channel : Text
  pub external_order_id : Text
  pub channel_account_id : Option Text

-- `comparableOptionalString`
abbrev pub comparable : Option Text → Option Text
comparable none = none
comparable (some s) = if is_empty s then none else some (trim s)

abbrev pub require_comparable_string : Text → Text → Result CreateError Text
require_comparable_string value field = do
  throw_if (is_empty (text_or_empty (comparable (some value)))) (required field)
  ok (text_or_empty (comparable (some value)))

unfoldable pub get_create_order_idempotency_key :
    NormalizedCreateOrder → Result CreateError CreateOrderIdempotencyKey
unfolding trim
get_create_order_idempotency_key normalized = do
  channel ← require_comparable_string normalized.order.channel (lit "channel")
  id ← require_comparable_string normalized.order.external_order_id (lit "externalOrderId")
  ok (record {
    channel = channel;
    external_order_id = id;
    channel_account_id = comparable normalized.order.channel_account_id;
  })

abbrev pub option_eq {ℓ} : {A : Type ℓ} → (A → A → Bool) → Option A → Option A → Bool
option_eq p none none = true
option_eq p (some x) (some y) = p x y
option_eq p _ _ = false

-- `comparableOptionalString(left) === comparableOptionalString(right)`
unfoldable pub same_text : Option Text → Option Text → Bool
unfolding text_eq trim
same_text s t = option_eq text_eq (comparable s) (comparable t)

-- two optional texts in objects that are compared as JSON, where an absent one is left out
unfoldable pub same_field : Option Text → Option Text → Bool
unfolding text_eq
same_field s t = option_eq text_eq s t

abbrev pub no_customer : Customer
no_customer = record {
  auth_user_id = none;
  subject = none;
  name = none;
  email = none;
  phone = none;
}

abbrev pub no_address : Address
no_address = record {
  name = none;
  street = none;
  city = none;
  postal_code = none;
  country = none;
  company_name = none;
  company_id = none;
  tax_id = none;
  vat_id = none;
  email = none;
}

abbrev pub or_empty {ℓ} : {A : Type ℓ} → A → Option A → A
or_empty empty none = empty
or_empty empty (some x) = x

-- `sameJsonShape` on customers
unfoldable pub same_customer : Customer → Customer → Bool
unfolding same_field
same_customer c d =
    same_field c.auth_user_id d.auth_user_id
    && same_field c.subject d.subject
    && same_field c.name d.name
    && same_field c.email d.email
    && same_field c.phone d.phone

-- `sameJsonShape` on addresses
unfoldable pub same_address : Address → Address → Bool
unfolding same_field
same_address c d =
    same_field c.name d.name
    && same_field c.street d.street
    && same_field c.city d.city
    && same_field c.postal_code d.postal_code
    && same_field c.country d.country
    && same_field c.company_name d.company_name
    && same_field c.company_id d.company_id
    && same_field c.tax_id d.tax_id
    && same_field c.vat_id d.vat_id
    && same_field c.email d.email

unfoldable pub same_bundle : BundleEvidence → BundleEvidence → Bool
unfolding text_eq texts_eq same_field
same_bundle c d =
    text_eq c.contract_version d.contract_version
    && text_eq c.bundle_id d.bundle_id
    && texts_eq c.product_ids d.product_ids
    && same_field c.discount_policy_ref d.discount_policy_ref
    && same_field c.free_shipping_policy_ref d.free_shipping_policy_ref
    && same_field c.server_total_source d.server_total_source

-- lists of equal length whose rows correspond
unfoldable pub same_rows {ℓ κ} : {A : Type ℓ} {B : Type κ} → (A → B → Bool) → List A → List B → Bool
same_rows p [] [] = true
same_rows p (x ∷ xs) (y ∷ ys) = p x y && same_rows p xs ys
same_rows p _ _ = false

-- `value || 0` on numbers
abbrev pub or_zero : Number → Number
or_zero n = elim n [ nan ↦ whole_number 0 | other ↦ other ]

module _ (a : Arithmetic) where
  -- `comparableMoney(left) === comparableMoney(right)`
  unfoldable pub same_money : Number → Number → Bool
  same_money m n = number_eq (a.round_money (or_zero m)) (a.round_money (or_zero n))

  -- one row of `sameOrderItems`
  unfoldable pub same_item : OrderItem → NormalizedItem → Bool
  unfolding same_text same_money
  same_item item expected =
      same_text (some item.product_id) (some expected.product_id)
      && same_text item.sku expected.sku
      && same_text (some item.title) (some expected.title)
      && same_money (whole_number item.quantity) (whole_number expected.quantity)
      && same_money (a.from_hundredths item.unit_price) expected.unit_price
      && same_money (a.from_hundredths item.total_price) expected.total_price
      && same_text item.warehouse_id expected.warehouse_id
      && same_text item.fulfillment_status (some expected.fulfillment_status)

  -- the scalar fields of `isMatchingCreateOrderReplay`
  unfoldable pub same_scalars : Order → NormalizedOrder → Bool
  unfolding same_text
  same_scalars existing expected =
      same_text existing.external_order_id (some expected.external_order_id)
      && same_text (some existing.channel) (some expected.channel)
      && same_text existing.channel_account_id expected.channel_account_id
      && same_text (some existing.status) (some expected.status)
      && same_text (some existing.currency) (some expected.currency)
      && same_text existing.payment_method expected.payment_method
      && same_text existing.payment_status expected.payment_status
      && same_text existing.shipping_method expected.shipping_method
      && same_text existing.customer_note expected.customer_note

  -- its amounts
  unfoldable pub same_amounts : Order → NormalizedOrder → Bool
  unfolding same_money
  same_amounts existing expected =
      same_money (a.from_hundredths existing.subtotal) expected.subtotal
      && same_money (a.from_hundredths existing.shipping_cost) expected.shipping_cost
      && same_money (a.from_hundredths existing.tax_amount) expected.tax_amount
      && same_money (a.from_hundredths existing.total) expected.total

  unfoldable pub is_matching_create_order_replay : Order → NormalizedCreateOrder → Bool
  unfolding same_scalars same_amounts same_customer same_address same_bundle same_rows same_item
  is_matching_create_order_replay existing normalized =
      let expected = normalized.order in
      same_scalars existing expected
      && same_amounts existing expected
      && option_eq (λ s t. s == t) existing.ordered_at expected.ordered_at
      && same_customer (or_empty no_customer existing.customer)
          (or_empty no_customer expected.customer)
      && same_address (or_empty no_address existing.shipping_address)
          (or_empty no_address expected.shipping_address)
      && same_address (or_empty no_address existing.billing_address)
          (or_empty no_address expected.billing_address)
      && same_rows same_bundle existing.bundle_evidence expected.bundle_evidence
      && same_rows same_item existing.items normalized.items

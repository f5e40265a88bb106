-- ===== src/Handoff.antt =====
-- src/orders/order-fulfillment-handoff.client.ts: asking the warehouse for a fulfillment order once
-- the reservations of a paid order are fulfilled.
pub mod Lines
use orders_microservice.Base.{
  ℕ, ◌==◌, Bool, true, false, not, ◌&&◌, ◌||◌, List, [], ◌∷◌, map, Option, none, some,
  if◌then◌else◌, any, length, all,
}
use orders_microservice.Base.Text.{
  Text, lit, trim, to_upper_case, is_empty, is_upper, text_eq, mem_text, has_control, is_space,
}
use orders_microservice.Entities.{
  Order, OrderItem, Address, Customer, FulfillmentOrderHandoff, SkipReason, reservation_disabled,
  missing_order_items, missing_warehouse_id, warehouse_fulfillment_not_completed,
  missing_shipping_method, missing_delivery_address, missing_reservation_id,
}
use orders_microservice.Events.{truthy}
use orders_microservice.Lifecycle.Derive.{warehouse_status}
use orders_microservice.Lifecycle.Labels.{is_fulfilled}
use orders_microservice.Requests.{
  Call, reservations_call, fulfillment_order_call, FulfillmentOrderPayload, FulfillmentLinePayload,
  DeliveryAddress, CustomerContact, WarehouseReservationSnapshot,
}
use orders_microservice.Warehouse.{has_warehouse_id}
use orders_microservice.World.{World, Env}

-- `normalizeOptionalString` of this client, which refuses control characters
unfoldable pub normalize_line : Option Text → Option Text
normalize_line none = none
normalize_line (some s) = let t = trim s in if is_empty t || has_control t then none else some t

-- `replace(/[^A-Z]/g, ' ')` and `replace(/\s+/g, ' ')`
unfoldable pub letters_only : Text → Text
letters_only s = map (λ c. if is_upper c then c else 32) s

unfoldable pub collapse_spaces : Bool → Text → Text
unfolding is_space
collapse_spaces after [] = []
collapse_spaces after (c ∷ s) =
    let rest = collapse_spaces (is_space c) s in
    if is_space c then (if after then rest else 32 ∷ rest) else c ∷ rest

-- `COUNTRY_NAME_TO_ISO2`
abbrev pub czech_names : List Text
czech_names = lit "CZECHIA" ∷ lit "CZECH REPUBLIC" ∷ lit "CESKO" ∷ lit "CESKA REPUBLIKA" ∷ []

unfoldable pub country_code : Text → Option Text
unfolding letters_only collapse_spaces
country_code upper =
    if length upper == 2 && all is_upper upper
    then some upper
    else if mem_text (trim (collapse_spaces false (letters_only upper))) czech_names
    then some (lit "CZ")
    else none

unfoldable pub normalize_country : Option Text → Option Text
unfolding normalize_line country_code
normalize_country value = elim (normalize_line value) [
  | none ↦ none
  | some s ↦ country_code (to_upper_case s)
]

-- the address once its four required lines are there
abbrev pub complete_address :
    Option Text → Option Text → Option Text → Option Text → Option Text → Option DeliveryAddress
complete_address name (some street) (some city) (some postal_code) (some country) = some (record {
  name = name;
  street = street;
  city = city;
  postal_code = postal_code;
  country = country;
})
complete_address _ _ _ _ _ = none

unfoldable pub normalize_delivery_address : Option Address → Option DeliveryAddress
unfolding normalize_line normalize_country
normalize_delivery_address none = none
normalize_delivery_address (some a) =
    complete_address (normalize_line a.name) (normalize_line a.street) (normalize_line a.city)
      (normalize_line a.postal_code) (normalize_country a.country)

abbrev pub contact_of : Option Text → Option Text → Option Text → Option CustomerContact
contact_of none none none = none
contact_of name email phone = some (record { name = name; email = email; phone = phone })

unfoldable pub normalize_customer_contact : Option Customer → Option CustomerContact
unfolding normalize_line
normalize_customer_contact none = none
normalize_customer_contact (some c) =
    contact_of (normalize_line c.name) (normalize_line c.email) (normalize_line c.phone)

-- `===` on values that may be absent
abbrev pub same_text : Option Text → Option Text → Bool
same_text none none = true
same_text (some s) (some t) = text_eq s t
same_text _ _ = false

-- `Number(candidate.quantity) === Number(item.quantity)`; an absent quantity is NaN
abbrev pub same_quantity : Option ℕ → ℕ → Bool
same_quantity none n = false
same_quantity (some m) n = m == n

-- the test of `reservations.find`, with the identifier taken out of the candidate
unfoldable pub fits : Order → OrderItem → List Text → WarehouseReservationSnapshot → Text → Bool
fits order item used c id =
    not (is_empty id)
    && not (mem_text id used)
    && same_text c.status (some (lit "fulfilled"))
    && same_text c.order_id (some order.id)
    && same_text c.product_id (some item.product_id)
    && same_text c.warehouse_id item.warehouse_id
    && same_quantity c.quantity item.quantity

unfoldable pub find_reservation :
    Order → OrderItem → List Text → List WarehouseReservationSnapshot → Option Text
unfolding fits
find_reservation order item used [] = none
find_reservation order item used (c ∷ cs) =
    let rest = find_reservation order item used cs in
    elim c.id [ none ↦ rest | some id ↦ if fits order item used c id then some id else rest ]

unfoldable pub fulfillment_line : OrderItem → Text → FulfillmentLinePayload
fulfillment_line item id = record {
  order_item_id = item.id;
  reservation_id = id;
  product_id = item.product_id;
  sku = truthy item.sku;
  title = item.title;
  warehouse_id = item.warehouse_id;
  quantity = item.quantity;
}

-- the loop of `buildFulfillmentLines`: the identifiers used so far, and the items left
unfoldable pub lines_from :
    Order
    → List WarehouseReservationSnapshot
    → List Text
    → List OrderItem
    → List FulfillmentLinePayload
unfolding find_reservation fulfillment_line
lines_from order reservations used [] = []
lines_from order reservations used (item ∷ items) =
    elim (find_reservation order item used reservations) [
      | none ↦ lines_from order reservations used items
      | some id ↦ fulfillment_line item id ∷ lines_from order reservations (id ∷ used) items
    ]

unfoldable pub build_fulfillment_lines :
    Order → List WarehouseReservationSnapshot → List FulfillmentLinePayload
unfolding lines_from
build_fulfillment_lines order reservations = lines_from order reservations [] order.items

unfoldable pub build_payload :
    Order → Text → DeliveryAddress → List FulfillmentLinePayload → FulfillmentOrderPayload
unfolding normalize_customer_contact
build_payload order shipping_method address lines = record {
  order_id = order.id;
  order_number = truthy order.external_order_id;
  channel = truthy (some order.channel);
  shipping_method = shipping_method;
  reason_code = lit "PAYMENT_CONFIRMED";
  reference = truthy order.external_order_id;
  delivery_address = address;
  customer_contact = normalize_customer_contact order.customer;
  items = lines;
}

-- the summary that every branch starts from
abbrev pub handoff_summary : Env → Order → Text → FulfillmentOrderHandoff
handoff_summary env order status = record {
  status = some status;
  attempted_at = some env.clock;
  completed_at = none;
  warehouse_status = none;
  updated_at = none;
  reason_code = some (lit "PAYMENT_CONFIRMED");
  actor = some (lit "orders-microservice");
  reference = none;
  fulfillment_order_id = none;
  skip_reason = none;
  item_count = some (length order.items);
  handed_off_count = some 0;
  failure_code = none;
}

abbrev pub skipped_handoff : Env → Order → Text → SkipReason → FulfillmentOrderHandoff
skipped_handoff env order status reason =
    let base = handoff_summary env order status in record base { skip_reason = some reason }

abbrev pub failed_handoff : Env → Order → FulfillmentOrderHandoff
failed_handoff env order =
    let base = handoff_summary env order (lit "failed") in
    record base {
      completed_at = some env.clock;
      failure_code = some (lit "warehouse_request_failed");
    }

-- no reservation was found for some item
abbrev pub unmatched_handoff : Env → Order → FulfillmentOrderHandoff
unmatched_handoff env order =
    let base = skipped_handoff env order (lit "skipped") missing_reservation_id in
    record base { completed_at = some env.clock }

abbrev pub send : Call → World → World
send call w = record w { calls = call ∷ w.calls }

-- the request for the fulfillment order
unfoldable pub post_fulfillment_order :
    Env → Order → FulfillmentOrderPayload → World → World × FulfillmentOrderHandoff
post_fulfillment_order env order payload w =
    let w' = send (fulfillment_order_call payload) w in
    let base = handoff_summary env order (lit "requested") in
    if env.post_ok w (fulfillment_order_call payload)
    then (
      w',
      record base {
        completed_at = some env.clock;
        handed_off_count = some (length payload.items);
        fulfillment_order_id = normalize_line (env.fulfillment_order_id w');
      },
    )
    else (w', failed_handoff env order)

-- the `try` block, once the order has what a fulfillment order needs
unfoldable pub request_fulfillment :
    Env → Order → Text → DeliveryAddress → World → World × FulfillmentOrderHandoff
unfolding post_fulfillment_order
request_fulfillment env order shipping_method address w =
    let w' = send (reservations_call order.id) w in
    elim (env.reservations w order.id) [
      | none ↦ (w', failed_handoff env order)
      | some reservations ↦
          let lines = build_fulfillment_lines order reservations in
          if not (length lines == length order.items)
          then (w', unmatched_handoff env order)
          else post_fulfillment_order env order (build_payload order shipping_method address lines)
              w'
    ]

unfoldable pub create_after_payment_fulfillment :
    Env → Order → World → World × FulfillmentOrderHandoff
unfolding request_fulfillment
create_after_payment_fulfillment env order w =
    if not env.reservation_enabled
    then (w, skipped_handoff env order (lit "disabled") reservation_disabled)
    else if not (is_fulfilled (warehouse_status order))
    then (w, skipped_handoff env order (lit "skipped") warehouse_fulfillment_not_completed)
    else if is_empty order.items
    then (w, skipped_handoff env order (lit "skipped") missing_order_items)
    else if any (λ item. not (has_warehouse_id item)) order.items
    then (w, skipped_handoff env order (lit "skipped") missing_warehouse_id)
    else elim (normalize_line order.shipping_method) [
      | none ↦ (w, skipped_handoff env order (lit "skipped") missing_shipping_method)
      | some shipping_method ↦ elim (normalize_delivery_address order.shipping_address) [
        | none ↦ (w, skipped_handoff env order (lit "skipped") missing_delivery_address)
        | some address ↦ request_fulfillment env order shipping_method address w
      ]
    ]

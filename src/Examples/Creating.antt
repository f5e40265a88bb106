-- ===== src/Examples/Creating.antt =====
-- The theorems on a new order, at a request from the shop for two lamps.
use orders_microservice.Orders.Once.{create-IsRepeat, IsRepeat}
use orders_microservice.Lifecycle.{validate_order_lifecycle_transition}
use orders_microservice.Orders.Publish.{publish_lifecycle_changed_if_needed}
use orders_microservice.Warehouse.{
  post, has_warehouse_id, finish_reservation, reserve_items, skip_check, reserve_order_items,
}
use orders_microservice.World.{save, World}
use orders_microservice.Orders.Create.{
  requires_warehouse_reservation, assert_required_warehouse_reservation, has_key, stored_orders,
  find_by_create_order_idempotency_key, item_rows, finish_rows, create_items, create_rows,
  announce_create, settle_create, normalize_body, prepare_create, create,
}
use orders_microservice.Create.Replay.{get_create_order_idempotency_key}
use orders_microservice.Base.{◌∙◌, sym, ok_injective, arith, ◌≡◌, refl, none, some, [], ◌∷◌, ok}
use orders_microservice.Orders.Creation.{with_handoff, handoff}
use mathlib.Core.Path.{subst}
use orders_microservice.Orders.Repeat.{create-repeats, noted}
use orders_microservice.Create.SelfMatch.{IsExact, IsPriced}
use orders_microservice.Entities.{Order, WarehouseHandoffSummary}
use orders_microservice.Json.{
  keys, get, is_falsy, Value, num, text, arr, obj, nil, cons, end, field,
}
use orders_microservice.Base.Text.{
  upper_unit, to_upper_case, lower_unit, to_lower_case, is_space, push_trimmed, trim_end,
  trim_start, trim, text_eq, mem_text, lit,
}
use orders_microservice.Create.Request.{
  is_currency, normalize_ordered_at, normalize_totals, normalize_currency, normalize_initial_status,
  normalize_channel, normalize_create_fields, NormalizedCreateOrder, NormalizedOrder,
  normalize_create_order_request,
}
use orders_microservice.Create.Parts.{
  normalize_lead_attribution, normalize_address, normalize_customer, map_result, normalize_item,
  normalize_items, whole_number, NormalizedItem,
}
use orders_microservice.Create.Bundles.{normalize_bundle_evidence}
use orders_microservice.Create.Fields.{
  normalize_money, normalize_integer, normalize_optional_string, normalize_string,
}
use orders_microservice.Orders.Created.{create_lem, Creation}
use orders_microservice.Examples.Data.{paid_order, holding, plain_arithmetic, willing}
use orders_microservice.Create.Accepted.{normalize_create_order_request-IsAccepted, IsAccepted}

abbrev lamp : Value
lamp = obj (
    field (lit "productId") (text (lit "p1")) (
      field (lit "title") (text (lit " Lamp ")) (
        field (lit "quantity") (num (whole_number 2)) (
          field (lit "unitPrice") (num (whole_number 10))
            (field (lit "warehouseId") (text (lit "w1")) end)))))

abbrev shop_totals : Value
shop_totals = obj (
    field (lit "subtotal") (num (whole_number 20))
      (field (lit "total") (num (whole_number 20)) (field (lit "currency") (text (lit "czk")) end)))

abbrev shop_request : Value
shop_request = obj (
    field (lit "channel") (text (lit "FlipFlop")) (
      field (lit "externalOrderId") (text (lit "x-7"))
        (field (lit "totals") shop_totals (field (lit "items") (arr (cons lamp nil)) end))))

abbrev two_lamps : NormalizedItem
two_lamps = record {
  product_id = lit "p1";
  sku = none;
  title = lit "Lamp";
  quantity = 2;
  unit_price = whole_number 10;
  total_price = whole_number 20;
  warehouse_id = some (lit "w1");
  fulfillment_status = lit "pending";
}

abbrev shop_order : NormalizedOrder
shop_order = record {
  external_order_id = lit "x-7";
  channel = lit "flipflop";
  channel_account_id = none;
  status = lit "pending";
  customer = none;
  shipping_address = none;
  billing_address = none;
  subtotal = whole_number 20;
  shipping_cost = whole_number 0;
  tax_amount = whole_number 0;
  total = whole_number 20;
  currency = lit "CZK";
  payment_method = none;
  payment_status = none;
  shipping_method = none;
  customer_note = none;
  bundle_evidence = [];
  ordered_at = none;
}

abbrev normalized_shop_request : NormalizedCreateOrder
normalized_shop_request = record {
  order = shop_order;
  items = two_lamps ∷ [];
  lead_attribution = none;
}

shop_request-normalized :
    normalize_create_order_request plain_arithmetic (λ v. some 7) shop_request
    ≡ ok normalized_shop_request
unfolding normalize_create_order_request normalize_create_fields normalize_channel
    normalize_initial_status normalize_currency normalize_totals normalize_ordered_at
    normalize_items normalize_item map_result normalize_string normalize_optional_string
    normalize_integer normalize_money normalize_customer normalize_address normalize_bundle_evidence
    normalize_lead_attribution is_currency mem_text text_eq trim trim_start trim_end push_trimmed
    is_space to_lower_case lower_unit to_upper_case upper_unit is_falsy get keys
shop_request-normalized = refl

normalize_create_order_request-IsAccepted_example : IsAccepted normalized_shop_request
normalize_create_order_request-IsAccepted_example =
    normalize_create_order_request-IsAccepted plain_arithmetic (λ v. some 7) shop_request
      normalized_shop_request shop_request-normalized

create_lem_example :
    let (w', r) = create willing shop_request (holding paid_order) in
    Creation willing shop_request (holding paid_order) w' r
create_lem_example = create_lem willing shop_request (holding paid_order)

abbrev no_orders : World
no_orders = record { saved = []; calls = []; events = []; audits = [] }

abbrev shop_handoff : WarehouseHandoffSummary
shop_handoff = handoff willing normalized_shop_request no_orders

abbrev lamp_order : Order
lamp_order = with_handoff willing normalized_shop_request no_orders shop_handoff

shop_body-normalized : normalize_body willing shop_request ≡ ok normalized_shop_request
shop_body-normalized = rw shop_request-normalized refl

shop_order-created : (create willing shop_request no_orders).1 ≡ ok lamp_order
unfolding create prepare_create settle_create announce_create create_rows create_items finish_rows
    item_rows get_create_order_idempotency_key find_by_create_order_idempotency_key stored_orders
    has_key assert_required_warehouse_reservation requires_warehouse_reservation save
    reserve_order_items skip_check reserve_items finish_reservation has_warehouse_id post
    publish_lifecycle_changed_if_needed validate_order_lifecycle_transition mem_text text_eq trim
    trim_start trim_end push_trimmed is_space to_lower_case lower_unit
shop_order-created = rw shop_body-normalized refl

plain_arithmetic-IsExact : IsExact plain_arithmetic
plain_arithmetic-IsExact = record {
  read_back = λ k small. omega arith;
  amount_finite = λ k small. refl;
  quantity_finite = λ q small. refl;
}

shop_request-IsPriced : IsPriced plain_arithmetic normalized_shop_request
shop_request-IsPriced = record {
  subtotal = (20, omega arith, refl);
  shipping_cost = (0, omega arith, refl);
  tax_amount = (0, omega arith, refl);
  total = (20, omega arith, refl);
  items = ((omega arith, (10, omega arith, refl), (20, omega arith, refl)), tt);
}

shop_body-IsPriced :
    (n : NormalizedCreateOrder)
    → normalize_body willing shop_request ≡ ok n
    → IsPriced plain_arithmetic n
shop_body-IsPriced n e =
    subst (IsPriced plain_arithmetic) (ok_injective (sym shop_body-normalized ∙ e))
      shop_request-IsPriced

create-repeats_example :
    let w' = (create willing shop_request no_orders).0 in
    create willing shop_request w' ≡ (noted willing shop_request lamp_order w', ok lamp_order)
create-repeats_example =
    create-repeats willing shop_request no_orders lamp_order plain_arithmetic-IsExact
      shop_body-IsPriced (λ w items. refl) shop_order-created

create-IsRepeat_example :
    let w' = (create willing shop_request no_orders).0 in
    IsRepeat willing shop_request no_orders lamp_order w' (create willing shop_request w')
create-IsRepeat_example =
    create-IsRepeat willing shop_request no_orders lamp_order shop_order-created

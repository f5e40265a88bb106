-- ===== src/Examples/Data.antt =====
-- An order with one item, and a database and a warehouse that accept everything.
use orders_microservice.Json.{whole_part, finite, end, text, field, obj, Value, num}
use orders_microservice.Create.Parts.{whole_number}
use orders_microservice.Base.{false, ◌*◌, none, some, true, [], ◌∷◌}
use orders_microservice.Create.Fields.{Arithmetic}
use orders_microservice.Base.Text.{lit}
use orders_microservice.World.{World, Env}
use orders_microservice.Entities.{Order, OrderItem}
use orders_microservice.Status.Approval.{OrderStatusApprovalInput, OrderStatusTransitionContext}

abbrev pub one_item : OrderItem
one_item = record {
  id = lit "i1";
  product_id = lit "p1";
  sku = none;
  title = lit "Lamp";
  quantity = 2;
  unit_price = 1000;
  total_price = 2000;
  fulfillment_status = none;
  warehouse_id = some (lit "w1");
}

abbrev pub new_order : Order
new_order = record {
  id = lit "o1";
  external_order_id = none;
  channel = lit "flipflop";
  channel_account_id = none;
  status = lit "pending";
  customer = none;
  shipping_address = none;
  billing_address = none;
  subtotal = 2000;
  shipping_cost = 0;
  tax_amount = 0;
  total = 2000;
  currency = lit "CZK";
  payment_method = none;
  payment_status = none;
  payment_reference_id = none;
  payment_application_id = none;
  payment_updated_at = none;
  shipping_method = none;
  customer_note = none;
  items = one_item ∷ [];
  warehouse_handoff = none;
  status_transition_audit = none;
  bundle_evidence = [];
  ordered_at = none;
  created_at = none;
  updated_at = none;
}

abbrev pub paid_order : Order
paid_order = record new_order {
  status = lit "confirmed";
  payment_status = some (lit "paid");
  payment_reference_id = some (lit "r1");
}

-- a shop whose amounts are hundredths
abbrev pub plain_arithmetic : Arithmetic
plain_arithmetic = record {
  to_number = λ v. elim v [ num n ↦ n | _ ↦ finite false 0 0 0 ];
  multiply = λ m n. whole_number (whole_part m * whole_part n);
  round_money = λ n. n;
  to_hundredths = λ n. whole_part n;
  from_hundredths = λ n. whole_number n;
}

abbrev pub willing : Env
willing = record {
  save_ok = λ _ _. true;
  post_ok = λ _ _. true;
  reservations = λ _ _. some [];
  fulfillment_order_id = λ _. none;
  parse_date = λ _. some 7;
  parse_text = λ _. some 7;
  clock = 5;
  reservation_enabled = true;
  ttl_milliseconds = 1000;
  handoff_configured = true;
  commit_ok = λ _. true;
  new_order_id = λ w. lit "o2";
  new_item_id = λ w n. lit "i2";
  arithmetic = plain_arithmetic;
  joined_items = λ w items. items;
}

abbrev pub holding : Order → World
holding order = record { saved = order ∷ []; calls = []; events = []; audits = [] }

abbrev pub no_approval : OrderStatusTransitionContext
no_approval = record { approval = none; actor = none; now = none; clock = 5 }

abbrev pub approval : OrderStatusApprovalInput
approval = record {
  approved = some true;
  approval_type = some (lit "human");
  approved_by = some (lit "ann");
  reason_code = some (lit "CUSTOMER_REQUEST");
  side_effects_handled = some (record {
    payment = some true;
    warehouse = some true;
    notification = some true;
    crm = some true;
    channel = some true;
  });
  idempotency_key = none;
}

abbrev pub with_approval : OrderStatusTransitionContext
with_approval = record { approval = some approval; actor = none; now = some 9; clock = 5 }

-- a completed payment, as Payments reports it
abbrev pub completed_payment : Value
completed_payment =
    obj (
      field (lit "paymentId") (text (lit "r1")) (field (lit "status") (text (lit "completed")) end))

abbrev pub collecting_callback : Value
collecting_callback = obj (field (lit "status") (text (lit "collecting")) end)

abbrev pub requested_callback : Value
requested_callback = obj (field (lit "status") (text (lit "requested")) end)

-- ===== src/Examples/Handlers.antt =====
-- The theorems on the handlers, on one order.
use orders_microservice.Base.{none, ◌≢◌, throw, Result, ok, ◌≡◌, arith, some, refl}
use orders_microservice.Orders.LatePayment.{apply_payment_status_late}
use orders_microservice.Payment.{
  NormalizedPaymentStatusUpdate, normalize_payment_status_update, OrdersPaymentStatus,
  normalize_payment_status, normalize_payment_fields, normalize_optional_bounded_string,
  normalize_occurred_at, payment_status_text, payments_owned_text, normalize_bounded_string,
}
use orders_microservice.Lifecycle.{payment_failed, validate_order_lifecycle_transition}
use orders_microservice.Handoff.{normalize_line}
use orders_microservice.Warehouse.{
  post, build_release_payload, build_lifecycle_payload, action_reason, action_status, finish_action,
  apply_items, has_warehouse_id, skip_check,
}
use orders_microservice.Fulfillment.{
  normalize_optional_timestamp, normalize_optional_field, normalize_status,
  normalize_fulfillment_fields, normalize_warehouse_fulfillment_status_update,
}
use orders_microservice.Status.{status_text, normalize_order_status}
use orders_microservice.Lifecycle.Derive.{
  project_lifecycle_stage_to_status, derive_order_lifecycle_state, fulfillment_status_to_lifecycle,
  normalize_item_statuses, all_items_shipped, all_items_delivered, normalize_optional_string,
  normalize_stored_status, derive_stage, lifecycle_stage,
}
use orders_microservice.Events.{
  build_lifecycle_item_snapshots, build_order_lifecycle_changed_payload,
}
use orders_microservice.Base.Text.{
  mem_text, has_control, trim, to_lower_case, find_named, text_eq, lit,
}
use orders_microservice.Orders.ApplyCallback.{with_callback, apply_warehouse_fulfillment_status}
use orders_microservice.Entities.{fulfillment_status_text, Order}
use orders_microservice.Json.{get, is_falsy, keys}
use orders_microservice.Status.Validate.{decide_transition}
use orders_microservice.Examples.Data.{
  no_approval, requested_callback, new_order, paid_order, collecting_callback, completed_payment,
  holding, willing,
}
use orders_microservice.Orders.Forward.{
  apply_payment_status-IsForward, apply_warehouse_fulfillment_status-IsForward,
  update_status-IsForward, IsForward,
}
use orders_microservice.World.{ServiceError, World, find_order}
use orders_microservice.Orders.UpdateStatus.{update_status}
use orders_microservice.Orders.StaysPaid.{
  Runs-HoldsPaid, HoldsPaid, Runs, done, then_run, payment_request, fulfillment_request,
}
use orders_microservice.Orders.ApplyPayment.{apply_payment_status}

holds_paid : HoldsPaid (lit "o1") (lit "r1") (holding paid_order)
unfolding find_order text_eq
holds_paid = (paid_order, refl, record { status = refl; reference_id = refl })

abbrev after_payment : World
after_payment = (apply_payment_status willing (lit "o1") completed_payment (holding paid_order)).0

abbrev after_callback : World
after_callback =
    (apply_warehouse_fulfillment_status willing (lit "o1") collecting_callback after_payment).0

two-Runs : Runs willing (lit "o1") (holding paid_order) after_callback
two-Runs =
    then_run (then_run done (payment_request completed_payment))
      (fulfillment_request collecting_callback)

Runs-HoldsPaid_example : HoldsPaid (lit "o1") (lit "r1") after_callback
Runs-HoldsPaid_example =
    Runs-HoldsPaid willing (lit "o1") (lit "r1") (λ e. ground arith) holds_paid two-Runs

found_paid : find_order (lit "o1") (holding paid_order).saved ≡ some paid_order
unfolding find_order text_eq
found_paid = refl

found_new : find_order (lit "o1") (holding new_order).saved ≡ some new_order
unfolding find_order text_eq
found_new = refl

abbrev confirmed_order : Order
confirmed_order = record new_order { status = lit "confirmed" }

confirmation_returns :
    (update_status willing (lit "o1") (lit "confirmed") no_approval (holding new_order)).1
    ≡ ok confirmed_order
unfolding update_status normalize_order_status decide_transition text_eq find_named to_lower_case
    trim has_control mem_text lifecycle_stage derive_stage normalize_stored_status
    normalize_optional_string all_items_delivered all_items_shipped normalize_item_statuses
    fulfillment_status_to_lifecycle build_order_lifecycle_changed_payload
    build_lifecycle_item_snapshots derive_order_lifecycle_state project_lifecycle_stage_to_status
    status_text
confirmation_returns = refl

update_status-IsForward_example : IsForward new_order confirmed_order
update_status-IsForward_example =
    update_status-IsForward willing (lit "o1") new_order confirmed_order (holding new_order)
      found_new (lit "confirmed") no_approval confirmation_returns

-- what a run returns, if it returns an order
abbrev returned : World × Result ServiceError Order → Order → Order
returned (w, r) order = elim r [ ok o ↦ o | throw _ ↦ order ]

abbrev paid_now : Order
paid_now =
    returned (apply_payment_status willing (lit "o1") completed_payment (holding new_order))
      new_order

payment_returns :
    (apply_payment_status willing (lit "o1") completed_payment (holding new_order)).1 ≡ ok paid_now
unfolding apply_payment_status normalize_payment_fields keys is_falsy get normalize_payment_status
    normalize_bounded_string payments_owned_text payment_status_text normalize_occurred_at
    normalize_optional_bounded_string skip_check has_warehouse_id apply_items finish_action
    action_status action_reason build_lifecycle_payload build_release_payload post normalize_line
    validate_order_lifecycle_transition text_eq find_named to_lower_case trim has_control mem_text
    lifecycle_stage derive_stage normalize_stored_status normalize_optional_string
    all_items_delivered all_items_shipped normalize_item_statuses fulfillment_status_to_lifecycle
    build_order_lifecycle_changed_payload build_lifecycle_item_snapshots
    derive_order_lifecycle_state project_lifecycle_stage_to_status status_text
payment_returns = refl

apply_payment_status-IsForward_example : IsForward new_order paid_now
apply_payment_status-IsForward_example =
    apply_payment_status-IsForward willing (lit "o1") new_order paid_now (holding new_order)
      found_new completed_payment payment_returns

abbrev requested_now : Order
requested_now =
    returned
      (apply_warehouse_fulfillment_status willing (lit "o1") requested_callback
        (holding paid_order))
      paid_order

callback_returns :
    (apply_warehouse_fulfillment_status willing
      (lit "o1")
      requested_callback
      (holding paid_order)).1
    ≡ ok requested_now
unfolding apply_warehouse_fulfillment_status normalize_fulfillment_fields normalize_status
    normalize_optional_field normalize_optional_timestamp
    normalize_warehouse_fulfillment_status_update keys is_falsy get fulfillment_status_text
    validate_order_lifecycle_transition with_callback text_eq find_named to_lower_case trim
    has_control mem_text lifecycle_stage derive_stage normalize_stored_status
    normalize_optional_string all_items_delivered all_items_shipped normalize_item_statuses
    fulfillment_status_to_lifecycle build_order_lifecycle_changed_payload
    build_lifecycle_item_snapshots derive_order_lifecycle_state project_lifecycle_stage_to_status
    status_text
callback_returns = refl

apply_warehouse_fulfillment_status-IsForward_example : IsForward paid_order requested_now
apply_warehouse_fulfillment_status-IsForward_example =
    apply_warehouse_fulfillment_status-IsForward willing (lit "o1") paid_order requested_now
      (holding paid_order) found_paid requested_callback callback_returns

abbrev failed_order : Order
failed_order = record new_order { payment_status = some (lit "failed") }

abbrev completed_update : NormalizedPaymentStatusUpdate
completed_update = record {
  payment_reference_id = lit "r1";
  payment_status = OrdersPaymentStatus.paid;
  payment_application_id = none;
  payment_method = none;
  payment_updated_at = 5;
}

completed_accepted :
    normalize_payment_status_update willing.parse_date willing.clock completed_payment
    ≡ ok completed_update
unfolding normalize_payment_status_update normalize_payment_fields keys is_falsy get
    normalize_payment_status normalize_bounded_string payments_owned_text normalize_occurred_at
    normalize_optional_bounded_string text_eq find_named to_lower_case trim has_control mem_text
completed_accepted = refl

failed_stage : lifecycle_stage failed_order ≡ payment_failed
unfolding lifecycle_stage derive_stage normalize_stored_status all_items_delivered all_items_shipped
    normalize_item_statuses text_eq to_lower_case trim
failed_stage = refl

found_failed : find_order (lit "o1") (holding failed_order).saved ≡ some failed_order
unfolding find_order text_eq
found_failed = refl

apply_payment_status_late_example :
    HoldsPaid
      (lit "o1")
      (lit "r1")
      (apply_payment_status willing (lit "o1") completed_payment (holding failed_order)).0
    × ((updated : Order)
        → (apply_payment_status willing (lit "o1") completed_payment (holding failed_order)).1
          ≢ ok updated)
apply_payment_status_late_example =
    apply_payment_status_late willing failed_order completed_update (holding failed_order)
      failed_stage refl (λ _ _. refl) (lit "o1") completed_payment found_failed completed_accepted

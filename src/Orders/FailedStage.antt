-- ===== src/Orders/FailedStage.antt =====
-- The stage `payment_failed` of src/orders/order-lifecycle.ts, and the orders that have it.
use orders_microservice.Orders.ApplyPayment.{is_text}
use orders_microservice.Base.{
  ap, ◌∙◌, Bool-cases, sym, none, some, false, inr, inl, Bool, Option-cases, arith, true, Option,
  ◌≡◌, ◌≢◌, refl,
}
use orders_microservice.Base.Text.Laws.{text_eq_iff, text_eq_refl}
use orders_microservice.Lifecycle.Derive.{
  all_items_delivered, all_items_shipped, warehouse_status, fulfillment_order_status,
  is_failed_payment, derive_stage, fulfillment_status_to_lifecycle, lifecycle_stage,
  normalize_stored_status,
}
use orders_microservice.Entities.{WarehouseHandoffStatus, Order, WarehouseFulfillmentStatus}
use orders_microservice.Base.Text.{trim, Text, lit, to_lower_case, text_eq}
use orders_microservice.Lifecycle.{payment_failed}

mapped_not_failed :
    (f : WarehouseFulfillmentStatus) → fulfillment_status_to_lifecycle f ≢ payment_failed
unfolding fulfillment_status_to_lifecycle
mapped_not_failed f e = ground arith

not_a_failure : is_failed_payment (lit "paid") ≡ false
unfolding text_eq
not_a_failure = refl

paid_text : text_eq (lit "paid") (lit "paid") ≡ true
paid_text = text_eq_refl (lit "paid")

stage_not_failed :
    (status : Text) (warehouse : Option WarehouseHandoffStatus) (shipped delivered : Bool)
    → derive_stage status (lit "paid") warehouse shipped delivered ≢ payment_failed
unfolding derive_stage
stage_not_failed status warehouse shipped delivered e = ground (arith, not_a_failure, paid_text)

paid_stored : normalize_stored_status (some (lit "paid")) (lit "unpaid") ≡ lit "paid"
unfolding normalize_stored_status to_lower_case trim
paid_stored = refl

stage_of_paid :
    (order : Order)
    → order.payment_status ≡ some (lit "paid")
    → fulfillment_order_status order ≡ none
    → lifecycle_stage order
      ≡ derive_stage
          (normalize_stored_status (some order.status) (lit "pending"))
          (lit "paid")
          (warehouse_status order)
          (all_items_shipped order.items)
          (all_items_delivered order.items)
unfolding lifecycle_stage
stage_of_paid order paid missing = rw (missing, lifecycle_stage) (rw paid (rw paid_stored refl))

-- a paid order is never in the stage of a failed payment
pub paid_not_failed :
    (order : Order)
    → order.payment_status ≡ some (lit "paid")
    → lifecycle_stage order ≢ payment_failed
unfolding lifecycle_stage
paid_not_failed order paid e = elim (Option-cases (fulfillment_order_status order)) [
  | inl missing ↦
      stage_not_failed (normalize_stored_status (some order.status) (lit "pending"))
        (warehouse_status order) (all_items_shipped order.items) (all_items_delivered order.items)
        (sym (stage_of_paid order paid missing) ∙ e)
  | inr (f, given) ↦ mapped_not_failed f (rw (given, lifecycle_stage) at e)
]

-- an order in that stage is neither cancelled nor paid
cancelled_stored :
    normalize_stored_status (some (lit "cancelled")) (lit "pending") ≡ lit "cancelled"
unfolding normalize_stored_status to_lower_case trim
cancelled_stored = refl

cancelled_stage :
    (payment : Text) (warehouse : Option WarehouseHandoffStatus) (shipped delivered : Bool)
    → derive_stage (lit "cancelled") payment warehouse shipped delivered ≢ payment_failed
unfolding derive_stage
cancelled_stage payment warehouse shipped delivered e =
    ground (arith, text_eq_refl (lit "cancelled"))

pub failed_not_cancelled :
    (order : Order)
    → lifecycle_stage order ≡ payment_failed
    → text_eq order.status (lit "cancelled") ≡ false
unfolding lifecycle_stage
failed_not_cancelled order e = elim (Bool-cases (text_eq order.status (lit "cancelled"))) [
  | inr other ↦ other
  | inl same ↦ elim (Option-cases (fulfillment_order_status order)) [
    | inr (f, given) ↦ absurd (mapped_not_failed f (rw (given, lifecycle_stage) at e))
    | inl missing ↦ absurd (
        cancelled_stage (normalize_stored_status order.payment_status (lit "unpaid"))
          (warehouse_status order) (all_items_shipped order.items) (all_items_delivered order.items)
          (sym (
              rw (missing, lifecycle_stage)
                (rw ((text_eq_iff order.status (lit "cancelled")).0 same)
                  (rw cancelled_stored refl)))
            ∙ e))
  ]
]

pub failed_not_paid :
    (order : Order)
    → lifecycle_stage order ≡ payment_failed
    → is_text order.payment_status (lit "paid") ≡ false
failed_not_paid order e = elim (Option-cases order.payment_status) [
  | inl missing ↦ rw missing refl
  | inr (s, given) ↦ elim (Bool-cases (text_eq s (lit "paid"))) [
    | inr other ↦ rw given other
    | inl same ↦
        absurd (paid_not_failed order (given ∙ ap some ((text_eq_iff s (lit "paid")).0 same)) e)
  ]
]

-- ===== src/Examples/Stages.antt =====
-- The theorems on stages.
use orders_microservice.Lifecycle.Transitions.{
  failed_payment, validate_order_lifecycle_transition_forward, IsFinal-stays, stage_rank,
  strict_coarse,
}
use orders_microservice.Base.{◌<◌, ok, throw, ◌⊎◌, arith, ◌≡◌, some, refl}
use orders_microservice.Lifecycle.{
  invalid_lifecycle_transition, validate_order_lifecycle_transition, ordered_unpaid,
  paid_not_delivered, warehouse_fulfillment_requested, payment_failed, strict, coarse_projection,
}

ordered_requested :
    validate_order_lifecycle_transition
      (some ordered_unpaid)
      warehouse_fulfillment_requested
      coarse_projection
    ≡ ok warehouse_fulfillment_requested
unfolding validate_order_lifecycle_transition
ordered_requested = refl

ordered_paid :
    validate_order_lifecycle_transition (some ordered_unpaid) paid_not_delivered strict
    ≡ ok paid_not_delivered
unfolding validate_order_lifecycle_transition
ordered_paid = refl

validate_order_lifecycle_transition_forward_example :
    (warehouse_fulfillment_requested ≡ warehouse_fulfillment_requested)
    × ((ordered_unpaid ≡ warehouse_fulfillment_requested)
        ⊎ (stage_rank ordered_unpaid < stage_rank warehouse_fulfillment_requested))
validate_order_lifecycle_transition_forward_example =
    validate_order_lifecycle_transition_forward coarse_projection ordered_unpaid
      warehouse_fulfillment_requested ordered_requested

strict_coarse_example :
    validate_order_lifecycle_transition (some ordered_unpaid) paid_not_delivered coarse_projection
    ≡ ok paid_not_delivered
strict_coarse_example = strict_coarse (some ordered_unpaid) paid_not_delivered ordered_paid

IsFinal-stays_example :
    validate_order_lifecycle_transition (some payment_failed) paid_not_delivered coarse_projection
    ≡ throw (invalid_lifecycle_transition payment_failed paid_not_delivered)
IsFinal-stays_example =
    IsFinal-stays coarse_projection paid_not_delivered failed_payment (λ e. ground arith)

-- ===== src/Lifecycle/Transitions.antt =====
-- The two modes of lifecycle transition of src/orders/order-lifecycle.ts, compared and iterated.
use orders_microservice.Lifecycle.{
  warehouse_formed, warehouse_forming, warehouse_collecting, warehouse_fulfillment_requested,
  paid_not_delivered, ordered_unpaid, coarse_projection, invalid_lifecycle_transition, strict,
  stage_eq, stage_index, OrderLifecycleStage, OrderLifecycleTransitionMode, allowed_targets,
  validate_order_lifecycle_transition,
}
use orders_microservice.Base.{
  none, ap, ==_iff, Bool-cases, ◌↔◌, ok, throw, true, Option, any, some, ℕ, ◌≤◌, ◌<◌, ◌≡◌, ◌≢◌, ◌⊎◌,
  inl, inr, arith,
}

-- how far a stage is from the order's creation
abbrev pub stage_rank : OrderLifecycleStage → ℕ
stage_rank ordered_unpaid = 0
stage_rank paid_not_delivered = 1
stage_rank warehouse_fulfillment_requested = 2
stage_rank warehouse_collecting = 3
stage_rank warehouse_forming = 4
stage_rank warehouse_formed = 5
stage_rank OrderLifecycleStage.handed_to_delivery = 6
stage_rank OrderLifecycleStage.in_delivery = 7
stage_rank OrderLifecycleStage.received = 8
stage_rank OrderLifecycleStage.not_received = 8
stage_rank OrderLifecycleStage.payment_failed = 9
stage_rank OrderLifecycleStage.returned = 9
stage_rank OrderLifecycleStage.cancelled = 9

allowed_forward :
    (mode : OrderLifecycleTransitionMode) (p s : OrderLifecycleStage)
    → any (stage_eq s) (allowed_targets mode p) ≡ true
    → stage_rank p < stage_rank s
unfolding allowed_targets
allowed_forward strict ordered_unpaid s h = ground arith
allowed_forward strict _ s h = ground arith
allowed_forward coarse_projection ordered_unpaid s h = ground arith
allowed_forward coarse_projection _ s h = ground arith

stage_index-injective : (p s : OrderLifecycleStage) → stage_index p ≡ stage_index s → p ≡ s
stage_index-injective ordered_unpaid s h = ground arith
stage_index-injective _ s h = ground arith

pub stage_eq_iff : (p s : OrderLifecycleStage) → (stage_eq p s ≡ true) ↔ (p ≡ s)
stage_eq_iff p s =
    (λ h. stage_index-injective p s ((==_iff _ _).0 h), λ e. (==_iff _ _).1 (ap stage_index e))

pub stage_rank-le : (s : OrderLifecycleStage) → stage_rank s ≤ 9
stage_rank-le ordered_unpaid = omega arith
stage_rank-le _ = omega arith

-- An accepted change of stage returns the stage asked for, which is the same stage or one of a higher
-- rank, in either mode.
pub validate_order_lifecycle_transition_forward :
    (mode : OrderLifecycleTransitionMode) (p s : OrderLifecycleStage) {r : OrderLifecycleStage}
    → validate_order_lifecycle_transition (some p) s mode ≡ ok r
    → (r ≡ s) × ((p ≡ s) ⊎ (stage_rank p < stage_rank s))
unfolding validate_order_lifecycle_transition
validate_order_lifecycle_transition_forward mode p s h = elim (Bool-cases (stage_eq p s)) [
  | inl same ↦ (ground arith, inl ((stage_eq_iff p s).0 same))
  | inr other ↦ (ground arith, inr (allowed_forward mode p s (ground arith)))
]

-- What the strict mode accepts, the coarse mode accepts too.
pub strict_coarse :
    (p : Option OrderLifecycleStage) (s : OrderLifecycleStage) {r : OrderLifecycleStage}
    → validate_order_lifecycle_transition p s strict ≡ ok r
    → validate_order_lifecycle_transition p s coarse_projection ≡ ok r
unfolding validate_order_lifecycle_transition
strict_coarse none s h = h
strict_coarse (some ordered_unpaid) s h = ground arith
strict_coarse (some _) s h = ground arith

pub data IsFinal : OrderLifecycleStage → Type 0 where
  failed_payment : IsFinal OrderLifecycleStage.payment_failed
  was_returned : IsFinal OrderLifecycleStage.returned
  was_cancelled : IsFinal OrderLifecycleStage.cancelled

-- A failed payment, a return and a cancellation are final: no other stage is accepted after them.
pub IsFinal-stays :
    {p : OrderLifecycleStage} (mode : OrderLifecycleTransitionMode) (s : OrderLifecycleStage)
    → IsFinal p
    → p ≢ s
    → validate_order_lifecycle_transition (some p) s mode ≡ throw (invalid_lifecycle_transition p s)
unfolding validate_order_lifecycle_transition
IsFinal-stays strict s failed_payment h =
    ground (arith, stage_eq_iff OrderLifecycleStage.payment_failed s)
IsFinal-stays coarse_projection s failed_payment h =
    ground (arith, stage_eq_iff OrderLifecycleStage.payment_failed s)
IsFinal-stays strict s was_returned h = ground (arith, stage_eq_iff OrderLifecycleStage.returned s)
IsFinal-stays coarse_projection s was_returned h =
    ground (arith, stage_eq_iff OrderLifecycleStage.returned s)
IsFinal-stays strict s was_cancelled h =
    ground (arith, stage_eq_iff OrderLifecycleStage.cancelled s)
IsFinal-stays coarse_projection s was_cancelled h =
    ground (arith, stage_eq_iff OrderLifecycleStage.cancelled s)

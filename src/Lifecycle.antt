-- ===== src/Lifecycle.antt =====
-- src/orders/order-lifecycle.ts: the stages of an order's life and the two transition modes.
pub mod Labels
pub mod Derive
pub mod Transitions
use orders_microservice.Base.{
  ℕ, Bool, true, false, not, ◌||◌, ◌==◌, List, [], ◌∷◌, ◌++◌, Option, none, some, Result, ok, throw,
  if◌then◌else◌, any, is_ok,
}
use orders_microservice.Base.Text.{Text, lit, trim, to_lower_case, is_empty, find_named}

pub data OrderLifecycleStage : Type 0 where
  ordered_unpaid payment_failed paid_not_delivered : OrderLifecycleStage
  warehouse_fulfillment_requested warehouse_collecting warehouse_forming : OrderLifecycleStage
  warehouse_formed handed_to_delivery in_delivery received not_received : OrderLifecycleStage
  returned cancelled : OrderLifecycleStage

pub data OrderLifecycleTransitionMode : Type 0 where
  strict coarse_projection : OrderLifecycleTransitionMode

unfoldable pub stage_text : OrderLifecycleStage → Text
stage_text ordered_unpaid = lit "ordered_unpaid"
stage_text payment_failed = lit "payment_failed"
stage_text paid_not_delivered = lit "paid_not_delivered"
stage_text warehouse_fulfillment_requested = lit "warehouse_fulfillment_requested"
stage_text warehouse_collecting = lit "warehouse_collecting"
stage_text warehouse_forming = lit "warehouse_forming"
stage_text warehouse_formed = lit "warehouse_formed"
stage_text handed_to_delivery = lit "handed_to_delivery"
stage_text in_delivery = lit "in_delivery"
stage_text received = lit "received"
stage_text not_received = lit "not_received"
stage_text returned = lit "returned"
stage_text cancelled = lit "cancelled"

-- `ORDER_LIFECYCLE_STAGES`
abbrev pub order_lifecycle_stages : List OrderLifecycleStage
order_lifecycle_stages =
    ordered_unpaid ∷ payment_failed ∷ paid_not_delivered ∷ warehouse_fulfillment_requested
    ∷ warehouse_collecting ∷ warehouse_forming ∷ warehouse_formed ∷ handed_to_delivery ∷ in_delivery
    ∷ received ∷ not_received ∷ returned ∷ cancelled ∷ []

-- the position in that list, by which two stages are compared
abbrev pub stage_index : OrderLifecycleStage → ℕ
stage_index ordered_unpaid = 0
stage_index payment_failed = 1
stage_index paid_not_delivered = 2
stage_index warehouse_fulfillment_requested = 3
stage_index warehouse_collecting = 4
stage_index warehouse_forming = 5
stage_index warehouse_formed = 6
stage_index handed_to_delivery = 7
stage_index in_delivery = 8
stage_index received = 9
stage_index not_received = 10
stage_index returned = 11
stage_index cancelled = 12

-- `===` on two stages
abbrev pub stage_eq : OrderLifecycleStage → OrderLifecycleStage → Bool
stage_eq a b = stage_index a == stage_index b

-- `STRICT_LIFECYCLE_TRANSITIONS`
unfoldable pub strict_lifecycle_transitions : OrderLifecycleStage → List OrderLifecycleStage
strict_lifecycle_transitions ordered_unpaid = paid_not_delivered ∷ payment_failed ∷ cancelled ∷ []
strict_lifecycle_transitions payment_failed = []
strict_lifecycle_transitions paid_not_delivered = warehouse_fulfillment_requested ∷ cancelled ∷ []
strict_lifecycle_transitions warehouse_fulfillment_requested = warehouse_collecting ∷ []
strict_lifecycle_transitions warehouse_collecting = warehouse_forming ∷ []
strict_lifecycle_transitions warehouse_forming = warehouse_formed ∷ []
strict_lifecycle_transitions warehouse_formed = handed_to_delivery ∷ []
strict_lifecycle_transitions handed_to_delivery = in_delivery ∷ []
strict_lifecycle_transitions in_delivery = received ∷ not_received ∷ []
strict_lifecycle_transitions received = returned ∷ []
strict_lifecycle_transitions not_received = returned ∷ []
strict_lifecycle_transitions returned = []
strict_lifecycle_transitions cancelled = []

-- `COARSE_PROJECTION_EXTRA_TRANSITIONS`
unfoldable pub coarse_projection_extra_transitions : OrderLifecycleStage → List OrderLifecycleStage
coarse_projection_extra_transitions ordered_unpaid = warehouse_fulfillment_requested ∷ []
coarse_projection_extra_transitions warehouse_fulfillment_requested =
    handed_to_delivery ∷ cancelled ∷ []
coarse_projection_extra_transitions warehouse_collecting = handed_to_delivery ∷ cancelled ∷ []
coarse_projection_extra_transitions handed_to_delivery = received ∷ []
coarse_projection_extra_transitions _ = []

pub data LifecycleError : Type 0 where
  unsupported_stage : Text → LifecycleError
  invalid_lifecycle_transition : OrderLifecycleStage → OrderLifecycleStage → LifecycleError

-- an absent stage is the empty text, which the code treats alike
unfoldable pub normalize_order_lifecycle_stage :
    Text → Result LifecycleError (Option OrderLifecycleStage)
normalize_order_lifecycle_stage stage =
    if is_empty stage
    then ok none
    else elim (find_named stage_text order_lifecycle_stages (to_lower_case (trim stage))) [
      | none ↦ throw (unsupported_stage stage)
      | some s ↦ ok (some s)
    ]

-- the set that the validator builds: the strict targets, and in coarse mode the extra ones
unfoldable pub allowed_targets :
    OrderLifecycleTransitionMode → OrderLifecycleStage → List OrderLifecycleStage
unfolding strict_lifecycle_transitions coarse_projection_extra_transitions
allowed_targets strict previous = strict_lifecycle_transitions previous
allowed_targets coarse_projection previous =
    strict_lifecycle_transitions previous ++ coarse_projection_extra_transitions previous

unfoldable pub validate_order_lifecycle_transition :
    Option OrderLifecycleStage
    → OrderLifecycleStage
    → OrderLifecycleTransitionMode
    → Result LifecycleError OrderLifecycleStage
unfolding allowed_targets
validate_order_lifecycle_transition none stage mode = ok stage
validate_order_lifecycle_transition (some previous) stage mode =
    if stage_eq previous stage
    then ok stage
    else if not (any (stage_eq stage) (allowed_targets mode previous))
    then throw (invalid_lifecycle_transition previous stage)
    else ok stage

unfoldable pub is_order_lifecycle_transition_allowed :
    Option OrderLifecycleStage → OrderLifecycleStage → OrderLifecycleTransitionMode → Bool
unfolding validate_order_lifecycle_transition
is_order_lifecycle_transition_allowed previous stage mode =
    is_ok (validate_order_lifecycle_transition previous stage mode)

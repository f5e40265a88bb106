-- ===== src/Orders/Publish.antt =====
-- src/orders/orders.service.ts: the events that the handlers publish.
use orders_microservice.Base.{Bool, false, Option, none, some, ok, throw, if◌then◌else◌}
use orders_microservice.Base.Text.{Text}
use orders_microservice.Entities.{Order}
use orders_microservice.Status.{OrderStatus, status_text, status_eq}
use orders_microservice.Status.Approval.{OrderStatusApprovalAudit}
use orders_microservice.Lifecycle.{
  OrderLifecycleStage, coarse_projection, stage_eq, validate_order_lifecycle_transition,
}
use orders_microservice.Events.{
  lifecycle_changed, build_order_lifecycle_changed_payload, build_order_updated_event,
  build_order_cancelled_event,
}
use orders_microservice.World.{M, ◌>>◌, pure, fail, publish, invalid_lifecycle}

-- `previousLifecycleStage === payload.lifecycleStage`
abbrev pub same_stage : Option OrderLifecycleStage → OrderLifecycleStage → Bool
same_stage none stage = false
same_stage (some previous) stage = stage_eq previous stage

-- `publishLifecycleChangedIfNeeded`
unfoldable pub publish_lifecycle_changed_if_needed :
    Order → Option OrderLifecycleStage → M (Unit {0})
publish_lifecycle_changed_if_needed order previous =
    let payload = build_order_lifecycle_changed_payload order previous in
    if same_stage previous payload.lifecycle_stage
    then pure tt
    else elim (validate_order_lifecycle_transition previous payload.lifecycle_stage
        coarse_projection) [
          | ok _ ↦ publish (lifecycle_changed payload)
          | throw e ↦ fail (invalid_lifecycle e)
        ]

-- `publishOrderUpdated`: a cancellation has an event of its own too
unfoldable pub publish_order_updated :
    Text → OrderStatus → Option Text → Option OrderStatusApprovalAudit → M (Unit {0})
unfolding build_order_updated_event build_order_cancelled_event
publish_order_updated id status previous approval = do
  publish (build_order_updated_event id (status_text status) previous approval)
  if status_eq status OrderStatus.cancelled
      then publish (build_order_cancelled_event id previous approval)
      else pure tt

-- `value || previous`
abbrev pub or_previous : Option Text → Option Text → Option Text
or_previous none previous = previous
or_previous (some s) previous = some s

-- ===== src/Admin/Overview.antt =====
-- src/admin/admin.service.ts: the mode of an actor, the action on a status, the metrics of the
-- dashboard and the overview of operations. Texts for the reader are left out.
use orders_microservice.Base.{
  is_some, filter, not, any, length, ◌*◌, ltb, Option, Result, Bool, List, ℕ, none, some, [], ◌∷◌,
  ok, throw, if◌then◌else◌, false, ◌&&◌, ◌||◌, ◌+◌,
}
use orders_microservice.Base.Text.{
  is_empty, text_or_empty, to_lower_case, mem_text, trim, Text, text_eq, lit,
}
use orders_microservice.Admin.{serialize_order_summary, OrderSummary}
use orders_microservice.Orders.UpdateStatus.{update_status}
use orders_microservice.Status.Approval.{OrderStatusTransitionContext, OrderStatusApprovalInput}
use orders_microservice.Entities.{Order}
use orders_microservice.World.{World, Env, ServiceError}

abbrev pub admin_read_roles : List Text
admin_read_roles =
    lit "global:superadmin"
    ∷ lit "internal:orders-microservice:admin"
    ∷ lit "internal:orders-microservice:readonly"
    ∷ lit "internal:orders-microservice:operator"
    ∷ []

abbrev pub admin_action_roles : List Text
admin_action_roles = lit "global:superadmin" ∷ lit "internal:orders-microservice:action-admin" ∷ []

-- roles that are no list are the empty one
pub record AdminActor : Type 0 where
  pub sub : Option Text
  pub email : Option Text
  pub roles : List Text

-- the fields that the two flags determine are left out
pub record AdminMode : Type 0 where
  pub can_read : Bool
  pub can_run_actions : Bool

unfoldable pub get_admin_mode : AdminActor → AdminMode
unfolding mem_text
get_admin_mode actor =
    let can_run = any (λ role. mem_text role admin_action_roles) actor.roles in
    record {
      can_read = can_run || any (λ role. mem_text role admin_read_roles) actor.roles;
      can_run_actions = can_run;
    }

pub record AdminOrderStatusActionInput : Type 0 where
  pub order_id : Option Text
  pub status : Option Text
  pub approval : Option OrderStatusApprovalInput

pub data AdminError : Type 0 where
  action_role_required order_and_status_required : AdminError
  service_failed : ServiceError → AdminError

pub record StatusAction : Type 0 where
  pub resource_id : Text
  pub requested_status : Text
  pub resulting_status : Text
  pub approval_required : Bool
  pub order : OrderSummary

unfoldable pub status_action : Text → Order → StatusAction
unfolding serialize_order_summary text_eq to_lower_case
status_action status order = record {
  resource_id = order.id;
  requested_status = status;
  resulting_status = order.status;
  approval_required = text_eq (to_lower_case status) (lit "cancelled");
  order = serialize_order_summary order;
}

abbrev pub action_result : Text → Result ServiceError Order → Result AdminError StatusAction
action_result status (throw e) = throw (service_failed e)
action_result status (ok order) = ok (status_action status order)

module _ (env : Env) where
  -- `updateStatus` with the input's approval and the actor
  abbrev pub action_context :
      AdminOrderStatusActionInput → AdminActor → OrderStatusTransitionContext
  action_context input actor = record {
    approval = input.approval;
    actor = some (record { sub = actor.sub; email = actor.email });
    now = none;
    clock = env.clock;
  }

  unfoldable pub run_action :
      AdminOrderStatusActionInput
      → AdminActor
      → Text
      → Text
      → World
      → World × Result AdminError StatusAction
  unfolding update_status
  run_action input actor order_id status w =
      let (w', r) = update_status env order_id status (action_context input actor) w in
      (w', action_result status r)

  unfoldable pub apply_order_status_action :
      AdminOrderStatusActionInput → AdminActor → World → World × Result AdminError StatusAction
  unfolding get_admin_mode trim run_action
  apply_order_status_action input actor w =
      let order_id = trim (text_or_empty input.order_id) in
      let status = trim (text_or_empty input.status) in
      if not (get_admin_mode actor).can_run_actions
      then (w, throw action_role_required)
      else if is_empty order_id || is_empty status
      then (w, throw order_and_status_required)
      else run_action input actor order_id status w

abbrev pub open_states : List Text
open_states = lit "pending" ∷ lit "confirmed" ∷ lit "processing" ∷ []

abbrev pub is_open_order : Order → Bool
is_open_order order = mem_text order.status open_states

abbrev pub has_status : Text → Order → Bool
has_status status order = text_eq order.status status

pub record Metrics : Type 0 where
  pub total_orders : ℕ
  pub matching_orders : ℕ
  pub visible_orders : ℕ
  pub open_orders : ℕ
  pub shipped_orders : ℕ
  pub delivered_orders : ℕ
  pub total_visible_value : ℕ

abbrev pub sum_totals : List OrderSummary → ℕ
sum_totals [] = 0
sum_totals (s ∷ ss) = s.total + sum_totals ss

unfoldable pub get_metrics : List Order → List OrderSummary → ℕ → Metrics
unfolding mem_text text_eq
get_metrics all_orders summaries total_matching = record {
  total_orders = length all_orders;
  matching_orders = total_matching;
  visible_orders = length summaries;
  open_orders = length (filter is_open_order all_orders);
  shipped_orders = length (filter (has_status (lit "shipped")) all_orders);
  delivered_orders = length (filter (has_status (lit "delivered")) all_orders);
  total_visible_value = sum_totals summaries;
}

-- `updatedAt > 0 && now - updatedAt > 24 h`, in milliseconds
abbrev pub is_stale : ℕ → Order → Bool
is_stale now order = elim order.updated_at [
  | none ↦ false
  | some t ↦ ltb 0 t && ltb (t + 24 * 60 * 60 * 1000) now
]

pub record LifecycleOverview : Type 0 where
  pub open_orders : ℕ
  pub stale_open_orders : ℕ
  pub paid_orders : ℕ
  pub shipment_records : ℕ
  pub warehouse_handoffs : ℕ

-- the block `lifecycle` of `getOperationsOverview`
unfoldable pub lifecycle_overview : ℕ → List Order → ℕ → LifecycleOverview
unfolding mem_text text_eq
lifecycle_overview now orders shipment_count = record {
  open_orders = length (filter is_open_order orders);
  stale_open_orders = length (filter (λ o. is_open_order o && is_stale now o) orders);
  paid_orders = length (filter (λ o. text_eq (text_or_empty o.payment_status) (lit "paid")) orders);
  shipment_records = shipment_count;
  warehouse_handoffs = length (filter (λ o. is_some o.warehouse_handoff) orders);
}

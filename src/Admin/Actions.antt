-- ===== src/Admin/Actions.antt =====
-- What an admin's action on a status does, in src/admin/admin.service.ts.
use orders_microservice.Base.{
  or_neither, Bool-cases, any, Result, throw, ◌≡◌, refl, true, false, inl, inr, ◌||◌,
}
use orders_microservice.Admin.Overview.{
  order_and_status_required, action_result, action_role_required, admin_action_roles,
  get_admin_mode, action_context, run_action, apply_order_status_action, AdminActor,
  AdminOrderStatusActionInput, AdminError, StatusAction,
}
use orders_microservice.Base.Text.{is_empty, mem_text, text_or_empty, trim, Text}
use orders_microservice.Orders.UpdateStatus.{update_status}
use orders_microservice.World.{World, Env, ServiceError}
use orders_microservice.Entities.{Order}

module _ (env : Env) (input : AdminOrderStatusActionInput) (actor : AdminActor) (w : World) where
  abbrev order_id : Text
  order_id = trim (text_or_empty input.order_id)

  abbrev status : Text
  status = trim (text_or_empty input.status)

  -- what the order service answers
  abbrev served : World × Result ServiceError Order
  served = update_status env order_id status (action_context env input actor) w

  pub data AdminAction (w' : World) : Result AdminError StatusAction → Type 0 where
    refused : (e : AdminError) → w' ≡ w → AdminAction w' (throw e)
    passed_on :
        any (λ role. mem_text role admin_action_roles) actor.roles ≡ true
        → is_empty order_id ≡ false
        → is_empty status ≡ false
        → w' ≡ served.0
        → AdminAction w' (action_result status served.1)

  -- An admin's request to change a status either fails and changes nothing at all, or is from an actor
  -- with an action role, for an order and a status that are not empty, and then does and answers just
  -- what the order service does on them.
  pub apply_order_status_action_lem :
      let (w', r) = apply_order_status_action env input actor w in AdminAction w' r
  unfolding apply_order_status_action run_action get_admin_mode
  apply_order_status_action_lem =
      elim (Bool-cases (any (λ role. mem_text role admin_action_roles) actor.roles)) [
        | inr powerless ↦ rw powerless (refused action_role_required refl)
        | inl able ↦ elim (Bool-cases (is_empty order_id || is_empty status)) [
          | inl missing ↦ rw (able, missing) (refused order_and_status_required refl)
          | inr given ↦
              let (full, full') = or_neither (is_empty order_id) (is_empty status) given in
              rw (able, given) (passed_on able full full' refl)
        ]
      ]

-- ===== src/Examples/Administering.antt =====
-- The theorem on an admin's action, at an order that is paid.
use orders_microservice.Admin.Actions.{apply_order_status_action_lem, AdminAction}
use orders_microservice.Examples.Data.{paid_order, holding, willing}
use orders_microservice.Admin.Overview.{
  AdminActor, AdminOrderStatusActionInput, apply_order_status_action,
}
use orders_microservice.Base.{none, some, [], ◌∷◌}
use orders_microservice.Base.Text.{lit}

abbrev operator : AdminActor
operator = record {
  sub = some (lit "u1");
  email = none;
  roles = lit "internal:orders-microservice:action-admin" ∷ [];
}

abbrev processing : AdminOrderStatusActionInput
processing = record {
  order_id = some (lit " o1");
  status = some (lit "processing");
  approval = none;
}

apply_order_status_action_lem_example :
    let (w', r) = apply_order_status_action willing processing operator (holding paid_order) in
    AdminAction willing processing operator (holding paid_order) w' r
apply_order_status_action_lem_example =
    apply_order_status_action_lem willing processing operator (holding paid_order)

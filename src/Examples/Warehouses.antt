-- ===== src/Examples/Warehouses.antt =====
-- The theorems on reservations, on orders with one item and with two.
use orders_microservice.Handoff.Lines.{build_fulfillment_lines-IsDistinct, IsDistinct}
use orders_microservice.Base.Text.{lit, Text}
use orders_microservice.Examples.Data.{one_item, holding, new_order, willing}
use orders_microservice.Handoff.{build_fulfillment_lines}
use orders_microservice.Requests.{WarehouseReservationSnapshot, cancel}
use orders_microservice.Entities.{Order}
use orders_microservice.Base.{some, [], ◌∷◌}
use orders_microservice.Warehouse.Action.{apply_reservation_action_lem, Applied}
use orders_microservice.Warehouse.Reserve.{reserve_order_items_lem, Reservation}
use orders_microservice.Warehouse.{apply_reservation_action, reserve_order_items}

reserve_order_items_lem_example :
    let (w', s) = reserve_order_items willing new_order (holding new_order) in
    Reservation willing new_order (holding new_order) w' s
reserve_order_items_lem_example = reserve_order_items_lem willing new_order (holding new_order)

apply_reservation_action_lem_example :
    let (w', s) = apply_reservation_action willing cancel new_order (holding new_order) in
    Applied willing cancel new_order (holding new_order) w' s
apply_reservation_action_lem_example =
    apply_reservation_action_lem willing cancel new_order (holding new_order)

abbrev fulfilled : Text → WarehouseReservationSnapshot
fulfilled id = record {
  id = some id;
  order_id = some (lit "o1");
  product_id = some (lit "p1");
  warehouse_id = some (lit "w1");
  quantity = some 2;
  status = some (lit "fulfilled");
}

-- two items that the same reservations fit
abbrev doubled_order : Order
doubled_order = record new_order { items = one_item ∷ one_item ∷ [] }

build_fulfillment_lines-IsDistinct_example :
    IsDistinct
      (build_fulfillment_lines doubled_order (fulfilled (lit "a") ∷ fulfilled (lit "b") ∷ []))
build_fulfillment_lines-IsDistinct_example =
    build_fulfillment_lines-IsDistinct doubled_order
      (fulfilled (lit "a") ∷ fulfilled (lit "b") ∷ [])

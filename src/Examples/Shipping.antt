-- ===== src/Examples/Shipping.antt =====
-- The theorem on shipments, at a shipment that is tracked and then delivered.
use orders_microservice.Shipments.Kept.{
  moves, tracks, done, then_run, ShipmentRuns-AreLater, AreLater,
}
use orders_microservice.Base.Text.{lit}
use orders_microservice.Shipments.{
  absent, given, update_shipment_status, update_tracking, Shipment, ShipmentsState,
}
use orders_microservice.Base.{Bool, none, [], ◌∷◌, true}

abbrev parcel : Shipment
parcel = record {
  id = lit "s1";
  order_id = lit "o1";
  carrier = lit "post";
  tracking_number = none;
  tracking_url = none;
  status = lit "created";
  shipped_at = none;
  delivered_at = none;
}

abbrev depot : ShipmentsState
depot = record { rows = parcel ∷ []; audits = [] }

abbrev writes : ShipmentsState → Shipment → Bool
writes = λ s row. true

abbrev tracked_depot : ShipmentsState
unfolding update_tracking
tracked_depot = (update_tracking writes 3 (lit "s1") (given (lit "T1")) absent depot).0

abbrev emptied_depot : ShipmentsState
unfolding update_shipment_status
emptied_depot =
    (update_shipment_status writes 7 (lit "s1") (given (lit "delivered")) tracked_depot).0

ShipmentRuns-AreLater_example : AreLater depot.rows emptied_depot.rows
unfolding update_tracking update_shipment_status
ShipmentRuns-AreLater_example = ShipmentRuns-AreLater {s = depot} {t = emptied_depot} (
    then_run {t = tracked_depot}
      (then_run done (tracks writes 3 (lit "s1") (given (lit "T1")) absent))
      (moves writes 7 (lit "s1") (given (lit "delivered"))))

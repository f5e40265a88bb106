-- ===== src/Examples/Items.antt =====
-- The theorem on the items, at an item that is shipped.
use orders_microservice.Items.Moves.{update_fulfillment_status_lem, ItemUpdate}
use orders_microservice.Base.{Bool, [], ◌∷◌, true}
use orders_microservice.Examples.Data.{one_item}
use orders_microservice.Items.{ItemRow, ItemsState, update_fulfillment_status}
use orders_microservice.Base.Text.{lit}

abbrev stock : ItemsState
stock = record { rows = record { order_id = lit "o1"; item = one_item } ∷ []; audits = [] }

abbrev always : ItemsState → ItemRow → Bool
always = λ s row. true

update_fulfillment_status_lem_example :
    let (s', r) = update_fulfillment_status always (lit "i1") (lit "reserved") stock in
    ItemUpdate always (lit "i1") (lit "reserved") stock s' r
update_fulfillment_status_lem_example =
    update_fulfillment_status_lem always (lit "i1") (lit "reserved") stock

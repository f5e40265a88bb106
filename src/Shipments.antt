-- ===== src/Shipments.antt =====
-- src/shipments/shipments.service.ts and src/shipments/shipment.entity.ts: the shipments of an order.
-- The table is the list of its rows; whether the database saves is a parameter. The bodies of the
-- requests are not validated, so a text of them may be absent or null; values of other JSON types,
-- which the database's driver would turn into texts, are left out.
use orders_microservice.Base.Text.{text_or_empty, Text, text_eq, lit}
use orders_microservice.Base.{
  true, false, ◌&&◌, filter, Option, Result, Bool, List, ℕ, none, some, [], ◌∷◌, ok, throw,
  if◌then◌else◌, ◌≡◌,
}
use orders_microservice.World.{Outcome, success, failure}
pub mod Kept

pub record Shipment : Type 0 where
  pub id : Text
  pub order_id : Text
  pub carrier : Text
  pub tracking_number : Option Text
  pub tracking_url : Option Text
  pub status : Text
  pub shipped_at : Option ℕ
  pub delivered_at : Option ℕ

pub data ShipmentOperation : Type 0 where
  shipment_create tracking_update shipment_status_update : ShipmentOperation

pub record ShipmentAudit : Type 0 where
  pub operation : ShipmentOperation
  pub resource_id : Option Text
  pub order_id : Text
  pub previous_status : Option Text
  pub resulting_status : Option Text
  pub outcome : Outcome

pub record ShipmentsState : Type 0 where
  pub rows : List Shipment
  pub audits : List ShipmentAudit

-- a text in a request's body: left out, null, or there
pub data BodyText : Type 0 where
  absent null_text : BodyText
  given : Text → BodyText

-- the field as the object holds it, where what is left out is `undefined`
abbrev pub body_value : BodyText → Option Text
body_value absent = none
body_value null_text = none
body_value (given s) = some s

-- the column after a save, which leaves it as it is for `undefined`
abbrev pub saved_value : BodyText → Option Text → Option Text
saved_value absent old = old
saved_value null_text old = none
saved_value (given s) old = some s

-- `if (trackingUrl)`
abbrev pub new_tracking_url : BodyText → Option Text → Option Text
new_tracking_url (given (c ∷ url)) old = some (c ∷ url)
new_tracking_url _ old = old

-- what an update answers: the shipment with the assigned fields as they are in the body
pub record ShipmentAnswer : Type 0 where
  pub stored : Shipment
  pub answered_tracking_number : Option Text
  pub answered_status : Option Text

pub data ShipmentsError : Type 0 where
  shipment_not_found : Text → ShipmentsError
  shipment_not_saved : ShipmentsError

unfoldable pub find_shipment : Text → List Shipment → Option Shipment
unfolding text_eq
find_shipment id [] = none
find_shipment id (r ∷ rs) = if text_eq r.id id then some r else find_shipment id rs

-- an update by the primary key
unfoldable pub replace_shipment : Shipment → List Shipment → List Shipment
unfolding text_eq
replace_shipment row [] = []
replace_shipment row (r ∷ rs) =
    if text_eq r.id row.id then row ∷ rs else r ∷ replace_shipment row rs

unfoldable pub shipments_by_order : Text → ShipmentsState → List Shipment
unfolding text_eq
shipments_by_order order_id s = filter (λ r. text_eq r.order_id order_id) s.rows

-- `shipmentRepository.save`: a new row, or an update where the identifier is in use
unfoldable pub put_shipment : Shipment → List Shipment → List Shipment
unfolding find_shipment replace_shipment
put_shipment row rows = elim (find_shipment row.id rows) [
  | none ↦ row ∷ rows
  | some _ ↦ replace_shipment row rows
]

abbrev pub note_shipment :
    ShipmentOperation
    → Option Text
    → Text
    → Option Text
    → Option Text
    → Outcome
    → ShipmentsState
    → ShipmentsState
note_shipment operation id order_id previous resulting outcome s = record s {
  audits =
      record {
        operation = operation;
        resource_id = id;
        order_id = order_id;
        previous_status = previous;
        resulting_status = resulting;
        outcome = outcome;
      }
      ∷ s.audits;
}

module _ (saves : ShipmentsState → Shipment → Bool) (clock : ℕ) where
  -- `create`, for the row with its column defaults and the identifier that saving gives it; the entry
  -- of a failure has the identifier of the request, and no status
  unfoldable pub create_shipment :
      Option Text → Shipment → ShipmentsState → ShipmentsState × Result ShipmentsError Shipment
  unfolding put_shipment
  create_shipment given_id row s =
      if saves s row
      then (
        note_shipment shipment_create (some row.id) row.order_id none (some row.status) success
            (record s { rows = put_shipment row s.rows }),
        ok row,
      )
      else (
        note_shipment shipment_create given_id row.order_id none none failure s,
        throw shipment_not_saved,
      )

  -- the `try` block of both updates, for the answer with the row that a save would store
  unfoldable pub store_shipment :
      ShipmentOperation
      → Shipment
      → ShipmentAnswer
      → Bool
      → ShipmentsState
      → ShipmentsState × Result ShipmentsError ShipmentAnswer
  unfolding replace_shipment
  store_shipment operation old answer fits s =
      let note =
        note_shipment operation (some old.id) old.order_id (some old.status)
          answer.answered_status in
      if fits && saves s answer.stored
      then (note success (record s { rows = replace_shipment answer.stored s.rows }), ok answer)
      else (note failure s, throw shipment_not_saved)

  abbrev pub with_tracking : BodyText → BodyText → Shipment → ShipmentAnswer
  with_tracking number url row = record {
    stored = record row {
      tracking_number = saved_value number row.tracking_number;
      tracking_url = new_tracking_url url row.tracking_url;
      status = lit "picked_up";
      shipped_at = some clock;
    };
    answered_tracking_number = body_value number;
    answered_status = some (lit "picked_up");
  }

  unfoldable pub update_tracking :
      Text
      → BodyText
      → BodyText
      → ShipmentsState
      → ShipmentsState × Result ShipmentsError ShipmentAnswer
  unfolding find_shipment store_shipment
  update_tracking id number url s = elim (find_shipment id s.rows) [
    | none ↦ (s, throw (shipment_not_found id))
    | some row ↦ store_shipment tracking_update row (with_tracking number url row) true s
  ]

  -- `status === 'delivered'`
  unfoldable pub is_delivered : BodyText → Bool
  unfolding text_eq
  is_delivered absent = false
  is_delivered null_text = false
  is_delivered (given status) = text_eq status (lit "delivered")

  unfoldable pub with_shipment_status : BodyText → Shipment → ShipmentAnswer
  unfolding is_delivered
  with_shipment_status status row = record {
    stored = record row {
      status = text_or_empty (saved_value status (some row.status));
      delivered_at = if is_delivered status then some clock else row.delivered_at;
    };
    answered_tracking_number = row.tracking_number;
    answered_status = body_value status;
  }

  -- the column takes no null
  abbrev pub is_storable : BodyText → Bool
  is_storable null_text = false
  is_storable _ = true

  unfoldable pub update_shipment_status :
      Text → BodyText → ShipmentsState → ShipmentsState × Result ShipmentsError ShipmentAnswer
  unfolding find_shipment store_shipment with_shipment_status
  update_shipment_status id status s = elim (find_shipment id s.rows) [
    | none ↦ (s, throw (shipment_not_found id))
    | some row ↦
        store_shipment shipment_status_update row (with_shipment_status status row)
          (is_storable status) s
  ]

-- ===== src/Items.antt =====
-- src/items/items.service.ts: the items of an order. The table is the list of its rows; whether the
-- database saves is a parameter, and a new item has the identifier that saving gives it.
use orders_microservice.Base.Text.{text_or_empty, Text, text_eq}
use orders_microservice.Status.{item_status_text, ItemFulfillmentStatus}
use orders_microservice.Base.{
  Option, Result, filter, Bool, List, none, some, [], ◌∷◌, ok, throw, if◌then◌else◌,
}
use orders_microservice.Entities.{OrderItem}
use orders_microservice.Status.Validate.{ItemStatusError, validate_item_fulfillment_transition}
use orders_microservice.World.{Outcome, success, rejected, failure}
pub mod Moves

pub record ItemRow : Type 0 where
  pub order_id : Text
  pub item : OrderItem

pub data ItemOperation : Type 0 where
  item_create item_update : ItemOperation

-- the operation and the outcome of an audit entry
pub record ItemAudit : Type 0 where
  pub operation : ItemOperation
  pub outcome : Outcome

pub record ItemsState : Type 0 where
  pub rows : List ItemRow
  pub audits : List ItemAudit

pub data ItemsError : Type 0 where
  item_not_found : Text → ItemsError
  invalid_item_status : ItemStatusError → ItemsError
  item_not_saved : ItemsError

-- an update by the primary key
unfoldable pub replace_item : ItemRow → List ItemRow → List ItemRow
unfolding text_eq
replace_item row [] = []
replace_item row (r ∷ rs) =
    if text_eq r.item.id row.item.id then row ∷ rs else r ∷ replace_item row rs

unfoldable pub find_item : Text → List ItemRow → Option ItemRow
unfolding text_eq
find_item id [] = none
find_item id (r ∷ rs) = if text_eq r.item.id id then some r else find_item id rs

unfoldable pub find_by_order : Text → ItemsState → List ItemRow
unfolding text_eq
find_by_order order_id s = filter (λ r. text_eq r.order_id order_id) s.rows

abbrev pub note_item : ItemOperation → Outcome → ItemsState → ItemsState
note_item operation outcome s = record s {
  audits = record { operation = operation; outcome = outcome } ∷ s.audits;
}

-- `itemRepository.save`: a new row, or an update where the identifier is in use
abbrev pub put_item : ItemRow → List ItemRow → List ItemRow
put_item row rows = elim (find_item row.item.id rows) [
  | none ↦ row ∷ rows
  | some _ ↦ replace_item row rows
]

module _ (saves : ItemsState → ItemRow → Bool) where
  -- `addItem`, for the row of the order with the item's data
  unfoldable pub add_item : ItemRow → ItemsState → ItemsState × Result ItemsError OrderItem
  unfolding find_item replace_item
  add_item row s =
      if saves s row
      then (note_item item_create success (record s { rows = put_item row s.rows }), ok row.item)
      else (note_item item_create failure s, throw item_not_saved)

  abbrev pub with_status : ItemFulfillmentStatus → ItemRow → ItemRow
  with_status next row =
      let item = row.item in
      record row { item = record item { fulfillment_status = some (item_status_text next) } }

  -- the second `try` block of `updateFulfillmentStatus`
  unfoldable pub store_status : ItemRow → ItemsState → ItemsState × Result ItemsError OrderItem
  unfolding replace_item
  store_status row s =
      if saves s row
      then (
        note_item item_update success (record s { rows = replace_item row s.rows }),
        ok row.item,
      )
      else (note_item item_update failure s, throw item_not_saved)

  -- `updateFulfillmentStatus` on an item that was found
  unfoldable pub update_found_item :
      Text → ItemRow → ItemsState → ItemsState × Result ItemsError OrderItem
  unfolding store_status validate_item_fulfillment_transition
  update_found_item status row s =
      elim (validate_item_fulfillment_transition (text_or_empty row.item.fulfillment_status)
        status) [
          | throw e ↦ (note_item item_update rejected s, throw (invalid_item_status e))
          | ok next ↦ store_status (with_status next row) s
        ]

  unfoldable pub update_fulfillment_status :
      Text → Text → ItemsState → ItemsState × Result ItemsError OrderItem
  unfolding find_item update_found_item
  update_fulfillment_status id status s = elim (find_item id s.rows) [
    | none ↦ (s, throw (item_not_found id))
    | some row ↦ update_found_item status row s
  ]

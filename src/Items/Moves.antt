-- ===== src/Items/Moves.antt =====
-- What `updateFulfillmentStatus` of src/items/items.service.ts does to an item.
use orders_microservice.Items.{
  item_not_saved, with_status, invalid_item_status, replace_item, item_not_found, find_item,
  ItemsError, store_status, update_found_item, update_fulfillment_status, ItemRow, ItemsState,
}
use orders_microservice.Base.{
  Bool-cases, Result-cases, inr, inl, ◌≡◌, Option-cases, Result, Bool, refl, some, ok, throw,
}
use orders_microservice.Status.ItemMoves.{validate_item_fulfillment_transition_iff, IsItemStep}
use orders_microservice.Status.Validate.{validate_item_fulfillment_transition}
use orders_microservice.Status.{normalize_item_fulfillment_status, ItemFulfillmentStatus}
use orders_microservice.Base.Text.{text_or_empty, Text}
use orders_microservice.Entities.{OrderItem}

module _ (saves : ItemsState → ItemRow → Bool) (id status : Text) (s : ItemsState) where
  pub data ItemUpdate (s' : ItemsState) : Result ItemsError OrderItem → Type 0 where
    refused : (e : ItemsError) → s'.rows ≡ s.rows → ItemUpdate s' (throw e)
    moved :
        (row : ItemRow) (current next : ItemFulfillmentStatus)
        → find_item id s.rows ≡ some row
        → normalize_item_fulfillment_status (text_or_empty row.item.fulfillment_status)
          ≡ some current
        → normalize_item_fulfillment_status status ≡ some next
        → IsItemStep current next
        → s'.rows ≡ replace_item (with_status saves next row) s.rows
        → ItemUpdate s' (ok (with_status saves next row).item)

  found_item_lem :
      (row : ItemRow)
      → find_item id s.rows ≡ some row
      → let (s', r) = update_found_item saves status row s in ItemUpdate s' r
  unfolding update_found_item store_status
  found_item_lem row there =
      let before = text_or_empty row.item.fulfillment_status in
      elim (Result-cases (validate_item_fulfillment_transition before status)) [
        | inr (e, wrong) ↦ rw (wrong, update_found_item) (refused (invalid_item_status e) refl)
        | inl (next, right) ↦
            let (named, current, known, step) =
              (validate_item_fulfillment_transition_iff before status next).0 right in
            elim (Bool-cases (saves s (with_status saves next row))) [
              | inl kept ↦
                  rw (right, update_found_item)
                    (rw (kept, store_status) (moved row current next there known named step refl))
              | inr lost ↦
                  rw (right, update_found_item)
                    (rw (lost, store_status) (refused item_not_saved refl))
            ]
      ]

  -- A request to change an item's fulfillment status either fails and changes no row, or stores the
  -- status that was asked for in the item's row, and in nothing else of it or of any other row; the
  -- new status is the old one or the next after it.
  pub update_fulfillment_status_lem :
      let (s', r) = update_fulfillment_status saves id status s in ItemUpdate s' r
  unfolding update_fulfillment_status
  update_fulfillment_status_lem = elim (Option-cases (find_item id s.rows)) [
    | inl absent ↦ rw (absent, update_fulfillment_status) (refused (item_not_found id) refl)
    | inr (row, there) ↦ rw (there, update_fulfillment_status) (found_item_lem row there)
  ]

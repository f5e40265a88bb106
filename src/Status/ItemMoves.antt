-- ===== src/Status/ItemMoves.antt =====
-- The validator of an item's fulfillment status in src/orders/status-transitions.ts.
use mathlib.Core.Path.{subst}
use orders_microservice.Base.{inr, inl, Option-cases, arith, ◌+◌, ◌↔◌, ◌⊎◌, ◌≡◌, some, ok}
use orders_microservice.Status.{
  reserved, normalize_item_fulfillment_status, item_fulfillment_rank, item_fulfillment_transitions,
  ItemFulfillmentStatus,
}
use orders_microservice.Base.Text.{Text}
use orders_microservice.Status.Validate.{
  decide_item_transition, validate_item_fulfillment_transition,
}

-- an item stays where it is, or moves one step on
abbrev pub IsItemStep : ItemFulfillmentStatus → ItemFulfillmentStatus → Type 0
IsItemStep current requested =
    (requested ≡ current) ⊎ (item_fulfillment_rank requested ≡ item_fulfillment_rank current + 1)

decide_iff :
    (current requested s : ItemFulfillmentStatus)
    → (decide_item_transition current requested ≡ ok s)
      ↔ ((s ≡ requested) × IsItemStep current requested)
unfolding decide_item_transition item_fulfillment_transitions item_fulfillment_rank
decide_iff ItemFulfillmentStatus.pending requested s = ground arith
decide_iff reserved requested s = ground arith
decide_iff ItemFulfillmentStatus.shipped requested s = ground arith
decide_iff ItemFulfillmentStatus.delivered requested s = ground arith

-- The validator accepts a change of an item's fulfillment status exactly when both texts name a
-- status and the requested one is the current one or the next in the order pending, reserved,
-- shipped, delivered; it returns the requested status.
pub validate_item_fulfillment_transition_iff :
    (current_text requested_text : Text) (s : ItemFulfillmentStatus)
    → (validate_item_fulfillment_transition current_text requested_text ≡ ok s) ↔ (
        (normalize_item_fulfillment_status requested_text ≡ some s)
        × (current : ItemFulfillmentStatus) × (normalize_item_fulfillment_status current_text
            ≡ some current)
        × IsItemStep current s)
unfolding validate_item_fulfillment_transition
validate_item_fulfillment_transition_iff current_text requested_text s =
    elim (Option-cases (normalize_item_fulfillment_status requested_text)) [
      | inl unknown ↦ ground (arith, unknown)
      | inr (requested, known) ↦
          elim (Option-cases (normalize_item_fulfillment_status current_text)) [
            | inl unknown ↦ ground (arith, known, unknown)
            | inr (current, c) ↦ (
              λ h.
                  let (same, step) =
                    (decide_iff current requested s).0 (ground (arith, known, c)) in
                  (rw same known, current, c, rw same step),
              λ (named, from, found, step).
                  let same : s ≡ requested = cc in
                  let start : from ≡ current = cc in
                  let accepted =
                    (decide_iff current requested s).1
                      (same, subst (IsItemStep current) same (rw start at step)) in
                  ground (arith, known, c, accepted),
            )
          ]
    ]

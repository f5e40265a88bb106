-- ===== src/Handoff/Lines.antt =====
-- src/orders/order-fulfillment-handoff.client.ts, `buildFulfillmentLines`: which reservations the
-- lines of a fulfillment order use.
use orders_microservice.Handoff.{
  build_fulfillment_lines, fulfillment_line, lines_from, fits, find_reservation,
}
use orders_microservice.Base.{
  true, Bool-cases, inr, inl, Option-cases, false, All, arith, ◌≡◌, List, some, [], ◌∷◌,
}
use orders_microservice.Requests.{WarehouseReservationSnapshot, FulfillmentLinePayload}
use orders_microservice.Entities.{OrderItem, Order}
use orders_microservice.Base.Text.{Text, mem_text}

-- a line's reservation is none of those
abbrev pub IsFresh : List Text → FulfillmentLinePayload → Type 0
IsFresh used line = mem_text line.reservation_id used ≡ false

-- no reservation is used twice
abbrev pub IsDistinct : List FulfillmentLinePayload → Type 0
IsDistinct [] = Unit
IsDistinct (line ∷ lines) = All (IsFresh (line.reservation_id ∷ [])) lines × IsDistinct lines

fits_fresh :
    (order : Order) (item : OrderItem) (used : List Text) (c : WarehouseReservationSnapshot)
    (id : Text)
    → fits order item used c id ≡ true
    → mem_text id used ≡ false
unfolding fits
fits_fresh order item used c id h = ground arith

find_reservation_fresh :
    (order : Order) (item : OrderItem) (used : List Text)
    (reservations : List WarehouseReservationSnapshot) (id : Text)
    → find_reservation order item used reservations ≡ some id
    → mem_text id used ≡ false
unfolding find_reservation
find_reservation_fresh order item used [] id e = cc
find_reservation_fresh order item used (c ∷ cs) id e = elim (Option-cases c.id) [
  | inl missing ↦ find_reservation_fresh order item used cs id (rw (missing, find_reservation) at e)
  | inr (k, given) ↦ elim (Bool-cases (fits order item used c k)) [
    | inl fit ↦ ground (arith, given, fit, e, fits_fresh order item used c k fit)
    | inr other ↦ find_reservation_fresh order item used cs id (ground (arith, given, other, e))
  ]
]

weaken :
    (id : Text) (used : List Text) (line : FulfillmentLinePayload)
    → IsFresh (id ∷ used) line
    → IsFresh used line × IsFresh (id ∷ []) line
unfolding mem_text
weaken id used line h = ground arith

All-both :
    (id : Text) (used : List Text) (lines : List FulfillmentLinePayload)
    → All (IsFresh (id ∷ used)) lines
    → All (IsFresh used) lines × All (IsFresh (id ∷ [])) lines
All-both id used [] h = (tt, tt)
All-both id used (line ∷ lines) (h, hs) =
    let (here, apart) = weaken id used line h in
    let (rest, others) = All-both id used lines hs in ((here, rest), (apart, others))

lines_from-IsFresh :
    (order : Order) (reservations : List WarehouseReservationSnapshot) (used : List Text)
    (items : List OrderItem)
    → All (IsFresh used) (lines_from order reservations used items)
      × IsDistinct (lines_from order reservations used items)
unfolding lines_from fulfillment_line
lines_from-IsFresh order reservations used [] = (tt, tt)
lines_from-IsFresh order reservations used (item ∷ items) =
    elim (Option-cases (find_reservation order item used reservations)) [
      | inl missing ↦ rw (missing, lines_from) (lines_from-IsFresh order reservations used items)
      | inr (id, found) ↦
          let (fresh, distinct) = lines_from-IsFresh order reservations (id ∷ used) items in
          let both = All-both id used (lines_from order reservations (id ∷ used) items) fresh in
          let rest = lines_from order reservations (id ∷ used) items in
          let apart : IsDistinct (fulfillment_line item id ∷ rest) = (both.1, distinct) in
          let new : All (IsFresh used) (fulfillment_line item id ∷ rest) =
            (find_reservation_fresh order item used reservations id found, both.0) in
          rw (found, lines_from) (new, apart)
    ]

-- No two lines of a fulfillment order use the same reservation.
pub build_fulfillment_lines-IsDistinct :
    (order : Order) (reservations : List WarehouseReservationSnapshot)
    → IsDistinct (build_fulfillment_lines order reservations)
unfolding build_fulfillment_lines
build_fulfillment_lines-IsDistinct order reservations =
    (lines_from-IsFresh order reservations [] order.items).1

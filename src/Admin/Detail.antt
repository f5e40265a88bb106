-- ===== src/Admin/Detail.antt =====
-- src/admin/admin.service.ts: what is masked of a customer, and the events of an order and its
-- shipments. A shipment is read with the date of its creation.
use orders_microservice.Base.Text.{trim, text_or_empty, is_empty, Text, lit}
use orders_microservice.Admin.{get_source_meta}
use orders_microservice.Base.{
  not, length, ltb, take, Bool, ◌==◌, ◌||◌, false, newest_first, Option, List, ℕ, none, some, [],
  ◌∷◌, ◌++◌, if◌then◌else◌,
}
use orders_microservice.Entities.{Order}
use orders_microservice.Shipments.{Shipment}

pub data EventKind : Type 0 where
  order_created order_state shipment_created shipment_shipped shipment_delivered : EventKind

pub record AdminEvent : Type 0 where
  pub at : Option ℕ
  pub kind : EventKind
  pub label : Text
  pub detail : Text

pub record ShipmentRow : Type 0 where
  pub shipment : Shipment
  pub created_at : ℕ

-- an event for a date that is there
abbrev pub event_at : Option ℕ → EventKind → Text → Text → List AdminEvent
event_at none kind label detail = []
event_at (some t) kind label detail =
    record { at = some t; kind = kind; label = label; detail = detail } ∷ []

unfoldable pub shipment_events : ShipmentRow → List AdminEvent
shipment_events row =
    let s = row.shipment in
    event_at (some row.created_at) shipment_created (lit "Shipment " ++ s.status) (
      if is_empty (text_or_empty s.tracking_number)
      then s.carrier
      else s.carrier ++ lit " / tracking recorded")
    ++ event_at s.shipped_at shipment_shipped (lit "Shipment picked up") s.carrier
    ++ event_at s.delivered_at shipment_delivered (lit "Shipment delivered") s.carrier

abbrev pub all_shipment_events : List ShipmentRow → List AdminEvent
unfolding shipment_events
all_shipment_events [] = []
all_shipment_events (r ∷ rs) = shipment_events r ++ all_shipment_events rs

abbrev pub event_date : AdminEvent → ℕ
event_date event = elim event.at [ none ↦ 0 | some t ↦ t ]

-- the texts of dates of four-digit years are in the order of their instants
unfoldable pub build_timeline : Order → List ShipmentRow → List AdminEvent
unfolding newest_first get_source_meta shipment_events
build_timeline order shipments = newest_first event_date (
    event_at order.created_at order_created (lit "Order created")
      (lit "Created from " ++ (get_source_meta order).service)
    ++ event_at order.updated_at order_state (lit "Order state: " ++ order.status)
        (lit "Current state recorded by orders-microservice")
    ++ all_shipment_events shipments)

-- the parts of a masked value: `trimmed[0]` and what follows
unfoldable pub mask_name : Option Text → Text
unfolding trim
mask_name value = elim (trim (text_or_empty value)) [
  | [] ↦ lit "Unknown customer"
  | c ∷ [] ↦ lit "Customer **"
  | c ∷ d ∷ [] ↦ lit "Customer **"
  | c ∷ d ∷ e ∷ s ↦ c ∷ lit "***"
]

-- the part before the first `@`, and what follows it
abbrev pub before_at : Text → Text
before_at [] = []
before_at (c ∷ s) = let rest = before_at s in if c == b'@' then [] else c ∷ rest

abbrev pub after_at : Text → Text
after_at [] = []
after_at (c ∷ s) = let rest = after_at s in if c == b'@' then s else rest

-- `split('@')` with its first two parts, where a part that is missing is empty
unfoldable pub mask_email : Option Text → Option Text
unfolding trim
mask_email value =
    let trimmed = trim (text_or_empty value) in
    let local = before_at trimmed in
    let domain = before_at (after_at trimmed) in
    if is_empty trimmed
    then none
    else if is_empty local || is_empty domain
    then some (lit "[redacted]")
    else some (take 1 local ++ lit "***@" ++ domain)

-- `slice(-4)`
abbrev pub last_four : Text → Text
last_four [] = []
last_four (c ∷ s) = let rest = last_four s in if ltb (length s) 4 then c ∷ s else rest

unfoldable pub mask_tracking_value : Option Text → Option Text
unfolding trim
mask_tracking_value value =
    let trimmed = trim (text_or_empty value) in
    if is_empty trimmed then none else some (lit "tracking-***" ++ last_four trimmed)

pub record MaskedCustomer : Type 0 where
  pub name : Text
  pub email : Option Text
  pub phone_present : Bool

unfoldable pub serialize_customer : Order → MaskedCustomer
unfolding mask_name mask_email
serialize_customer order = elim order.customer [
  | none ↦ record { name = mask_name none; email = mask_email none; phone_present = false }
  | some c ↦ record {
    name = mask_name c.name;
    email = mask_email c.email;
    phone_present = not (is_empty (text_or_empty c.phone));
  }
]

-- ===== src/Status.antt =====
-- src/orders/status-transitions.ts: statuses, the two transition tables, and the validators.
-- A date is an instant; `toISOString` renders it and nothing more. A string parameter that is
-- absent is the empty text, which the code treats alike.
pub mod Approval
pub mod Validate
pub mod Names
pub mod Diagram
pub mod Cancellation
pub mod Items
pub mod ItemMoves
use orders_microservice.Base.{Bool, true, false, List, [], ◌∷◌, Option, none, ℕ, if◌then◌else◌, any}
use orders_microservice.Base.Text.{
  Text, lit, trim, to_lower_case, is_empty, text_eq, mem_text, find_named,
}

pub data OrderStatus : Type 0 where
  pending confirmed processing shipped delivered cancelled : OrderStatus

pub data ItemFulfillmentStatus : Type 0 where
  pending reserved shipped delivered : ItemFulfillmentStatus

unfoldable pub status_text : OrderStatus → Text
status_text OrderStatus.pending = lit "pending"
status_text confirmed = lit "confirmed"
status_text processing = lit "processing"
status_text OrderStatus.shipped = lit "shipped"
status_text OrderStatus.delivered = lit "delivered"
status_text cancelled = lit "cancelled"

unfoldable pub item_status_text : ItemFulfillmentStatus → Text
item_status_text ItemFulfillmentStatus.pending = lit "pending"
item_status_text reserved = lit "reserved"
item_status_text ItemFulfillmentStatus.shipped = lit "shipped"
item_status_text ItemFulfillmentStatus.delivered = lit "delivered"

abbrev pub order_statuses : List OrderStatus
order_statuses =
    OrderStatus.pending ∷ confirmed ∷ processing ∷ OrderStatus.shipped ∷ OrderStatus.delivered
    ∷ cancelled ∷ []

abbrev pub item_fulfillment_statuses : List ItemFulfillmentStatus
item_fulfillment_statuses =
    ItemFulfillmentStatus.pending ∷ reserved ∷ ItemFulfillmentStatus.shipped
    ∷ ItemFulfillmentStatus.delivered ∷ []

-- `===` on the two unions of literals
abbrev pub status_eq : OrderStatus → OrderStatus → Bool
status_eq OrderStatus.pending OrderStatus.pending = true
status_eq confirmed confirmed = true
status_eq processing processing = true
status_eq OrderStatus.shipped OrderStatus.shipped = true
status_eq OrderStatus.delivered OrderStatus.delivered = true
status_eq cancelled cancelled = true
status_eq _ _ = false

abbrev pub item_status_eq : ItemFulfillmentStatus → ItemFulfillmentStatus → Bool
item_status_eq ItemFulfillmentStatus.pending ItemFulfillmentStatus.pending = true
item_status_eq reserved reserved = true
item_status_eq ItemFulfillmentStatus.shipped ItemFulfillmentStatus.shipped = true
item_status_eq ItemFulfillmentStatus.delivered ItemFulfillmentStatus.delivered = true
item_status_eq _ _ = false

-- `CANCELLATION_SOURCES`
abbrev pub cancellation_sources : List OrderStatus
cancellation_sources = OrderStatus.pending ∷ confirmed ∷ processing ∷ []

abbrev pub refund_like_order_statuses : List Text
refund_like_order_statuses =
    lit "refund"
    ∷ lit "refunded"
    ∷ lit "refund_pending"
    ∷ lit "partially_refunded"
    ∷ lit "returned"
    ∷ lit "return_pending"
    ∷ []

abbrev pub refund_like_item_statuses : List Text
refund_like_item_statuses =
    lit "cancelled" ∷ lit "refund" ∷ lit "refunded" ∷ lit "returned" ∷ lit "return_pending" ∷ []

-- `ORDER_TRANSITIONS`
unfoldable pub order_transitions : OrderStatus → List OrderStatus
order_transitions OrderStatus.pending = confirmed ∷ []
order_transitions confirmed = processing ∷ []
order_transitions processing = OrderStatus.shipped ∷ []
order_transitions OrderStatus.shipped = OrderStatus.delivered ∷ []
order_transitions OrderStatus.delivered = []
order_transitions cancelled = []

-- `ITEM_FULFILLMENT_TRANSITIONS`
unfoldable pub item_fulfillment_transitions : ItemFulfillmentStatus → List ItemFulfillmentStatus
item_fulfillment_transitions ItemFulfillmentStatus.pending = reserved ∷ []
item_fulfillment_transitions reserved = ItemFulfillmentStatus.shipped ∷ []
item_fulfillment_transitions ItemFulfillmentStatus.shipped = ItemFulfillmentStatus.delivered ∷ []
item_fulfillment_transitions ItemFulfillmentStatus.delivered = []

-- `ITEM_FULFILLMENT_RANK`
unfoldable pub item_fulfillment_rank : ItemFulfillmentStatus → ℕ
item_fulfillment_rank ItemFulfillmentStatus.pending = 0
item_fulfillment_rank reserved = 1
item_fulfillment_rank ItemFulfillmentStatus.shipped = 2
item_fulfillment_rank ItemFulfillmentStatus.delivered = 3

unfoldable pub normalize_order_status : Text → Option OrderStatus
normalize_order_status status =
    if is_empty status
    then none
    else find_named status_text order_statuses (to_lower_case (trim status))

unfoldable pub normalize_item_fulfillment_status : Text → Option ItemFulfillmentStatus
normalize_item_fulfillment_status status =
    if is_empty status
    then none
    else find_named item_status_text item_fulfillment_statuses (to_lower_case (trim status))

-- `requestedStatus ? requestedStatus.trim().toLowerCase() : ''`
abbrev pub normalized_text : Text → Text
normalized_text s = if is_empty s then [] else to_lower_case (trim s)

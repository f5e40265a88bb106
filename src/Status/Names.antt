-- ===== src/Status/Names.antt =====
-- Recognizing a status by its name, in src/orders/status-transitions.ts.
use orders_microservice.Base.{◌≡◌, refl, sym, ◌↔◌, ◌∙◌, some, none, ap, [], ◌∷◌}
use orders_microservice.Base.Text.{Text, trim, to_lower_case, find_named, text_eq}
use orders_microservice.Base.Text.Laws.{find_named_sound}
use orders_microservice.Status.{
  OrderStatus, ItemFulfillmentStatus, status_text, item_status_text, order_statuses,
  item_fulfillment_statuses, normalize_order_status, normalize_item_fulfillment_status,
}

find-status_text :
    (s : OrderStatus) → find_named status_text order_statuses (status_text s) ≡ some s
unfolding find_named status_text text_eq
find-status_text OrderStatus.pending = refl
find-status_text _ = refl

find-item_status_text :
    (s : ItemFulfillmentStatus)
    → find_named item_status_text item_fulfillment_statuses (item_status_text s) ≡ some s
unfolding find_named item_status_text text_eq
find-item_status_text ItemFulfillmentStatus.pending = refl
find-item_status_text _ = refl

find-nil : find_named status_text order_statuses [] ≡ none
unfolding find_named status_text text_eq
find-nil = refl

find_item-nil : find_named item_status_text item_fulfillment_statuses [] ≡ none
unfolding find_named item_status_text text_eq
find_item-nil = refl

-- The guard on the empty text is subsumed by the search.
normalize_order_status_lem :
    (t : Text)
    → normalize_order_status t ≡ find_named status_text order_statuses (to_lower_case (trim t))
unfolding normalize_order_status trim to_lower_case
normalize_order_status_lem [] = sym find-nil
normalize_order_status_lem (c ∷ s) = refl

normalize_item_fulfillment_status_lem :
    (t : Text)
    → normalize_item_fulfillment_status t
      ≡ find_named item_status_text item_fulfillment_statuses (to_lower_case (trim t))
unfolding normalize_item_fulfillment_status trim to_lower_case
normalize_item_fulfillment_status_lem [] = sym find_item-nil
normalize_item_fulfillment_status_lem (c ∷ s) = refl

-- A text is recognized as an order status exactly when its trimmed lower case is the status's name.
pub normalize_order_status_iff :
    (t : Text) (s : OrderStatus)
    → (normalize_order_status t ≡ some s) ↔ (to_lower_case (trim t) ≡ status_text s)
normalize_order_status_iff t s = (
  λ h. sym (find_named_sound status_text order_statuses _ (sym (normalize_order_status_lem t) ∙ h)),
  λ e.
      normalize_order_status_lem t
      ∙ ap (find_named status_text order_statuses) e
      ∙ find-status_text s,
)

-- A text is recognized as an item's fulfillment status exactly when its trimmed lower case is the
-- status's name.
pub normalize_item_fulfillment_status_iff :
    (t : Text) (s : ItemFulfillmentStatus)
    → (normalize_item_fulfillment_status t ≡ some s) ↔ (to_lower_case (trim t) ≡ item_status_text s)
normalize_item_fulfillment_status_iff t s = (
  λ h. sym (
      find_named_sound item_status_text item_fulfillment_statuses _
        (sym (normalize_item_fulfillment_status_lem t) ∙ h)),
  λ e.
      normalize_item_fulfillment_status_lem t
      ∙ ap (find_named item_status_text item_fulfillment_statuses) e
      ∙ find-item_status_text s,
)

-- A text names an order status, or an item's fulfillment status, exactly when its trimmed lower case
-- is the status's name.
pub status_names_iff :
    (t : Text) (s : OrderStatus) (i : ItemFulfillmentStatus)
    → ((normalize_order_status t ≡ some s) ↔ (to_lower_case (trim t) ≡ status_text s))
      × ((normalize_item_fulfillment_status t ≡ some i)
          ↔ (to_lower_case (trim t) ≡ item_status_text i))
status_names_iff t s i = (normalize_order_status_iff t s, normalize_item_fulfillment_status_iff t i)

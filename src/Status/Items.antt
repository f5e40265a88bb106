-- ===== src/Status/Items.antt =====
-- The two guards on items of src/orders/status-transitions.ts.
use orders_microservice.Base.{
  ◌≡◌, refl, ◌⊎◌, ◌↔◌, List, [], ◌∷◌, Option, some, none, Bool, false, ok, arith, All, any,
}
use orders_microservice.Status.{ItemFulfillmentStatus, item_fulfillment_rank}
use orders_microservice.Status.Validate.{
  OrderItemFulfillmentSnapshot, item_status, before_shipped, not_delivered,
  validate_items_at_least_shipped, validate_items_delivered,
}

abbrev pub IsShipped : OrderItemFulfillmentSnapshot → Type 0
IsShipped item =
    (item_status item ≡ some ItemFulfillmentStatus.shipped)
    ⊎ (item_status item ≡ some ItemFulfillmentStatus.delivered)

abbrev pub IsDelivered : OrderItemFulfillmentSnapshot → Type 0
IsDelivered item = item_status item ≡ some ItemFulfillmentStatus.delivered

before_shipped_iff :
    (o : Option ItemFulfillmentStatus)
    → (before_shipped o ≡ false)
      ↔ ((o ≡ some ItemFulfillmentStatus.shipped) ⊎ (o ≡ some ItemFulfillmentStatus.delivered))
unfolding item_fulfillment_rank
before_shipped_iff none = ground arith
before_shipped_iff (some ItemFulfillmentStatus.pending) = ground arith
before_shipped_iff (some _) = ground arith

not_delivered_iff :
    (o : Option ItemFulfillmentStatus)
    → (not_delivered o ≡ false) ↔ (o ≡ some ItemFulfillmentStatus.delivered)
not_delivered_iff none = ground arith
not_delivered_iff (some ItemFulfillmentStatus.pending) = ground arith
not_delivered_iff (some _) = ground arith

any-false_iff {ℓ} :
    {A : Type ℓ} {P : A → Type 0} (p : A → Bool)
    → ((a : A) → (p a ≡ false) ↔ P a)
    → (xs : List A) → (any p xs ≡ false) ↔ All P xs
any-false_iff p iff [] = (λ _. tt, λ _. refl)
any-false_iff p iff (x ∷ xs) =
    let rest = any-false_iff p iff xs in
    (
      λ h. ((iff x).0 (ground arith), rest.0 (ground arith)),
      λ h. ground (arith, (iff x).1 h.0, rest.1 h.1),
    )

-- The guard on `shipped` passes exactly when every item is shipped or delivered.
pub validate_items_at_least_shipped_iff :
    (items : List OrderItemFulfillmentSnapshot)
    → (validate_items_at_least_shipped items ≡ ok tt) ↔ All IsShipped items
unfolding validate_items_at_least_shipped
validate_items_at_least_shipped_iff items =
    let (to, from) =
      any-false_iff (λ item. before_shipped (item_status item))
        (λ item. before_shipped_iff (item_status item)) items in
    (λ h. to (ground arith), λ a. ground (arith, from a))

-- The guard on `delivered` passes exactly when every item is delivered.
pub validate_items_delivered_iff :
    (items : List OrderItemFulfillmentSnapshot)
    → (validate_items_delivered items ≡ ok tt) ↔ All IsDelivered items
unfolding validate_items_delivered
validate_items_delivered_iff items =
    let (to, from) =
      any-false_iff (λ item. not_delivered (item_status item))
        (λ item. not_delivered_iff (item_status item)) items in
    (λ h. to (ground arith), λ a. ground (arith, from a))

-- The guard on `shipped` passes exactly when every item is shipped or delivered, and the guard on
-- `delivered` exactly when every item is delivered.
pub item_guards_iff :
    (items : List OrderItemFulfillmentSnapshot)
    → ((validate_items_at_least_shipped items ≡ ok tt) ↔ All IsShipped items)
      × ((validate_items_delivered items ≡ ok tt) ↔ All IsDelivered items)
item_guards_iff items =
    (validate_items_at_least_shipped_iff items, validate_items_delivered_iff items)

-- ===== src/Requests.antt =====
-- The requests to the warehouse, as the payload types of
-- src/warehouse/warehouse-reservation.client.ts and src/orders/order-fulfillment-handoff.client.ts.
use orders_microservice.Base.{ℕ, List, Option}
use orders_microservice.Base.Text.{Text}

pub data WarehouseReservationAction : Type 0 where
  release fulfill cancel expire return : WarehouseReservationAction

-- the body of a request to the warehouse
pub record ReservationPayload : Type 0 where
  pub product_id : Text
  pub warehouse_id : Option Text
  pub order_id : Text
  pub channel : Text
  pub reason_code : Text
  pub reference : Text
  pub quantity : Option ℕ
  pub expires_at : Option ℕ

-- an order's line in the request for a fulfillment order
pub record FulfillmentLinePayload : Type 0 where
  pub order_item_id : Text
  pub reservation_id : Text
  pub product_id : Text
  pub sku : Option Text
  pub title : Text
  pub warehouse_id : Option Text
  pub quantity : ℕ

pub record DeliveryAddress : Type 0 where
  pub name : Option Text
  pub street : Text
  pub city : Text
  pub postal_code : Text
  pub country : Text

pub record CustomerContact : Type 0 where
  pub name : Option Text
  pub email : Option Text
  pub phone : Option Text

pub record FulfillmentOrderPayload : Type 0 where
  pub order_id : Text
  pub order_number : Option Text
  pub channel : Option Text
  pub shipping_method : Text
  pub reason_code : Text
  pub reference : Option Text
  pub delivery_address : DeliveryAddress
  pub customer_contact : Option CustomerContact
  pub items : List FulfillmentLinePayload

-- what the warehouse answers about a reservation
pub record WarehouseReservationSnapshot : Type 0 where
  pub id : Option Text
  pub product_id : Option Text
  pub warehouse_id : Option Text
  pub order_id : Option Text
  pub quantity : Option ℕ
  pub status : Option Text

pub data Call : Type 0 where
  reserve_call : ReservationPayload → Call
  action_call : WarehouseReservationAction → ReservationPayload → Call
  reservations_call : (order_id : Text) → Call
  fulfillment_order_call : FulfillmentOrderPayload → Call

-- ===== src/Entities.antt =====
-- The stored records: src/orders/order.entity.ts, src/items/order-item.entity.ts, the warehouse
-- summary of src/warehouse/warehouse-reservation.client.ts, and the statuses of
-- src/orders/warehouse-fulfillment-status.dto.ts. Money is in hundredths, since the columns are
-- decimals of scale 2; a date is an instant. No bundle evidence is the empty list.
use orders_microservice.Base.{ℕ, List, [], ◌∷◌, Option}
use orders_microservice.Base.Text.{Text, lit}
use orders_microservice.Status.Approval.{OrderStatusApprovalAudit}

pub data WarehouseHandoffStatus : Type 0 where
  disabled skipped reserved released fulfilled cancelled expired returned failed :
      WarehouseHandoffStatus

pub data WarehouseFulfillmentStatus : Type 0 where
  requested collecting forming formed handed_to_delivery in_delivery delivered not_delivered :
      WarehouseFulfillmentStatus
  cancelled returned : WarehouseFulfillmentStatus

unfoldable pub fulfillment_status_text : WarehouseFulfillmentStatus → Text
fulfillment_status_text requested = lit "requested"
fulfillment_status_text collecting = lit "collecting"
fulfillment_status_text forming = lit "forming"
fulfillment_status_text formed = lit "formed"
fulfillment_status_text handed_to_delivery = lit "handed_to_delivery"
fulfillment_status_text in_delivery = lit "in_delivery"
fulfillment_status_text delivered = lit "delivered"
fulfillment_status_text not_delivered = lit "not_delivered"
fulfillment_status_text WarehouseFulfillmentStatus.cancelled = lit "cancelled"
fulfillment_status_text WarehouseFulfillmentStatus.returned = lit "returned"

abbrev pub warehouse_fulfillment_statuses : List WarehouseFulfillmentStatus
warehouse_fulfillment_statuses =
    requested ∷ collecting ∷ forming ∷ formed ∷ handed_to_delivery ∷ in_delivery ∷ delivered
    ∷ not_delivered ∷ WarehouseFulfillmentStatus.cancelled ∷ WarehouseFulfillmentStatus.returned
    ∷ []

pub data SkipReason : Type 0 where
  reservation_disabled missing_order_items missing_warehouse_id : SkipReason
  warehouse_fulfillment_not_completed missing_shipping_method missing_delivery_address : SkipReason
  missing_reservation_id : SkipReason

-- The stored value of `fulfillmentOrderHandoff`, with the fields that its two writers set.
pub record FulfillmentOrderHandoff : Type 0 where
  pub status : Option Text
  pub attempted_at : Option ℕ
  pub completed_at : Option ℕ
  pub warehouse_status : Option WarehouseFulfillmentStatus
  pub updated_at : Option ℕ
  pub reason_code : Option Text
  pub actor : Option Text
  pub reference : Option Text
  pub fulfillment_order_id : Option Text
  pub skip_reason : Option SkipReason
  pub item_count : Option ℕ
  pub handed_off_count : Option ℕ
  pub failure_code : Option Text

-- `status` is absent from a summary that the fulfillment callback starts. `failure_code` is
-- `warehouse_request_failed` or nothing.
pub record WarehouseHandoffSummary : Type 0 where
  pub status : Option WarehouseHandoffStatus
  pub attempted_at : ℕ
  pub completed_at : Option ℕ
  pub item_count : ℕ
  pub reserved_count : ℕ
  pub failed_count : ℕ
  pub reason_code : Text
  pub actor : Text
  pub skip_reason : Option SkipReason
  pub failure_code : Option Text
  pub compensated_count : Option ℕ
  pub compensation_failed_count : Option ℕ
  pub fulfillment_order_handoff : Option FulfillmentOrderHandoff

pub record OrderItem : Type 0 where
  pub id : Text
  pub product_id : Text
  pub sku : Option Text
  pub title : Text
  pub quantity : ℕ
  pub unit_price : ℕ
  pub total_price : ℕ
  pub fulfillment_status : Option Text
  pub warehouse_id : Option Text

pub record Customer : Type 0 where
  pub auth_user_id : Option Text
  pub subject : Option Text
  pub name : Option Text
  pub email : Option Text
  pub phone : Option Text

pub record Address : Type 0 where
  pub name : Option Text
  pub street : Option Text
  pub city : Option Text
  pub postal_code : Option Text
  pub country : Option Text
  pub company_name : Option Text
  pub company_id : Option Text
  pub tax_id : Option Text
  pub vat_id : Option Text
  pub email : Option Text

pub record BundleEvidence : Type 0 where
  pub contract_version : Text
  pub bundle_id : Text
  pub product_ids : List Text
  pub discount_policy_ref : Option Text
  pub free_shipping_policy_ref : Option Text
  pub server_total_source : Option Text

pub record Order : Type 0 where
  pub id : Text
  pub external_order_id : Option Text
  pub channel : Text
  pub channel_account_id : Option Text
  pub status : Text
  pub customer : Option Customer
  pub shipping_address : Option Address
  pub billing_address : Option Address
  pub subtotal : ℕ
  pub shipping_cost : ℕ
  pub tax_amount : ℕ
  pub total : ℕ
  pub currency : Text
  pub payment_method : Option Text
  pub payment_status : Option Text
  pub payment_reference_id : Option Text
  pub payment_application_id : Option Text
  pub payment_updated_at : Option ℕ
  pub shipping_method : Option Text
  pub customer_note : Option Text
  pub items : List OrderItem
  pub warehouse_handoff : Option WarehouseHandoffSummary
  pub status_transition_audit : Option OrderStatusApprovalAudit
  pub bundle_evidence : List BundleEvidence
  pub ordered_at : Option ℕ
  pub created_at : Option ℕ
  pub updated_at : Option ℕ

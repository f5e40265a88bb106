-- ===== src/Create/Parts.antt =====
-- src/orders/create-order.dto.ts: the items, the customer, the addresses and the lead of
-- a request for an order.
use orders_microservice.Json.{
  or_default, get, keys, finite, prop, Number, elements, Value, is_falsy, undefined, null, num, arr,
  obj,
}
use orders_microservice.Create.Fields.{
  item_not_object, lead_not_object, invalid_auth_subject, unsupported_lead_fields, normalize_money,
  normalize_integer, is_uuid, items_not_array, normalize_string, CreateError,
  normalize_attribution_string, normalize_optional_string, Arithmetic,
}
use orders_microservice.Base.{
  all, not, throw_if, filter, ◌&&◌, map, List, Option, Result, ℕ, if◌then◌else◌, none, some, ok,
  throw, [], ◌∷◌, false, ◌>>=◌, ◌>>◌,
}
use orders_microservice.Base.Text.{to_lower_case, is_empty, lit, Text, mem_text, text_eq}
use orders_microservice.Entities.{Customer, Address}

-- `list.map(f)` where `f` may throw
unfoldable pub map_result {ℓ} :
    {A : Type ℓ} {B : Type 0} → (A → Result CreateError B) → List A → Result CreateError (List B)
map_result f [] = ok []
map_result f (x ∷ xs) = do y ← f x; ys ← map_result f xs; ok (y ∷ ys)

-- a row of `items`
pub record NormalizedItem : Type 0 where
  pub product_id : Text
  pub sku : Option Text
  pub title : Text
  pub quantity : ℕ
  pub unit_price : Number
  pub total_price : Number
  pub warehouse_id : Option Text
  pub fulfillment_status : Text

pub record CreateOrderLeadAttribution : Type 0 where
  pub lead_id : Option Text
  pub source : Option Text
  pub campaign_id : Option Text

-- the number that a quantity reads as
abbrev pub whole_number : ℕ → Number
whole_number n = finite false n 0 0

module _ (a : Arithmetic) where
  unfoldable pub normalize_item : Value → Result CreateError NormalizedItem
  unfolding normalize_optional_string normalize_string normalize_integer normalize_money
  normalize_item (obj item) = do
    quantity ← normalize_integer a (get (lit "quantity") item) (lit "quantity")
    unit_price ← normalize_money a (get (lit "unitPrice") item) (lit "unitPrice")
    total_price ←
        normalize_money a
          (or_default (get (lit "totalPrice") item)
            (num (a.multiply (whole_number quantity) unit_price)))
          (lit "totalPrice")
    product_id ← normalize_string (get (lit "productId") item) (lit "productId")
    title ← normalize_string (get (lit "title") item) (lit "title")
    ok (record {
      product_id = product_id;
      sku = normalize_optional_string (get (lit "sku") item);
      title = title;
      quantity = quantity;
      unit_price = unit_price;
      total_price = total_price;
      warehouse_id = normalize_optional_string (get (lit "warehouseId") item);
      fulfillment_status = lit "pending";
    })
  normalize_item _ = throw item_not_object

  -- `normalizeItems(input.items || [])`
  unfoldable pub normalize_items : Value → Result CreateError (List NormalizedItem)
  unfolding is_falsy map_result normalize_item
  normalize_items (arr items) = map_result normalize_item (elements items)
  normalize_items value = if is_falsy value then ok [] else throw items_not_array

abbrev pub keep_present : List (Option Text) → List Text
keep_present [] = []
keep_present (none ∷ rest) = keep_present rest
keep_present (some s ∷ rest) = s ∷ keep_present rest

-- the subject that the lower-cased candidates agree on
unfoldable pub agreed_subject : List Text → Result CreateError (Option Text)
unfolding text_eq is_uuid
agreed_subject [] = ok none
agreed_subject (first ∷ rest) = do
  throw_if (not (all (text_eq first) rest && is_uuid first)) invalid_auth_subject
  ok (some first)

unfoldable pub normalize_customer_auth_subject : Value → Result CreateError (Option Text)
unfolding normalize_optional_string agreed_subject to_lower_case
normalize_customer_auth_subject value =
    let read = λ (key : Text). normalize_optional_string (prop key value) in
    agreed_subject (
      map to_lower_case (
        keep_present (
          read (lit "authSubject")
          ∷ read (lit "authUserId")
          ∷ read (lit "subject")
          ∷ read (lit "sub")
          ∷ [])))

unfoldable pub normalize_customer : Value → Result CreateError (Option Customer)
unfolding normalize_customer_auth_subject is_falsy
normalize_customer value = if is_falsy value then ok none else do
  auth_user_id ← normalize_customer_auth_subject value
  ok (
      some (record {
        auth_user_id = auth_user_id;
        subject = auth_user_id;
        name = normalize_optional_string (prop (lit "name") value);
        email = normalize_optional_string (prop (lit "email") value);
        phone = normalize_optional_string (prop (lit "phone") value);
      }))

unfoldable pub normalize_address : Value → Option Address
unfolding is_falsy
normalize_address value =
    if is_falsy value
    then none
    else some (record {
      name = normalize_optional_string (prop (lit "name") value);
      street = normalize_optional_string (prop (lit "street") value);
      city = normalize_optional_string (prop (lit "city") value);
      postal_code = normalize_optional_string (prop (lit "postalCode") value);
      country = normalize_optional_string (prop (lit "country") value);
      company_name = normalize_optional_string (prop (lit "companyName") value);
      company_id = normalize_optional_string (prop (lit "companyId") value);
      tax_id = normalize_optional_string (prop (lit "taxId") value);
      vat_id = normalize_optional_string (prop (lit "vatId") value);
      email = normalize_optional_string (prop (lit "email") value);
    })

abbrev pub lead_keys : List Text
lead_keys = lit "leadId" ∷ lit "source" ∷ lit "campaignId" ∷ []

abbrev pub attribution_of :
    Option Text → Option Text → Option Text → Option CreateOrderLeadAttribution
attribution_of none none none = none
attribution_of lead_id source campaign_id =
    some (record { lead_id = lead_id; source = source; campaign_id = campaign_id })

unfoldable pub normalize_lead_attribution :
    Value → Result CreateError (Option CreateOrderLeadAttribution)
unfolding mem_text normalize_attribution_string
normalize_lead_attribution undefined = ok none
normalize_lead_attribution null = ok none
normalize_lead_attribution (obj value) =
    let unknown = filter (λ k. not (mem_text k lead_keys)) (keys value) in
    do
      throw_if (not (is_empty unknown)) (unsupported_lead_fields unknown)
      lead_id ←
          normalize_attribution_string (get (lit "leadId") value) (lit "leadAttribution.leadId")
      source ←
          normalize_attribution_string (get (lit "source") value) (lit "leadAttribution.source")
      campaign_id ←
          normalize_attribution_string (get (lit "campaignId") value)
            (lit "leadAttribution.campaignId")
      ok (attribution_of lead_id source campaign_id)
normalize_lead_attribution _ = throw lead_not_object

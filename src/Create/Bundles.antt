-- ===== src/Create/Bundles.antt =====
-- src/orders/create-order.dto.ts: the evidence of bundles in a request for an order.
use orders_microservice.Create.Fields.{
  bundle_not_object, products_differ, duplicate_products, bundle_product_count, bundle_version,
  normalize_string, unsupported_bundle_fields, bundles_not_array, too_many_bundles,
  normalize_server_total_source, CreateError, normalize_policy_ref, normalize_uuid,
}
use orders_microservice.Json.{get, keys, elements, Value, undefined, null, arr, obj}
use orders_microservice.Base.{
  length, not, filter, throw_if, ◌==◌, ◌||◌, Result, ltb, map, ◌&&◌, Bool, List, if◌then◌else◌, ok,
  throw, [], ◌∷◌, true, false, ◌>>=◌, ◌>>◌,
}
use orders_microservice.Entities.{BundleEvidence}
use orders_microservice.Base.Text.{is_empty, lit, Text, mem_text, text_eq, trim}
use orders_microservice.Create.Parts.{NormalizedItem, map_result}

-- `left < right` on strings
unfoldable pub text_lt : Text → Text → Bool
text_lt s [] = false
text_lt [] (_ ∷ _) = true
text_lt (c ∷ s) (d ∷ t) = ltb c d || (c == d && text_lt s t)

-- a text put where `sort` has it, unless it is there already
unfoldable pub insert_unique : Text → List Text → List Text
unfolding text_eq text_lt
insert_unique t [] = t ∷ []
insert_unique t (u ∷ us) =
    let rest = insert_unique t us in
    if text_eq t u then u ∷ us else if text_lt t u then t ∷ u ∷ us else u ∷ rest

-- `uniqueSorted`
unfoldable pub unique_sorted : List Text → List Text
unfolding insert_unique trim
unique_sorted [] = []
unique_sorted (s ∷ rest) =
    let sorted = unique_sorted rest in
    if is_empty (trim s) then sorted else insert_unique (trim s) sorted

-- equality of lists of strings, which the source tests by `JSON.stringify`
unfoldable pub texts_eq : List Text → List Text → Bool
unfolding text_eq
texts_eq [] [] = true
texts_eq (s ∷ ss) (t ∷ ts) = text_eq s t && texts_eq ss ts
texts_eq _ _ = false

abbrev pub bundle_keys : List Text
bundle_keys =
    lit "contractVersion"
    ∷ lit "bundleId"
    ∷ lit "productIds"
    ∷ lit "discountPolicyRef"
    ∷ lit "freeShippingPolicyRef"
    ∷ lit "serverTotalSource"
    ∷ []

abbrev pub product_values : Value → List Value
product_values (arr values) = elements values
product_values _ = []

unfoldable pub bundle_contract_version : Value → Result CreateError Text
unfolding normalize_string text_eq
bundle_contract_version value = do
  version ← normalize_string value (lit "contractVersion")
  throw_if (not (text_eq version (lit "catalog.bundle.v1"))) bundle_version
  ok version

unfoldable pub bundle_products : List Text → List Value → Result CreateError (List Text)
unfolding normalize_string unique_sorted texts_eq map_result
bundle_products item_product_ids given = do
  throw_if (ltb (length given) 2 || ltb 10 (length given)) bundle_product_count
  read ← map_result (λ v. normalize_string v (lit "productIds")) given
  let product_ids = unique_sorted read
  throw_if (not (length product_ids == length given)) duplicate_products
  throw_if (not (texts_eq product_ids item_product_ids)) products_differ
  ok product_ids

unfoldable pub normalize_bundle_evidence_entry :
    List Text → Value → Result CreateError BundleEvidence
unfolding mem_text bundle_contract_version bundle_products normalize_uuid normalize_policy_ref
    normalize_server_total_source
normalize_bundle_evidence_entry item_product_ids (obj value) =
    let unknown = filter (λ k. not (mem_text k bundle_keys)) (keys value) in
    do
      throw_if (not (is_empty unknown)) (unsupported_bundle_fields unknown)
      contract_version ← bundle_contract_version (get (lit "contractVersion") value)
      bundle_id ← normalize_uuid (get (lit "bundleId") value) (lit "bundleId")
      product_ids ← bundle_products item_product_ids (product_values (get (lit "productIds") value))
      discount_policy_ref ←
          normalize_policy_ref (get (lit "discountPolicyRef") value) (lit "discountPolicyRef")
      free_shipping_policy_ref ←
          normalize_policy_ref (get (lit "freeShippingPolicyRef") value)
            (lit "freeShippingPolicyRef")
      server_total_source ← normalize_server_total_source (get (lit "serverTotalSource") value)
      ok (record {
        contract_version = contract_version;
        bundle_id = bundle_id;
        product_ids = product_ids;
        discount_policy_ref = discount_policy_ref;
        free_shipping_policy_ref = free_shipping_policy_ref;
        server_total_source = server_total_source;
      })
normalize_bundle_evidence_entry item_product_ids _ = throw bundle_not_object

abbrev pub product_ids_of : List NormalizedItem → List Text
product_ids_of items = map (λ item. item.product_id) items

unfoldable pub normalize_bundle_evidence :
    Value → List NormalizedItem → Result CreateError (List BundleEvidence)
unfolding normalize_bundle_evidence_entry
normalize_bundle_evidence undefined items = ok []
normalize_bundle_evidence null items = ok []
normalize_bundle_evidence (arr value) items = do
  throw_if (ltb 10 (length (elements value))) too_many_bundles
  map_result (normalize_bundle_evidence_entry (unique_sorted (product_ids_of items)))
      (elements value)
normalize_bundle_evidence _ items = throw bundles_not_array

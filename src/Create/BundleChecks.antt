-- ===== src/Create/BundleChecks.antt =====
-- What the bundles of an accepted request satisfy, in src/orders/create-order.dto.ts.
use mathlib.Core.Path.{subst}
use orders_microservice.Create.Fields.{
  normalize_server_total_source, normalize_policy_ref, too_many_bundles, unsupported_bundle_fields,
  is_uuid, normalize_uuid,
}
use orders_microservice.Create.Bundles.{
  product_values, bundle_keys, product_ids_of, unique_sorted, bundle_contract_version,
  bundle_products, normalize_bundle_evidence, normalize_bundle_evidence_entry, texts_eq,
}
use orders_microservice.Create.Checks.{map_result-All}
use orders_microservice.Base.{
  throw_if-eq-ok, ltb, throw_if, >>=-eq-ok, not, ok_injective, filter, sym, length, All, arith, ◌≤◌,
  ◌≡◌, List, ok, [], ◌∷◌, true, refl,
}
use orders_microservice.Json.{
  get, elements, keys, Value, undefined, null, bool, num, text, arr, obj,
}
use orders_microservice.Base.Text.{is_empty, mem_text, lit, Text}
use orders_microservice.Base.Text.Laws.{text_eq_iff}
use orders_microservice.Entities.{BundleEvidence}
use orders_microservice.Create.Parts.{NormalizedItem}

pub record IsBundle (items : List NormalizedItem) (entry : BundleEvidence) : Type 0 where
  pub version : entry.contract_version ≡ lit "catalog.bundle.v1"
  pub identified : is_uuid entry.bundle_id ≡ true
  pub same_products : entry.product_ids ≡ unique_sorted (product_ids_of items)
  pub several : 2 ≤ length entry.product_ids

normalize_uuid-IsUuid :
    (value : Value) (field : Text) {s : Text} → normalize_uuid value field ≡ ok s → is_uuid s ≡ true
unfolding normalize_uuid
normalize_uuid-IsUuid value field h = ground arith

texts_eq_sound : (ss ts : List Text) → texts_eq ss ts ≡ true → ss ≡ ts
unfolding texts_eq
texts_eq_sound [] [] h = refl
texts_eq_sound [] (t ∷ ts) h = cc
texts_eq_sound (s ∷ ss) [] h = cc
texts_eq_sound (s ∷ ss) (t ∷ ts) h = ground (arith, text_eq_iff s t, texts_eq_sound ss ts)

contract_version_lem :
    (value : Value) {s : Text} → bundle_contract_version value ≡ ok s → s ≡ lit "catalog.bundle.v1"
unfolding bundle_contract_version
contract_version_lem value {s} h = ground (arith, text_eq_iff s (lit "catalog.bundle.v1"))

bundle_products_lem :
    (wanted : List Text) (given : List Value) {ids : List Text}
    → bundle_products wanted given ≡ ok ids
    → (ids ≡ wanted) × (2 ≤ length ids)
unfolding bundle_products
bundle_products_lem wanted given {ids} h = (ground (arith, texts_eq_sound ids wanted), ground arith)

entry-IsBundle :
    (items : List NormalizedItem) (value : Value) (e : BundleEvidence)
    → normalize_bundle_evidence_entry (unique_sorted (product_ids_of items)) value ≡ ok e
    → IsBundle items e
unfolding normalize_bundle_evidence_entry
entry-IsBundle items (obj fs) e h =
    let wanted = unique_sorted (product_ids_of items) in
    let unknown = filter (λ k. not (mem_text k bundle_keys)) (keys fs) in
    let (u, known, h0) =
      >>=-eq-ok (throw_if (not (is_empty unknown)) (unsupported_bundle_fields unknown)) _ h in
    let (version, e1, h1) =
      >>=-eq-ok (bundle_contract_version (get (lit "contractVersion") fs)) _ h0 in
    let (id, e2, h2) = >>=-eq-ok (normalize_uuid (get (lit "bundleId") fs) (lit "bundleId")) _ h1 in
    let given = product_values (get (lit "productIds") fs) in
    let (ids, e3, h3) = >>=-eq-ok (bundle_products wanted given) _ h2 in
    let (discount, e4, h4) =
      >>=-eq-ok (normalize_policy_ref (get (lit "discountPolicyRef") fs) (lit "discountPolicyRef"))
        _ h3 in
    let (shipping, e5, h5) =
      >>=-eq-ok
        (normalize_policy_ref (get (lit "freeShippingPolicyRef") fs) (lit "freeShippingPolicyRef"))
        _ h4 in
    let (source, e6, h6) =
      >>=-eq-ok (normalize_server_total_source (get (lit "serverTotalSource") fs)) _ h5 in
    let (same, several) = bundle_products_lem wanted given e3 in
    subst (IsBundle items) (ok_injective h6) (record {
      version = contract_version_lem (get (lit "contractVersion") fs) e1;
      identified = normalize_uuid-IsUuid (get (lit "bundleId") fs) (lit "bundleId") e2;
      same_products = same;
      several = several;
    })
entry-IsBundle items undefined e h = cc
entry-IsBundle items null e h = cc
entry-IsBundle items (bool b) e h = cc
entry-IsBundle items (num n) e h = cc
entry-IsBundle items (arr vs) e h = cc
entry-IsBundle items (text s) e h = cc

pub bundle_evidence-All :
    (value : Value) (items : List NormalizedItem) (entries : List BundleEvidence)
    → normalize_bundle_evidence value items ≡ ok entries
    → All (IsBundle items) entries × (length entries ≤ 10)
unfolding normalize_bundle_evidence
bundle_evidence-All undefined items entries h = rw (sym (ok_injective h)) (tt, omega arith)
bundle_evidence-All null items entries h = rw (sym (ok_injective h)) (tt, omega arith)
bundle_evidence-All (arr vs) items entries h =
    let wanted = unique_sorted (product_ids_of items) in
    let (u, few, h0) = >>=-eq-ok (throw_if (ltb 10 (length (elements vs))) too_many_bundles) _ h in
    let bounded = throw_if-eq-ok (ltb 10 (length (elements vs))) too_many_bundles few in
    let (fit, count) =
      map_result-All (IsBundle items) (normalize_bundle_evidence_entry wanted)
        (entry-IsBundle items) (elements vs) entries h0 in
    (fit, ground arith)
bundle_evidence-All (bool b) items entries h = cc
bundle_evidence-All (num n) items entries h = cc
bundle_evidence-All (text s) items entries h = cc
bundle_evidence-All (obj fs) items entries h = cc

-- ===== src/Create/Accepted.antt =====
-- What an accepted request of src/orders/create-order.dto.ts satisfies.
use orders_microservice.Base.{
  not-false, refl, [], ◌∷◌, none, some, ◌&&◌, ok_injective, ◌≤◌, length, throw_if-eq-ok, filter,
  throw_if, All, >>=-eq-ok, arith, ℕ, Option, ◌≡◌, not, ok, true, false,
}
use orders_microservice.Base.Text.{non_empty, trim, to_lower_case, lit, is_empty, Text, mem_text}
use orders_microservice.Base.Text.Laws.{trim_idempotent}
use orders_microservice.Create.Checks.{
  normalize_customer-IsKnown, normalize_items-All, normalize_string-IsName, IsKnown, IsItem, IsName,
}
use orders_microservice.Create.BundleChecks.{bundle_evidence-All, IsBundle}
use orders_microservice.Create.Parts.{
  normalize_lead_attribution, normalize_customer, normalize_items,
}
use orders_microservice.Create.Bundles.{normalize_bundle_evidence}
use orders_microservice.Create.Request.{
  normalize_ordered_at, allowed_create_keys, total_of, Totals, normalize_create_fields,
  normalize_create_order_request, normalize_totals, or_pending, allowed_initial_statuses,
  is_currency, allowed_channels, NormalizedCreateOrder, normalize_channel, normalize_currency,
  normalize_initial_status,
}
use orders_microservice.Create.Fields.{
  no_items, unsupported_contract_version, unsupported_create_fields, initial_status,
  unsupported_channel, normalize_optional_string, normalize_string, Arithmetic,
}
use orders_microservice.Json.{
  is_not_text, is_falsy, get, keys, Fields, Value, undefined, null, bool, num, text, arr, obj,
}
use mathlib.Core.Path.{subst}

abbrev pub IsTrimmed : Option Text → Type 0
IsTrimmed none = Unit
IsTrimmed (some s) = (is_empty s ≡ false) × (trim s ≡ s)

pub record IsAccepted (n : NormalizedCreateOrder) : Type 0 where
  pub sold_on : mem_text n.order.channel allowed_channels ≡ true
  pub named : IsName n.order.external_order_id
  pub account : IsTrimmed n.order.channel_account_id
  pub initial : mem_text n.order.status allowed_initial_statuses ≡ true
  pub priced : is_currency n.order.currency ≡ true
  pub has_items : is_empty n.items ≡ false
  pub items_fit : All IsItem n.items
  pub known : IsKnown n.order.customer
  pub bundled : All (IsBundle n.items) n.order.bundle_evidence
  pub few_bundles : length n.order.bundle_evidence ≤ 10

non_empty-IsTrimmed : (s : Text) → trim s ≡ s → IsTrimmed (non_empty s)
non_empty-IsTrimmed [] h = tt
non_empty-IsTrimmed (c ∷ s) h = (refl, h)

normalize_optional_string-IsTrimmed : (value : Value) → IsTrimmed (normalize_optional_string value)
unfolding normalize_optional_string
normalize_optional_string-IsTrimmed (text s) = non_empty-IsTrimmed (trim s) (trim_idempotent s)
normalize_optional_string-IsTrimmed undefined = tt
normalize_optional_string-IsTrimmed null = tt
normalize_optional_string-IsTrimmed (bool b) = tt
normalize_optional_string-IsTrimmed (num n) = tt
normalize_optional_string-IsTrimmed (arr vs) = tt
normalize_optional_string-IsTrimmed (obj fs) = tt

normalize_channel_lem :
    (value : Value) {s : Text} → normalize_channel value ≡ ok s → mem_text s allowed_channels ≡ true
unfolding normalize_channel
normalize_channel_lem value {s} h =
    let (given, e, h1) = >>=-eq-ok (normalize_string value (lit "channel")) _ h in
    let channel = to_lower_case given in
    let (u, e1, h2) =
      >>=-eq-ok (throw_if (not (mem_text channel allowed_channels)) (unsupported_channel channel)) _
        h1 in
    let known =
      throw_if-eq-ok (not (mem_text channel allowed_channels)) (unsupported_channel channel) e1 in
    subst (λ t. mem_text t allowed_channels ≡ true) (ok_injective h2) (not-false known)

initial_status_lem :
    (value : Value) {s : Text}
    → normalize_initial_status value ≡ ok s
    → mem_text s allowed_initial_statuses ≡ true
unfolding normalize_initial_status
initial_status_lem value {s} h =
    let status = or_pending (normalize_optional_string value) in
    let (u, e, h1) =
      >>=-eq-ok (throw_if (not (mem_text status allowed_initial_statuses)) initial_status) _ h in
    let known = throw_if-eq-ok (not (mem_text status allowed_initial_statuses)) initial_status e in
    subst (λ t. mem_text t allowed_initial_statuses ≡ true) (ok_injective h1) (not-false known)

normalize_currency_lem :
    (value : Value) {s : Text} → normalize_currency value ≡ ok s → is_currency s ≡ true
unfolding normalize_currency
normalize_currency_lem value {s} h = ground arith

module _ (a : Arithmetic) (parse_date : Value → Option ℕ) where
  normalize_totals_lem :
      (input : Fields) {t : Totals}
      → normalize_totals a parse_date input ≡ ok t
      → is_currency t.currency ≡ true
  unfolding normalize_totals
  normalize_totals_lem input {t} h =
      normalize_currency_lem (total_of input (lit "currency")) {s = t.currency} (ground arith)

  fields-IsAccepted :
      (input : Fields) (n : NormalizedCreateOrder)
      → normalize_create_fields a parse_date input ≡ ok n
      → IsAccepted n
  unfolding normalize_create_fields
  fields-IsAccepted input n h =
      let unknown = filter (λ k. not (mem_text k allowed_create_keys)) (keys input) in
      let version = get (lit "contractVersion") input in
      let (u0, e0, h0) =
        >>=-eq-ok (throw_if (not (is_empty unknown)) (unsupported_create_fields unknown)) _ h in
      let (u1, e1, h1) =
        >>=-eq-ok
          (throw_if (not (is_falsy version) && is_not_text version (lit "orders.create.v1"))
            unsupported_contract_version)
          _ h0 in
      let (channel, e2, h2) = >>=-eq-ok (normalize_channel (get (lit "channel") input)) _ h1 in
      let (id, e3, h3) =
        >>=-eq-ok (normalize_string (get (lit "externalOrderId") input) (lit "externalOrderId")) _
          h2 in
      let (status, e4, h4) = >>=-eq-ok (normalize_initial_status (get (lit "status") input)) _ h3 in
      let (totals, e5, h5) = >>=-eq-ok (normalize_totals a parse_date input) _ h4 in
      let (items, e6, h6) = >>=-eq-ok (normalize_items a (get (lit "items") input)) _ h5 in
      let (u7, e7, h7) = >>=-eq-ok (throw_if (is_empty items) no_items) _ h6 in
      let (ordered_at, e8, h8) =
        >>=-eq-ok (normalize_ordered_at a parse_date (get (lit "orderedAt") input)) _ h7 in
      let (customer, e9, h9) = >>=-eq-ok (normalize_customer (get (lit "customer") input)) _ h8 in
      let (bundles, e10, h10) =
        >>=-eq-ok (normalize_bundle_evidence (get (lit "bundleEvidence") input) items) _ h9 in
      let (lead, e11, h11) =
        >>=-eq-ok (normalize_lead_attribution (get (lit "leadAttribution") input)) _ h10 in
      let (bundled, few) =
        bundle_evidence-All (get (lit "bundleEvidence") input) items bundles e10 in
      subst IsAccepted (ok_injective h11) (record {
        sold_on = normalize_channel_lem (get (lit "channel") input) e2;
        named =
            normalize_string-IsName (get (lit "externalOrderId") input) (lit "externalOrderId") e3;
        account = normalize_optional_string-IsTrimmed (get (lit "channelAccountId") input);
        initial = initial_status_lem (get (lit "status") input) e4;
        priced = normalize_totals_lem input e5;
        has_items = throw_if-eq-ok (is_empty items) no_items e7;
        items_fit = normalize_items-All a (get (lit "items") input) items e6;
        known = normalize_customer-IsKnown (get (lit "customer") input) customer e9;
        bundled = bundled;
        few_bundles = few;
      })

  -- An accepted request names a supported channel, an external id, an account that is trimmed and not
  -- empty, if any, an initial status and a currency
  -- of three capital letters; it has items, each with a positive quantity, a product and a title; its
  -- customer, if there is one, has no subject or a UUID, the same in both fields; and each of its
  -- bundles, ten at most, has a UUID and at least two products, which are those of the items in
  -- order and without repetition. A required text is not empty, has no white space around it and
  -- has 500 units at most.
  pub normalize_create_order_request-IsAccepted :
      (body : Value) (n : NormalizedCreateOrder)
      → normalize_create_order_request a parse_date body ≡ ok n
      → IsAccepted n
  unfolding normalize_create_order_request
  normalize_create_order_request-IsAccepted (obj input) n h = fields-IsAccepted input n h
  normalize_create_order_request-IsAccepted undefined n h = cc
  normalize_create_order_request-IsAccepted null n h = cc
  normalize_create_order_request-IsAccepted (bool b) n h = cc
  normalize_create_order_request-IsAccepted (num m) n h = cc
  normalize_create_order_request-IsAccepted (text s) n h = cc
  normalize_create_order_request-IsAccepted (arr vs) n h = cc

-- ===== src/Orders/Repeat.antt =====
-- A request that is sent again to `create` of src/orders/orders.service.ts.
use orders_microservice.Base.{
  ◌∙◌, sym, ok_injective, throw, ap, Result, arith, ◌==◌, ◌+◌, All, List, ℕ, ◌≡◌, Option, refl,
  none, some, [], ◌∷◌, true, false, ok,
}
use orders_microservice.Orders.Creation.{first_saved, with_items, with_handoff}
use orders_microservice.Orders.Created.{
  or_invalid-eq-ok, made, replayed, refused, create_lem, Creation, IsRequest, mem_text-All,
}
use orders_microservice.Create.Accepted.{
  normalize_create_order_request-IsAccepted, IsAccepted, IsTrimmed,
}
use mathlib.Core.Path.{subst}
use orders_microservice.Orders.Create.{
  rejoined, first_with_key, normalize_body, create_failure, replay_create, settle_create,
  prepare_create, announce_create, create, stored_orders, find_by_create_order_idempotency_key,
  key_of, has_key, item_rows, same_account,
}
use orders_microservice.World.{
  on_error, ServiceError, success, create_replay, AuditEntry, ◌>>=◌, Env, World,
}
use orders_microservice.Create.SelfMatch.{
  same_bundles_refl, same_address_refl, same_customer_refl, option_eq_refl, stored_amount,
  stored_quantity, same_text_refl, IsPricedItem, IsPriced, IsExact,
}
use orders_microservice.Create.Replay.{
  no_address, no_customer, or_empty, CreateOrderIdempotencyKey, get_create_order_idempotency_key,
  comparable, same_amounts, same_item, same_scalars, is_matching_create_order_replay, same_rows,
}
use orders_microservice.Json.{Value}
use orders_microservice.Create.Parts.{NormalizedItem}
use orders_microservice.Entities.{Order, OrderItem, WarehouseHandoffSummary}
use orders_microservice.Base.Text.{is_empty, trim, mem_text, Text}
use orders_microservice.Base.Text.Laws.{text_eq_refl}
use orders_microservice.Create.Request.{allowed_channels, NormalizedCreateOrder}

channel-trimmed :
    (channel : Text) → mem_text channel allowed_channels ≡ true → trim channel ≡ channel
unfolding trim
channel-trimmed channel h =
    mem_text-All (λ c. trim c ≡ c) channel allowed_channels
      (refl, (refl, (refl, (refl, (refl, (refl, tt)))))) h

channel_filled :
    (channel : Text) → mem_text channel allowed_channels ≡ true → is_empty channel ≡ false
channel_filled channel h =
    mem_text-All (λ c. is_empty c ≡ false) channel allowed_channels
      (refl, (refl, (refl, (refl, (refl, (refl, tt)))))) h

same_account-comparable : (o : Option Text) → IsTrimmed o → same_account o (comparable o) ≡ true
same_account-comparable none h = refl
same_account-comparable (some s) (filled, trimmed) = rw (filled, trimmed) (text_eq_refl s)

same_number : (t : ℕ) → (t == t) ≡ true
same_number t = ground arith

module _ (env : Env) (n : NormalizedCreateOrder) (w : World) where
  abbrev pub own_key : CreateOrderIdempotencyKey
  own_key = record {
    channel = n.order.channel;
    external_order_id = n.order.external_order_id;
    channel_account_id = comparable n.order.channel_account_id;
  }

  pub own_key_lem : IsAccepted n → key_of env n ≡ ok own_key
  unfolding get_create_order_idempotency_key
  own_key_lem accepted =
      let filled = channel_filled n.order.channel accepted.sold_on in
      let trimmed = channel-trimmed n.order.channel accepted.sold_on in
      rw
        (
          filled, trimmed, filled, accepted.named.not_empty, accepted.named.trimmed,
          accepted.named.not_empty,
        )
        refl

  -- the key of an accepted request fits an order that was made from it
  pub fits_key :
      (h : WarehouseHandoffSummary) → IsAccepted n → has_key own_key (with_handoff env n w h) ≡ true
  unfolding has_key
  fits_key h accepted =
      rw
        (
          text_eq_refl n.order.channel,
          text_eq_refl n.order.external_order_id,
          same_account-comparable n.order.channel_account_id accepted.account,
        )
        refl

  rows_match :
      (from : ℕ) (items : List NormalizedItem)
      → IsExact env.arithmetic
      → All (IsPricedItem env.arithmetic) items
      → same_rows (same_item env.arithmetic) (item_rows env w from items) items ≡ true
  unfolding same_rows same_item item_rows
  rows_match from [] exact priced = refl
  rows_match from (item ∷ items) exact priced =
      let (small, unit, total) = priced.0 in
      rw
        (
          same_text_refl (some item.product_id),
          same_text_refl item.sku,
          same_text_refl (some item.title),
          same_text_refl item.warehouse_id,
          same_text_refl (some item.fulfillment_status),
          stored_quantity env.arithmetic exact item.quantity small,
          stored_amount env.arithmetic exact item.unit_price unit,
          stored_amount env.arithmetic exact item.total_price total,
          rows_match (from + 1) items exact priced.1,
        )
        refl

  order_matches :
      (h : WarehouseHandoffSummary)
      → IsExact env.arithmetic
      → IsPriced env.arithmetic n
      → is_matching_create_order_replay env.arithmetic (with_handoff env n w h) n ≡ true
  unfolding is_matching_create_order_replay same_scalars same_amounts
  order_matches h exact priced =
      let a = env.arithmetic in
      rw
        (
          same_text_refl (some n.order.external_order_id),
          same_text_refl (some n.order.channel),
          same_text_refl n.order.channel_account_id,
          same_text_refl (some n.order.status),
          same_text_refl (some n.order.currency),
          same_text_refl n.order.payment_method,
          same_text_refl n.order.payment_status,
          same_text_refl n.order.shipping_method,
          same_text_refl n.order.customer_note,
          stored_amount a exact n.order.subtotal priced.subtotal,
          stored_amount a exact n.order.shipping_cost priced.shipping_cost,
          stored_amount a exact n.order.tax_amount priced.tax_amount,
          stored_amount a exact n.order.total priced.total,
          option_eq_refl (λ (s t : ℕ). s == t) n.order.ordered_at (λ t. same_number t),
          same_customer_refl (or_empty no_customer n.order.customer),
          same_address_refl (or_empty no_address n.order.shipping_address),
          same_address_refl (or_empty no_address n.order.billing_address),
          same_bundles_refl n.order.bundle_evidence,
          rows_match 0 n.items exact priced.items,
        )
        refl

first_with_key_newest :
    (key : CreateOrderIdempotencyKey) (order : Order) (older : List Order)
    → has_key key order ≡ true
    → first_with_key key (stored_orders [] (order ∷ older)) ≡ some order
unfolding stored_orders mem_text
first_with_key_newest key order older fits = rw fits refl

pub find_newest :
    (env : Env) (key : CreateOrderIdempotencyKey) (order : Order) (older : List Order) (w : World)
    → w.saved ≡ order ∷ older
    → has_key key order ≡ true
    → find_by_create_order_idempotency_key env key w ≡ rejoined env w (some order)
unfolding find_by_create_order_idempotency_key
find_newest env key order older w saved fits = ap (rejoined env w) (
    ap (λ (orders : List Order). first_with_key key (stored_orders [] orders)) saved
    ∙ first_with_key_newest key order older fits)

-- the database reads the items of an order in the order in which it saved them
abbrev pub KeepsItems : Env → Type 0
KeepsItems env = (w : World) (items : List OrderItem) → env.joined_items w items ≡ items

rejoined_kept :
    (env : Env) (w : World) (found : Option Order) → KeepsItems env → rejoined env w found ≡ found
rejoined_kept env w none keeps = refl
rejoined_kept env w (some o) keeps =
    ap (λ (items : List OrderItem). some (record o { items = items })) (keeps w o.items)

module _ (env : Env) (body : Value) where
  abbrev pub replay_entry : Order → AuditEntry
  replay_entry order = record {
    operation = create_replay;
    resource_id = order.id;
    outcome = success;
  }

  abbrev pub noted : Order → World → World
  noted order w = record w { audits = replay_entry order ∷ w.audits }

  -- a request whose key is that of an order that matches
  pub found_lem :
      (n : NormalizedCreateOrder) (order : Order) (v : World)
      → IsRequest env body v n (some order)
      → is_matching_create_order_replay env.arithmetic order n ≡ true
      → create env body v ≡ (noted order v, ok order)
  unfolding create announce_create prepare_create settle_create replay_create
  found_lem n order v request same =
      let prepared : prepare_create env body v ≡ (noted order v, ok (order, none)) =
        rw
          (
            request.normalized, request.has_key, request.looked_up, same, prepare_create,
            settle_create, replay_create,
          )
          refl in
      let rest : World × Result ServiceError (Order × Option NormalizedCreateOrder)
          → World × Result ServiceError Order =
        λ p. (on_error (λ _. p) (create_failure env []) >>= announce_create env) v in
      ap rest prepared

  again :
      (w w' : World) (r : Result ServiceError Order) (order : Order)
      → Creation env body w w' r
      → r ≡ ok order
      → IsExact env.arithmetic
      → ((n : NormalizedCreateOrder) → normalize_body env body ≡ ok n → IsPriced env.arithmetic n)
      → KeepsItems env
      → create env body w' ≡ (noted order w', ok order)
  again w w' (throw e) order (refused x saved events) h exact priced keeps = cc
  again w w' (ok o) order (replayed n existing request same e) h exact priced keeps =
      subst (λ (q : Order). create env body w' ≡ (noted q w', ok q)) (ok_injective h)
        (found_lem n existing w'
          (rw e (record {
            normalized = request.normalized;
            key = request.key;
            has_key = request.has_key;
            looked_up =
                unfold find_by_create_order_idempotency_key in
                rejoined_kept env (noted existing w)
                  (first_with_key request.key (stored_orders [] w.saved)) keeps
                ∙ sym (
                    rejoined_kept env w (first_with_key request.key (stored_orders [] w.saved))
                      keeps)
                ∙ request.looked_up;
          }))
          same)
  again w w' (ok o) order (made n o' request saved reserved events) h exact priced keeps =
      let accepted =
        normalize_create_order_request-IsAccepted env.arithmetic env.parse_date body n
          (or_invalid-eq-ok _ request.normalized) in
      let new = with_handoff env n w saved.handoff in
      let found =
        find_newest env (own_key env n w) new (with_items env n w ∷ first_saved env n w ∷ w.saved)
          w' (rw (sym saved.same_order) saved.stored) (fits_key env n w saved.handoff accepted) in
      subst (λ (q : Order). create env body w' ≡ (noted q w', ok q))
        (sym saved.same_order ∙ ok_injective h)
        (found_lem n new w'
          (record {
            normalized = request.normalized;
            key = own_key env n w;
            has_key = own_key_lem env n w accepted;
            looked_up = found ∙ rejoined_kept env w' (some new) keeps;
          })
          (order_matches env n w saved.handoff exact (priced n request.normalized)))

-- A request for an order is idempotent, if the database reads the items of an order in the order in
-- which it saved them: where it returned an order, and its amounts and quantities fit the columns,
-- sending it again returns the same order and changes nothing but the audit log.
pub create-repeats :
    (env : Env) (body : Value) (w : World) (order : Order)
    → IsExact env.arithmetic
    → ((n : NormalizedCreateOrder) → normalize_body env body ≡ ok n → IsPriced env.arithmetic n)
    → KeepsItems env
    → (create env body w).1 ≡ ok order
    → let w' = (create env body w).0 in create env body w' ≡ (noted env body order w', ok order)
create-repeats env body w order exact priced keeps h =
    again env body w (create env body w).0 (create env body w).1 order (create_lem env body w) h
      exact priced keeps

-- ===== src/Orders/Create.antt =====
-- src/orders/orders.service.ts: `create`, `validateCreate` and what they call.
use orders_microservice.World.{
  failure, rejected, reservation_required, create_conflict, fail, order_create, publish,
  record_audit, success, create_replay, invalid_create, on_error, order_exists, pure, transaction,
  ServiceError, audit, save, ◌>>=◌, ◌>>◌, Env, M, World, lift,
}
use orders_microservice.Base.{
  ◌+◌, map, ◌||◌, not, ◌&&◌, Bool, List, Option, Result, ℕ, if◌then◌else◌, none, some, ok, throw,
  [], ◌∷◌, true, false,
}
use orders_microservice.Events.{truthy, OrderLifecycleEventItemSnapshot, build_order_created_event}
use orders_microservice.Base.Text.{text_or_empty, is_empty, to_lower_case, Text, mem_text, text_eq}
use orders_microservice.Entities.{OrderItem, WarehouseHandoffStatus, WarehouseHandoffSummary, Order}
use orders_microservice.Create.Parts.{NormalizedItem}
use orders_microservice.Create.Request.{
  allowed_channels, NormalizedCreateOrder, NormalizedOrder, normalize_create_order_request,
}
use orders_microservice.Create.Fields.{CreateError}
use orders_microservice.Create.Replay.{
  get_create_order_idempotency_key, CreateOrderIdempotencyKey, is_matching_create_order_replay,
}
use orders_microservice.Orders.Publish.{publish_lifecycle_changed_if_needed}
use orders_microservice.Warehouse.{reserve_order_items}
use orders_microservice.Json.{Value}

-- `existing.channelAccountId` where the key has none: it is null or empty
abbrev pub same_account : Option Text → Option Text → Bool
same_account existing none = is_empty (text_or_empty existing)
same_account none (some account) = false
same_account (some s) (some account) = text_eq s account

unfoldable pub has_key : CreateOrderIdempotencyKey → Order → Bool
unfolding text_eq
has_key key order =
    text_eq order.channel key.channel
    && elim order.external_order_id [ none ↦ false | some s ↦ text_eq s key.external_order_id ]
    && same_account order.channel_account_id key.channel_account_id

-- the orders as they are stored, without the versions that were replaced: `seen` are the identifiers
-- of the newer ones
unfoldable pub stored_orders : List Text → List Order → List Order
unfolding mem_text
stored_orders seen [] = []
stored_orders seen (o ∷ os) =
    let rest = stored_orders (o.id ∷ seen) os in if mem_text o.id seen then rest else o ∷ rest

abbrev pub first_with_key : CreateOrderIdempotencyKey → List Order → Option Order
first_with_key key [] = none
first_with_key key (o ∷ os) = if has_key key o then some o else first_with_key key os

-- the items of an order that was found, in the order in which the database reads them
abbrev pub rejoined : Env → World → Option Order → Option Order
rejoined env w none = none
rejoined env w (some o) = some (record o { items = env.joined_items w o.items })

-- `findByCreateOrderIdempotencyKey`
unfoldable pub find_by_create_order_idempotency_key :
    Env → CreateOrderIdempotencyKey → World → Option Order
unfolding stored_orders has_key
find_by_create_order_idempotency_key env key w =
    rejoined env w (first_with_key key (stored_orders [] w.saved))

abbrev pub or_invalid {ℓ} : {A : Type ℓ} → Result CreateError A → Result ServiceError A
or_invalid (ok x) = ok x
or_invalid (throw e) = throw (invalid_create e)

module _ (env : Env) where
  -- the item rows, numbered as they are created
  unfoldable pub item_rows : World → ℕ → List NormalizedItem → List OrderItem
  item_rows w n [] = []
  item_rows w n (item ∷ items) =
      record {
        id = env.new_item_id w n;
        product_id = item.product_id;
        sku = item.sku;
        title = item.title;
        quantity = item.quantity;
        unit_price = env.arithmetic.to_hundredths item.unit_price;
        total_price = env.arithmetic.to_hundredths item.total_price;
        fulfillment_status = some item.fulfillment_status;
        warehouse_id = item.warehouse_id;
      }
      ∷ item_rows w (n + 1) items

  -- `manager.create(Order, normalized.order)`, with the identifier that saving gives it
  abbrev pub new_order : World → NormalizedOrder → Order
  new_order w draft = record {
    id = env.new_order_id w;
    external_order_id = some draft.external_order_id;
    channel = draft.channel;
    channel_account_id = draft.channel_account_id;
    status = draft.status;
    customer = draft.customer;
    shipping_address = draft.shipping_address;
    billing_address = draft.billing_address;
    subtotal = env.arithmetic.to_hundredths draft.subtotal;
    shipping_cost = env.arithmetic.to_hundredths draft.shipping_cost;
    tax_amount = env.arithmetic.to_hundredths draft.tax_amount;
    total = env.arithmetic.to_hundredths draft.total;
    currency = draft.currency;
    payment_method = draft.payment_method;
    payment_status = draft.payment_status;
    payment_reference_id = none;
    payment_application_id = none;
    payment_updated_at = none;
    shipping_method = draft.shipping_method;
    customer_note = draft.customer_note;
    items = [];
    warehouse_handoff = none;
    status_transition_audit = none;
    bundle_evidence = draft.bundle_evidence;
    ordered_at = draft.ordered_at;
    created_at = some env.clock;
    updated_at = some env.clock;
  }

  abbrev pub is_reserved : Option WarehouseHandoffStatus → Bool
  is_reserved (some WarehouseHandoffStatus.reserved) = true
  is_reserved _ = false

  unfoldable pub requires_warehouse_reservation : Text → Bool
  unfolding mem_text to_lower_case
  requires_warehouse_reservation channel = mem_text (to_lower_case channel) allowed_channels

  unfoldable pub assert_required_warehouse_reservation :
      Order → WarehouseHandoffSummary → M (Unit {0})
  unfolding requires_warehouse_reservation
  assert_required_warehouse_reservation order handoff w =
      if not (requires_warehouse_reservation order.channel) || is_reserved handoff.status
      then (w, ok tt)
      else (w, throw (reservation_required handoff.status))

  abbrev pub reserve : Order → M WarehouseHandoffSummary
  reserve order w = let (w', handoff) = reserve_order_items env order w in (w', ok handoff)

  -- the end of the transaction's body
  unfoldable pub finish_rows : Order → WarehouseHandoffSummary → M Order
  unfolding save assert_required_warehouse_reservation
  finish_rows order handoff = do
    assert_required_warehouse_reservation order handoff
    save env (record order { warehouse_handoff = some handoff })
    pure (record order { warehouse_handoff = some handoff })

  -- its part from the items on
  unfoldable pub create_items : Order → M Order
  unfolding save reserve_order_items finish_rows
  create_items order = do save env order; handoff ← reserve order; finish_rows order handoff

  unfoldable pub create_rows : NormalizedCreateOrder → M Order
  unfolding item_rows save create_items
  create_rows normalized w =
      let order = new_order w normalized.order in
      (save env order >> create_items (record order { items = item_rows w 0 normalized.items })) w

  abbrev pub created_items : Order → List OrderLifecycleEventItemSnapshot
  created_items order =
      map
        (λ (item : OrderItem). record {
          product_id = item.product_id;
          sku = truthy item.sku;
          quantity = item.quantity;
          unit_price = item.unit_price;
          total_price = item.total_price;
        })
        order.items

  -- the branch of `create` with an order that has the key
  unfoldable pub replay_create : Order → NormalizedCreateOrder → M Order
  unfolding is_matching_create_order_replay
  replay_create existing normalized w =
      if is_matching_create_order_replay env.arithmetic existing normalized
      then (audit create_replay existing.id success >> pure existing) w
      else (audit create_conflict existing.id rejected >> fail order_exists) w

  -- the last step of that; a new order comes with its request
  unfoldable pub settle_create :
      NormalizedCreateOrder → CreateOrderIdempotencyKey → M (Order × Option NormalizedCreateOrder)
  unfolding create_rows replay_create find_by_create_order_idempotency_key
  settle_create normalized key w = elim (find_by_create_order_idempotency_key env key w) [
    | some existing ↦ (replay_create existing normalized >>= λ order. pure (order, none)) w
    | none ↦ (transaction env (create_rows normalized) >>= λ order. pure (order, some normalized)) w
  ]

  abbrev pub create_failure : Text → World → World
  create_failure id =
      record_audit (record { operation = order_create; resource_id = id; outcome = failure })

  -- what `create` does after its transaction
  unfoldable pub announce_create : Order × Option NormalizedCreateOrder → M Order
  unfolding build_order_created_event publish_lifecycle_changed_if_needed
  announce_create (order, none) = pure order
  announce_create (order, some normalized) =
      on_error
        (do
          publish (
              build_order_created_event order.id order.channel normalized.lead_attribution
                (created_items order) order.currency)
          publish_lifecycle_changed_if_needed order none
          audit order_create order.id success
          pure order)
        (create_failure order.id)

  abbrev pub normalize_body : Value → Result ServiceError NormalizedCreateOrder
  normalize_body body =
      or_invalid (normalize_create_order_request env.arithmetic env.parse_date body)

  abbrev pub key_of : NormalizedCreateOrder → Result ServiceError CreateOrderIdempotencyKey
  key_of normalized = or_invalid (get_create_order_idempotency_key normalized)

  -- what `create` does up to the end of its transaction
  unfoldable pub prepare_create : Value → M (Order × Option NormalizedCreateOrder)
  unfolding settle_create normalize_create_order_request get_create_order_idempotency_key
  prepare_create body = do
    normalized ← lift (normalize_body body)
    key ← lift (key_of normalized)
    settle_create normalized key

  -- `create`; its `catch` names the order once it is committed
  unfoldable pub create : Value → M Order
  unfolding prepare_create announce_create
  create body = on_error (prepare_create body) (create_failure []) >>= announce_create

  -- `idempotencyStatus`
  pub data IdempotencyStatus : Type 0 where
    available : IdempotencyStatus
    existing_matching_order : (id : Text) → IdempotencyStatus

  -- `validateCreate`, of whose answer the status is kept
  unfoldable pub validate_create : Value → M IdempotencyStatus
  unfolding normalize_create_order_request get_create_order_idempotency_key
      find_by_create_order_idempotency_key is_matching_create_order_replay
  validate_create body = do
    normalized ← lift (normalize_body body)
    key ← lift (key_of normalized)
    λ w. elim (find_by_create_order_idempotency_key env key w) [
      | none ↦ (w, ok available)
      | some existing ↦
          if is_matching_create_order_replay env.arithmetic existing normalized
          then (w, ok (existing_matching_order existing.id))
          else (w, throw order_exists)
    ]

-- ===== src/Orders/Created.antt =====
-- What `create` of src/orders/orders.service.ts leaves behind, whatever it returns.
use orders_microservice.Base.Text.{lower_unit, text_eq, to_lower_case, Text, mem_text}
use orders_microservice.Base.Text.Laws.{text_eq_iff}
use orders_microservice.Base.{
  All, ok_injective, List, sym, Result-cases, Bool-cases, inr, inl, Option-cases, ◌≡◌, Option,
  Result, none, some, ok, throw, [], ◌∷◌, true, refl,
}
use orders_microservice.Orders.Create.{
  requires_warehouse_reservation, or_invalid, create, prepare_create, created_items,
  find_by_create_order_idempotency_key, create_failure, key_of, normalize_body, create_rows,
  replay_create, announce_create, settle_create,
}
use orders_microservice.Create.Request.{allowed_channels, NormalizedCreateOrder}
use orders_microservice.Create.Accepted.{normalize_create_order_request-IsAccepted}
use orders_microservice.Create.Fields.{CreateError}
use orders_microservice.Entities.{WarehouseHandoffStatus, Order}
use orders_microservice.Json.{Value}
use orders_microservice.Orders.Creation.{bind_throw, bind_ok, create_rows_lem, Rows, IsSaved}
use mathlib.Core.Path.{subst}
use orders_microservice.World.{
  database_error, order_exists, success, create_replay, on_error, pure, ServiceError, transaction,
  ◌>>=◌, Env, M, World,
}
use orders_microservice.Events.{
  build_order_created_event, build_order_lifecycle_changed_payload, lifecycle_changed,
}
use orders_microservice.Create.Replay.{is_matching_create_order_replay, CreateOrderIdempotencyKey}
use orders_microservice.Lifecycle.{validate_order_lifecycle_transition}
use orders_microservice.Orders.Publish.{publish_lifecycle_changed_if_needed}

pub mem_text-All :
    (P : Text → Type 0) (t : Text) (us : List Text) → All P us → mem_text t us ≡ true → P t
unfolding mem_text
mem_text-All P t [] ps h = cc
mem_text-All P t (u ∷ us) ps h = elim (Bool-cases (text_eq u t)) [
  | inl here ↦ subst P ((text_eq_iff u t).0 here) ps.0
  | inr later ↦ mem_text-All P t us ps.1 (rw later at h)
]

-- every supported channel requires a reservation
channel-requires :
    (env : Env) (channel : Text)
    → mem_text channel allowed_channels ≡ true
    → requires_warehouse_reservation env channel ≡ true
channel-requires env channel h =
    mem_text-All (λ c. requires_warehouse_reservation env c ≡ true) channel allowed_channels
      (unfold requires_warehouse_reservation to_lower_case lower_unit mem_text text_eq in
        (refl, (refl, (refl, (refl, (refl, (refl, tt)))))))
      h

pub or_invalid-eq-ok :
    (r : Result CreateError NormalizedCreateOrder) {n : NormalizedCreateOrder}
    → or_invalid r ≡ ok n
    → r ≡ ok n
or_invalid-eq-ok (ok n) h = rw (ok_injective h) refl
or_invalid-eq-ok (throw e) h = cc

module _ (env : Env) (body : Value) (w : World) where
  -- the body is a request whose key is in use, or not
  pub record IsRequest (n : NormalizedCreateOrder) (found : Option Order) : Type 0 where
    pub normalized : normalize_body env body ≡ ok n
    pub key : CreateOrderIdempotencyKey
    pub has_key : key_of env n ≡ ok key
    pub looked_up : find_by_create_order_idempotency_key env key w ≡ found

  pub data Creation (w' : World) : Result ServiceError Order → Type 0 where
    refused : (e : ServiceError) → w'.saved ≡ w.saved → w'.events ≡ w.events → Creation w' (throw e)
    replayed :
        (n : NormalizedCreateOrder) (existing : Order)
        → IsRequest n (some existing)
        → is_matching_create_order_replay env.arithmetic existing n ≡ true
        → w' ≡ record w {
          audits =
              record { operation = create_replay; resource_id = existing.id; outcome = success }
              ∷ w.audits;
        }
        → Creation w' (ok existing)
    made :
        (n : NormalizedCreateOrder) (order : Order)
        → IsRequest n none
        → (saved : IsSaved env n w order w')
        → saved.handoff.status ≡ some WarehouseHandoffStatus.reserved
        → w'.events
          ≡ lifecycle_changed (build_order_lifecycle_changed_payload order none)
            ∷ build_order_created_event order.id order.channel n.lead_attribution
                (created_items env order)
                order.currency
            ∷ w.events
        → Creation w' (ok order)

  data Prepared (v : World)
      : Result ServiceError (Order × Option NormalizedCreateOrder) → Type 0 where
    failed : (e : ServiceError) → v.saved ≡ w.saved → v.events ≡ w.events → Prepared v (throw e)
    found :
        (n : NormalizedCreateOrder) (existing : Order)
        → IsRequest n (some existing)
        → is_matching_create_order_replay env.arithmetic existing n ≡ true
        → v ≡ record w {
          audits =
              record { operation = create_replay; resource_id = existing.id; outcome = success }
              ∷ w.audits;
        }
        → Prepared v (ok (existing, none))
    fresh :
        (n : NormalizedCreateOrder) (order : Order)
        → IsRequest n none
        → IsSaved env n w order v
        → v.events ≡ w.events
        → Prepared v (ok (order, some n))

  abbrev finish :
      World × Result ServiceError (Order × Option NormalizedCreateOrder)
      → World × Result ServiceError Order
  finish p = (on_error (λ _. p) (create_failure env []) >>= announce_create env) w

  finish_lem :
      (v : World) (r : Result ServiceError (Order × Option NormalizedCreateOrder))
      → Prepared v r
      → Creation (finish (v, r)).0 (finish (v, r)).1
  unfolding announce_create publish_lifecycle_changed_if_needed validate_order_lifecycle_transition
  finish_lem v r (failed e saved events) = refused e saved events
  finish_lem v r (found n existing request same e) = replayed n existing request same e
  finish_lem v r (fresh n order request saved events) =
      let accepted =
        normalize_create_order_request-IsAccepted env.arithmetic env.parse_date body n
          (or_invalid-eq-ok _ request.normalized) in
      made n order request
        (record {
          handoff = saved.handoff;
          same_order = saved.same_order;
          reserved_if_required = saved.reserved_if_required;
          stored = saved.stored;
        })
        (saved.reserved_if_required (channel-requires env n.order.channel accepted.sold_on))
        (rw events refl)

  -- the end of a new order, from how the transaction's body ended
  abbrev fresh_end :
      NormalizedCreateOrder
      → World × Result ServiceError Order
      → World × Result ServiceError (Order × Option NormalizedCreateOrder)
  fresh_end n p =
      let next : Order → M (Order × Option NormalizedCreateOrder) = λ order. pure (order, some n) in
      (transaction env (λ _. p) >>= next) w

  fresh_end_lem :
      (n : NormalizedCreateOrder) (v : World) (r : Result ServiceError Order)
      → IsRequest n none
      → Rows env n w v r
      → Prepared (fresh_end n (v, r)).0 (fresh_end n (v, r)).1
  fresh_end_lem n v (throw e) request rows = failed e refl rows.same_events
  fresh_end_lem n v (ok order) request rows =
      let next : Order → M (Order × Option NormalizedCreateOrder) = λ o. pure (o, some n) in
      let body_end : M Order = λ _. (v, ok order) in
      let rolled_back = record v { saved = w.saved } in
      elim (Bool-cases (env.commit_ok v)) [
        | inl committed ↦
            subst (λ q. Prepared q.0 q.1)
              (sym (bind_ok (transaction env body_end) next w v order (rw committed refl)))
              (fresh n order request (rows.made order refl) rows.same_events)
        | inr lost ↦
            subst (λ q. Prepared q.0 q.1)
              (sym (
                bind_throw (transaction env body_end) next w rolled_back database_error
                  (rw lost refl)))
              (failed database_error refl rows.same_events)
      ]

  settle_lem :
      (n : NormalizedCreateOrder) (key : CreateOrderIdempotencyKey)
      → normalize_body env body ≡ ok n
      → key_of env n ≡ ok key
      → let (v, r) = settle_create env n key w in Prepared v r
  unfolding settle_create replay_create
  settle_lem n key normalized keyed =
      elim (Option-cases (find_by_create_order_idempotency_key env key w)) [
        | inl absent ↦
            rw (absent, settle_create)
              (fresh_end_lem n (create_rows env n w).0 (create_rows env n w).1
                (record { normalized = normalized; key = key; has_key = keyed; looked_up = absent })
                (create_rows_lem env n w))
        | inr (existing, present) ↦
            let request : IsRequest n (some existing) = record {
              normalized = normalized;
              key = key;
              has_key = keyed;
              looked_up = present;
            } in
            elim (Bool-cases (is_matching_create_order_replay env.arithmetic existing n)) [
              | inl same ↦
                  rw (present, settle_create)
                    (rw (same, replay_create) (found n existing request same refl))
              | inr other ↦
                  rw (present, settle_create)
                    (rw (other, replay_create) (failed order_exists refl refl))
            ]
      ]

  prepare_lem : Prepared (prepare_create env body w).0 (prepare_create env body w).1
  unfolding prepare_create
  prepare_lem = elim (Result-cases (normalize_body env body)) [
    | inr (e, wrong) ↦ rw (wrong, prepare_create) (failed e refl refl)
    | inl (n, normalized) ↦ elim (Result-cases (key_of env n)) [
      | inr (e, wrong) ↦ rw (normalized, wrong, prepare_create) (failed e refl refl)
      | inl (key, keyed) ↦
          rw (normalized, keyed, prepare_create) (settle_lem n key normalized keyed)
    ]
  ]

  -- However it ends, creating an order is all or nothing. If it fails, no order is saved and no event
  -- published, though the warehouse may have been asked for reservations. If an order has the
  -- request's key, it is returned only when it matches the request, and nothing but the audit log
  -- changes. Else the order is saved with its items and with a summary of the warehouse that says
  -- reserved, and its creation and then its first stage are published, and nothing else.
  pub create_lem : Creation (create env body w).0 (create env body w).1
  unfolding create
  create_lem = finish_lem (prepare_create env body w).0 (prepare_create env body w).1 prepare_lem

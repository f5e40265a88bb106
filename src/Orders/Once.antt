-- ===== src/Orders/Once.antt =====
-- A request that is sent again to `create` of src/orders/orders.service.ts, whatever the order in which
-- the database reads the items.
use orders_microservice.Base.{
  ◌⊎◌, some_injective, ok_injective, Bool-cases, sym, ap, ◌∙◌, ◌≡◌, refl, Option, Result, List,
  none, some, ok, throw, inl, inr, false, [], ◌∷◌,
}
use orders_microservice.Orders.Creation.{first_saved, with_items, with_handoff}
use orders_microservice.Orders.Created.{
  or_invalid-eq-ok, made, replayed, refused, create_lem, Creation, IsRequest,
}
use orders_microservice.Create.Accepted.{normalize_create_order_request-IsAccepted}
use orders_microservice.Orders.Create.{
  normalize_body, create_failure, replay_create, settle_create, prepare_create, announce_create,
  create, rejoined, stored_orders, first_with_key, find_by_create_order_idempotency_key,
}
use orders_microservice.Create.Replay.{is_matching_create_order_replay}
use orders_microservice.Orders.Repeat.{
  own_key, own_key_lem, fits_key, find_newest, found_lem, noted,
}
use orders_microservice.World.{
  on_error, ServiceError, order_exists, order_create, create_conflict, rejected, failure,
  record_audit, ◌>>=◌, Env, World,
}
use orders_microservice.Json.{Value}
use orders_microservice.Create.Request.{NormalizedCreateOrder}
use orders_microservice.Entities.{Order, OrderItem}

-- an order that one read finds is found by the next, with its items as they are read then
rejoined_again :
    (env : Env) (w w' : World) (found : Option Order) (order : Order)
    → rejoined env w found ≡ some order
    → (items : List OrderItem) × (rejoined env w' found
        ≡ some (record order { items = env.joined_items w' items }))
      × (order.items ≡ env.joined_items w items)
rejoined_again env w w' none order h = cc
rejoined_again env w w' (some o) order h = (
  o.items,
  ap (λ (q : Order). some (record q { items = env.joined_items w' o.items })) (some_injective h),
  ap (λ (q : Order). q.items) (sym (some_injective h)),
)

module _ (env : Env) (body : Value) where
  abbrev pub refused_entries : Order → World → World
  refused_entries order w =
      record_audit (record { operation = order_create; resource_id = []; outcome = failure })
        (record_audit
          (record { operation = create_conflict; resource_id = order.id; outcome = rejected }) w)

  -- a request whose key is that of an order that does not match
  conflict_lem :
      (n : NormalizedCreateOrder) (order : Order) (v : World)
      → IsRequest env body v n (some order)
      → is_matching_create_order_replay env.arithmetic order n ≡ false
      → create env body v ≡ (refused_entries order v, throw order_exists)
  unfolding create announce_create prepare_create settle_create replay_create
  conflict_lem n order v request other =
      let prepared : prepare_create env body v ≡ (
        record_audit
            (record { operation = create_conflict; resource_id = order.id; outcome = rejected }) v,
        throw order_exists,
      ) =
        rw
          (
            request.normalized, request.has_key, request.looked_up, other, prepare_create,
            settle_create, replay_create,
          )
          refl in
      let rest : World × Result ServiceError (Order × Option NormalizedCreateOrder)
          → World × Result ServiceError Order =
        λ p. (on_error (λ _. p) (create_failure env []) >>= announce_create env) v in
      ap rest prepared

  -- the order, with these items in the order in which they are read
  abbrev pub read_order : Order → List OrderItem → World → Order
  read_order order items w' = record order { items = env.joined_items w' items }

  -- the items as the first request left them: those that it saved, or those of which it read the order
  abbrev pub IsItemsOf : World → Order → List OrderItem → Type 0
  IsItemsOf w order items = (order.items ≡ items) ⊎ (order.items ≡ env.joined_items w items)

  -- what the second request does: it answers with the order, its items as they are read, or it is
  -- refused, as they do not match the request in that order
  pub data IsRepeat (w : World) (order : Order) (w' : World)
      : World × Result ServiceError Order → Type 0 where
    answered :
        (items : List OrderItem)
        → IsItemsOf w order items
        → IsRepeat w order w'
            (noted env body (read_order order items w') w', ok (read_order order items w'))
    conflicting :
        (n : NormalizedCreateOrder) (items : List OrderItem)
        → IsItemsOf w order items
        → normalize_body env body ≡ ok n
        → is_matching_create_order_replay env.arithmetic (read_order order items w') n ≡ false
        → IsRepeat w order w' (refused_entries order w', throw order_exists)

  looked_up-IsRepeat :
      (n : NormalizedCreateOrder) (order : Order) (items : List OrderItem) (w w' : World)
      → IsItemsOf w order items
      → IsRequest env body w' n (some (record order { items = env.joined_items w' items }))
      → IsRepeat w order w' (create env body w')
  looked_up-IsRepeat n order items w w' of_it request =
      let read : Order = record order { items = env.joined_items w' items } in
      elim (Bool-cases (is_matching_create_order_replay env.arithmetic read n)) [
        | inl same ↦ rw (found_lem env body n read w' request same) (answered items of_it)
        | inr other ↦
            rw (conflict_lem n read w' request other)
              (conflicting n items of_it request.normalized other)
      ]

  second :
      (w w' : World) (r : Result ServiceError Order) (order : Order)
      → Creation env body w w' r
      → r ≡ ok order
      → IsRepeat w order w' (create env body w')
  second w w' (throw e) order (refused x saved events) h = cc
  second w w' (ok o) order (replayed n existing request same e) h =
      let (items, again, read_from) =
        rejoined_again env w w' (first_with_key request.key (stored_orders [] w.saved)) existing
          (unfold find_by_create_order_idempotency_key in request.looked_up) in
      rw⁻¹ (ok_injective h) (
        looked_up-IsRepeat n existing items w w' (inr read_from) (record {
          normalized = request.normalized;
          key = request.key;
          has_key = request.has_key;
          looked_up =
              unfold find_by_create_order_idempotency_key in
              ap
                (λ (orders : List Order).
                  rejoined env w' (first_with_key request.key (stored_orders [] orders)))
                (ap (λ (v : World). v.saved) e)
              ∙ again;
        }))
  second w w' (ok o) order (made n o' request saved reserved events) h =
      let accepted =
        normalize_create_order_request-IsAccepted env.arithmetic env.parse_date body n
          (or_invalid-eq-ok _ request.normalized) in
      let new = with_handoff env n w saved.handoff in
      let found =
        find_newest env (own_key env n w) new (with_items env n w ∷ first_saved env n w ∷ w.saved)
          w' (rw (sym saved.same_order) saved.stored) (fits_key env n w saved.handoff accepted) in
      rw⁻¹ (sym saved.same_order ∙ ok_injective h) (
        looked_up-IsRepeat n new new.items w w' (inl refl) (record {
          normalized = request.normalized;
          key = own_key env n w;
          has_key = own_key_lem env n w accepted;
          looked_up = found;
        }))

-- Where a request returned an order, sending it again never makes a second one, whatever the order in
-- which the database reads the items: it returns that order with the same items as they are read
-- now, or is refused as a conflict since, read so, the order does not match the request. Either way
-- nothing changes but the audit log.
pub create-IsRepeat :
    (env : Env) (body : Value) (w : World) (order : Order)
    → (create env body w).1 ≡ ok order
    → let w' = (create env body w).0 in IsRepeat env body w order w' (create env body w')
create-IsRepeat env body w order h =
    second env body w (create env body w).0 (create env body w).1 order (create_lem env body w) h

-- ===== src/Orders/Found.antt =====
-- src/orders/orders.service.ts: the handlers, once the order is found or is missing.
use orders_microservice.Orders.ApplyCallback.{process_callback, apply_warehouse_fulfillment_status}
use orders_microservice.Orders.ApplyPayment.{try_payment, apply_payment_status}
use orders_microservice.Orders.UpdateStatus.{update_found, update_status}
use orders_microservice.Json.{Value}
use orders_microservice.Status.Approval.{OrderStatusTransitionContext}
use orders_microservice.Base.{ap, some, ◌≡◌, refl, ok, throw, none}
use orders_microservice.World.{find_one, ServiceError, find_order, World, Env, M, ◌>>=◌, not_found}
use orders_microservice.Entities.{Order}
use orders_microservice.Base.Text.{Text}

pub bind_ok :
    {A B : Type 0} (m : M A) (f : A → M B) (w : World) {w' : World} {a : A}
    → m w ≡ (w', ok a)
    → (m >>= f) w ≡ f a w'
bind_ok m f w e = ap (λ p. elim p.1 [ ok a ↦ f a p.0 | throw x ↦ (p.0, throw x) ]) e

bind_throw :
    {A B : Type 0} (m : M A) (f : A → M B) (w : World) {w' : World} {x : ServiceError}
    → m w ≡ (w', throw x)
    → (m >>= f) w ≡ (w', throw x)
bind_throw m f w e = ap (λ p. elim p.1 [ ok a ↦ f a p.0 | throw x ↦ (p.0, throw x) ]) e

module _ (env : Env) (id : Text) (w : World) where
  module _ (order : Order) (found : find_order id w.saved ≡ some order) where
    find_one_found : find_one id w ≡ (w, ok order)
    unfolding find_one
    find_one_found = rw (found, find_one) refl

    pub update_status_found :
        (status : Text) (context : OrderStatusTransitionContext)
        → update_status env id status context w ≡ update_found env id status context order w
    unfolding update_status
    update_status_found status context =
        bind_ok (find_one id) (update_found env id status context) w find_one_found

    pub apply_payment_status_found :
        (body : Value) → apply_payment_status env id body w ≡ try_payment env id body order w
    unfolding apply_payment_status
    apply_payment_status_found body =
        bind_ok (find_one id) (try_payment env id body) w find_one_found

    pub fulfillment_found :
        (body : Value)
        → apply_warehouse_fulfillment_status env id body w ≡ process_callback env body order w
    unfolding apply_warehouse_fulfillment_status
    fulfillment_found body = bind_ok (find_one id) (process_callback env body) w find_one_found

  module _ (missing : find_order id w.saved ≡ none) where
    find_one_missing : find_one id w ≡ (w, throw (not_found id))
    unfolding find_one
    find_one_missing = rw (missing, find_one) refl

    pub update_status_missing :
        (status : Text) (context : OrderStatusTransitionContext)
        → update_status env id status context w ≡ (w, throw (not_found id))
    unfolding update_status
    update_status_missing status context =
        bind_throw (find_one id) (update_found env id status context) w find_one_missing

    pub apply_payment_status_missing :
        (body : Value) → apply_payment_status env id body w ≡ (w, throw (not_found id))
    unfolding apply_payment_status
    apply_payment_status_missing body =
        bind_throw (find_one id) (try_payment env id body) w find_one_missing

    pub fulfillment_missing :
        (body : Value)
        → apply_warehouse_fulfillment_status env id body w ≡ (w, throw (not_found id))
    unfolding apply_warehouse_fulfillment_status
    fulfillment_missing body =
        bind_throw (find_one id) (process_callback env body) w find_one_missing

-- ===== src/Orders/SamePayment.antt =====
-- Versions of an order with the same payment, and the parts of the handlers of
-- src/orders/orders.service.ts that process no payment.
use orders_microservice.World.{
  ◌>>◌, audit, status_replay, status_key_replay, fulfillment_update, Operation, failure,
  record_audit, success, status_update, save, ServiceError, Env, M, ◌>>=◌, pure, fail,
}
use orders_microservice.Base.{
  Bool-cases, false, Option-cases, true, if◌then◌else◌, Bool, Option, some, ◌≡◌, refl, inl, inr,
}
use orders_microservice.Orders.ApplyPayment.{release_reservations}
use orders_microservice.Orders.Frame.{
  audit-Grows, publish_order_updated-Grows, publish_lifecycle-Grows, save-Grows, Grows-same,
  save_return-Grows, apply_reservation_action-OnlyCalls, Grows-refl, Grows-trans, Grows,
}
use orders_microservice.Base.Text.{text_eq}
use orders_microservice.Orders.Steps.{on_error-Does, Does, bind-Does, pure-Does, fail-Does}
use orders_microservice.Status.{status_text, OrderStatus, status_eq}
use orders_microservice.Orders.UpdateStatus.{
  is_key_replay, commit_transition, announced_status, with_transition, apply_transition,
  cancel_reservations,
}
use orders_microservice.Fulfillment.{WarehouseFulfillmentStatusUpdate}
use orders_microservice.Orders.ApplyCallback.{commit_callback, with_callback}
use orders_microservice.Lifecycle.Derive.{lifecycle_stage}
use orders_microservice.Status.Validate.{OrderStatusTransitionResult}
use orders_microservice.Requests.{cancel, release}
use orders_microservice.Entities.{WarehouseHandoffSummary, Order}
use orders_microservice.Warehouse.{apply_reservation_action}

-- a version of the same order with the same payment
pub record SamePayment (order version : Order) : Type 0 where
  pub same_id : version.id ≡ order.id
  pub same_status : version.payment_status ≡ order.payment_status
  pub same_reference : version.payment_reference_id ≡ order.payment_reference_id

module _ (env : Env) (order : Order) where
  abbrev pub Keeps : {A : Type 0} → (A → Type 0) → M A → Type 0
  Keeps = Does (Grows (SamePayment order))

  pub next :
      {A B : Type 0} (P : A → Type 0) (m : M A) (f : A → M B)
      → Keeps P m
      → ((a : A) → P a → Keeps (λ (_ : B). Unit {0}) (f a))
      → Keeps (λ (_ : B). Unit {0}) (m >>= f)
  next P m f =
      bind-Does (Grows (SamePayment order)) P (λ _. Unit {0}) m f (Grows-trans (SamePayment order))

  pub return : {A : Type 0} (a : A) → Keeps (λ (_ : A). Unit {0}) (pure a)
  return a =
      pure-Does (Grows (SamePayment order)) (λ _. Unit {0}) a (Grows-refl (SamePayment order)) tt

  pub refuse : {A : Type 0} (e : ServiceError) → Keeps (λ (_ : A). Unit {0}) (fail e)
  refuse e =
      fail-Does (Grows (SamePayment order)) (λ _. Unit {0}) e (Grows-refl (SamePayment order))

  handed-SamePayment :
      (o : Order) (s : Option WarehouseHandoffSummary)
      → SamePayment order o
      → SamePayment order (record o { warehouse_handoff = s })
  handed-SamePayment o s h = record {
    same_id = h.same_id;
    same_status = h.same_status;
    same_reference = h.same_reference;
  }

  cancel_reservations-Keeps :
      (o : Order)
      → SamePayment order o
      → Keeps (λ (_ : Order). Unit {0}) (cancel_reservations env o)
  unfolding cancel_reservations
  cancel_reservations-Keeps o h = record {
    run = λ w.
        let (w', handoff) = apply_reservation_action env cancel o w in
        let quiet = apply_reservation_action-OnlyCalls env cancel o w in
        let (later, _) =
          (save_return-Grows (SamePayment order) env (record o { warehouse_handoff = some handoff })
              (λ _. Unit {0}) (handed-SamePayment o (some handoff) h) tt).run
            w' in
        (
          Grows-trans (SamePayment order) w w' (cancel_reservations env o w).0
              (Grows-same (SamePayment order) w w' quiet.same_saved) later,
          λ _ _. tt,
        );
  }

  release_reservations-Keeps :
      (o : Order)
      → SamePayment order o
      → Keeps (λ (_ : Order). Unit {0}) (release_reservations env o)
  unfolding release_reservations
  release_reservations-Keeps o h = record {
    run = λ w.
        let (w', summary) = apply_reservation_action env release o w in
        let quiet = apply_reservation_action-OnlyCalls env release o w in
        let (later, _) =
          (save_return-Grows (SamePayment order) env (record o { warehouse_handoff = some summary })
              (λ _. Unit {0}) (handed-SamePayment o (some summary) h) tt).run
            w' in
        (
          Grows-trans (SamePayment order) w w' (release_reservations env o w).0
              (Grows-same (SamePayment order) w w' quiet.same_saved) later,
          λ _ _. tt,
        );
  }

  transition-SamePayment :
      (transition : OrderStatusTransitionResult)
      → SamePayment order (with_transition order transition)
  transition-SamePayment transition = elim (Option-cases transition.approval_audit) [
    | inl bare ↦ rw bare (record { same_id = refl; same_status = refl; same_reference = refl })
    | inr (a, given) ↦
        rw given (record { same_id = refl; same_status = refl; same_reference = refl })
  ]

  maybe_cancel :
      (b : Bool) (o : Order)
      → SamePayment order o
      → Keeps (λ (_ : Order). Unit {0}) (if b then cancel_reservations env o else pure o)
  maybe_cancel true o h = cancel_reservations-Keeps o h
  maybe_cancel false o h = return o

  apply_transition-Keeps :
      (transition : OrderStatusTransitionResult)
      → Keeps (λ (_ : Order). Unit {0}) (apply_transition env order transition)
  unfolding apply_transition
  apply_transition-Keeps t =
      let changed = with_transition order t in
      let same = transition-SamePayment t in
      next (λ _. Unit {0}) (save env changed) _ (save-Grows (SamePayment order) env changed same)
        (λ _ _.
          next (λ _. Unit {0}) _ _
            (maybe_cancel (status_eq t.status OrderStatus.cancelled) changed same)
            (λ updated _.
              next (λ _. Unit {0}) _ _
                (publish_lifecycle-Grows (SamePayment order) updated (some (lifecycle_stage order)))
                (λ _ _.
                  next (λ _. Unit {0}) _ _
                    (publish_order_updated-Grows (SamePayment order) order.id t.status
                      (announced_status order t) t.approval_audit)
                    (λ _ _.
                      next (λ _. Unit {0}) _ _
                        (audit-Grows (SamePayment order) status_update order.id success)
                        (λ _ _. return updated)))))

  replay :
      (operation : Operation)
      → Keeps (λ (_ : Order). Unit {0}) (do audit operation order.id success; pure order)
  replay operation =
      next (λ _. Unit {0}) _ _ (audit-Grows (SamePayment order) operation order.id success)
        (λ _ _. return order)

  pub commit_transition-Keeps :
      (t : OrderStatusTransitionResult)
      → Keeps (λ (_ : Order). Unit {0}) (commit_transition env order t)
  unfolding commit_transition
  commit_transition-Keeps t = elim (Bool-cases (is_key_replay order t)) [
    | inl again ↦ rw again (replay status_key_replay)
    | inr fresh ↦ elim (Bool-cases (text_eq (status_text t.status) order.status)) [
      | inl same ↦ rw fresh (rw same (replay status_replay))
      | inr other ↦ rw fresh (
          rw other (
            on_error-Does (Grows (SamePayment order)) (λ _. Unit {0}) (apply_transition env order t)
              (record_audit
                (record { operation = status_update; resource_id = order.id; outcome = failure }))
              (Grows-trans (SamePayment order)) (λ w. Grows-refl (SamePayment order) w)
              (apply_transition-Keeps t)))
    ]
  ]

  callback-SamePayment :
      (update : WarehouseFulfillmentStatusUpdate)
      → SamePayment order (with_callback env order update)
  unfolding with_callback
  callback-SamePayment update = record { same_id = refl; same_status = refl; same_reference = refl }

  pub commit_callback-Keeps :
      (update : WarehouseFulfillmentStatusUpdate)
      → Keeps (λ (_ : Order). Unit {0}) (commit_callback env order update)
  unfolding commit_callback
  commit_callback-Keeps update =
      next (λ _. Unit {0}) (save env (with_callback env order update)) _
        (save-Grows (SamePayment order) env (with_callback env order update)
          (callback-SamePayment update))
        (λ _ _.
          next (λ _. Unit {0}) _ _
            (publish_lifecycle-Grows (SamePayment order) (with_callback env order update)
              (some (lifecycle_stage order)))
            (λ _ _.
              next (λ _. Unit {0}) _ _
                (audit-Grows (SamePayment order) fulfillment_update order.id success)
                (λ _ _. return (with_callback env order update))))

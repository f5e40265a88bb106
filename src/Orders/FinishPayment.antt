-- ===== src/Orders/FinishPayment.antt =====
-- src/orders/orders.service.ts, `applyPaymentStatus`: what the steps after a payment is saved may save.
use orders_microservice.World.{
  ◌>>=◌, ◌>>◌, ServiceError, M, payment_update, save, pure, publish, World, Env, success,
}
use orders_microservice.Base.{
  Result, true, false, ok, ◌∙◌, ◌≡◌, if◌then◌else◌, Option, Bool, none, not, ◌&&◌, some,
}
use orders_microservice.Orders.Frame.{
  Grows-refl, create_after_payment_fulfillment-OnlyCalls, apply_reservation_action-OnlyCalls,
  save_return-Grows, Grows-same, Grows-trans, audit-Grows, publish-Grows, publish_lifecycle-Grows,
  publish_order_updated-Grows, Grows,
}
use orders_microservice.Orders.Steps.{bind-Does, pure-Does}
use orders_microservice.Handoff.{create_after_payment_fulfillment}
use orders_microservice.Warehouse.{apply_reservation_action}
use orders_microservice.Events.{build_order_paid_event, DomainEvent}
use orders_microservice.Base.Text.{lit, Text}
use orders_microservice.Orders.ApplyPayment.{
  is_text, with_fulfillment_order, is_paid, should_confirm, with_payment, settle_reservations,
  finish_payment, hand_over,
}
use orders_microservice.Lifecycle.Derive.{lifecycle_stage}
use orders_microservice.Orders.SamePayment.{return, Keeps, SamePayment}
use orders_microservice.Orders.Publish.{publish_order_updated}
use orders_microservice.Entities.{FulfillmentOrderHandoff, WarehouseHandoffSummary, Order}
use orders_microservice.Payment.{NormalizedPaymentStatusUpdate}
use orders_microservice.Status.{confirmed}
use orders_microservice.Requests.{fulfill}

module _ (env : Env) (base : Order) where
  publish_if :
      (b : Bool) (event : DomainEvent)
      → Keeps env base (λ (_ : Unit {0}). Unit {0}) (if b then publish event else pure tt)
  publish_if true event = publish-Grows (SamePayment base) event
  publish_if false event = return env base tt

  announce_if :
      (b : Bool) (id : Text) (previous : Option Text)
      → Keeps env base
          (λ (_ : Unit {0}). Unit {0})
          (if b then publish_order_updated id confirmed previous none else pure tt)
  announce_if true id previous =
      publish_order_updated-Grows (SamePayment base) id confirmed previous none
  announce_if false id previous = return env base tt

  then_step :
      {A B : Type 0} (P : A → Type 0) (Q : B → Type 0) (m : M A) (f : A → M B)
      → Keeps env base P m
      → ((a : A) → P a → Keeps env base Q (f a))
      → Keeps env base Q (m >>= f)
  then_step P Q m f = bind-Does (Grows (SamePayment base)) P Q m f (Grows-trans (SamePayment base))

  -- what holds of the order that the reservations leave holds of the order returned
  pub finish_payment-Keeps :
      (Q : Order → Type 0) (order : Order) (u : NormalizedPaymentStatusUpdate)
      → Keeps env base Q (settle_reservations env order u (with_payment order u))
      → Keeps env base Q (finish_payment env order u)
  unfolding finish_payment
  finish_payment-Keeps Q order u settled = then_step Q Q _ _ settled (λ updated q.
      then_step (λ _. Unit {0}) Q _ _
        (publish_lifecycle-Grows (SamePayment base) updated (some (lifecycle_stage order)))
        (λ _ _.
          then_step (λ _. Unit {0}) Q _ _
            (announce_if (should_confirm order u) order.id (some order.status))
            (λ _ _.
              then_step (λ _. Unit {0}) Q _ _
                (publish_if
                  (is_paid u.payment_status && not (is_text order.payment_status (lit "paid")))
                  (build_order_paid_event order.id (some u.payment_reference_id)))
                (λ _ _.
                  then_step (λ _. Unit {0}) Q _ _
                    (audit-Grows (SamePayment base) payment_update order.id success)
                    (λ _ _.
                      pure-Does (Grows (SamePayment base)) Q updated (Grows-refl (SamePayment base))
                        q)))))

  handed_over-SamePayment :
      (o : Order) (s : WarehouseHandoffSummary) (handoff : FulfillmentOrderHandoff)
      → SamePayment base o
      → SamePayment base (with_fulfillment_order (record o { warehouse_handoff = some s }) handoff)
  handed_over-SamePayment o s handoff h = record {
    same_id = h.same_id;
    same_status = h.same_status;
    same_reference = h.same_reference;
  }

  fulfilled-SamePayment :
      (o : Order) (s : WarehouseHandoffSummary)
      → SamePayment base o
      → SamePayment base (record o { warehouse_handoff = some s })
  fulfilled-SamePayment o s h = record {
    same_id = h.same_id;
    same_status = h.same_status;
    same_reference = h.same_reference;
  }

  -- a save and its argument, after steps that only sent requests
  stored :
      (x : Order) (v w : World)
      → SamePayment base x
      → w.saved ≡ v.saved
      → let run : World × Result ServiceError Order = (do save env x; pure x) w in
        Grows (SamePayment base) v run.0 × ((a : Order) → run.1 ≡ ok a → SamePayment base a)
  stored x v w same e =
      let (later, q) =
        (save_return-Grows (SamePayment base) env x (SamePayment base) same same).run w in
      (
        Grows-trans (SamePayment base) v w ((do save env x; pure x) w).0
            (Grows-same (SamePayment base) v w e) later,
        q,
      )

  pub hand_over-Keeps :
      (o : Order) → SamePayment base o → Keeps env base (SamePayment base) (hand_over env o)
  unfolding hand_over
  hand_over-Keeps o h = record { run = λ w. choose env.handoff_configured w }
    where
      choose :
          (configured : Bool) (w : World)
          → let (w1, summary) = apply_reservation_action env fulfill o w in
            let fulfilled : Order = record o { warehouse_handoff = some summary } in
            let (w2, handoff) = create_after_payment_fulfillment env fulfilled w1 in
            let run : World × Result ServiceError Order =
              if configured
              then (do
                save env (with_fulfillment_order fulfilled handoff)
                pure (with_fulfillment_order fulfilled handoff))
                  w2
              else (do save env fulfilled; pure fulfilled) w1 in
            Grows (SamePayment base) w run.0 × ((a : Order) → run.1 ≡ ok a → SamePayment base a)
      choose true w =
          let (w1, summary) = apply_reservation_action env fulfill o w in
          let fulfilled : Order = record o { warehouse_handoff = some summary } in
          let (w2, handoff) = create_after_payment_fulfillment env fulfilled w1 in
          let first = apply_reservation_action-OnlyCalls env fulfill o w in
          let second = create_after_payment_fulfillment-OnlyCalls env fulfilled w1 in
          stored (with_fulfillment_order fulfilled handoff) w w2
            (handed_over-SamePayment o summary handoff h) (second.same_saved ∙ first.same_saved)
      choose false w =
          let (w1, summary) = apply_reservation_action env fulfill o w in
          stored (record o { warehouse_handoff = some summary }) w w1
            (fulfilled-SamePayment o summary h)
            (apply_reservation_action-OnlyCalls env fulfill o w).same_saved

-- ===== src/Orders/LatePayment.antt =====
-- src/orders/orders.service.ts, `applyPaymentStatus`: a payment that completes after one that failed.
use orders_microservice.Orders.FailedStage.{failed_not_cancelled, failed_not_paid, paid_not_failed}
use orders_microservice.Lifecycle.Transitions.{stage_rank-le}
use orders_microservice.Orders.Forward.{apply_payment_status-IsForward}
use orders_microservice.Orders.Found.{apply_payment_status_found, bind_ok}
use orders_microservice.Orders.StaysPaid.{Grows-HoldsPaid, HoldsPaid, find_order_sound}
use orders_microservice.World.{
  rejected, payment_update, find_order, ◌>>◌, record_audit, save, on_error, World, AuditEntry, Env,
  M,
}
use orders_microservice.Orders.ApplyPayment.{
  apply_payment_status, process_payment, try_payment, finish_payment, hand_over, check_payment,
  commit_payment, settle_reservations, with_payment,
}
use orders_microservice.Payment.{
  normalize_payment_status_update, payment_status_text, OrdersPaymentStatus,
  NormalizedPaymentStatusUpdate,
}
use orders_microservice.Json.{Value}
use orders_microservice.Orders.FinishPayment.{hand_over-Keeps, finish_payment-Keeps}
use orders_microservice.Base.{
  Result-cases, ok, ◌∷◌, ap, ◌∙◌, sym, some, inr, inl, arith, true, ◌≡◌, ◌≢◌, refl,
}
use orders_microservice.Orders.Paid.{IsPaid}
use orders_microservice.Orders.SamePayment.{SamePayment, Keeps}
use orders_microservice.Base.Text.Laws.{text_eq_iff}
use orders_microservice.Lifecycle.Derive.{lifecycle_stage}
use orders_microservice.Entities.{Order}
use orders_microservice.Base.Text.{Text, lit, text_eq}
use orders_microservice.Lifecycle.{payment_failed}

on_error_saved :
    (m : M Order) (entry : AuditEntry) (w : World)
    → (on_error m (record_audit entry) w).0.saved ≡ (m w).0.saved
on_error_saved m entry w = elim (Result-cases (m w).1) [
  | inl (a, e) ↦ rw (e, on_error) refl
  | inr (x, e) ↦ rw (e, on_error) refl
]

on_error_result :
    (m : M Order) (entry : AuditEntry) (w : World) → (on_error m (record_audit entry) w).1 ≡ (m w).1
on_error_result m entry w = elim (Result-cases (m w).1) [
  | inl (a, e) ↦ rw (e, on_error) refl
  | inr (x, e) ↦ rw (e, on_error) refl
]

module _ (env : Env) (order : Order) (update : NormalizedPaymentStatusUpdate) (w : World)
    (failed : lifecycle_stage order ≡ payment_failed)
    (completed : update.payment_status ≡ OrdersPaymentStatus.paid)
    (saves : (v : World) (o : Order) → env.save_ok v o ≡ true) where
  abbrev saved_world : World
  saved_world = record w { saved = with_payment order update ∷ w.saved }

  check_passes : check_payment order update w ≡ (w, ok tt)
  unfolding check_payment
  check_passes = ground (arith, failed_not_cancelled order failed, failed_not_paid order failed)

  save_passes : save env (with_payment order update) w ≡ (saved_world, ok tt)
  unfolding save
  save_passes = rw (saves w (with_payment order update), save) refl

  commit_payment_late :
      commit_payment env order update w ≡ finish_payment env order update saved_world
  unfolding commit_payment
  commit_payment_late =
      bind_ok (check_payment order update)
        (λ _. do save env (with_payment order update); finish_payment env order update) w
        check_passes
      ∙ bind_ok (save env (with_payment order update)) (λ _. finish_payment env order update) w
          save_passes

  settle_reservations_late :
      (changed : Order) → settle_reservations env order update changed ≡ hand_over env changed
  unfolding settle_reservations payment_status_text
  settle_reservations_late changed =
      rw (completed, settle_reservations) (rw (failed_not_paid order failed, settle_reservations))

  now-IsPaid : IsPaid update.payment_reference_id (with_payment order update)
  unfolding payment_status_text
  now-IsPaid = record { status = rw completed refl; reference_id = refl }

  finished :
      Keeps env
        (with_payment order update)
        (SamePayment (with_payment order update))
        (finish_payment env order update)
  finished =
      finish_payment-Keeps env (with_payment order update) (SamePayment (with_payment order update))
        order update
        (rw (settle_reservations_late (with_payment order update)) (
          hand_over-Keeps env (with_payment order update) (with_payment order update)
            (record { same_id = refl; same_status = refl; same_reference = refl })))

  module _ (id : Text) (body : Value) (found : find_order id w.saved ≡ some order)
      (accepted : normalize_payment_status_update env.parse_date env.clock body ≡ ok update) where
    process_payment_late :
        process_payment env order body w ≡ finish_payment env order update saved_world
    unfolding process_payment
    process_payment_late = rw (accepted, process_payment) commit_payment_late

    abbrev entry : AuditEntry
    entry = record { operation = payment_update; resource_id = id; outcome = rejected }

    late_saved :
        (apply_payment_status env id body w).0.saved
        ≡ (finish_payment env order update saved_world).0.saved
    unfolding try_payment
    late_saved =
        ap (λ p. p.0.saved) (apply_payment_status_found env id w order found body)
        ∙ on_error_saved (process_payment env order body) entry w
        ∙ ap (λ p. p.0.saved) process_payment_late

    late_result :
        (apply_payment_status env id body w).1 ≡ (finish_payment env order update saved_world).1
    unfolding try_payment
    late_result =
        ap (λ p. p.1) (apply_payment_status_found env id w order found body)
        ∙ on_error_result (process_payment env order body) entry w
        ∙ ap (λ p. p.1) process_payment_late

    found_now : find_order id saved_world.saved ≡ some (with_payment order update)
    unfolding find_order
    found_now =
        let same : text_eq order.id id ≡ true =
          (text_eq_iff order.id id).1 (find_order_sound id w.saved order found) in
        rw same refl

    late_HoldsPaid :
        HoldsPaid id update.payment_reference_id (finish_payment env order update saved_world).0
    late_HoldsPaid =
        Grows-HoldsPaid id update.payment_reference_id (with_payment order update) saved_world
          (finish_payment env order update saved_world).0 found_now now-IsPaid
          (finished.run saved_world).0

    late_paid :
        (updated : Order)
        → (apply_payment_status env id body w).1 ≡ ok updated
        → updated.payment_status ≡ some (lit "paid")
    late_paid updated returned =
        ((finished.run saved_world).1 updated (sym late_result ∙ returned)).same_status
        ∙ now-IsPaid.status

    -- Where an order's lifecycle stage is `payment_failed`, and every save succeeds, a payment update
    -- that is accepted as paid leaves the order stored as paid with the update's reference, and yet
    -- the handler returns no order.
    pub apply_payment_status_late :
        HoldsPaid id update.payment_reference_id (apply_payment_status env id body w).0
        × ((updated : Order) → (apply_payment_status env id body w).1 ≢ ok updated)
    apply_payment_status_late = (stored, refused)
      where
        stored : HoldsPaid id update.payment_reference_id (apply_payment_status env id body w).0
        stored = let (o, e, p) = late_HoldsPaid in (o, ap (λ l. find_order id l) late_saved ∙ e, p)

        refused : (updated : Order) → (apply_payment_status env id body w).1 ≢ ok updated
        refused updated returned =
            elim (apply_payment_status-IsForward env id order updated w found body returned) [
              | inl same ↦ paid_not_failed updated (late_paid updated returned) (sym same ∙ failed)
              | inr later ↦
                  omega (arith, rw failed at later, stage_rank-le (lifecycle_stage updated))
            ]

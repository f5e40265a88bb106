-- ===== src/Orders/Paid.antt =====
-- `applyPaymentStatus` of src/orders/orders.service.ts on a paid order: what it may save.
use orders_microservice.Orders.ApplyPayment.{
  is_text, commit_payment, process_payment, has_other_reference, with_payment, check_payment,
  settle_reservations,
}
use orders_microservice.Orders.FinishPayment.{finish_payment-Keeps}
use orders_microservice.World.{invalid_payment, save, Env, pure}
use orders_microservice.Payment.{
  normalize_payment_status_update, OrdersPaymentStatus, NormalizedPaymentStatusUpdate,
  payment_status_text,
}
use orders_microservice.Base.{
  Result-cases, ◌∷◌, ◌&&◌, not, arith, [], ◌≢◌, true, Bool, some, ◌≡◌, refl, inl, inr,
}
use orders_microservice.Orders.Frame.{save-Grows}
use orders_microservice.Json.{Value}
use orders_microservice.Base.Text.{is_empty, text_eq, lit, Text}
use orders_microservice.Base.Text.Laws.{text_eq_refl, text_eq_iff}
use orders_microservice.Entities.{Order}
use orders_microservice.Orders.SamePayment.{SamePayment, Keeps, next, return, refuse}

pub record IsPaid (reference : Text) (order : Order) : Type 0 where
  pub status : order.payment_status ≡ some (lit "paid")
  pub reference_id : order.payment_reference_id ≡ some reference

not_empty : (s : Text) → s ≢ [] → (b : Bool) → (not (is_empty s) && b) ≡ b
not_empty [] h b = absurd (h refl)
not_empty (c ∷ s) h b = refl

module _ (env : Env) (order : Order) (reference : Text) (paid : IsPaid reference order)
    (given : reference ≢ []) where
  -- what the refusals leave over, on a paid order
  abbrev Confirms : NormalizedPaymentStatusUpdate → Type 0
  Confirms update =
      (update.payment_status ≡ OrdersPaymentStatus.paid) × (update.payment_reference_id ≡ reference)

  was_paid : is_text order.payment_status (lit "paid") ≡ true
  was_paid = rw paid.status (text_eq_refl _)

  other :
      (update : NormalizedPaymentStatusUpdate)
      → has_other_reference order update.payment_reference_id
        ≡ not (text_eq reference update.payment_reference_id)
  other update = rw paid.reference_id (not_empty reference given _)

  check_payment-Confirms :
      (update : NormalizedPaymentStatusUpdate)
      → Keeps env order (λ (_ : Unit {0}). Confirms update) (check_payment order update)
  unfolding check_payment
  check_payment-Confirms update = record {
    run = λ w. (
      ([], ground arith, tt),
      λ _ e. (
        ground (arith, was_paid),
        ground (arith, was_paid, other update, text_eq_iff reference update.payment_reference_id),
      ),
    );
  }

  with_payment-SamePayment :
      (update : NormalizedPaymentStatusUpdate)
      → Confirms update
      → SamePayment order (with_payment order update)
  unfolding payment_status_text
  with_payment-SamePayment update c = record {
    same_id = refl;
    same_status = ground (arith, paid.status);
    same_reference = ground (arith, paid.reference_id);
  }

  settle_reservations_idle :
      (update : NormalizedPaymentStatusUpdate) (changed : Order)
      → Confirms update
      → settle_reservations env order update changed ≡ pure changed
  unfolding settle_reservations payment_status_text
  settle_reservations_idle update changed c =
      rw (c.0, settle_reservations) (rw (was_paid, settle_reservations))

  settle_reservations-Keeps :
      (update : NormalizedPaymentStatusUpdate) (changed : Order)
      → Confirms update
      → Keeps env order (λ (_ : Order). Unit {0}) (settle_reservations env order update changed)
  settle_reservations-Keeps update changed c =
      rw (settle_reservations_idle update changed c) (return env order changed)

  commit_payment-Keeps :
      (update : NormalizedPaymentStatusUpdate)
      → Keeps env order (λ (_ : Order). Unit {0}) (commit_payment env order update)
  unfolding commit_payment
  commit_payment-Keeps u =
      next env order (λ _. Confirms u) _ _ (check_payment-Confirms u)
        (λ _ c.
          next env order (λ _. Unit {0}) (save env (with_payment order u)) _
            (save-Grows (SamePayment order) env (with_payment order u)
              (with_payment-SamePayment u c))
            (λ _ _.
              finish_payment-Keeps env order (λ _. Unit {0}) order u
                (settle_reservations-Keeps u (with_payment order u) c)))

  pub process_payment-Keeps :
      (body : Value) → Keeps env order (λ (_ : Order). Unit {0}) (process_payment env order body)
  unfolding process_payment
  process_payment-Keeps body =
      elim (Result-cases (normalize_payment_status_update env.parse_date env.clock body)) [
        | inl (update, e) ↦ rw (e, process_payment) (commit_payment-Keeps update)
        | inr (x, e) ↦ rw (e, process_payment) (refuse env order (invalid_payment x))
      ]

-- ===== src/Orders/StaysPaid.antt =====
-- What any number of runs of the handlers of src/orders/orders.service.ts leave of a paid order.
use orders_microservice.Orders.Frame.{Grows-refl, Grows-trans, Grows}
use orders_microservice.Orders.ApplyCallback.{process_callback, apply_warehouse_fulfillment_status}
use orders_microservice.Orders.ApplyPayment.{try_payment, process_payment, apply_payment_status}
use orders_microservice.Orders.Found.{
  apply_payment_status_found, fulfillment_found, update_status_found,
}
use orders_microservice.Orders.UpdateStatus.{update_found, snapshots, update_status}
use orders_microservice.Base.{
  inr, arith, inl, true, Bool-cases, Result-cases, ◌++◌, All, ◌∙◌, ◌∷◌, [], some, List, ◌≡◌, ◌≢◌,
  refl,
}
use orders_microservice.World.{rejected, payment_update, record_audit, Env, World, find_order}
use orders_microservice.Orders.Paid.{process_payment-Keeps, IsPaid}
use orders_microservice.Base.Text.Laws.{text_eq_iff}
use orders_microservice.Orders.SamePayment.{
  commit_callback-Keeps, commit_transition-Keeps, SamePayment,
}
use orders_microservice.Base.Text.{text_eq, Text}
use orders_microservice.Fulfillment.{normalize_warehouse_fulfillment_status_update}
use orders_microservice.Status.Validate.{validate_order_status_transition_with_audit}
use orders_microservice.Orders.Steps.{on_error-Does}
use orders_microservice.Json.{Value}
use orders_microservice.Status.Approval.{OrderStatusTransitionContext}
use orders_microservice.Entities.{Order}

-- `id` is the identifier of a paid order, with its payment's reference
abbrev pub HoldsPaid : Text → Text → World → Type 0
HoldsPaid id reference w =
    (order : Order) × (find_order id w.saved ≡ some order) × IsPaid reference order

pub find_order_sound :
    (id : Text) (l : List Order) (order : Order) → find_order id l ≡ some order → order.id ≡ id
unfolding find_order
find_order_sound id [] order e = cc
find_order_sound id (o ∷ os) order e = elim (Bool-cases (text_eq o.id id)) [
  | inl same ↦ ground (arith, same, e, text_eq_iff o.id id)
  | inr other ↦ find_order_sound id os order (ground (arith, other, e))
]

SamePayment-IsPaid :
    (reference : Text) (order version : Order)
    → IsPaid reference order
    → SamePayment order version
    → IsPaid reference version
SamePayment-IsPaid reference order version paid same = record {
  status = same.same_status ∙ paid.status;
  reference_id = same.same_reference ∙ paid.reference_id;
}

-- the version in front
find_order-append :
    (id reference : Text) (order : Order) (l s : List Order)
    → find_order id s ≡ some order
    → IsPaid reference order
    → All (SamePayment order) l
    → (o : Order) × (find_order id (l ++ s) ≡ some o) × IsPaid reference o
unfolding find_order
find_order-append id reference order [] s found paid h = (order, found, paid)
find_order-append id reference order (o ∷ l) s found paid h =
    let same : text_eq o.id id ≡ true =
      (text_eq_iff o.id id).1 (h.0.same_id ∙ find_order_sound id s order found) in
    (o, rw same refl, SamePayment-IsPaid reference order o paid h.0)

pub Grows-HoldsPaid :
    (id reference : Text) (order : Order) (w w' : World)
    → find_order id w.saved ≡ some order
    → IsPaid reference order
    → Grows (SamePayment order) w w'
    → HoldsPaid id reference w'
Grows-HoldsPaid id reference order w w' found paid (l, e, h) =
    rw e (find_order-append id reference order l w.saved found paid h)

module _ (env : Env) (id : Text) where
  -- one run of a handler on the order, with the world that it leaves
  pub data Run : World → World → Type 0 where
    status_request :
        {w : World} (status : Text) (context : OrderStatusTransitionContext)
        → Run w (update_status env id status context w).0
    payment_request : {w : World} (body : Value) → Run w (apply_payment_status env id body w).0
    fulfillment_request :
        {w : World} (body : Value) → Run w (apply_warehouse_fulfillment_status env id body w).0

  -- any number of runs, one after the other
  pub data Runs : World → World → Type 0 where
    done : {w : World} → Runs w w
    then_run : {u v w : World} → Runs u v → Run v w → Runs u w

module _ (env : Env) (id reference : Text) (given : reference ≢ []) where
  update_found-Grows :
      (order : Order) (status : Text) (context : OrderStatusTransitionContext) (w : World)
      → Grows (SamePayment order) w (update_found env id status context order w).0
  unfolding update_found
  update_found-Grows order status context w =
      elim (Result-cases (
        validate_order_status_transition_with_audit order.status status (snapshots order.items)
          context)) [
            | inl (transition, e) ↦
                rw (e, update_found) (((commit_transition-Keeps env order transition).run w).0)
            | inr (x, e) ↦ rw (e, update_found) ([], refl, tt)
          ]

  update_status-HoldsPaid :
      (status : Text) (context : OrderStatusTransitionContext) (w : World)
      → HoldsPaid id reference w
      → HoldsPaid id reference (update_status env id status context w).0
  update_status-HoldsPaid status context w (order, found, paid) =
      rw (update_status_found env id w order found status context) (
        Grows-HoldsPaid id reference order w (update_found env id status context order w).0 found
          paid (update_found-Grows order status context w))

  try_payment-Grows :
      (order : Order) (body : Value) (w : World)
      → IsPaid reference order
      → Grows (SamePayment order) w (try_payment env id body order w).0
  unfolding try_payment
  try_payment-Grows order body w paid =
      ((on_error-Does (Grows (SamePayment order)) (λ _. Unit {0}) (process_payment env order body)
          (record_audit
            (record { operation = payment_update; resource_id = id; outcome = rejected }))
          (Grows-trans (SamePayment order)) (λ v. Grows-refl (SamePayment order) v)
          (process_payment-Keeps env order reference paid given body)).run
        w).0

  apply_payment_status-HoldsPaid :
      (body : Value) (w : World)
      → HoldsPaid id reference w
      → HoldsPaid id reference (apply_payment_status env id body w).0
  apply_payment_status-HoldsPaid body w (order, found, paid) =
      rw (apply_payment_status_found env id w order found body) (
        Grows-HoldsPaid id reference order w (try_payment env id body order w).0 found paid
          (try_payment-Grows order body w paid))

  process_callback-Grows :
      (order : Order) (body : Value) (w : World)
      → Grows (SamePayment order) w (process_callback env body order w).0
  unfolding process_callback
  process_callback-Grows order body w =
      elim (Result-cases (normalize_warehouse_fulfillment_status_update env.parse_text body)) [
        | inl (update, e) ↦
            rw (e, process_callback) (((commit_callback-Keeps env order update).run w).0)
        | inr (x, e) ↦ rw (e, process_callback) ([], refl, tt)
      ]

  apply_warehouse_fulfillment_status-HoldsPaid :
      (body : Value) (w : World)
      → HoldsPaid id reference w
      → HoldsPaid id reference (apply_warehouse_fulfillment_status env id body w).0
  apply_warehouse_fulfillment_status-HoldsPaid body w (order, found, paid) =
      rw (fulfillment_found env id w order found body) (
        Grows-HoldsPaid id reference order w (process_callback env body order w).0 found paid
          (process_callback-Grows order body w))

  -- An order that is paid, with a payment reference that is not empty, is paid with the same
  -- reference after any number of runs of the three handlers on it, whatever the requests ask and
  -- whatever the database and the warehouse answer.
  pub Runs-HoldsPaid :
      {w w' : World} → HoldsPaid id reference w → Runs env id w w' → HoldsPaid id reference w'
  Runs-HoldsPaid paid done = paid
  Runs-HoldsPaid paid (then_run before (status_request status context)) =
      update_status-HoldsPaid status context _ (Runs-HoldsPaid paid before)
  Runs-HoldsPaid paid (then_run before (payment_request body)) =
      apply_payment_status-HoldsPaid body _ (Runs-HoldsPaid paid before)
  Runs-HoldsPaid paid (then_run before (fulfillment_request body)) =
      apply_warehouse_fulfillment_status-HoldsPaid body _ (Runs-HoldsPaid paid before)

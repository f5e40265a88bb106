-- ===== src/Orders/Forward.antt =====
-- The lifecycle stages before and after a handler of src/orders/orders.service.ts.
use orders_microservice.Orders.ApplyPayment.{
  finish_payment, apply_payment_status, try_payment, is_text, is_paid, should_confirm,
  settle_reservations, with_payment, check_payment, commit_payment, process_payment,
}
use orders_microservice.Base.{
  ◌∙◌, sym, ap, if◌then◌else◌, none, not, ◌&&◌, some, arith, Result-cases, inr, inl, ◌<◌,
  Bool-cases, ◌⊎◌, ◌≡◌, refl, ok,
}
use orders_microservice.Orders.Found.{
  apply_payment_status_found, fulfillment_found, update_status_found,
}
use orders_microservice.Orders.UpdateStatus.{
  snapshots, update_status, update_found, announced_status, cancel_reservations, with_transition,
  is_key_replay, apply_transition, commit_transition,
}
use orders_microservice.Orders.ApplyCallback.{
  apply_warehouse_fulfillment_status, process_callback, with_callback, commit_callback,
}
use orders_microservice.Status.Validate.{
  validate_order_status_transition_with_audit, OrderStatusTransitionResult,
}
use orders_microservice.Fulfillment.{
  normalize_warehouse_fulfillment_status_update, WarehouseFulfillmentStatusUpdate,
}
use orders_microservice.Status.Approval.{OrderStatusTransitionContext}
use orders_microservice.World.{
  find_order, record_audit, payment_update, publish, status_update, fulfillment_update, audit, save,
  fail, Env, ServiceError, on_error, status_key_replay, status_replay, success, invalid_payment, M,
  pure, World, ◌>>=◌, ◌>>◌, invalid_status, invalid_fulfillment, rejected, failure,
}
use orders_microservice.Base.Text.{Text, lit, text_eq}
use orders_microservice.Events.{build_order_paid_event, build_order_lifecycle_changed_payload}
use orders_microservice.Orders.Publish.{publish_order_updated, publish_lifecycle_changed_if_needed}
use orders_microservice.Status.{OrderStatus, status_eq, status_text}
use orders_microservice.Payment.{normalize_payment_status_update, NormalizedPaymentStatusUpdate}
use orders_microservice.Json.{Value}
use orders_microservice.Orders.Steps.{fail-Does, on_error-Does, Does, bind-Does, pure-Does}
use orders_microservice.Lifecycle.{coarse_projection, validate_order_lifecycle_transition, stage_eq}
use orders_microservice.Lifecycle.Transitions.{
  validate_order_lifecycle_transition_forward, stage_eq_iff, stage_rank,
}
use orders_microservice.Lifecycle.Derive.{lifecycle_stage}
use orders_microservice.Entities.{Order}

-- the stage is the same, or a later one that the coarse table allows
abbrev pub IsForward : Order → Order → Type 0
IsForward order updated =
    (lifecycle_stage order ≡ lifecycle_stage updated)
    ⊎ (stage_rank (lifecycle_stage order) < stage_rank (lifecycle_stage updated))

abbrev Anywhere : World → World → Type 0
Anywhere w w' = Unit {0}

module _ (order : Order) where
  abbrev Reports : {A : Type 0} → (A → Type 0) → M A → Type 0
  Reports = Does Anywhere

  after :
      {A B : Type 0} (P : A → Type 0) (Q : B → Type 0) (m : M A) (f : A → M B)
      → Reports P m
      → ((a : A) → P a → Reports Q (f a))
      → Reports Q (m >>= f)
  after P Q m f = bind-Does Anywhere P Q m f (λ _ _ _ _ _. tt)

  any_run : {A : Type 0} (m : M A) → Reports (λ (_ : A). Unit {0}) m
  any_run m = record { run = λ w. (tt, λ _ _. tt) }

  arrive : (updated : Order) → IsForward order updated → Reports (IsForward order) (pure updated)
  arrive updated h = pure-Does Anywhere (IsForward order) updated (λ _. tt) h

  publish-IsForward :
      (updated : Order)
      → Reports
          (λ _. IsForward order updated)
          (publish_lifecycle_changed_if_needed updated (some (lifecycle_stage order)))
  unfolding publish_lifecycle_changed_if_needed build_order_lifecycle_changed_payload
  publish-IsForward updated = record { run = λ w. (tt, λ _ e. run w e) }
    where
      run :
          (w : World)
          → (publish_lifecycle_changed_if_needed updated (some (lifecycle_stage order)) w).1 ≡ ok tt
          → IsForward order updated
      run w e = elim (Bool-cases (stage_eq (lifecycle_stage order) (lifecycle_stage updated))) [
        | inl same ↦ inl ((stage_eq_iff _ _).0 same)
        | inr other ↦
            elim (Result-cases (
              validate_order_lifecycle_transition (some (lifecycle_stage order))
                (lifecycle_stage updated) coarse_projection)) [
                  | inl (r, accepted) ↦
                      (validate_order_lifecycle_transition_forward coarse_projection _ _ accepted).1
                  | inr (x, refused) ↦ absurd (ground (arith, other, refused, e))
                ]
      ]

  stay : (m : M (Unit {0})) → Reports (IsForward order) (do m; pure order)
  stay m =
      after (λ _. Unit {0}) (IsForward order) m (λ _. pure order) (any_run m)
        (λ _ _. arrive order (inl refl))

  abbrev Quiet : {A : Type 0} → A → Type 0
  Quiet _ = Unit {0}

  -- a step whose result is not looked at
  step :
      {A B : Type 0} (Q : B → Type 0) (m : M A) (f : A → M B)
      → ((a : A) → Reports Q (f a))
      → Reports Q (m >>= f)
  step Q m f h = after Quiet Q m f (any_run m) (λ a _. h a)

  publish_then :
      (updated : Order) (rest : M Order)
      → (IsForward order updated → Reports (IsForward order) rest)
      → Reports
          (IsForward order)
          (do publish_lifecycle_changed_if_needed updated (some (lifecycle_stage order)); rest)
  publish_then updated rest h =
      after (λ _. IsForward order updated) (IsForward order) _ (λ _. rest)
        (publish-IsForward updated) (λ _ p. h p)

  caught :
      (m : M Order) (handler : World → World)
      → Reports (IsForward order) m
      → Reports (IsForward order) (on_error m handler)
  caught m handler h =
      on_error-Does Anywhere (IsForward order) m handler (λ _ _ _ _ _. tt) (λ _. tt) h

  refused : (e : ServiceError) → Reports (IsForward order) (fail e)
  refused e = fail-Does Anywhere (IsForward order) e (λ _. tt)

  module _ (env : Env) where
    apply_transition-IsForward :
        (t : OrderStatusTransitionResult) → Reports (IsForward order) (apply_transition env order t)
    unfolding apply_transition
    apply_transition-IsForward t =
        let changed = with_transition order t in
        step (IsForward order) (save env changed) _ (λ _.
          step (IsForward order)
            (if status_eq t.status OrderStatus.cancelled
              then cancel_reservations env changed
              else pure changed)
            _
            (λ updated. publish_then updated _ (λ h.
              step (IsForward order)
                (publish_order_updated order.id t.status (announced_status order t)
                  t.approval_audit)
                _
                (λ _.
                  step (IsForward order) (audit status_update order.id success) _
                    (λ _. arrive updated h)))))

    commit_transition-IsForward :
        (t : OrderStatusTransitionResult)
        → Reports (IsForward order) (commit_transition env order t)
    unfolding commit_transition
    commit_transition-IsForward t = elim (Bool-cases (is_key_replay order t)) [
      | inl again ↦ rw again (stay (audit status_key_replay order.id success))
      | inr fresh ↦ elim (Bool-cases (text_eq (status_text t.status) order.status)) [
        | inl same ↦ rw fresh (rw same (stay (audit status_replay order.id success)))
        | inr other ↦ rw fresh (
            rw other (
              caught (apply_transition env order t)
                (record_audit
                  (record { operation = status_update; resource_id = order.id; outcome = failure }))
                (apply_transition-IsForward t)))
      ]
    ]

    finish_payment-IsForward :
        (u : NormalizedPaymentStatusUpdate) → Reports (IsForward order) (finish_payment env order u)
    unfolding finish_payment
    finish_payment-IsForward u =
        step (IsForward order) (settle_reservations env order u (with_payment order u)) _
          (λ updated. publish_then updated _ (λ h.
            step (IsForward order)
              (if should_confirm order u
                then publish_order_updated order.id OrderStatus.confirmed (some order.status) none
                else pure tt)
              _
              (λ _.
                step (IsForward order)
                  (if is_paid u.payment_status && not (is_text order.payment_status (lit "paid"))
                    then publish (build_order_paid_event order.id (some u.payment_reference_id))
                    else pure tt)
                  _
                  (λ _.
                    step (IsForward order) (audit payment_update order.id success) _
                      (λ _. arrive updated h)))))

    commit_payment-IsForward :
        (u : NormalizedPaymentStatusUpdate) → Reports (IsForward order) (commit_payment env order u)
    unfolding commit_payment
    commit_payment-IsForward u = step (IsForward order) (check_payment order u) _ (λ _.
        step (IsForward order) (save env (with_payment order u)) _
          (λ _. finish_payment-IsForward u))

    process_payment-IsForward :
        (body : Value) → Reports (IsForward order) (process_payment env order body)
    unfolding process_payment
    process_payment-IsForward body =
        elim (Result-cases (normalize_payment_status_update env.parse_date env.clock body)) [
          | inl (update, e) ↦ rw (e, process_payment) (commit_payment-IsForward update)
          | inr (x, e) ↦ rw (e, process_payment) (refused (invalid_payment x))
        ]

    commit_callback-IsForward :
        (u : WarehouseFulfillmentStatusUpdate)
        → Reports (IsForward order) (commit_callback env order u)
    unfolding commit_callback
    commit_callback-IsForward u =
        step (IsForward order) (save env (with_callback env order u)) _ (λ _.
          publish_then (with_callback env order u) _ (λ h.
            step (IsForward order) (audit fulfillment_update order.id success) _
              (λ _. arrive (with_callback env order u) h)))

    update_found-IsForward :
        (id status : Text) (context : OrderStatusTransitionContext)
        → Reports (IsForward order) (update_found env id status context order)
    unfolding update_found
    update_found-IsForward id status context =
        elim (Result-cases (
          validate_order_status_transition_with_audit order.status status (snapshots order.items)
            context)) [
              | inl (t, e) ↦ rw (e, update_found) (commit_transition-IsForward t)
              | inr (x, e) ↦
                  rw (e, update_found)
                    (step (IsForward order) (audit status_update id rejected) _
                      (λ _. refused (invalid_status x)))
            ]

    try_payment-IsForward :
        (id : Text) (body : Value) → Reports (IsForward order) (try_payment env id body order)
    unfolding try_payment
    try_payment-IsForward id body =
        caught (process_payment env order body)
          (record_audit
            (record { operation = payment_update; resource_id = id; outcome = rejected }))
          (process_payment-IsForward body)

    process_callback-IsForward :
        (body : Value) → Reports (IsForward order) (process_callback env body order)
    unfolding process_callback
    process_callback-IsForward body =
        elim (Result-cases (normalize_warehouse_fulfillment_status_update env.parse_text body)) [
          | inl (update, e) ↦ rw (e, process_callback) (commit_callback-IsForward update)
          | inr (x, e) ↦ rw (e, process_callback) (refused (invalid_fulfillment x))
        ]

module _ (env : Env) (id : Text) (order updated : Order) (w : World)
    (found : find_order id w.saved ≡ some order) where
  -- When a status request on an order returns an order, that order's lifecycle stage is the stage
  -- before, or one of a higher rank.
  pub update_status-IsForward :
      (status : Text) (context : OrderStatusTransitionContext)
      → (update_status env id status context w).1 ≡ ok updated
      → IsForward order updated
  update_status-IsForward status context returned =
      ((update_found-IsForward order env id status context).run w).1 updated
        (ap (λ p. p.1) (sym (update_status_found env id w order found status context)) ∙ returned)

  -- When a payment update of an order returns an order, that order's lifecycle stage is the stage
  -- before, or one of a higher rank.
  pub apply_payment_status-IsForward :
      (body : Value) → (apply_payment_status env id body w).1 ≡ ok updated → IsForward order updated
  apply_payment_status-IsForward body returned =
      ((try_payment-IsForward order env id body).run w).1 updated
        (ap (λ p. p.1) (sym (apply_payment_status_found env id w order found body)) ∙ returned)

  -- When a callback of the warehouse on an order returns an order, that order's lifecycle stage is
  -- the stage before, or one of a higher rank.
  pub apply_warehouse_fulfillment_status-IsForward :
      (body : Value)
      → (apply_warehouse_fulfillment_status env id body w).1 ≡ ok updated
      → IsForward order updated
  apply_warehouse_fulfillment_status-IsForward body returned =
      ((process_callback-IsForward order env body).run w).1 updated
        (ap (λ p. p.1) (sym (fulfillment_found env id w order found body)) ∙ returned)

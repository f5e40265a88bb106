-- ===== src/Status/Diagram.antt =====
-- The transition diagram of an order, beside the validator of src/orders/status-transitions.ts.
use orders_microservice.Base.{
  ◌≡◌, refl, ◌↔◌, ◌<◌, ◌⊎◌, ℕ, List, Option, some, none, ok, arith, All, Result-cases, Option-cases,
  inl, inr,
}
use orders_microservice.Base.Text.{Text}
use orders_microservice.Status.{
  OrderStatus, confirmed, processing, cancelled, normalize_order_status,
}
use orders_microservice.Status.Approval.{
  OrderStatusTransitionContext, OrderStatusApprovalAudit, validate_cancellation_approval,
}
use orders_microservice.Status.Validate.{
  OrderItemFulfillmentSnapshot, OrderStatusTransitionResult, cancel_order, decide_transition,
  validate_order_status_transition_with_audit,
}
use orders_microservice.Status.Items.{
  IsShipped, IsDelivered, validate_items_at_least_shipped_iff, validate_items_delivered_iff,
}

pub data IsCancellable : OrderStatus → Type 0 where
  from_pending : IsCancellable OrderStatus.pending
  from_confirmed : IsCancellable confirmed
  from_processing : IsCancellable processing

module _ (items : List OrderItemFulfillmentSnapshot) (context : OrderStatusTransitionContext) where
  -- The moves that an order may make, with what each asks for and the audit that it leaves.
  pub data Accepted (c r : OrderStatus) (audit : Option OrderStatusApprovalAudit) : Type 0 where
    keep : c ≡ r → audit ≡ none → Accepted c r audit
    confirm : c ≡ OrderStatus.pending → r ≡ confirmed → audit ≡ none → Accepted c r audit
    process : c ≡ confirmed → r ≡ processing → audit ≡ none → Accepted c r audit
    ship :
        c ≡ processing
        → r ≡ OrderStatus.shipped
        → All IsShipped items
        → audit ≡ none
        → Accepted c r audit
    deliver :
        c ≡ OrderStatus.shipped
        → r ≡ OrderStatus.delivered
        → All IsDelivered items
        → audit ≡ none
        → Accepted c r audit
    cancel :
        (a : OrderStatusApprovalAudit)
        → IsCancellable c
        → r ≡ cancelled
        → validate_cancellation_approval c cancelled context ≡ ok a
        → audit ≡ some a
        → Accepted c r audit

  cancel_sound :
      (c : OrderStatus) (res : OrderStatusTransitionResult)
      → IsCancellable c
      → cancel_order c cancelled context ≡ ok res
      → (res.status ≡ cancelled) × Accepted c cancelled res.approval_audit
  unfolding cancel_order
  cancel_sound c res src h =
      elim (Result-cases (validate_cancellation_approval c cancelled context)) [
        | inl (a, e) ↦ (ground arith, cancel a src refl e (ground arith))
        | inr (x, e) ↦ ground arith
      ]

  decide_sound :
      (c r : OrderStatus) (res : OrderStatusTransitionResult)
      → decide_transition c r items context ≡ ok res
      → (res.status ≡ r) × Accepted c r res.approval_audit
  unfolding decide_transition
  decide_sound OrderStatus.pending OrderStatus.pending res h =
      (ground arith, keep refl (ground arith))
  decide_sound OrderStatus.pending confirmed res h =
      (ground arith, confirm refl refl (ground arith))
  decide_sound OrderStatus.pending cancelled res h =
      cancel_sound OrderStatus.pending res from_pending h
  decide_sound confirmed confirmed res h = (ground arith, keep refl (ground arith))
  decide_sound confirmed processing res h = (ground arith, process refl refl (ground arith))
  decide_sound confirmed cancelled res h = cancel_sound confirmed res from_confirmed h
  decide_sound processing processing res h = (ground arith, keep refl (ground arith))
  decide_sound processing OrderStatus.shipped res h = (
    ground arith,
    ship refl refl ((validate_items_at_least_shipped_iff items).0 (ground arith)) (ground arith),
  )
  decide_sound processing cancelled res h = cancel_sound processing res from_processing h
  decide_sound OrderStatus.shipped OrderStatus.shipped res h =
      (ground arith, keep refl (ground arith))
  decide_sound OrderStatus.shipped OrderStatus.delivered res h = (
    ground arith,
    deliver refl refl ((validate_items_delivered_iff items).0 (ground arith)) (ground arith),
  )
  decide_sound OrderStatus.delivered OrderStatus.delivered res h =
      (ground arith, keep refl (ground arith))
  decide_sound cancelled cancelled res h = (ground arith, keep refl (ground arith))
  decide_sound c r res h = cc

  cancel_complete :
      (c : OrderStatus) (a : OrderStatusApprovalAudit)
      → IsCancellable c
      → validate_cancellation_approval c cancelled context ≡ ok a
      → decide_transition c cancelled items context
        ≡ ok (record { status = cancelled; approval_audit = some a })
  unfolding decide_transition
  cancel_complete _ a from_pending e = rw (e, cancel_order)
  cancel_complete _ a from_confirmed e = rw (e, cancel_order)
  cancel_complete _ a from_processing e = rw (e, cancel_order)

  decide_complete :
      (c r : OrderStatus) (audit : Option OrderStatusApprovalAudit)
      → Accepted c r audit
      → decide_transition c r items context ≡ ok (record { status = r; approval_audit = audit })
  unfolding decide_transition
  decide_complete c r audit (keep same bare) = ground arith
  decide_complete c r audit (confirm from to bare) = ground arith
  decide_complete c r audit (process from to bare) = ground arith
  decide_complete c r audit (ship from to shipped bare) =
      rw (from, to, bare, (validate_items_at_least_shipped_iff items).1 shipped)
  decide_complete c r audit (deliver from to delivered bare) =
      rw (from, to, bare, (validate_items_delivered_iff items).1 delivered)
  decide_complete c r audit (cancel a src to e kept) = rw (to, kept) (cancel_complete c a src e)

  -- A request is accepted exactly when both texts name statuses and the move between them is one
  -- of: staying, pending to confirmed, confirmed to processing, processing to shipped with every
  -- item shipped or delivered, shipped to delivered with every item delivered, and cancelling a
  -- pending, confirmed or processing order with an approval that passes. The result names the
  -- requested status, and carries an audit for a cancellation alone.
  pub validate_order_status_transition_iff :
      (current requested : Text) (res : OrderStatusTransitionResult)
      → (validate_order_status_transition_with_audit current requested items context ≡ ok res) ↔ (
          (c : OrderStatus) × (normalize_order_status current ≡ some c)
          × (normalize_order_status requested ≡ some res.status)
          × Accepted c res.status res.approval_audit)
  unfolding validate_order_status_transition_with_audit
  validate_order_status_transition_iff current requested res = (to, from)
    where
      to :
          validate_order_status_transition_with_audit current requested items context ≡ ok res
          → (c : OrderStatus) × (normalize_order_status current ≡ some c)
            × (normalize_order_status requested ≡ some res.status)
            × Accepted c res.status res.approval_audit
      to h = elim (Option-cases (normalize_order_status requested)) [
        | inl e ↦ ground arith
        | inr (r, er) ↦ elim (Option-cases (normalize_order_status current)) [
          | inl e ↦ ground arith
          | inr (c, ec) ↦
              let (same, acc) = decide_sound c r res (ground arith) in
              (c, ec, rw same er, rw same acc)
        ]
      ]

      from :
          ((c : OrderStatus) × (normalize_order_status current ≡ some c)
            × (normalize_order_status requested ≡ some res.status)
            × Accepted c res.status res.approval_audit)
          → validate_order_status_transition_with_audit current requested items context ≡ ok res
      from (c, ec, er, acc) =
          rw (er, validate_order_status_transition_with_audit)
            (rw ec (decide_complete c res.status res.approval_audit acc))

-- How far an order has come.
abbrev pub order_rank : OrderStatus → ℕ
order_rank OrderStatus.pending = 0
order_rank confirmed = 1
order_rank processing = 2
order_rank OrderStatus.shipped = 3
order_rank OrderStatus.delivered = 4
order_rank cancelled = 5

pub Accepted-forward :
    {items : List OrderItemFulfillmentSnapshot} {context : OrderStatusTransitionContext}
    {c r : OrderStatus} {audit : Option OrderStatusApprovalAudit}
    → Accepted items context c r audit
    → (c ≡ r) ⊎ ((order_rank c < order_rank r) × (order_rank c < 4))
Accepted-forward (keep same bare) = inl same
Accepted-forward (confirm from to bare) = inr (ground arith)
Accepted-forward (process from to bare) = inr (ground arith)
Accepted-forward (ship from to shipped bare) = inr (ground arith)
Accepted-forward (deliver from to delivered bare) = inr (ground arith)
Accepted-forward (cancel a from_pending to e kept) = inr (ground arith)
Accepted-forward (cancel a from_confirmed to e kept) = inr (ground arith)
Accepted-forward (cancel a from_processing to e kept) = inr (ground arith)

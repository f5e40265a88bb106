-- ===== src/Orders/Frame.antt =====
-- What the parts of the handlers of src/orders/orders.service.ts leave alone.
use orders_microservice.Base.{
  ok, sym, ap, inr, Option, inl, ◌∙◌, ◌∷◌, All, Bool-cases, ◌++◌, arith, ◌≡◌, refl, List, [],
}
use mathlib.Core.List.{append_assoc}
use orders_microservice.Status.Approval.{OrderStatusApprovalAudit}
use orders_microservice.Lifecycle.{OrderLifecycleStage}
use orders_microservice.Status.{OrderStatus}
use orders_microservice.World.{Outcome, Operation, ◌>>◌, publish, audit, pure, save, World, Env}
use orders_microservice.Base.Text.{Text}
use orders_microservice.Events.{DomainEvent}
use orders_microservice.Orders.Publish.{publish_lifecycle_changed_if_needed, publish_order_updated}
use orders_microservice.Orders.Steps.{Does, bind-Does, pure-Does}
use orders_microservice.Warehouse.Action.{
  apply_reservation_action_lem, stopped_at, applied_all, untouched,
}
use orders_microservice.Entities.{Order}
use orders_microservice.Warehouse.{apply_reservation_action}
use orders_microservice.Handoff.{create_after_payment_fulfillment}
use orders_microservice.Requests.{Call, WarehouseReservationAction}

-- only requests to the warehouse were added
pub record OnlyCalls (w w' : World) : Type 0 where
  pub same_saved : w'.saved ≡ w.saved
  pub same_events : w'.events ≡ w.events
  pub same_audits : w'.audits ≡ w.audits

OnlyCalls-after :
    {w w' : World} (history : List Call) → w' ≡ record w { calls = history } → OnlyCalls w w'
OnlyCalls-after history e =
    rw e (record { same_saved = refl; same_events = refl; same_audits = refl })

pub apply_reservation_action-OnlyCalls :
    (env : Env) (action : WarehouseReservationAction) (order : Order) (w : World)
    → OnlyCalls w (apply_reservation_action env action order w).0
apply_reservation_action-OnlyCalls env action order w =
    elim (apply_reservation_action_lem env action order w) [
      | untouched status reason skip es e ↦ OnlyCalls-after w.calls e
      | applied_all st counts go answers e ↦ OnlyCalls-after _ e
      | stopped_at front item back split st go answers counts e ↦ OnlyCalls-after _ e
    ]

pub create_after_payment_fulfillment-OnlyCalls :
    (env : Env) (order : Order) (w : World)
    → OnlyCalls w (create_after_payment_fulfillment env order w).0
unfolding create_after_payment_fulfillment
create_after_payment_fulfillment-OnlyCalls env order w = ground arith

-- The repository grew by versions of one kind.
abbrev pub Grows : (Order → Type 0) → World → World → Type 0
Grows P w w' = (l : List Order) × (w'.saved ≡ l ++ w.saved) × All P l

All-append : (P : Order → Type 0) (xs ys : List Order) → All P xs → All P ys → All P (xs ++ ys)
All-append P [] old none_new h = h
All-append P (x ∷ new) old (p, rest) h = (p, All-append P new old rest h)

module _ (P : Order → Type 0) where
  pub Grows-refl : (w : World) → Grows P w w
  Grows-refl w = ([], refl, tt)

  pub Grows-trans : (u v w : World) → Grows P u v → Grows P v w → Grows P u w
  Grows-trans u v w (l, e, a) (k, f, b) =
      (k ++ l, f ∙ ap (λ s. k ++ s) e ∙ sym (append_assoc k l u.saved), All-append P k l b a)

  pub Grows-same : (w w' : World) → w'.saved ≡ w.saved → Grows P w w'
  Grows-same w w' e = ([], e, tt)

  pub save-Grows :
      (env : Env) (order : Order) → P order → Does (Grows P) (λ _. Unit {0}) (save env order)
  unfolding save
  save-Grows env order p = record { run = run }
    where
      run :
          (w : World)
          → Grows P w (save env order w).0
            × ((a : Unit {0}) → (save env order w).1 ≡ ok a → Unit {0})
      run w = elim (Bool-cases (env.save_ok w order)) [
        | inl written ↦ rw (written, save) ((order ∷ [], refl, (p, tt)), λ _ _. tt)
        | inr lost ↦ rw (lost, save) (Grows-refl w, λ _ _. tt)
      ]

  -- a save and its argument
  pub save_return-Grows :
      (env : Env) (order : Order) (Q : Order → Type 0)
      → P order
      → Q order
      → Does (Grows P) Q (do save env order; pure order)
  save_return-Grows env order Q p q =
      bind-Does (Grows P) (λ _. Unit {0}) Q (save env order) (λ _. pure order) Grows-trans
        (save-Grows env order p) (λ _ _. pure-Does (Grows P) Q order Grows-refl q)

  pub publish-Grows : (event : DomainEvent) → Does (Grows P) (λ _. Unit {0}) (publish event)
  publish-Grows event = record { run = λ w. (Grows-refl w, λ _ _. tt) }

  pub audit-Grows :
      (operation : Operation) (id : Text) (outcome : Outcome)
      → Does (Grows P) (λ _. Unit {0}) (audit operation id outcome)
  audit-Grows operation id outcome = record { run = λ w. (Grows-refl w, λ _ _. tt) }

  pub publish_lifecycle-Grows :
      (order : Order) (previous : Option OrderLifecycleStage)
      → Does (Grows P) (λ _. Unit {0}) (publish_lifecycle_changed_if_needed order previous)
  unfolding publish_lifecycle_changed_if_needed
  publish_lifecycle-Grows order previous = record { run = λ w. (([], ground arith, tt), λ _ _. tt) }

  pub publish_order_updated-Grows :
      (id : Text) (status : OrderStatus) (previous : Option Text)
      (approval : Option OrderStatusApprovalAudit)
      → Does (Grows P) (λ _. Unit {0}) (publish_order_updated id status previous approval)
  unfolding publish_order_updated
  publish_order_updated-Grows id status previous approval = record {
    run = λ w. (([], ground arith, tt), λ _ _. tt);
  }

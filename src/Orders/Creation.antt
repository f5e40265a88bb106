-- ===== src/Orders/Creation.antt =====
-- How `create` of src/orders/orders.service.ts ends.
use orders_microservice.Base.{
  ok_injective, inl, inr, none, Bool-cases, Option, sym, refl, ap, Result, false, ◌∙◌, arith, ◌||◌,
  not, ◌≡◌, List, some, ok, throw, ◌∷◌, true,
}
use orders_microservice.Orders.Create.{
  create_items, finish_rows, reserve, is_reserved, assert_required_warehouse_reservation,
  requires_warehouse_reservation, new_order, create_rows, item_rows,
}
use mathlib.Core.Path.{subst}
use orders_microservice.World.{
  pure, ◌>>=◌, ◌>>◌, ServiceError, M, reservation_required, database_error, save, Env, World,
}
use orders_microservice.Warehouse.Reserve.{
  rolled_back, reserved_all, untouched, reserve_order_items_lem,
}
use orders_microservice.Entities.{WarehouseHandoffStatus, WarehouseHandoffSummary, Order}
use orders_microservice.Warehouse.{reserve_order_items}
use orders_microservice.Requests.{Call}
use orders_microservice.Create.Request.{NormalizedCreateOrder}

reserve_history :
    (env : Env) (order : Order) (w : World)
    → (history : List Call) × ((reserve_order_items env order w).0 ≡ record w { calls = history })
reserve_history env order w = elim (reserve_order_items_lem env order w) [
  | untouched status reason skip es e ↦ (w.calls, e)
  | reserved_all st counts go answers e ↦ (_, e)
  | rolled_back front item back split st go answers counts back_counts e ↦ (_, e)
]

is_reserved_iff :
    (env : Env) (status : Option WarehouseHandoffStatus)
    → is_reserved env status ≡ true
    → status ≡ some WarehouseHandoffStatus.reserved
is_reserved_iff env none h = cc
is_reserved_iff env (some s) h = ground arith

pub bind_ok :
    {A B : Type 0} (m : M A) (f : A → M B) (w w' : World) (a : A)
    → m w ≡ (w', ok a)
    → (m >>= f) w ≡ f a w'
bind_ok {A} {B} m f w w' a e =
    ap
      (λ (p : World × Result ServiceError A).
        let out : World × Result ServiceError B = elim p.1 [
          | ok b ↦ f b p.0
          | throw x ↦ (p.0, throw x)
        ] in
        out)
      e

pub bind_throw :
    {A B : Type 0} (m : M A) (f : A → M B) (w w' : World) (e : ServiceError)
    → m w ≡ (w', throw e)
    → (m >>= f) w ≡ (w', throw e)
bind_throw {A} {B} m f w w' x e =
    ap
      (λ (p : World × Result ServiceError A).
        let out : World × Result ServiceError B = elim p.1 [
          | ok b ↦ f b p.0
          | throw x ↦ (p.0, throw x)
        ] in
        out)
      e

save-true :
    (env : Env) (order : Order) (w : World)
    → env.save_ok w order ≡ true
    → save env order w ≡ (record w { saved = order ∷ w.saved }, ok tt)
unfolding save
save-true env order w e = rw (e, save) refl

save-false :
    (env : Env) (order : Order) (w : World)
    → env.save_ok w order ≡ false
    → save env order w ≡ (w, throw database_error)
unfolding save
save-false env order w e = rw (e, save) refl

module _ (env : Env) (n : NormalizedCreateOrder) (w : World) where
  abbrev pub first_saved : Order
  first_saved = new_order env w n.order

  abbrev pub with_items : Order
  with_items = record first_saved { items = item_rows env w 0 n.items }

  abbrev pub with_handoff : WarehouseHandoffSummary → Order
  with_handoff h = record with_items { warehouse_handoff = some h }

  -- the order is saved three times, the last time with what the warehouse has reserved
  pub record IsSaved (order : Order) (w' : World) : Type 0 where
    pub handoff : WarehouseHandoffSummary
    pub same_order : order ≡ with_handoff handoff
    pub reserved_if_required :
        requires_warehouse_reservation env n.order.channel ≡ true
        → handoff.status ≡ some WarehouseHandoffStatus.reserved
    pub stored : w'.saved ≡ order ∷ with_items ∷ first_saved ∷ w.saved

  abbrev pub once_saved : World
  once_saved = record w { saved = first_saved ∷ w.saved }

  abbrev pub twice_saved : World
  twice_saved = record w { saved = with_items ∷ first_saved ∷ w.saved }

  abbrev pub handoff : WarehouseHandoffSummary
  handoff = (reserve_order_items env with_items twice_saved).1

  create_items_saved :
      (history : List Call)
      → (reserve_order_items env with_items twice_saved).0 ≡ record twice_saved { calls = history }
      → env.save_ok once_saved with_items ≡ true
      → create_items env with_items once_saved
        ≡ finish_rows env with_items handoff (record twice_saved { calls = history })
  unfolding create_items
  create_items_saved history sent second =
      bind_ok (save env with_items) (λ _. reserve env with_items >>= finish_rows env with_items)
        once_saved twice_saved tt (save-true env with_items once_saved second)
      ∙ bind_ok (reserve env with_items) (finish_rows env with_items) twice_saved
          (record twice_saved { calls = history }) handoff
          (ap (λ (v : World). (v, ok handoff)) sent)

  -- how the transaction's body ends
  pub record Rows (w' : World) (r : Result ServiceError Order) : Type 0 where
    pub same_events : w'.events ≡ w.events
    pub same_audits : w'.audits ≡ w.audits
    pub made : (order : Order) → r ≡ ok order → IsSaved order w'

  abbrev pub AreRows : World × Result ServiceError Order → Type 0
  AreRows out = Rows out.0 out.1

  thrown_rows :
      (v : World) (e : ServiceError)
      → v.events ≡ w.events
      → v.audits ≡ w.audits
      → AreRows (v, throw e)
  thrown_rows v e events audits = record {
    same_events = events;
    same_audits = audits;
    made = λ order h. cc;
  }

  saved_rows :
      (history : List Call)
      → not (requires_warehouse_reservation env n.order.channel) || is_reserved env handoff.status
        ≡ true
      → AreRows (
        record twice_saved { calls = history; saved = with_handoff handoff ∷ twice_saved.saved },
        ok (with_handoff handoff),
      )
  saved_rows history reserved = record {
    same_events = refl;
    same_audits = refl;
    made = λ order h. record {
      handoff = handoff;
      same_order = sym (ok_injective h);
      reserved_if_required = λ required. is_reserved_iff env handoff.status (ground arith);
      stored = rw (sym (ok_injective h)) refl;
    };
  }

  finish_rows_lem :
      (history : List Call)
      → AreRows (finish_rows env with_items handoff (record twice_saved { calls = history }))
  unfolding finish_rows assert_required_warehouse_reservation
  finish_rows_lem history =
      let v = record twice_saved { calls = history } in
      let check = assert_required_warehouse_reservation env with_items handoff in
      let order = with_handoff handoff in
      let rest = λ (u : Unit {0}). save env order >> pure order in
      elim (Bool-cases (
        not (requires_warehouse_reservation env n.order.channel)
        || is_reserved env handoff.status)) [
          | inr short ↦
              let e = reservation_required handoff.status in
              subst AreRows (sym (bind_throw check rest v v e (rw short refl)))
                (thrown_rows v e refl refl)
          | inl enough ↦
              let passed = bind_ok check rest v v tt (rw enough refl) in
              elim (Bool-cases (env.save_ok v order)) [
                | inl kept ↦
                    let v' = record v { saved = order ∷ v.saved } in
                    subst AreRows
                      (sym (
                        passed
                        ∙ bind_ok (save env order) (λ _. pure order) v v' tt
                            (save-true env order v kept)))
                      (saved_rows history enough)
                | inr lost ↦
                    subst AreRows
                      (sym (
                        passed
                        ∙ bind_throw (save env order) (λ _. pure order) v v database_error
                            (save-false env order v lost)))
                      (thrown_rows v database_error refl refl)
              ]
        ]

  create_items_lem : AreRows (create_items env with_items once_saved)
  unfolding create_items
  create_items_lem = elim (Bool-cases (env.save_ok once_saved with_items)) [
    | inr lost ↦
        subst AreRows
          (sym (
            bind_throw (save env with_items)
              (λ _. reserve env with_items >>= finish_rows env with_items) once_saved once_saved
              database_error (save-false env with_items once_saved lost)))
          (thrown_rows once_saved database_error refl refl)
    | inl second ↦
        let (history, sent) = reserve_history env with_items twice_saved in
        subst AreRows (sym (create_items_saved history sent second)) (finish_rows_lem history)
  ]

  pub create_rows_lem : AreRows (create_rows env n w)
  unfolding create_rows
  create_rows_lem = elim (Bool-cases (env.save_ok w first_saved)) [
    | inr lost ↦
        subst AreRows
          (sym (
            bind_throw (save env first_saved) (λ _. create_items env with_items) w w database_error
              (save-false env first_saved w lost)))
          (thrown_rows w database_error refl refl)
    | inl first ↦
        subst AreRows
          (sym (
            bind_ok (save env first_saved) (λ _. create_items env with_items) w once_saved tt
              (save-true env first_saved w first)))
          create_items_lem
  ]

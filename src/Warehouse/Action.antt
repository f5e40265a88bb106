-- ===== src/Warehouse/Action.antt =====
-- `applyReservationAction` of src/warehouse/warehouse-reservation.client.ts: its outcomes.
use orders_microservice.Warehouse.Reserve.{FirstRefused, AllAccepted, length-front-le, after}
use orders_microservice.Warehouse.{
  action_status, skipped_summary, action_payload, skip_check, action_reason, apply_items,
  apply_reservation_action, finish_action,
}
use orders_microservice.Base.{
  none, false, inr, some, ◌++◌, Bool-cases, [], inl, map, true, ◌∷◌, Bool, Option-cases, List, ℕ,
  ◌+◌, ◌≡◌, refl, ap, length, arith,
}
use orders_microservice.Entities.{
  SkipReason, WarehouseHandoffStatus, WarehouseHandoffSummary, OrderItem, Order,
}
use orders_microservice.Requests.{action_call, Call, WarehouseReservationAction}
use orders_microservice.World.{World, Env}

module _ (env : Env) (action : WarehouseReservationAction) (order : Order) where
  abbrev pub action_request : OrderItem → Call
  action_request item = action_call action (action_payload action order item (action_reason action))

  -- the loop's two ends
  data Ends (n : ℕ) (items : List OrderItem) (w w' : World) (count : ℕ) (complete : Bool)
      : Type 0 where
    finished :
        complete ≡ true
        → count ≡ n + length items
        → AllAccepted env (map action_request items) w
        → w' ≡ after (map action_request items) w
        → Ends n items w w' count complete
    stopped :
        (front : List OrderItem) (item : OrderItem) (back : List OrderItem)
        → items ≡ front ++ item ∷ back
        → complete ≡ false
        → count ≡ n + length front
        → FirstRefused env (map action_request front) (action_request item) w
        → w' ≡ after (map action_request front ++ action_request item ∷ []) w
        → Ends n items w w' count complete

  Ends-cons :
      (n : ℕ) (items : List OrderItem) (item : OrderItem) (w w' : World) (count : ℕ)
      (complete : Bool)
      → env.post_ok w (action_request item) ≡ true
      → Ends (n + 1) items (after (action_request item ∷ []) w) w' count complete
      → Ends n (item ∷ items) w w' count complete
  Ends-cons n items item w w' count complete yes_ (finished c s answers e) =
      finished c (omega arith) (yes_, answers) e
  Ends-cons n items item w w' count complete yes_
        (stopped front at back split c s (answers, refused) e) =
      stopped (item ∷ front) at back (ap (λ l. item ∷ l) split) c (omega arith)
        ((yes_, answers), refused) e

  apply_items_lem :
      (n : ℕ) (items : List OrderItem) (w : World)
      → let (w', count, complete) = apply_items env action order (action_reason action) n items w in
        Ends n items w w' count complete
  unfolding apply_items
  apply_items_lem n [] w = finished refl (omega arith) tt refl
  apply_items_lem n (item ∷ items) w = elim (Bool-cases (env.post_ok w (action_request item))) [
    | inl accepted ↦ rw accepted (
        Ends-cons n items item w _ _ _ accepted
          (apply_items_lem (n + 1) items (after (action_request item ∷ []) w)))
    | inr refused ↦ rw refused (stopped [] item items refl refl (omega arith) (tt, refused) refl)
  ]

  -- What the action does to the world and what it reports.
  pub data Applied (w w' : World) (s : WarehouseHandoffSummary) : Type 0 where
    untouched :
        (status : WarehouseHandoffStatus) (reason : SkipReason)
        → skip_check env order ≡ some (status, reason)
        → s ≡ skipped_summary env order (action_reason action) status reason
        → w' ≡ w
        → Applied w w' s
    applied_all :
        s.status ≡ some (action_status action)
        → (s.reserved_count ≡ length order.items) × (s.failed_count ≡ 0)
        → skip_check env order ≡ none
        → AllAccepted env (map action_request order.items) w
        → w' ≡ after (map action_request order.items) w
        → Applied w w' s
    stopped_at :
        (front : List OrderItem) (item : OrderItem) (back : List OrderItem)
        → order.items ≡ front ++ item ∷ back
        → s.status ≡ some WarehouseHandoffStatus.failed
        → skip_check env order ≡ none
        → FirstRefused env (map action_request front) (action_request item) w
        → (s.reserved_count ≡ length front) × (s.reserved_count + s.failed_count ≡ s.item_count)
        → w' ≡ after (map action_request front ++ action_request item ∷ []) w
        → Applied w w' s

  finish_action_lem :
      (w w1 : World) (count : ℕ) (complete : Bool)
      → skip_check env order ≡ none
      → Ends 0 order.items w w1 count complete
      → let (w', s) = finish_action env action order (w1, count, complete) in Applied w w' s
  unfolding finish_action
  finish_action_lem w w1 count complete go (finished c s answers e) =
      rw (c, finish_action) (applied_all refl (omega (arith, s), refl) go answers e)
  finish_action_lem w w1 count complete go (stopped front item back split c s answers e) =
      let fits = length-front-le order.items front back item split in
      rw (c, finish_action)
        (stopped_at front item back split refl go answers (omega (arith, s), omega (arith, s)) e)

  -- An action on the reservations is skipped, sends nothing and reports why; or sends the request of
  -- every item in turn, each of which the warehouse accepts, and reports its own status with the
  -- number of items; or stops at the first item that the warehouse refuses and reports `failed` with
  -- counts that add up. Nothing else of the world changes.
  pub apply_reservation_action_lem :
      (w : World) → let (w', s) = apply_reservation_action env action order w in Applied w w' s
  unfolding apply_reservation_action
  apply_reservation_action_lem w = elim (Option-cases (skip_check env order)) [
    | inl go ↦
        rw (go, apply_reservation_action)
          (finish_action_lem w _ _ _ go (apply_items_lem 0 order.items w))
    | inr ((status, reason), skip) ↦
        rw (skip, apply_reservation_action) (untouched status reason skip refl refl)
  ]

-- ===== src/Warehouse/Reserve.antt =====
-- `reserveOrderItems` of src/warehouse/warehouse-reservation.client.ts: its outcomes.
use orders_microservice.Base.{
  none, if◌then◌else◌, Option-cases, length-append, some, ◌≤◌, ℕ, ◌+◌, ◌≡◌, refl, ◌∙◌, ap, sym, inl,
  inr, true, false, List, [], ◌∷◌, ◌++◌, map, length, arith, Bool-cases,
}
use orders_microservice.Warehouse.{
  finish_reservation, reserve_reason_code, skipped_summary, skip_check, compensate,
  reserve_order_items, build_reserve_payload, build_release_payload,
  reservation_compensation_reason_code, Progress, reserve_items, release_reserved_items,
}
use orders_microservice.Entities.{
  SkipReason, WarehouseHandoffStatus, WarehouseHandoffSummary, Order, OrderItem,
}
use mathlib.Core.List.{append_assoc, append-nil}
use orders_microservice.Requests.{Call, reserve_call, action_call, release}
use orders_microservice.World.{World, Env}

-- the history after some requests, which were sent in this order
abbrev pub sends : List Call → List Call → List Call
sends [] history = history
sends (c ∷ cs) history = sends cs (c ∷ history)

-- the world after some requests
abbrev pub after : List Call → World → World
after cs w = record w { calls = sends cs w.calls }

-- the warehouse accepts each of some requests, which are sent in this order
abbrev pub AllAccepted : Env → List Call → World → Type 0
AllAccepted env [] w = Unit {0}
AllAccepted env (c ∷ cs) w = (env.post_ok w c ≡ true) × AllAccepted env cs (after (c ∷ []) w)

-- how many of them it accepts
abbrev pub accepted_count : Env → List Call → World → ℕ
accepted_count env [] w = 0
accepted_count env (c ∷ cs) w =
    (if env.post_ok w c then 1 else 0) + accepted_count env cs (after (c ∷ []) w)

-- it accepts those before a request and refuses that one
abbrev pub FirstRefused : Env → List Call → Call → World → Type 0
FirstRefused env cs c w = AllAccepted env cs w × (env.post_ok (after cs w) c ≡ false)

pub length-front-le :
    (items front back : List OrderItem) (item : OrderItem)
    → items ≡ front ++ item ∷ back
    → length front ≤ length items
length-front-le items front back item e = rw e (omega (arith, length-append front (item ∷ back)))

module _ (env : Env) (order : Order) where
  abbrev pub reserve_request : OrderItem → Call
  reserve_request item =
      reserve_call (build_reserve_payload order item (env.clock + env.ttl_milliseconds))

  abbrev pub release_request : OrderItem → Call
  release_request item =
      action_call release (build_release_payload order item reservation_compensation_reason_code)

  -- the loop's two ends: every item went through, or it stopped at `item`
  data Ends (done items : List OrderItem) (w w' : World) (p : Progress) : Type 0 where
    finished :
        p.complete ≡ true
        → p.succeeded ≡ done ++ items
        → AllAccepted env (map reserve_request items) w
        → w' ≡ after (map reserve_request items) w
        → Ends done items w w' p
    stopped :
        (front : List OrderItem) (item : OrderItem) (back : List OrderItem)
        → items ≡ front ++ item ∷ back
        → p.complete ≡ false
        → p.succeeded ≡ done ++ front
        → FirstRefused env (map reserve_request front) (reserve_request item) w
        → w' ≡ after (map reserve_request front ++ reserve_request item ∷ []) w
        → Ends done items w w' p

  Ends-cons :
      (done items : List OrderItem) (item : OrderItem) (w w' : World) (p : Progress)
      → env.post_ok w (reserve_request item) ≡ true
      → Ends (done ++ item ∷ []) items (after (reserve_request item ∷ []) w) w' p
      → Ends done (item ∷ items) w w' p
  Ends-cons done items item w w' p yes_ (finished c s answers e) =
      finished c (s ∙ append_assoc done (item ∷ []) items) (yes_, answers) e
  Ends-cons done items item w w' p yes_ (stopped front at back split c s (answers, refused) e) =
      stopped (item ∷ front) at back (ap (λ l. item ∷ l) split) c
        (s ∙ append_assoc done (item ∷ []) front) ((yes_, answers), refused) e

  reserve_items_lem :
      (done items : List OrderItem) (w : World)
      → let (w', p) = reserve_items env order (env.clock + env.ttl_milliseconds) done items w in
        Ends done items w w' p
  unfolding reserve_items
  reserve_items_lem done [] w = finished refl (sym (append-nil done)) tt refl
  reserve_items_lem done (item ∷ items) w =
      elim (Bool-cases (env.post_ok w (reserve_request item))) [
        | inl yes_ ↦ rw yes_ (
            Ends-cons done items item w _ _ yes_
              (reserve_items_lem (done ++ item ∷ []) items (after (reserve_request item ∷ []) w)))
        | inr no_ ↦ rw no_ (stopped [] item items refl refl (sym (append-nil done)) (tt, no_) refl)
      ]

  release_reserved_items_lem :
      (succeeded failed : ℕ) (items : List OrderItem) (w : World)
      → let (w', s, f) =
          release_reserved_items env order reservation_compensation_reason_code succeeded failed
            items w in
        (w' ≡ after (map release_request items) w)
        × (s + f ≡ succeeded + failed + length items)
        × (s ≡ succeeded + accepted_count env (map release_request items) w)
  unfolding release_reserved_items
  release_reserved_items_lem succeeded failed [] w = (refl, omega arith, omega arith)
  release_reserved_items_lem succeeded failed (item ∷ items) w =
      elim (Bool-cases (env.post_ok w (release_request item))) [
        | inl yes_ ↦
            rw (yes_, release_reserved_items)
              (let (world, count, answers) =
                  release_reserved_items_lem (succeeded + 1) failed items
                    (after (release_request item ∷ []) w) in
                (world, omega (arith, count), omega (arith, answers)))
        | inr no_ ↦
            rw (no_, release_reserved_items)
              (let (world, count, answers) =
                  release_reserved_items_lem succeeded (failed + 1) items
                    (after (release_request item ∷ []) w) in
                (world, omega (arith, count), omega (arith, answers)))
      ]

  -- What `reserveOrderItems` does to the world and what it reports.
  pub data Reservation (w w' : World) (s : WarehouseHandoffSummary) : Type 0 where
    untouched :
        (status : WarehouseHandoffStatus) (reason : SkipReason)
        → skip_check env order ≡ some (status, reason)
        → s ≡ skipped_summary env order reserve_reason_code status reason
        → w' ≡ w
        → Reservation w w' s
    reserved_all :
        s.status ≡ some WarehouseHandoffStatus.reserved
        → (s.reserved_count ≡ length order.items) × (s.failed_count ≡ 0)
        → skip_check env order ≡ none
        → AllAccepted env (map reserve_request order.items) w
        → w' ≡ after (map reserve_request order.items) w
        → Reservation w w' s
    rolled_back :
        (front : List OrderItem) (item : OrderItem) (back : List OrderItem)
        → order.items ≡ front ++ item ∷ back
        → s.status ≡ some WarehouseHandoffStatus.failed
        → skip_check env order ≡ none
        → FirstRefused env (map reserve_request front) (reserve_request item) w
        → (s.reserved_count ≡ length front) × (s.reserved_count + s.failed_count ≡ s.item_count)
        → (done failed : ℕ) × (s.compensated_count ≡ some done)
          × (s.compensation_failed_count ≡ some failed)
          × (done + failed ≡ s.reserved_count)
          × (done
              ≡ accepted_count env
                  (map release_request front)
                  (after (map reserve_request front ++ reserve_request item ∷ []) w))
        → w'
          ≡ after
              (map release_request front)
              (after (map reserve_request front ++ reserve_request item ∷ []) w)
        → Reservation w w' s

  compensate_lem :
      (front : List OrderItem) (item : OrderItem) (back : List OrderItem) (w w1 : World)
      → order.items ≡ front ++ item ∷ back
      → skip_check env order ≡ none
      → FirstRefused env (map reserve_request front) (reserve_request item) w
      → w1 ≡ after (map reserve_request front ++ reserve_request item ∷ []) w
      → let (w', s) = compensate env order front w1 in Reservation w w' s
  unfolding compensate
  compensate_lem front item back w w1 split go answers e =
      let (world, count, released) = release_reserved_items_lem 0 0 front w1 in
      let fits = length-front-le order.items front back item split in
      rolled_back front item back split refl go answers (refl, omega arith)
        (
          (release_reserved_items env order reservation_compensation_reason_code 0 0 front w1).1,
          (release_reserved_items env order reservation_compensation_reason_code 0 0 front w1).2,
          refl,
          refl,
          omega (arith, count),
          omega (arith, released, ap (accepted_count env (map release_request front)) e),
        )
        (world ∙ ap (after (map release_request front)) e)

  finish_reservation_lem :
      (w w1 : World) (p : Progress)
      → skip_check env order ≡ none
      → Ends [] order.items w w1 p
      → let (w', s) = finish_reservation env order (w1, p) in Reservation w w' s
  unfolding finish_reservation
  finish_reservation_lem w w1 p go (finished c s answers e) =
      rw (c, finish_reservation) (reserved_all refl (rw s (refl, refl)) go answers e)
  finish_reservation_lem w w1 p go (stopped front item back split c s answers e) =
      rw (c, finish_reservation) (rw s (compensate_lem front item back w w1 split go answers e))

  -- Reserving an order is skipped, sends nothing and reports why; or sends the request of every item
  -- in turn, each of which the warehouse accepts, and reports `reserved` with the number of items; or
  -- stops at the first item that the warehouse refuses. Then it sends the releases of exactly the
  -- items before that one, in order, and reports `failed`, how many of those releases the warehouse
  -- accepted, and counts that add up. Nothing else of the world changes.
  pub reserve_order_items_lem :
      (w : World) → let (w', s) = reserve_order_items env order w in Reservation w w' s
  unfolding reserve_order_items
  reserve_order_items_lem w = elim (Option-cases (skip_check env order)) [
    | inl go ↦
        rw (go, reserve_order_items)
          (finish_reservation_lem w _ _ go (reserve_items_lem [] order.items w))
    | inr ((status, reason), skip) ↦
        rw (skip, reserve_order_items) (untouched status reason skip refl refl)
  ]

-- ===== src/Outbox/Recorded.antt =====
-- What `publish` and `getOutboxReadiness` of src/orders/order-events.service.ts leave and report.
use orders_microservice.Base.{
  inr, inl, Option-cases, not, refl, if◌then◌else◌, ◌&&◌, ◌↔◌, Bool, arith, All, Option, ◌++◌, List,
  ◌≡◌, none, some, [], ◌∷◌, true, false,
}
use orders_microservice.Outbox.{
  is_failed, mark_outbox_failed, is_pending, mark_outbox_published, published, count_status,
  hand_over_message, get_outbox_readiness, is_zero, publish, failed_row, accepted_row,
  order_event_version, new_row, orders_exchange_name, record_outbox_event, save_outbox_update,
  EventsState, Message, OrderEventOutbox, Broker, replace_row,
}
use orders_microservice.Base.Text.{lit, text_eq, Text}
use orders_microservice.Base.Text.Laws.{text_eq_refl}
use orders_microservice.Json.{Fields}

-- no row has the identifier
abbrev pub IsFresh : Text → List OrderEventOutbox → Type 0
IsFresh id rows = All (λ row. text_eq row.id id ≡ false) rows

-- the row that was appended last is the one that an update finds
replace_row-last :
    (row new : OrderEventOutbox) (rows : List OrderEventOutbox)
    → new.id ≡ row.id
    → IsFresh row.id rows
    → replace_row new (rows ++ row ∷ []) ≡ rows ++ new ∷ []
unfolding replace_row
replace_row-last row new [] same fresh = ground (arith, same, text_eq_refl row.id)
replace_row-last row new (r ∷ rs) same fresh =
    ground (arith, same, fresh.0, replace_row-last row new rs same fresh.1)

abbrev pub orders_message : Text → Fields → Message
orders_message routing event = record {
  exchange = orders_exchange_name;
  routing_key = routing;
  content = event;
  event_version = order_event_version;
}

-- what becomes of the row of an event
abbrev pub settled_row : Broker → OrderEventOutbox → Option Bool → OrderEventOutbox
settled_row b row (some true) = accepted_row b row
settled_row b row (some false) = failed_row b (lit "publish_not_accepted") row
settled_row b row none = failed_row b (lit "publish_exception") row

module _ (b : Broker) (configured : b.configured ≡ true)
    (saves : (s : EventsState) (row : OrderEventOutbox) → b.saves s row ≡ true) (routing : Text)
    (event : Fields) (s : EventsState) where
  abbrev fresh_row : OrderEventOutbox
  fresh_row = new_row (b.new_id s) orders_exchange_name routing event

  abbrev recorded : EventsState
  recorded = record s { rows = s.rows ++ fresh_row ∷ [] }

  abbrev handed : EventsState
  handed = record recorded { sent = orders_message routing event ∷ s.sent }

  record_lem :
      record_outbox_event b orders_exchange_name routing event s ≡ (recorded, some fresh_row)
  unfolding record_outbox_event
  record_lem = ground (arith, configured, saves s fresh_row)

  saved_lem :
      (new : OrderEventOutbox) (t : EventsState)
      → t.rows ≡ s.rows ++ fresh_row ∷ []
      → new.id ≡ b.new_id s
      → IsFresh (b.new_id s) s.rows
      → save_outbox_update b new t ≡ record t { rows = s.rows ++ new ∷ [] }
  unfolding save_outbox_update new_row
  saved_lem new t same id fresh =
      rw (saves t new, save_outbox_update, same, replace_row-last fresh_row new s.rows id fresh)
        refl

  publish_lem : publish b orders_exchange_name routing event s ≡ (
      if not s.connected
      then recorded
      else hand_over_message b
          (orders_message routing event)
          (some fresh_row)
          (lit "publish_exception")
          recorded)
  unfolding publish
  publish_lem = ground (arith, record_lem, text_eq_refl orders_exchange_name)

  abbrev pub ending : Option Bool → OrderEventOutbox
  ending answer = if s.connected then settled_row b fresh_row answer else fresh_row

  abbrev pub delivered : Option Bool → List Message
  delivered none = s.sent
  delivered (some _) = if s.connected then orders_message routing event ∷ s.sent else s.sent

  -- Where the database saves what it is asked to and the new row's identifier is not in use,
  -- publishing an order event appends one row that holds the event, and changes no other row: it is
  -- left pending while the broker is away, published where the broker accepts the message, and else
  -- failed after one attempt. The broker gets the message once, unless it is away or refuses by an
  -- exception, which also marks it as away.
  pub publish-Recorded :
      IsFresh (b.new_id s) s.rows
      → let answer = b.answer recorded (orders_message routing event) in
        let s' = publish b orders_exchange_name routing event s in
        (s'.rows ≡ s.rows ++ ending answer ∷ [])
        × (s'.sent ≡ delivered answer)
        × (s'.connected ≡ (s.connected && elim answer [ none ↦ false | some _ ↦ true ]))
  unfolding hand_over_message mark_outbox_published mark_outbox_failed new_row
  publish-Recorded fresh = elim (Option-cases (b.answer recorded (orders_message routing event))) [
    | inl thrown ↦
        let code = lit "publish_exception" in
        let gone = record recorded { connected = false } in
        ground
          (arith, publish_lem, thrown, saved_lem (failed_row b code fresh_row) gone refl refl fresh)
    | inr (true, answered) ↦
        ground (
          arith,
          publish_lem,
          answered,
          saved_lem (accepted_row b fresh_row) handed refl refl fresh,
        )
    | inr (false, answered) ↦
        let code = lit "publish_not_accepted" in
        ground (
          arith,
          publish_lem,
          answered,
          saved_lem (failed_row b code fresh_row) handed refl refl fresh,
        )
  ]

-- the rows that are neither pending nor failed
no_left_iff :
    (rows : List OrderEventOutbox)
    → (is_zero (some (count_status is_pending rows)) && is_zero (some (count_status is_failed rows))
        ≡ true)
      ↔ All (λ row. row.status ≡ published) rows
no_left_iff [] = (λ h. tt, λ h. refl)
no_left_iff (first ∷ rest) = ground (arith, no_left_iff rest)

-- The readiness is ready exactly when the broker is connected, the two counts could be made and
-- every event in the outbox is published. Asking for it changes nothing but the last error.
pub get_outbox_readiness_iff :
    (b : Broker) (s : EventsState)
    → ((get_outbox_readiness b s).1.ready ≡ true) ↔ (
        (s.connected ≡ true)
        × (b.configured ≡ true)
        × (b.counts s ≡ true)
        × All (λ row. row.status ≡ published) s.rows)
unfolding get_outbox_readiness
get_outbox_readiness_iff b s = ground (arith, no_left_iff s.rows)

-- ===== src/Outbox/Attempts.antt =====
-- The attempts of a row of the outbox, in src/orders/order-events.service.ts.
use orders_microservice.Outbox.{
  on_module_destroy, order_event_version, start_outbox_retry_loop, finish_retry, on_module_init,
  orders_exchange_name, new_row, flush_pending_outbox, publish, record_outbox_event,
  retry_pending_outbox_events, stored_message, accepted_row, failed_row, EventsState, Message,
  OrderEventOutbox, batch, connect, hand_over_message, mark_outbox_failed, mark_outbox_published,
  publish_all, publish_stored_outbox_event, save_outbox_update, Broker, is_retryable, replace_row,
}
use orders_microservice.Base.{
  All-map, take-All, if◌then◌else◌, ◌||◌, not, ◌&&◌, if_both, inr, filter-All, inl, Bool-cases,
  Option-cases, arith, filter, ◌++◌, Bool, ◌<◌, ◌≡◌, ◌≤◌, All, Option, List, ℕ, none, some, [], ◌∷◌,
  true, false,
}
use orders_microservice.Json.{Fields}
use orders_microservice.Base.Text.{lit, text_eq, Text}

abbrev pub IsWithin : ℕ → List OrderEventOutbox → Type 0
IsWithin most rows = All (λ row. row.attempts ≤ most) rows

replace_row-IsWithin :
    (most : ℕ) (row : OrderEventOutbox) (rows : List OrderEventOutbox)
    → row.attempts ≤ most
    → IsWithin most rows
    → IsWithin most (replace_row row rows)
unfolding replace_row
replace_row-IsWithin most row [] h hs = tt
replace_row-IsWithin most row (r ∷ rs) h hs = elim (Bool-cases (text_eq r.id row.id)) [
  | inl here ↦ rw here (h, hs.1)
  | inr later ↦ rw later (hs.0, replace_row-IsWithin most row rs h hs.1)
]

append-IsWithin :
    (most : ℕ) (rows : List OrderEventOutbox) (row : OrderEventOutbox)
    → IsWithin most rows
    → row.attempts ≤ most
    → IsWithin most (rows ++ row ∷ [])
append-IsWithin most [] row hs h = (h, tt)
append-IsWithin most (r ∷ rs) row hs h = (hs.0, append-IsWithin most rs row hs.1 h)

retryable-lt :
    (most : ℕ) (row : OrderEventOutbox) → is_retryable most row ≡ true → row.attempts < most
unfolding is_retryable
retryable-lt most row h = ground arith

module _ (b : Broker) where
  abbrev most : ℕ
  most = b.max_attempts

  save-IsWithin :
      (row : OrderEventOutbox) (s : EventsState)
      → row.attempts ≤ most
      → IsWithin most s.rows
      → IsWithin most (save_outbox_update b row s).rows
  unfolding save_outbox_update
  save-IsWithin row s h hs = elim (Bool-cases (b.saves s row)) [
    | inl saved ↦ rw (saved, save_outbox_update) (replace_row-IsWithin most row s.rows h hs)
    | inr lost ↦ rw (lost, save_outbox_update) hs
  ]

  abbrev HasAttempts : Option OrderEventOutbox → Type 0
  HasAttempts none = Unit
  HasAttempts (some row) = row.attempts < most

  published-IsWithin :
      (row : Option OrderEventOutbox) (accepted : Bool) (s : EventsState)
      → HasAttempts row
      → IsWithin most s.rows
      → IsWithin most (mark_outbox_published b row accepted s).rows
  unfolding mark_outbox_published
  published-IsWithin none accepted s h hs = hs
  published-IsWithin (some row) true s h hs = save-IsWithin (accepted_row b row) s (omega arith) hs
  published-IsWithin (some row) false s h hs =
      save-IsWithin (failed_row b (lit "publish_not_accepted") row) s (omega arith) hs

  failed-IsWithin :
      (row : Option OrderEventOutbox) (code : Text) (s : EventsState)
      → HasAttempts row
      → IsWithin most s.rows
      → IsWithin most (mark_outbox_failed b row code s).rows
  unfolding mark_outbox_failed
  failed-IsWithin none code s h hs = hs
  failed-IsWithin (some row) code s h hs = save-IsWithin (failed_row b code row) s (omega arith) hs

  hand_over-IsWithin :
      (message : Message) (row : Option OrderEventOutbox) (code : Text) (s : EventsState)
      → HasAttempts row
      → IsWithin most s.rows
      → IsWithin most (hand_over_message b message row code s).rows
  unfolding hand_over_message
  hand_over-IsWithin message row code s h hs = elim (Option-cases (b.answer s message)) [
    | inl thrown ↦
        rw (thrown, hand_over_message)
          (failed-IsWithin row code (record s { connected = false }) h hs)
    | inr (accepted, answered) ↦
        rw (answered, hand_over_message)
          (published-IsWithin row accepted (record s { sent = message ∷ s.sent }) h hs)
  ]

  stored-IsWithin :
      (row : OrderEventOutbox) (s : EventsState)
      → row.attempts < most
      → IsWithin most s.rows
      → IsWithin most (publish_stored_outbox_event b row s).rows
  unfolding publish_stored_outbox_event
  stored-IsWithin row s h hs =
      if_both (λ (t : EventsState). IsWithin most t.rows) (not s.connected) hs
        (hand_over-IsWithin (stored_message b row) (some row) (lit "retry_publish_exception") s h
          hs)

  publish_all-IsWithin :
      (rows : List OrderEventOutbox) (s : EventsState)
      → All (λ row. row.attempts < most) rows
      → IsWithin most s.rows
      → IsWithin most (publish_all b rows s).rows
  unfolding publish_all
  publish_all-IsWithin [] s h hs = hs
  publish_all-IsWithin (row ∷ rows) s h hs =
      publish_all-IsWithin rows (publish_stored_outbox_event b row s) h.1
        (stored-IsWithin row s h.0 hs)

  batch_lt : (s : EventsState) → All (λ row. row.attempts < most) (batch b s)
  unfolding batch
  batch_lt s =
      take-All (λ row. row.attempts < most) b.retry_batch_size (filter (is_retryable most) s.rows)
        (All-map (λ row. is_retryable most row ≡ true) (λ row. row.attempts < most)
          (filter (is_retryable most) s.rows) (retryable-lt most)
          (filter-All (is_retryable most) s.rows))

  connect-rows : (s : EventsState) → (connect b s).rows ≡ s.rows
  unfolding connect
  connect-rows s = ground arith

  -- the row that an event starts with, if it was recorded
  record-IsWithin :
      (exchange routing : Text) (event : Fields) (s : EventsState)
      → 1 ≤ most
      → IsWithin most s.rows
      → let (s', row) = record_outbox_event b exchange routing event s in
        IsWithin most s'.rows × HasAttempts row
  unfolding record_outbox_event
  record-IsWithin exchange routing event s least hs =
      let row = new_row (b.new_id s) exchange routing event in
      if_both
        (λ (p : EventsState × Option OrderEventOutbox). IsWithin most p.0.rows × HasAttempts p.1)
        (b.configured && b.saves s row)
        (append-IsWithin most s.rows row hs (omega arith), omega arith) (hs, tt)

  publish-IsWithin :
      (exchange routing : Text) (event : Fields) (s : EventsState)
      → 1 ≤ most
      → IsWithin most s.rows
      → IsWithin most (publish b exchange routing event s).rows
  unfolding publish
  publish-IsWithin exchange routing event s least hs =
      let start : EventsState × Option OrderEventOutbox =
        if text_eq exchange orders_exchange_name
        then record_outbox_event b exchange routing event s
        else (s, none) in
      let (within, fresh) =
        if_both
          (λ (p : EventsState × Option OrderEventOutbox). IsWithin most p.0.rows × HasAttempts p.1)
          (text_eq exchange orders_exchange_name)
          {x = record_outbox_event b exchange routing event s} {y = (s, none)}
          (record-IsWithin exchange routing event s least hs) (hs, tt) in
      if_both (λ (t : EventsState). IsWithin most t.rows) (not start.0.connected) within
        (hand_over-IsWithin
          (record {
            exchange = exchange;
            routing_key = routing;
            content = event;
            event_version = order_event_version;
          })
          start.1 (lit "publish_exception") start.0 fresh within)

  abbrev FlushedWithin : Option (EventsState × ℕ) → Type 0
  FlushedWithin none = Unit
  FlushedWithin (some (s, _)) = IsWithin most s.rows

  flush-FlushedWithin :
      (s : EventsState) → IsWithin most s.rows → FlushedWithin (flush_pending_outbox b s)
  unfolding flush_pending_outbox
  flush-FlushedWithin s hs =
      if_both FlushedWithin (not b.configured || not s.connected) hs
        (if_both FlushedWithin (b.finds s) (publish_all-IsWithin (batch b s) s (batch_lt s) hs) tt)

  finish-IsWithin :
      (ready : EventsState) (o : Option (EventsState × ℕ))
      → IsWithin most ready.rows
      → FlushedWithin o
      → IsWithin most (finish_retry b ready o).rows
  finish-IsWithin ready none hs h = hs
  finish-IsWithin ready (some (s, n)) hs h = h

  connect-IsWithin : (s : EventsState) → IsWithin most s.rows → IsWithin most (connect b s).rows
  connect-IsWithin s hs = rw (connect-rows s) hs

  retry-IsWithin :
      (s : EventsState)
      → IsWithin most s.rows
      → IsWithin most (retry_pending_outbox_events b s).rows
  unfolding retry_pending_outbox_events
  retry-IsWithin s hs =
      let ready = connect b (record s { retry_in_progress = true }) in
      let within = connect-IsWithin (record s { retry_in_progress = true }) hs in
      if_both (λ (t : EventsState). IsWithin most t.rows) (s.retry_in_progress || not b.configured)
        hs
        (finish-IsWithin ready (flush_pending_outbox b ready) within
          (flush-FlushedWithin ready within))

  init-IsWithin : (s : EventsState) → IsWithin most s.rows → IsWithin most (on_module_init b s).rows
  unfolding on_module_init start_outbox_retry_loop
  init-IsWithin s hs = retry-IsWithin (start_outbox_retry_loop b (connect b s)) (
      if_both (λ (t : EventsState). IsWithin most t.rows) b.configured (connect-IsWithin s hs)
        (connect-IsWithin s hs))

-- what may happen to the service, one call after the other
pub data Activity : Type 0 where
  starts retries stops : Activity
  publishes : (exchange routing : Text) → (event : Fields) → Activity

pub run : Broker → List Activity → EventsState → EventsState
run b [] s = s
run b (starts ∷ rest) s = run b rest (on_module_init b s)
run b (retries ∷ rest) s = run b rest (retry_pending_outbox_events b s)
run b (stops ∷ rest) s = run b rest (on_module_destroy b s)
run b (publishes exchange routing event ∷ rest) s = run b rest (publish b exchange routing event s)

-- Where at least one attempt is allowed, no row of the outbox ever has more attempts than the
-- maximum, whatever the service publishes and retries and whatever the broker and the database
-- answer.
pub run-IsWithin :
    (b : Broker) (activities : List Activity) (s : EventsState)
    → 1 ≤ b.max_attempts
    → IsWithin b.max_attempts s.rows
    → IsWithin b.max_attempts (run b activities s).rows
unfolding run
run-IsWithin b [] s least hs = hs
run-IsWithin b (starts ∷ rest) s least hs =
    run-IsWithin b rest (on_module_init b s) least (init-IsWithin b s hs)
run-IsWithin b (retries ∷ rest) s least hs =
    run-IsWithin b rest (retry_pending_outbox_events b s) least (retry-IsWithin b s hs)
run-IsWithin b (stops ∷ rest) s least hs =
    run-IsWithin b rest (on_module_destroy b s) least (unfold on_module_destroy in hs)
run-IsWithin b (publishes exchange routing event ∷ rest) s least hs =
    run-IsWithin b rest (publish b exchange routing event s) least
      (publish-IsWithin b exchange routing event s least hs)

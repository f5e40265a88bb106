-- ===== src/Outbox.antt =====
-- src/orders/order-events.service.ts: publishing an event through the outbox table, and retrying
-- the rows that are left. The table is the list of its rows, oldest first; RabbitMQ, the database
-- and the configuration are parameters.
pub mod Attempts
pub mod Progress
pub mod Recorded
use orders_microservice.Base.{
  filter, length, ltb, not, take, ◌++◌, ◌==◌, ◌||◌, Bool, List, Option, if◌then◌else◌, ℕ, ◌&&◌, ◌+◌,
  none, some, [], ◌∷◌, true, false, ok, throw,
}
use orders_microservice.Base.Text.{is_empty, lit, text_eq, Text}
use orders_microservice.Json.{finite, Number, get, Value, obj, num, text, Fields}

pub data OutboxStatus : Type 0 where
  pending published failed : OutboxStatus

-- src/orders/order-event-outbox.entity.ts
pub record OrderEventOutbox : Type 0 where
  pub id : Text
  pub exchange_name : Text
  pub routing_key : Text
  pub event_type : Text
  pub event_version : Number
  pub event_id : Text
  pub payload : Fields
  pub status : OutboxStatus
  pub attempts : ℕ
  pub last_attempt_at : Option ℕ
  pub published_at : Option ℕ
  pub last_error_code : Option Text

-- what `channel.publish` is called with
pub record Message : Type 0 where
  pub exchange : Text
  pub routing_key : Text
  pub content : Fields
  pub event_version : Number

-- `connected` is `this.channel !== null`; `sent` is what the broker was given, newest first.
pub record EventsState : Type 0 where
  pub rows : List OrderEventOutbox
  pub connected : Bool
  pub retry_in_progress : Bool
  pub retry_timer : Bool
  pub last_retry_error : Option Text
  pub sent : List Message

-- `answer` is nothing when `channel.publish` throws, else what it returns.
pub record Broker : Type 0 where
  pub connects : EventsState → Bool
  pub closes : EventsState → Bool
  pub answer : EventsState → Message → Option Bool
  pub new_id : EventsState → Text
  pub saves : EventsState → OrderEventOutbox → Bool
  pub finds : EventsState → Bool
  pub counts : EventsState → Bool
  pub clock : ℕ
  pub configured : Bool
  pub retry_batch_size : ℕ
  pub max_attempts : ℕ

abbrev pub orders_exchange_name : Text
orders_exchange_name = lit "orders.events"

abbrev pub order_event_version : Number
order_event_version = finite false 1 0 0

abbrev pub text_field : Text → Fields → Text → Text
text_field key fields fallback = elim (get key fields) [ text s ↦ s | _ ↦ fallback ]

abbrev pub number_field : Text → Fields → Number → Number
number_field key fields fallback = elim (get key fields) [ num n ↦ n | _ ↦ fallback ]

-- `eventId || '0000…'`, where an empty text counts as none
abbrev pub event_id_of : Fields → Text
event_id_of event =
    let id = text_field (lit "eventId") event [] in
    if is_empty id then lit "00000000-0000-4000-8000-000000000000" else id

-- the row that `recordOutboxEvent` creates, with `extractEventEnvelope`
unfoldable pub new_row : Text → Text → Text → Fields → OrderEventOutbox
unfolding get
new_row id exchange routing event = record {
  id = id;
  exchange_name = exchange;
  routing_key = routing;
  event_type = text_field (lit "type") event routing;
  event_version = number_field (lit "eventVersion") event order_event_version;
  event_id = event_id_of event;
  payload = event;
  status = pending;
  attempts = 0;
  last_attempt_at = none;
  published_at = none;
  last_error_code = none;
}

-- an update by primary key
unfoldable pub replace_row : OrderEventOutbox → List OrderEventOutbox → List OrderEventOutbox
replace_row row [] = []
replace_row row (r ∷ rs) = if text_eq r.id row.id then row ∷ rs else r ∷ replace_row row rs

-- `waiting` for a retry: pending or failed, with attempts left
unfoldable pub is_retryable : ℕ → OrderEventOutbox → Bool
is_retryable most row = elim row.status [ published ↦ false | _ ↦ ltb row.attempts most ]

abbrev pub is_pending : OutboxStatus → Bool
is_pending pending = true
is_pending _ = false

abbrev pub is_failed : OutboxStatus → Bool
is_failed failed = true
is_failed _ = false

abbrev pub count_status : (OutboxStatus → Bool) → List OrderEventOutbox → ℕ
count_status p rows = length (filter (λ row. p row.status) rows)

abbrev pub is_zero : Option ℕ → Bool
is_zero none = false
is_zero (some n) = n == 0

-- the configuration's numbers are left out
pub record OrderEventsReadiness : Type 0 where
  pub ready : Bool
  pub broker_connected : Bool
  pub pending_count : Option ℕ
  pub failed_count : Option ℕ
  pub last_error : Option Text

module _ (b : Broker) where
  -- `recordOutboxEvent`, whose errors end in `null`
  unfoldable pub record_outbox_event :
      Text → Text → Fields → EventsState → EventsState × Option OrderEventOutbox
  unfolding new_row
  record_outbox_event exchange routing event s =
      let row = new_row (b.new_id s) exchange routing event in
      if b.configured && b.saves s row
      then (record s { rows = s.rows ++ row ∷ [] }, some row)
      else (s, none)

  -- `saveOutboxUpdate`, which swallows errors
  unfoldable pub save_outbox_update : OrderEventOutbox → EventsState → EventsState
  unfolding replace_row
  save_outbox_update row s = if b.saves s row then record s { rows = replace_row row s.rows } else s

  abbrev pub accepted_row : OrderEventOutbox → OrderEventOutbox
  accepted_row row = record row {
    attempts = row.attempts + 1;
    last_attempt_at = some b.clock;
    status = published;
    published_at = some b.clock;
    last_error_code = none;
  }

  abbrev pub failed_row : Text → OrderEventOutbox → OrderEventOutbox
  failed_row code row = record row {
    attempts = row.attempts + 1;
    last_attempt_at = some b.clock;
    status = failed;
    last_error_code = some code;
  }

  unfoldable pub mark_outbox_published : Option OrderEventOutbox → Bool → EventsState → EventsState
  unfolding save_outbox_update
  mark_outbox_published none accepted s = s
  mark_outbox_published (some row) accepted s =
      save_outbox_update
        (if accepted then accepted_row row else failed_row (lit "publish_not_accepted") row) s

  unfoldable pub mark_outbox_failed : Option OrderEventOutbox → Text → EventsState → EventsState
  unfolding save_outbox_update
  mark_outbox_failed none code s = s
  mark_outbox_failed (some row) code s = save_outbox_update (failed_row code row) s

  -- the `try` block that `publish` and `publishStoredOutboxEvent` have in common
  unfoldable pub hand_over_message :
      Message → Option OrderEventOutbox → Text → EventsState → EventsState
  unfolding mark_outbox_published mark_outbox_failed
  hand_over_message message row code s = elim (b.answer s message) [
    | some accepted ↦ mark_outbox_published row accepted (record s { sent = message ∷ s.sent })
    | none ↦ mark_outbox_failed row code (record s { connected = false })
  ]

  unfoldable pub publish : Text → Text → Fields → EventsState → EventsState
  unfolding record_outbox_event hand_over_message
  publish exchange routing event s =
      let (s', row) =
        if text_eq exchange orders_exchange_name
        then record_outbox_event exchange routing event s
        else (s, none) in
      if not s'.connected
      then s'
      else hand_over_message
          (record {
            exchange = exchange;
            routing_key = routing;
            content = event;
            event_version = order_event_version;
          })
          row (lit "publish_exception") s'

  abbrev pub stored_message : OrderEventOutbox → Message
  stored_message row = record {
    exchange = row.exchange_name;
    routing_key = row.routing_key;
    content = row.payload;
    event_version = row.event_version;
  }

  unfoldable pub publish_stored_outbox_event : OrderEventOutbox → EventsState → EventsState
  unfolding hand_over_message
  publish_stored_outbox_event row s =
      if not s.connected
      then s
      else hand_over_message (stored_message row) (some row) (lit "retry_publish_exception") s

  -- the loop of `flushPendingOutbox`
  unfoldable pub publish_all : List OrderEventOutbox → EventsState → EventsState
  unfolding publish_stored_outbox_event
  publish_all [] s = s
  publish_all (row ∷ rows) s = publish_all rows (publish_stored_outbox_event row s)

  -- the query of `flushPendingOutbox`
  unfoldable pub batch : EventsState → List OrderEventOutbox
  unfolding is_retryable
  batch s = take b.retry_batch_size (filter (is_retryable b.max_attempts) s.rows)

  -- nothing when the query throws
  unfoldable pub flush_pending_outbox : EventsState → Option (EventsState × ℕ)
  unfolding publish_all batch
  flush_pending_outbox s =
      if not b.configured || not s.connected
      then some (s, 0)
      else if b.finds s
      then some (publish_all (batch s) s, length (batch s))
      else none

  unfoldable pub connect : EventsState → EventsState
  connect s = if s.connected then s else record s { connected = b.connects s }

  -- the end of the `try` block of `retryPendingOutboxEvents`, its `catch` and its `finally`
  abbrev pub finish_retry : EventsState → Option (EventsState × ℕ) → EventsState
  finish_retry ready (some (flushed, _)) = record flushed {
    retry_in_progress = false;
    last_retry_error = none;
  }
  finish_retry ready none = record ready {
    retry_in_progress = false;
    last_retry_error = some (lit "outbox_retry_failed");
  }

  -- `retryPendingOutboxEvents`
  unfoldable pub retry_pending_outbox_events : EventsState → EventsState
  unfolding connect flush_pending_outbox
  retry_pending_outbox_events s =
      if s.retry_in_progress || not b.configured
      then s
      else let ready = connect (record s { retry_in_progress = true }) in
        finish_retry ready (flush_pending_outbox ready)

  -- `startOutboxRetryLoop`; the timer's interval is not modelled
  unfoldable pub start_outbox_retry_loop : EventsState → EventsState
  start_outbox_retry_loop s = if b.configured then record s { retry_timer = true } else s

  unfoldable pub on_module_init : EventsState → EventsState
  unfolding connect start_outbox_retry_loop retry_pending_outbox_events
  on_module_init s = retry_pending_outbox_events (start_outbox_retry_loop (connect s))

  -- `onModuleDestroy`, which ignores an error of the channel
  unfoldable pub on_module_destroy : EventsState → EventsState
  on_module_destroy s = record s {
    retry_timer = false;
    connected = s.connected && not (b.closes s);
  }

  -- the status and the two counts of `getOutboxReadiness`, and the error that it may note
  unfoldable pub get_outbox_readiness : EventsState → EventsState × OrderEventsReadiness
  get_outbox_readiness s =
      let counted = b.configured && b.counts s in
      let pending_count = if counted then some (count_status is_pending s.rows) else none in
      let failed_count = if counted then some (count_status is_failed s.rows) else none in
      let noted =
        if b.configured && not (b.counts s)
        then record s { last_retry_error = some (lit "outbox_readiness_count_failed") }
        else s in
      (
        noted,
        record {
          ready = s.connected && is_zero pending_count && is_zero failed_count;
          broker_connected = s.connected;
          pending_count = pending_count;
          failed_count = failed_count;
          last_error = noted.last_retry_error;
        },
      )

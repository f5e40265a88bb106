-- ===== src/Examples/Outbox.antt =====
-- The theorems on the outbox, at a broker that is away, that refuses and that accepts.
use orders_microservice.Outbox.Recorded.{get_outbox_readiness_iff, orders_message, publish-Recorded}
use orders_microservice.Base.{
  All, ◌↔◌, ◌*◌, arith, ◌-◌, ◌≡◌, List, refl, none, some, [], ◌∷◌, true, false,
}
use orders_microservice.Base.Text.{text_eq, lit}
use orders_microservice.Outbox.{
  accepted_row, get_outbox_readiness, new_row, order_event_version, orders_exchange_name, Broker,
  EventsState, OrderEventOutbox, publish, OutboxStatus,
}
use orders_microservice.Outbox.Progress.{retry_times-waiting, retry_times, IsWilling, waiting}
use orders_microservice.Json.{end, text, field, Fields}
use orders_microservice.Outbox.Attempts.{retries, publishes, run-IsWithin, Activity, run, IsWithin}

abbrev accepting : Broker
accepting = record {
  connects = λ s. true;
  closes = λ s. true;
  answer = λ s m. some true;
  new_id = λ s. lit "e-2";
  saves = λ s row. true;
  finds = λ s. true;
  counts = λ s. true;
  clock = 7;
  configured = true;
  retry_batch_size = 1;
  max_attempts = 2;
}

abbrev refusing : Broker
refusing = record accepting { answer = λ s m. none }

abbrev old_row : OrderEventOutbox
old_row = record {
  id = lit "e-1";
  exchange_name = orders_exchange_name;
  routing_key = lit "order.paid";
  event_type = lit "order.paid";
  event_version = order_event_version;
  event_id = lit "x-1";
  payload = field (lit "orderId") (text (lit "o-1")) end;
  status = OutboxStatus.failed;
  attempts = 1;
  last_attempt_at = some 6;
  published_at = none;
  last_error_code = some (lit "publish_exception");
}

abbrev away : EventsState
away = record {
  rows = old_row ∷ [];
  connected = false;
  retry_in_progress = false;
  retry_timer = true;
  last_retry_error = none;
  sent = [];
}

abbrev connected : EventsState
connected = record away { connected = true }

abbrev cancelled_event : Fields
cancelled_event = field (lit "orderId") (text (lit "o-2")) end

abbrev life : List Activity
life =
    publishes orders_exchange_name (lit "order.cancelled") cancelled_event ∷ retries ∷ retries ∷ []

run-IsWithin_example : IsWithin 2 (run refusing life away).rows
run-IsWithin_example = run-IsWithin refusing life away (omega arith) (omega arith, tt)

accepting-IsWilling : IsWilling accepting
accepting-IsWilling = record {
  configured = refl;
  connects = λ s. refl;
  finds = λ s. refl;
  answers = λ s m. refl;
  saves = λ s row. refl;
}

retry_times-waiting_example :
    waiting 2 (retry_times accepting accepting-IsWilling 3 away).rows ≡ waiting 2 away.rows - 3 * 1
retry_times-waiting_example = retry_times-waiting accepting accepting-IsWilling 3 away refl (tt, tt)

abbrev new_one : OrderEventOutbox
new_one = new_row (lit "e-2") orders_exchange_name (lit "order.cancelled") cancelled_event

other_id : text_eq (lit "e-1") (lit "e-2") ≡ false
unfolding text_eq
other_id = refl

publish-Recorded_example :
    let s' =
      publish accepting orders_exchange_name (lit "order.cancelled") cancelled_event connected in
    (s'.rows ≡ old_row ∷ accepted_row accepting new_one ∷ [])
    × (s'.sent ≡ orders_message (lit "order.cancelled") cancelled_event ∷ [])
    × (s'.connected ≡ true)
publish-Recorded_example =
    publish-Recorded accepting refl (λ s row. refl) (lit "order.cancelled") cancelled_event
      connected (other_id, tt)

get_outbox_readiness_iff_example : ((get_outbox_readiness accepting away).1.ready ≡ true) ↔ (
    (false ≡ true)
    × (true ≡ true)
    × (true ≡ true)
    × All (λ row. row.status ≡ OutboxStatus.published) (old_row ∷ []))
get_outbox_readiness_iff_example = get_outbox_readiness_iff accepting away

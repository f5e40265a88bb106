-- ===== src/Outbox/Progress.antt =====
-- What `flushPendingOutbox` of src/orders/order-events.service.ts achieves.
use orders_microservice.Base.{
  filter-All, refl, ◌-◌, ◌*◌, All-pair, filter-keeps, take-All, if◌then◌else◌, arith, inr, inl,
  Bool-cases, ◌+◌, if_both, suc, All, Option, filter, length, take, ◌≡◌, Bool, List, ℕ, none, some,
  [], ◌∷◌, true, false,
}
use orders_microservice.Outbox.{
  batch, flush_pending_outbox, connect, retry_pending_outbox_events, save_outbox_update,
  mark_outbox_published, hand_over_message, stored_message, accepted_row, publish_all,
  publish_stored_outbox_event, Message, EventsState, is_retryable, replace_row, Broker,
  OrderEventOutbox,
}
use Prim.Native.Nat.{zero}
use orders_microservice.Base.Text.Laws.{text_eq_iff, text_eq_refl}
use orders_microservice.Base.Text.{text_eq, Text}

-- a broker and a database that do what they are asked
pub record IsWilling (b : Broker) : Type 0 where
  pub configured : b.configured ≡ true
  pub connects : (s : EventsState) → b.connects s ≡ true
  pub finds : (s : EventsState) → b.finds s ≡ true
  pub answers : (s : EventsState) (m : Message) → b.answer s m ≡ some true
  pub saves : (s : EventsState) (row : OrderEventOutbox) → b.saves s row ≡ true

abbrev pub waiting : ℕ → List OrderEventOutbox → ℕ
waiting most rows = length (filter (is_retryable most) rows)

-- the identifiers differ, as the primary key makes them
abbrev pub IsKeyed : List OrderEventOutbox → Type 0
IsKeyed [] = Unit
IsKeyed (row ∷ rows) = All (λ r. text_eq row.id r.id ≡ false) rows × IsKeyed rows

find_row : Text → List OrderEventOutbox → Option OrderEventOutbox
find_row id [] = none
find_row id (r ∷ rs) = if text_eq r.id id then some r else find_row id rs

abbrev IsHeld : List OrderEventOutbox → OrderEventOutbox → Type 0
IsHeld rows row = find_row row.id rows ≡ some row

IsHeld-later :
    (row r : OrderEventOutbox) (rows : List OrderEventOutbox)
    → text_eq row.id r.id ≡ false
    → IsHeld rows r
    → IsHeld (row ∷ rows) r
unfolding find_row
IsHeld-later row r rows other h = rw other h

IsKeyed-IsHeld : (rows : List OrderEventOutbox) → IsKeyed rows → All (IsHeld rows) rows
unfolding find_row
IsKeyed-IsHeld [] k = tt
IsKeyed-IsHeld (row ∷ rows) k = (
  rw (text_eq_refl row.id),
  All-pair (λ r. text_eq row.id r.id ≡ false) (IsHeld rows) (IsHeld (row ∷ rows)) rows
      (λ r other h. IsHeld-later row r rows other h) k.0 (IsKeyed-IsHeld rows k.1),
)

filter-IsKeyed :
    (p : OrderEventOutbox → Bool) (rows : List OrderEventOutbox)
    → IsKeyed rows
    → IsKeyed (filter p rows)
filter-IsKeyed p [] k = tt
filter-IsKeyed p (row ∷ rows) k =
    if_both IsKeyed (p row)
      (filter-keeps (λ r. text_eq row.id r.id ≡ false) p rows k.0, filter-IsKeyed p rows k.1)
      (filter-IsKeyed p rows k.1)

take-IsKeyed : (n : ℕ) (rows : List OrderEventOutbox) → IsKeyed rows → IsKeyed (take n rows)
take-IsKeyed zero rows k = tt
take-IsKeyed (suc n) [] k = tt
take-IsKeyed (suc n) (row ∷ rows) k =
    (take-All (λ r. text_eq row.id r.id ≡ false) n rows k.0, take-IsKeyed n rows k.1)

length-take :
    (n : ℕ) (rows : List OrderEventOutbox) → length (take n rows) + (length rows - n) ≡ length rows
length-take zero rows = omega arith
length-take (suc n) [] = omega arith
length-take (suc n) (row ∷ rows) = omega (arith, length-take n rows)

module _ (most : ℕ) (row new : OrderEventOutbox) (same : new.id ≡ row.id) where
  replace_row-waiting :
      (rows : List OrderEventOutbox)
      → IsHeld rows row
      → is_retryable most row ≡ true
      → is_retryable most new ≡ false
      → waiting most rows ≡ waiting most (replace_row new rows) + 1
  unfolding replace_row find_row
  replace_row-waiting [] held old fresh = cc
  replace_row-waiting (r ∷ rs) held old fresh = elim (Bool-cases (text_eq r.id row.id)) [
    | inl here ↦ ground (arith, same)
    | inr later ↦ ground (arith, same, replace_row-waiting rs (rw later at held) old fresh)
  ]

  replace_row-IsHeld :
      (rows : List OrderEventOutbox) (r : OrderEventOutbox)
      → text_eq row.id r.id ≡ false
      → IsHeld rows r
      → IsHeld (replace_row new rows) r
  unfolding replace_row find_row
  replace_row-IsHeld [] r other held = held
  replace_row-IsHeld (q ∷ qs) r other held = elim (Bool-cases (text_eq q.id row.id)) [
    | inl here ↦ ground (arith, same, text_eq_iff q.id row.id, here, other, held)
    | inr later ↦ ground (arith, same, later, held, replace_row-IsHeld qs r other)
  ]

replace_row-All :
    (P : OrderEventOutbox → Type 0) (new : OrderEventOutbox) (rows : List OrderEventOutbox)
    → P new
    → All P rows
    → All P (replace_row new rows)
unfolding replace_row
replace_row-All P new [] p h = h
replace_row-All P new (r ∷ rs) p h =
    if_both (All P) (text_eq r.id new.id) (p, h.1) (h.0, replace_row-All P new rs p h.1)

-- a row replaced by one with the same identifier
replace_row-IsKeyed :
    (new : OrderEventOutbox) (rows : List OrderEventOutbox)
    → IsKeyed rows
    → IsKeyed (replace_row new rows)
unfolding replace_row
replace_row-IsKeyed new [] k = tt
replace_row-IsKeyed new (r ∷ rs) k = elim (Bool-cases (text_eq r.id new.id)) [
  | inl here ↦ rw here (rw ((text_eq_iff r.id new.id).0 here) at k)
  | inr later ↦ rw later (
    replace_row-All (λ q. text_eq r.id q.id ≡ false) new rs later k.0,
    replace_row-IsKeyed new rs k.1,
  )
]

module _ (b : Broker) (willing : IsWilling b) where
  abbrev most : ℕ
  most = b.max_attempts

  abbrev sent_now : OrderEventOutbox → EventsState → EventsState
  sent_now row s = record s {
    rows = replace_row (accepted_row b row) s.rows;
    sent = stored_message b row ∷ s.sent;
  }

  stored_lem :
      (row : OrderEventOutbox) (s : EventsState)
      → s.connected ≡ true
      → publish_stored_outbox_event b row s ≡ sent_now row s
  unfolding publish_stored_outbox_event hand_over_message mark_outbox_published save_outbox_update
  stored_lem row s up = ground (
    arith,
    willing.answers s (stored_message b row),
    willing.saves (record s { sent = stored_message b row ∷ s.sent }) (accepted_row b row),
  )

  accepted_done : (row : OrderEventOutbox) → is_retryable most (accepted_row b row) ≡ false
  unfolding is_retryable
  accepted_done row = refl

  publish_all_lem :
      (rows : List OrderEventOutbox) (s : EventsState)
      → s.connected ≡ true
      → IsKeyed rows
      → IsKeyed s.rows
      → All (IsHeld s.rows) rows
      → All (λ r. is_retryable most r ≡ true) rows
      → let s' = publish_all b rows s in
        (s'.connected ≡ true)
        × IsKeyed s'.rows
        × (waiting most s'.rows + length rows ≡ waiting most s.rows)
  unfolding publish_all
  publish_all_lem [] s up keyed table held retryable = (up, table, omega arith)
  publish_all_lem (row ∷ rows) s up keyed table held retryable =
      let row' = accepted_row b row in
      let later =
        All-pair (λ r. text_eq row.id r.id ≡ false) (IsHeld s.rows)
          (IsHeld (replace_row row' s.rows)) rows (replace_row-IsHeld most row row' refl s.rows)
          keyed.0 held.1 in
      let (up', table', count) =
        publish_all_lem rows (sent_now row s) up keyed.1 (replace_row-IsKeyed row' s.rows table)
          later retryable.1 in
      rw (publish_all, stored_lem row s up)
        (
          up',
          table',
          omega (
            arith,
            count,
            replace_row-waiting most row row' refl s.rows held.0 retryable.0 (accepted_done row),
          ),
        )

  connect_lem : (s : EventsState) → connect b s ≡ record s { connected = true }
  unfolding connect
  connect_lem s = elim (Bool-cases s.connected) [
    | inl up ↦ rw (up, connect) refl
    | inr down ↦ rw (willing.connects s, down, connect) refl
  ]

  -- one retry of a service that is not retrying yet
  retry_lem :
      (s : EventsState)
      → s.retry_in_progress ≡ false
      → IsKeyed s.rows
      → let s' = retry_pending_outbox_events b s in
        (s'.retry_in_progress ≡ false)
        × IsKeyed s'.rows
        × (waiting most s'.rows ≡ waiting most s.rows - b.retry_batch_size)
  unfolding retry_pending_outbox_events connect flush_pending_outbox batch
  retry_lem s idle keyed =
      let ready : EventsState = record s { retry_in_progress = true; connected = true } in
      let open_rows = filter (is_retryable most) s.rows in
      let (up, table, count) =
        publish_all_lem (take b.retry_batch_size open_rows) ready refl
          (take-IsKeyed b.retry_batch_size open_rows
            (filter-IsKeyed (is_retryable most) s.rows keyed))
          keyed
          (take-All (IsHeld s.rows) b.retry_batch_size open_rows
            (filter-keeps (IsHeld s.rows) (is_retryable most) s.rows (IsKeyed-IsHeld s.rows keyed)))
          (take-All (λ r. is_retryable most r ≡ true) b.retry_batch_size open_rows
            (filter-All (is_retryable most) s.rows)) in
      rw
        (
          idle,
          willing.configured,
          connect_lem (record s { retry_in_progress = true }),
          willing.finds ready,
        )
        (refl, table, omega (arith, count, length-take b.retry_batch_size open_rows))

  abbrev pub retry_times : ℕ → EventsState → EventsState
  retry_times zero s = s
  retry_times (suc k) s = retry_times k (retry_pending_outbox_events b s)

  -- While the broker and the database do what they are asked, every round of the retry loop
  -- publishes a batch of the events that are pending or failed with attempts left, as long as there
  -- are any: after so many rounds, that many batches fewer are waiting.
  pub retry_times-waiting :
      (k : ℕ) (s : EventsState)
      → s.retry_in_progress ≡ false
      → IsKeyed s.rows
      → waiting b.max_attempts (retry_times k s).rows
        ≡ waiting b.max_attempts s.rows - k * b.retry_batch_size
  retry_times-waiting zero s idle keyed = omega arith
  retry_times-waiting (suc k) s idle keyed =
      let (idle', keyed', count) = retry_lem s idle keyed in
      omega (arith, retry_times-waiting k (retry_pending_outbox_events b s) idle' keyed', count)

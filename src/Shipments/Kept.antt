-- ===== src/Shipments/Kept.antt =====
-- What the updates of src/shipments/shipments.service.ts keep of a shipment.
use orders_microservice.Base.Text.{text_or_empty, is_empty, lit, Text, text_eq}
use orders_microservice.Shipments.{
  is_delivered, BodyText, absent, null_text, given, is_storable, ShipmentAnswer,
  shipment_status_update, tracking_update, new_tracking_url, ShipmentOperation, replace_shipment,
  update_shipment_status, with_tracking, find_shipment, store_shipment, update_tracking,
  with_shipment_status, Shipment, ShipmentsState,
}
use orders_microservice.Base.{
  some_injective, Option-cases, Bool-cases, if_both, is_some, Option, Bool, List, ℕ, some, [], ◌∷◌,
  ◌≡◌, refl, sym, true, false, inl, inr, ◌∙◌, ap,
}
use mathlib.Core.Path.{subst}
use orders_microservice.Base.Text.Laws.{text_eq_iff}

-- One request to change a shipment, with the state that it leaves; the database answers each as it
-- likes.
pub data ShipmentRun (s : ShipmentsState) : ShipmentsState → Type 0 where
  tracks :
      (saves : ShipmentsState → Shipment → Bool) (clock : ℕ) (id : Text) (number url : BodyText)
      → ShipmentRun s (update_tracking saves clock id number url s).0
  moves :
      (saves : ShipmentsState → Shipment → Bool) (clock : ℕ) (id : Text) (status : BodyText)
      → ShipmentRun s (update_shipment_status saves clock id status s).0

pub data ShipmentRuns (s : ShipmentsState) : ShipmentsState → Type 0 where
  done : ShipmentRuns s s
  then_run : {t u : ShipmentsState} → ShipmentRuns s t → ShipmentRun t u → ShipmentRuns s u

-- a delivered shipment has the date of its delivery
abbrev pub IsDated : Shipment → Type 0
IsDated row = text_eq row.status (lit "delivered") ≡ true → is_some row.delivered_at ≡ true

-- the column holds a text that is not empty
abbrev pub IsFilled : Option Text → Type 0
IsFilled value = is_empty (text_or_empty value) ≡ false

-- a later version of the same shipment
pub record IsLater (old new : Shipment) : Type 0 where
  pub same_id : new.id ≡ old.id
  pub same_order : new.order_id ≡ old.order_id
  pub same_carrier : new.carrier ≡ old.carrier
  pub located : IsFilled old.tracking_url → IsFilled new.tracking_url
  pub shipped : is_some old.shipped_at ≡ true → is_some new.shipped_at ≡ true
  pub delivered : is_some old.delivered_at ≡ true → is_some new.delivered_at ≡ true
  pub dated : IsDated old → IsDated new
  pub untracked :
      is_some new.shipped_at ≡ false
      → (new.tracking_number ≡ old.tracking_number) × (new.tracking_url ≡ old.tracking_url)

-- the rows one by one
pub data AreLater : List Shipment → List Shipment → Type 0 where
  none_left : AreLater [] []
  next_row :
      {old new : Shipment} {olds news : List Shipment}
      → IsLater old new
      → AreLater olds news
      → AreLater (old ∷ olds) (new ∷ news)

IsLater-refl : (row : Shipment) → IsLater row row
IsLater-refl row = record {
  same_id = refl;
  same_order = refl;
  same_carrier = refl;
  located = λ h. h;
  shipped = λ h. h;
  delivered = λ h. h;
  dated = λ h. h;
  untracked = λ h. (refl, refl);
}

-- what is not there now was not there before
not_before : {before now : Bool} → (before ≡ true → now ≡ true) → now ≡ false → before ≡ false
not_before {before = false} kept h = refl
not_before {before = true} kept h = let there = kept refl in cc

IsLater-trans : {a b c : Shipment} → IsLater a b → IsLater b c → IsLater a c
IsLater-trans p q = record {
  same_id = q.same_id ∙ p.same_id;
  same_order = q.same_order ∙ p.same_order;
  same_carrier = q.same_carrier ∙ p.same_carrier;
  located = λ h. q.located (p.located h);
  shipped = λ h. q.shipped (p.shipped h);
  delivered = λ h. q.delivered (p.delivered h);
  dated = λ h. q.dated (p.dated h);
  untracked = λ h.
      let (number, url) = q.untracked h in
      let (number', url') = p.untracked (not_before q.shipped h) in (number ∙ number', url ∙ url');
}

AreLater-refl : (rows : List Shipment) → AreLater rows rows
AreLater-refl [] = none_left
AreLater-refl (r ∷ rs) = next_row (IsLater-refl r) (AreLater-refl rs)

AreLater-trans : {a b c : List Shipment} → AreLater a b → AreLater b c → AreLater a c
AreLater-trans none_left none_left = none_left
AreLater-trans (next_row p ps) (next_row q qs) = next_row (IsLater-trans p q) (AreLater-trans ps qs)

find_shipment_id :
    (id : Text) (rows : List Shipment) (row : Shipment)
    → find_shipment id rows ≡ some row
    → text_eq row.id id ≡ true
unfolding find_shipment
find_shipment_id id [] row h = cc
find_shipment_id id (r ∷ rs) row h = elim (Bool-cases (text_eq r.id id)) [
  | inl here ↦
      subst (λ x. text_eq x.id id ≡ true) (some_injective (rw (here, find_shipment) at h)) here
  | inr other ↦ find_shipment_id id rs row (rw (other, find_shipment) at h)
]

-- the shipment that was found is the one that an update replaces
replace_shipment-AreLater :
    (id : Text) (rows : List Shipment) (old new : Shipment)
    → find_shipment id rows ≡ some old
    → IsLater old new
    → AreLater rows (replace_shipment new rows)
unfolding find_shipment replace_shipment
replace_shipment-AreLater id [] old new there later = none_left
replace_shipment-AreLater id (r ∷ rs) old new there later = elim (Bool-cases (text_eq r.id id)) [
  | inl here ↦
      let e : r ≡ old = some_injective (rw (here, find_shipment) at there) in
      let same : text_eq r.id new.id ≡ true =
        (text_eq_iff r.id new.id).1 (ap (λ x. x.id) e ∙ sym later.same_id) in
      rw same (next_row (subst (λ x. IsLater x new) (sym e) later) (AreLater-refl rs))
  | inr other ↦
      let there' = rw (other, find_shipment) at there in
      let unlike : text_eq r.id new.id ≡ false =
        rw (later.same_id ∙ (text_eq_iff old.id id).0 (find_shipment_id id rs old there')) other in
      rw unlike (next_row (IsLater-refl r) (replace_shipment-AreLater id rs old new there' later))
]

with_tracking-IsLater :
    (saves : ShipmentsState → Shipment → Bool) (clock : ℕ) (number url : BodyText) (row : Shipment)
    → IsLater row (with_tracking saves clock number url row).stored
unfolding text_eq
with_tracking-IsLater saves clock number url row = record {
  same_id = refl;
  same_order = refl;
  same_carrier = refl;
  located = new_url url;
  shipped = λ h. refl;
  delivered = λ h. h;
  dated = λ h not_so. cc;
  untracked = λ h. cc;
}
  where
    new_url :
        (body : BodyText)
        → IsFilled row.tracking_url
        → IsFilled (new_tracking_url body row.tracking_url)
    new_url absent h = h
    new_url null_text h = h
    new_url (given []) h = h
    new_url (given (c ∷ u)) h = refl

with_shipment_status-IsLater :
    (saves : ShipmentsState → Shipment → Bool) (clock : ℕ) (status : BodyText) (row : Shipment)
    → is_storable saves clock status ≡ true
    → IsLater row (with_shipment_status saves clock status row).stored
unfolding with_shipment_status is_delivered
with_shipment_status-IsLater saves clock absent row fits = IsLater-refl row
with_shipment_status-IsLater saves clock null_text row fits = cc
with_shipment_status-IsLater saves clock (given status) row fits = record {
  same_id = refl;
  same_order = refl;
  same_carrier = refl;
  located = λ h. h;
  shipped = λ h. h;
  delivered =
      λ h. if_both {A = Option ℕ} (λ o. is_some o ≡ true) (text_eq status (lit "delivered")) refl h;
  dated = λ h so. rw so refl;
  untracked = λ h. (refl, refl);
}

module _ (saves : ShipmentsState → Shipment → Bool) (clock : ℕ) where
  store_shipment-AreLater :
      (id : Text) (operation : ShipmentOperation) (old : Shipment) (answer : ShipmentAnswer)
      (fits : Bool) (s : ShipmentsState)
      → find_shipment id s.rows ≡ some old
      → (fits ≡ true → IsLater old answer.stored)
      → AreLater s.rows (store_shipment saves clock operation old answer fits s).0.rows
  unfolding store_shipment
  store_shipment-AreLater id operation old answer false s there later = AreLater-refl s.rows
  store_shipment-AreLater id operation old answer true s there later =
      elim (Bool-cases (saves s answer.stored)) [
        | inl kept ↦
            rw kept (replace_shipment-AreLater id s.rows old answer.stored there (later refl))
        | inr lost ↦ rw lost (AreLater-refl s.rows)
      ]

ShipmentRun-AreLater : {s t : ShipmentsState} → ShipmentRun s t → AreLater s.rows t.rows
unfolding update_tracking update_shipment_status
ShipmentRun-AreLater {s} (tracks saves clock id number url) =
    elim (Option-cases (find_shipment id s.rows)) [
      | inl missing ↦ rw (missing, update_tracking) (AreLater-refl s.rows)
      | inr (row, there) ↦
          rw (there, update_tracking)
            (store_shipment-AreLater saves clock id tracking_update row
              (with_tracking saves clock number url row) true s there
              (λ _. with_tracking-IsLater saves clock number url row))
    ]
ShipmentRun-AreLater {s} (moves saves clock id status) =
    elim (Option-cases (find_shipment id s.rows)) [
      | inl missing ↦ rw (missing, update_shipment_status) (AreLater-refl s.rows)
      | inr (row, there) ↦
          rw (there, update_shipment_status)
            (store_shipment-AreLater saves clock id shipment_status_update row
              (with_shipment_status saves clock status row) (is_storable saves clock status) s there
              (with_shipment_status-IsLater saves clock status row))
    ]

-- After any number of updates of shipments, whatever their bodies hold and the database answers, each
-- row of the table is a later version of the row that stood there: for the same order and with the
-- same carrier, with a tracking address that is not empty and with dates where it had them, with the
-- same tracking number and address as long as it has no date of shipping, and with the date of its
-- delivery where it is delivered, if that held before.
pub ShipmentRuns-AreLater : {s t : ShipmentsState} → ShipmentRuns s t → AreLater s.rows t.rows
ShipmentRuns-AreLater {s} done = AreLater-refl s.rows
ShipmentRuns-AreLater (then_run r last) =
    AreLater-trans (ShipmentRuns-AreLater r) (ShipmentRun-AreLater last)

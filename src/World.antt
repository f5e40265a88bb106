-- ===== src/World.antt =====
-- What the handlers read and write: the repository, the requests sent to the warehouse, the events
-- published and the audit log, each as its history, with the newest entry first. The database and
-- the warehouse are parameters: they answer each request as they like, by all that went before. A
-- request for an order's reservations that fails answers nothing. `joined_items` is the order in
-- which the look-up of an order by its key reads the order's items, as the query gives none.
use orders_microservice.Entities.{WarehouseHandoffStatus, Order, OrderItem}
use orders_microservice.Create.Fields.{Arithmetic, CreateError}
use orders_microservice.Base.{
  ℕ, Bool, List, [], ◌∷◌, Option, none, some, Result, ok, throw, if◌then◌else◌,
}
use orders_microservice.Base.Text.{Text, text_eq}
use orders_microservice.Events.{DomainEvent}
use orders_microservice.Fulfillment.{FulfillmentError}
use orders_microservice.Json.{Value}
use orders_microservice.Payment.{PaymentError}
use orders_microservice.Requests.{Call, WarehouseReservationSnapshot}
use orders_microservice.Status.Approval.{StatusError}
use orders_microservice.Lifecycle.{LifecycleError}

pub data Outcome : Type 0 where
  success rejected failure : Outcome

pub data Operation : Type 0 where
  status_update status_key_replay status_replay fulfillment_update payment_update : Operation
  order_create create_conflict create_replay : Operation

-- the operation, the order and the outcome of an audit entry; where there is no order, its identifier
-- is empty
pub record AuditEntry : Type 0 where
  pub operation : Operation
  pub resource_id : Text
  pub outcome : Outcome

pub record World : Type 0 where
  pub saved : List Order
  pub calls : List Call
  pub events : List DomainEvent
  pub audits : List AuditEntry

pub record Env : Type 0 where
  pub save_ok : World → Order → Bool
  pub post_ok : World → Call → Bool
  pub reservations : World → Text → Option (List WarehouseReservationSnapshot)
  pub fulfillment_order_id : World → Option Text
  pub parse_date : Value → Option ℕ
  pub parse_text : Text → Option ℕ
  pub clock : ℕ
  pub reservation_enabled : Bool
  pub ttl_milliseconds : ℕ
  pub handoff_configured : Bool
  pub commit_ok : World → Bool
  pub new_order_id : World → Text
  pub new_item_id : World → ℕ → Text
  pub arithmetic : Arithmetic
  pub joined_items : World → List OrderItem → List OrderItem

-- One constructor for each way in which a handler fails.
pub data ServiceError : Type 0 where
  not_found : Text → ServiceError
  invalid_status : StatusError → ServiceError
  invalid_lifecycle : LifecycleError → ServiceError
  database_error : ServiceError
  cancelled_order_paid paid_order_changed paid_reference_replaced : ServiceError
  invalid_payment : PaymentError → ServiceError
  invalid_fulfillment : FulfillmentError → ServiceError
  invalid_create : CreateError → ServiceError
  order_exists : ServiceError
  reservation_required : Option WarehouseHandoffStatus → ServiceError

abbrev pub M {ℓ} : Type ℓ → Type ℓ
M A = World → World × Result ServiceError A

infixl 5 ◌>>=◌ ◌>>◌
abbrev pub ◌>>=◌ {ℓ κ} : {A : Type ℓ} {B : Type κ} → M A → (A → M B) → M B
◌>>=◌ m f w = let (w', r) = m w in elim r [ ok a ↦ f a w' | throw e ↦ (w', throw e) ]

abbrev pub ◌>>◌ {ℓ} : {B : Type ℓ} → M (Unit {0}) → M B → M B
m >> k = m >>= λ _. k

abbrev pub pure {ℓ} : {A : Type ℓ} → A → M A
pure a w = (w, ok a)

abbrev pub fail {ℓ} : {A : Type ℓ} → ServiceError → M A
fail e w = (w, throw e)

abbrev pub lift {ℓ} : {A : Type ℓ} → Result ServiceError A → M A
lift r w = (w, r)

-- `try { m } catch (error) { handler; throw error; }`
abbrev pub on_error {ℓ} : {A : Type ℓ} → M A → (World → World) → M A
on_error m handler w =
    let (w', r) = m w in elim r [ ok a ↦ (w', ok a) | throw e ↦ (handler w', throw e) ]

abbrev pub record_audit : AuditEntry → World → World
record_audit a w = record w { audits = a ∷ w.audits }

abbrev pub audit : Operation → Text → Outcome → M (Unit {0})
audit operation id outcome w =
    (record_audit (record { operation = operation; resource_id = id; outcome = outcome }) w, ok tt)

-- `this.orderEvents.publish…`, which swallows the broker's errors
abbrev pub publish : DomainEvent → M (Unit {0})
publish event w = (record w { events = event ∷ w.events }, ok tt)

-- `manager.transaction`: a failure, of the commit too, takes back what was saved, and nothing else
abbrev pub transaction {ℓ} : {A : Type ℓ} → Env → M A → M A
transaction env m w =
    let (w', r) = m w in
    elim r [
      | throw e ↦ (record w' { saved = w.saved }, throw e)
      | ok a ↦
          if env.commit_ok w'
          then (w', ok a)
          else (record w' { saved = w.saved }, throw database_error)
    ]

-- the newest saved version of an order
unfoldable pub find_order : Text → List Order → Option Order
find_order id [] = none
find_order id (o ∷ os) = if text_eq o.id id then some o else find_order id os

-- `orderRepository.save`
unfoldable pub save : Env → Order → M (Unit {0})
save env order w =
    if env.save_ok w order
    then (record w { saved = order ∷ w.saved }, ok tt)
    else (w, throw database_error)

-- `findOne`
unfoldable pub find_one : Text → M Order
unfolding find_order
find_one id w = elim (find_order id w.saved) [
  | none ↦ (w, throw (not_found id))
  | some order ↦ (w, ok order)
]

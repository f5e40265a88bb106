-- ===== src/Orders.antt =====
-- src/orders/orders.service.ts: the handlers that change an order. Each returns the new world beside
-- its result, so what a handler did before it threw stays visible. The first four modules are the
-- code, the others are what holds of it.
pub mod Create
pub mod Creation
pub mod Created
pub mod Repeat
pub mod Once
pub mod Publish
pub mod UpdateStatus
pub mod ApplyPayment
pub mod ApplyCallback
pub mod Frame
pub mod SamePayment
pub mod FinishPayment
pub mod Paid
pub mod Found
pub mod StaysPaid
pub mod Forward
pub mod FailedStage
pub mod LatePayment
pub mod Steps

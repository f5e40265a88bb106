-- ===== src/Lib.antt =====
-- The orders microservice: an order's statuses and lifecycle stages, its reservations at the
-- warehouse, its payment, the three handlers that change it, the handler that creates it, the
-- outbox that its events pass through, the guard before the routes, the reads and statistics of
-- orders, the price suggestions, the shipments and the admin console.
--
-- Base: texts as lists of UTF-16 code units, Boolean tests, results, and list lemmas.
-- Status: src/orders/status-transitions.ts, the statuses and their tables (Status), the approval
--   of a cancellation (Status.Approval) and the validators (Status.Validate); the other children
--   are theorems.
-- Entities: src/orders/order.entity.ts and src/items/order-item.entity.ts, the stored records.
-- Lifecycle: src/orders/order-lifecycle.ts, the stages and the transition modes (Lifecycle), the
--   derived state (Lifecycle.Labels, Lifecycle.Derive) and theorems on the modes
--   (Lifecycle.Transitions).
-- Events: the payloads of src/orders/order-event-contracts.ts and the change of stage of
--   order-lifecycle.ts, and the envelope (Events.Envelope).
-- Requests, Warehouse: src/warehouse/warehouse-reservation.client.ts, its requests and its loops.
-- Handoff: src/orders/order-fulfillment-handoff.client.ts, the request for a fulfillment order
--   (Handoff) and its lines' reservations (Handoff.Lines).
-- Json, Payment, Fulfillment: request bodies and their normalizers,
--   src/payments/payment-status.dto.ts and src/orders/warehouse-fulfillment-status.dto.ts.
-- Outbox: src/orders/order-events.service.ts and src/orders/order-event-outbox.entity.ts, the
--   event outbox with its retries (Outbox); its children are theorems.
-- Create: src/orders/create-order.dto.ts, a request's fields (Create.Fields), its items, customer
--   and addresses (Create.Parts), its bundles (Create.Bundles), the whole request (Create.Request)
--   and its comparison with an order (Create.Replay); the other children are theorems.
-- Access: src/auth/jwt-roles.guard.ts, the guard (Access.Policy), the users it keeps out
--   (Access.Marathon) and a theorem (Access.Grants).
-- Items: src/items/items.service.ts, the operations on items (Items) and a theorem (Items.Moves).
-- Pricing: src/pricing/pricing.service.ts and src/pricing/price-suggestion.entity.ts, the table
--   (Pricing), the AI service's answer (Pricing.Response), the generation of suggestions
--   (Pricing.Generate), the decisions on them (Pricing.Decide) and their list (Pricing.Listing);
--   the other children are theorems.
-- Shipments: src/shipments/shipments.service.ts and src/shipments/shipment.entity.ts (Shipments),
--   and a theorem (Shipments.Kept).
-- Reads: the read side of src/orders/order-lifecycle.ts, the model of an order and its timeline
--   (Reads), the filters (Reads.Filters) and the aggregates (Reads.Aggregates), and the reads of
--   src/orders/orders.service.ts (Reads.Queries, Reads.Stored); the other children are theorems.
-- Sales: the product sales filters (Sales), the lifecycle statistics (Sales.Statistics) and the
--   replay of orders (Sales.Replay) of src/orders/orders.service.ts; the other children are
--   theorems.
-- Admin: src/admin/admin.service.ts, the summary of an order (Admin), the action on a status, the
--   metrics and the overview (Admin.Overview), the dashboard with its filters (Admin.Dashboard),
--   the diagnostics of keys (Admin.Diagnostics), what is masked and an order's events
--   (Admin.Detail), and a theorem (Admin.Actions).
-- World: what the handlers read and write, and the database and the warehouse as parameters.
-- Orders: the handlers of src/orders/orders.service.ts, create and validateCreate (Orders.Create),
--   updateStatus (Orders.UpdateStatus), applyPaymentStatus (Orders.ApplyPayment) and
--   applyWarehouseFulfillmentStatus (Orders.ApplyCallback) with the events that they publish
--   (Orders.Publish); the other children are theorems.
-- Examples: the theorems at concrete orders.
--
-- A handler is a function from a world to a world and a result. The world holds every order saved,
-- every request sent, every event published and every audit entry, newest first; an order is read
-- as its newest saved version, with its items in the order in which they were saved, but where
-- `create` looks an order up: there that order is a parameter. The database and the warehouse are
-- arbitrary functions of the world and the request. An exception is the result `throw`, beside the
-- world that it leaves, so what was done before it stays. A transaction that fails takes back what
-- was saved in it and nothing else. In a handler a call to the broker does not fail, as the
-- publisher keeps the error to itself; what the publisher does then is modelled apart, in Outbox,
-- on the rows of its table. Handlers run one after the other: two that overlap on one order are
-- not modelled.
--
-- No loop needs fuel: each is a recursion on the list that it walks. A number in a request is a
-- double, on which Number, multiplication and rounding are parameters. Money is in hundredths;
-- dates are instants, read by a parameter; an event's identifier and time, and the audit entries'
-- other fields, are left out. The Unicode tables of trim, toLowerCase and toUpperCase are written
-- out where the code's comparisons read them.
--
-- A read takes the table as a list of rows; the database's LOWER, the order of its rows and the
-- services that pricing calls are parameters. A run of an operation on suggestions or shipments
-- has its own database and services, so that any answers are covered.
--
-- Not modelled: the sums of product sales that the database makes in SQL, the controllers, the
-- admin page with its texts and the detail of one order as a whole, health and logging, and the
-- verification scripts.
pub mod Base
pub mod Status
pub mod Entities
pub mod Lifecycle
pub mod Events
pub mod Requests
pub mod World
pub mod Warehouse
pub mod Json
pub mod Payment
pub mod Fulfillment
pub mod Handoff
pub mod Outbox
pub mod Create
pub mod Access
pub mod Items
pub mod Orders
pub mod Pricing
pub mod Shipments
pub mod Reads
pub mod Sales
pub mod Admin
pub mod Examples

-- ===== src/Create.antt =====
-- src/orders/create-order.dto.ts: the request for an order as it is accepted from a sales channel.
-- The operations on doubles that round, and how `new Date` reads a value, are parameters.
pub mod Fields
pub mod Parts
pub mod Bundles
pub mod Request
pub mod Checks
pub mod BundleChecks
pub mod Accepted
pub mod Replay
pub mod SelfMatch

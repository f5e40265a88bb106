-- ===== src/Examples.antt =====
-- The theorems at concrete orders.
mod Data
mod Stages
mod Statuses
mod Warehouses
mod Handlers
mod Outbox
mod Creating
mod Guarding
mod Items
mod Pricing
mod Shipping
mod Reading
mod Selling
mod Administering

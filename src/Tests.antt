-- ===== src/Tests.antt =====
-- The theorems at concrete data.
mod Budgets
mod Data
mod Events
mod Queues
mod Ladder
mod Windows
mod Rules
mod Retention
mod Logs
mod Graphs
mod Relays
mod Receipts

-- ===== src/Store.antt =====
-- event_store.py: the durable store of events, leases, notifications, incidents and approvals.
pub mod Compaction
pub mod Table
pub mod Payload
pub mod Rows
pub mod Events
pub mod Create
pub mod Run
pub mod Lifecycle
pub mod Lease
pub mod Trail
pub mod Outbox
pub mod Incidents
pub mod Approvals

-- ===== src/Store/Lease.antt =====
-- What the leases of event_store.py promise to the workers.
pub mod Exclusion
pub mod Fencing
pub mod Unowned

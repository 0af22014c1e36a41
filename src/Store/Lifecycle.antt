-- ===== src/Store/Lifecycle.antt =====
-- The life of one event: how each operation of event_store.py changes the rows of `events`.
pub mod Rules
pub mod Invariant
pub mod Closed
pub mod Relates

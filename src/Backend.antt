-- ===== src/Backend.antt =====
-- The lifecycle and lease accounting of the backends (src/backend.rs): what a slot holds, and the
-- errors of its operations. `Slot` has the operations of one slot, `Registry` those of the set.
pub mod Leases
pub mod Slot
pub mod Registry
mod Tests

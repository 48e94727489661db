-- ===== src/Object.antt =====
-- kernel/src/virtusb_object.c and kernel/src/virtusb_object_manager.c: reference-counted objects and
-- the registry that finds them by their IDs. `Store` holds the data, `Refs` the reference counts,
-- `Manager` the registry's operations; Laws, Index, Filing, Promise and Search hold the proofs.
pub mod Store
pub mod Refs
pub mod Manager
pub mod Laws
pub mod Index
pub mod Filing
pub mod Promise
pub mod Search

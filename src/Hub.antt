-- ===== src/Hub.antt =====
-- kernel/src/virtusb_hub.c: the state of a hub, its ports' power and connection, and the USB-visible
-- port state. `Defs` holds the queries and the port state changes, `Power` the power and
-- over-current setters, `Setup` the initialisation. A hub pointer that the code compares with NULL
-- is an `Option`; the reads and writes of the hub go through the store.
pub mod Speed
pub mod Defs
pub mod Power
pub mod Setup
pub mod Settled
pub mod Change
pub mod Sound
pub mod Reset

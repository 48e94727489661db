-- ===== src/Device.antt =====
-- kernel/src/virtusb_device.c: the life of a device and its connection to a hub.
pub mod Link
pub mod Life
pub mod Graph
pub mod Detach
pub mod Signal
pub mod Attach
pub mod Shutdown

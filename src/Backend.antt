-- ===== src/Backend.antt =====
-- kernel/src/virtusb_backend.c: the queues between the HCD and the backends in user space. `Queue`
-- holds the searches of the lists, `Submit` the HCD's side, `Serve` the backend's side and `Stop`
-- the teardown of a binding and of the whole backend. The spin lock makes the list work of each
-- operation one step; `struct virtusb_hcd` and `struct usb_hcd` are the `Channel` itself and never
-- NULL.
pub mod Queue
pub mod Submit
pub mod Serve
pub mod Stop
pub mod Accounting
pub mod Balance
pub mod Teardown
pub mod Lifecycle
pub mod Order
pub mod Bindings
pub mod Delivery

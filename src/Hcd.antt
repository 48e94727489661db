-- ===== src/Hcd.antt =====
-- kernel/src/virtusb_hcd.c: the host controller driver. `Usb` has the numbers of the USB hub class,
-- `Status` the status and change words, `RootHub` the root hub requests, `Urb` the path of URBs.
pub mod Usb
pub mod Status
pub mod RootHub
pub mod Urb

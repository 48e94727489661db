-- ===== src/Control.antt =====
-- kernel/src/virtusb_control.c: the ioctls of the control device. `Status` answers status requests,
-- `Requests` manages devices and ports, `Ioctl` serves the backends, dispatches the commands and
-- handles the files. A copy from user space is `Option` of the request, none where it faults; a copy
-- to user space is a test whether it succeeds.
pub mod Status
pub mod Requests
pub mod Ioctl

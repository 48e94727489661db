-- ===== src/Library.antt =====
-- libvirtusb/src/virtusb.c: the functions that programs call, over the system calls they make.
-- System has the system calls and the process, Handle the handles, Calls the commands for devices and
-- ports, Transfers those for backends; Kernel is the system that the control device makes;
-- Opening, Keeps, Laws and Delivery hold the proofs.
pub mod System
pub mod Handle
pub mod Calls
pub mod Transfers
pub mod Opening
pub mod Keeps
pub mod Kernel
pub mod Laws
pub mod Delivery

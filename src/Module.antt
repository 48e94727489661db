-- ===== src/Module.antt =====
-- kernel/src/virtusb_module.c and what it sets up: Driver has the state of the module and its calls of
-- the kernel, Instance the control devices, Platform the host controllers, Load the module itself;
-- Frame, Made, Built, Removal, Fleet, Loops, Classes and Balance hold the proofs.
pub mod Driver
pub mod Instance
pub mod Platform
pub mod Load
pub mod Frame
mod Built
mod Made
pub mod Removal
pub mod Fleet
mod Loops
mod Classes
pub mod Balance

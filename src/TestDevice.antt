-- ===== src/TestDevice.antt =====
-- tools/virtusb-test-device/main.c: a program that serves one device. Answer has what the device answers
-- to a request, Serve the program; Laws and Safe hold the proofs.
pub mod Answer
pub mod Serve
pub mod Laws
pub mod Safe

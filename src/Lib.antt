-- ===== src/Lib.antt =====
-- VirtUSB: a virtual USB host controller for Linux, with devices that programs in user space serve.
--
-- A host controller (kernel/src/virtusb_hcd.c) embeds one root hub (kernel/src/virtusb_root_hub.c,
-- kernel/src/virtusb_hub.c) and one backend (kernel/src/virtusb_backend.c). Devices
-- (kernel/src/virtusb_device.c) are objects (kernel/src/virtusb_object.c) in a registry
-- (kernel/src/virtusb_object_manager.c); each has an upstream port that can be attached to a downstream
-- port of the hub (kernel/src/virtusb_port.c). A port is connected when it is powered and the device
-- signals. The USB core sends root hub requests and URBs to the controller. An URB becomes a transfer
-- (kernel/src/virtusb_transfer.c) in a queue of the backend, which a program fetches and completes by
-- ioctls (kernel/src/virtusb_control.c). Programs use these through a library
-- (libvirtusb/src/virtusb.c); the command line tool (tools/virtusbctl/main.c) manages devices, and a test
-- device (tools/virtusb-test-device/main.c) serves transfers.
--
-- Files:
--   Prelude             names of the libraries, Boolean tests, lists and C integers
--   Bits                BIT(n) masks, and their digits
--   Uapi                uapi/include/virtusb_uapi.h; Uapi/Ioctl the ioctl numbers
--   Topology            the structures of kernel/include/virtusb_port.h and virtusb_hub.h, and the store
--   Port                kernel/src/virtusb_port.c
--   Hub                 kernel/src/virtusb_hub.c: Speed, Defs, Power, Setup (with virtusb_root_hub.c);
--                       Settled, Change, Sound, Reset, Setup/Ports and Setup/Sound hold the proofs
--   Object              kernel/src/virtusb_object.c (Refs) and virtusb_object_manager.c (Manager); Index,
--                       Filing, Promise, Search and Laws hold the proofs
--   Device              kernel/src/virtusb_device.c: Link and Life; Graph, Detach, Signal, Attach and
--                       Shutdown hold the proofs
--   Channel, Transfer   kernel/include/virtusb_transfer.h, virtusb_backend.h and
--                       kernel/src/virtusb_transfer.c
--   Backend             kernel/src/virtusb_backend.c: Queue, Submit, Serve, Stop; Accounting, Balance,
--                       Teardown, Lifecycle, Order, Bindings and Delivery hold the proofs
--   Hcd                 kernel/src/virtusb_hcd.c: Usb, Status, RootHub, Urb
--   Control             kernel/src/virtusb_control.c: Status, Requests, Ioctl
--   Bus                 all changes of the port graph in any order
--   Module              kernel/src/virtusb_module.c (Load), and what it sets up: the probe and removal of
--                       kernel/src/virtusb_hcd.c (Platform) and the control devices of
--                       kernel/src/virtusb_control.c (Instance), with the resources they take (Driver);
--                       Frame, Made, Built, Removal, Fleet, Loops, Classes and Balance hold the
--                       proofs
--   Text                the C library's strtoul, strtok_r, strcmp, %u and %08x
--   Library             libvirtusb/src/virtusb.c: Handle, Calls, Transfers over System, the operating
--                       system as a parameter; Kernel is the system that Control makes; Opening, Keeps,
--                       Laws and Delivery hold the proofs
--   Ctl                 tools/virtusbctl/main.c: Print, Parse, Run; Caps, Words, Laws, Sound and Safe
--                       hold the proofs
--   TestDevice          tools/virtusb-test-device/main.c: Answer, Serve; Laws and Safe hold the proofs
--   Tests               concrete inputs
--
-- State is passed explicitly. `Topology` holds all ports and hubs, `Objects` adds the objects, their
-- registry and the topology, and `Channel` adds a backend with its transfers and URBs. A C function
-- returns its result code with the new state; a pointer that the code compares with NULL is an `Option`.
-- A port is addressed by the structure that embeds it, so the aliasing of the C pointers is kept: a
-- write through one end of a link is seen from the other. Objects and transfers are addressed by
-- references that are never reused, so that a use after a free would be a use of a dead reference.
--
-- Numbers are native naturals. Words of ports have 32 bits, and the code writes only the bits 0 to 31;
-- the complement of a mask is taken in 32 bits. IDs and lengths wrap around where they are converted.
--
-- A section of code under a lock is one step. The functions on ports, hubs and devices take no lock;
-- each is one step too, so the model has no interleaving inside one of them. A fetch that sleeps is a
-- list of waits: after each the channel is what others left. Allocations, copies from and to user space
-- and the answers of the USB core (usb_hcd_link_urb_to_ep, usb_hcd_check_unlink_urb) are arguments, one
-- for each call. The lists, reference counters, XArrays and the memory copies of the kernel are those
-- of its library, by their documented behaviour. Calls of the USB core and of the wait queue are
-- recorded in the order they are made.
--
-- The data of a completion are copied to buffers that may be NULL or too short: the kernel then faults, and
-- the operation has no result. An ioctl of a program runs under conditions: whether the control behind the
-- descriptor is active, and which copies and allocations succeed. One that sleeps or faults counts as an
-- interrupted call.
--
-- Loops over ports run structurally on the number of ports. The loops of the backend that release
-- requests, and the loop that destroys all devices, run on fuel and answer `none` when it runs out. The
-- callers of the former give one more than the number of queued requests: a round for each request, and
-- one that sees the end. The latter needs more fuel than there are registered objects, and the exit of
-- the module takes its fuel as an argument.
--
-- The programs in user space run on a process: the state of the system, the open descriptors and the
-- number of handles. `System` has the calls they make; its answers are arbitrary. What a program prints
-- is the bytes of its streams, but for the test device, whose log is left out. The module's calls of the
-- kernel take their results from a list, which any failing call can be in; a resource that is taken is
-- put on a list and has to be given back. The driver core is a parameter too: whether it probes a
-- platform device is one of the answers.
--
-- Not modelled: the programs in tools that test a loaded module from outside; the library's sleep in a
-- fetch that is never woken, which counts as an interrupted call; the backend in the state of the module,
-- of which the set-up keeps only whether it is stopping; the USB core, the scheduler and the memory
-- management of the kernel; and races inside the functions that take no lock.
mod Prelude
pub mod Bits
pub mod Topology
pub mod Uapi
pub mod Port
pub mod Hub
pub mod Object
pub mod Device
pub mod Channel
pub mod Transfer
pub mod Backend
pub mod Hcd
pub mod Control
pub mod Text
pub mod Library
pub mod Ctl
pub mod TestDevice
pub mod Bus
pub mod Module
mod Tests

-- ===== src/Library/Kernel.antt =====
-- The system calls of libvirtusb/src/virtusb.c, served by the ioctls of kernel/src/virtusb_control.c.
use virt_usb.Prelude.{
  ℕ, suc, Bool, false, Option, none, some, List, is_negative, if◌then◌else◌, ℤ, pos, negsuc,
}
use virt_usb.Text.{Bytes}
use virt_usb.Channel.{Channel}
use virt_usb.Backend.Serve.{Fetch, Wait, Completion}
use virt_usb.Control.Status.{PortStatus}
use virt_usb.Control.Ioctl.{
  Command, get_status, create_device, destroy_device, attach_device, detach_device, connect_device,
  power_port, register_backend, unregister_backend, fetch_transfer, complete_transfer, copy,
  copy_error, Copied, Output, nothing, status_output, id_output, fetch_output, ioctl,
}
use virt_usb.Library.System.{
  System, Answer, failed, answered, DeviceCreate, Message, device_destroy, device_attach,
  device_detach, device_connection, set_port_power, backend_register, backend_unregister,
  transfer_complete,
}

-- What an ioctl meets: whether the context, the control and the HCD of the file behind a descriptor are
-- there and the control is active; whether `copy_from_user` and `copy_to_user` copy; whether the
-- allocations of the handler and of the registry succeed; and the error of `memdup_user`, if any.
pub record Conditions : Type 0 where
  pub is_active : ℕ → Bool
  pub readable : Bool
  pub writable : Bool
  pub memory : Bool
  pub registry_memory : Bool
  pub duplicate_error : Option ℤ

-- The argument as `copy_from_user` leaves it.
abbrev pub argument {ℓ} : {A : Type ℓ} → Bool → A → Option A
argument readable a = if readable then some a else none

abbrev pub duplicate : Option ℤ → Completion → Copied
duplicate none completion = copy completion
duplicate (some ret) completion = copy_error ret

-- The command of a message.
abbrev pub command_of : Conditions → Message → Command
command_of k (device_destroy object_id flags) =
    destroy_device (argument k.readable (object_id, flags))
command_of k (device_attach object_id hub_id port) =
    attach_device (argument k.readable (object_id, hub_id, port))
command_of k (device_detach object_id) = detach_device (argument k.readable object_id)
command_of k (device_connection object_id enabled) =
    connect_device (argument k.readable (object_id, enabled))
command_of k (set_port_power hub_id port powered) =
    power_port (argument k.readable (hub_id, port, powered))
command_of k (backend_register object_id) =
    register_backend (argument k.readable object_id) k.memory
command_of k backend_unregister = unregister_backend
command_of k (transfer_complete completion) =
    complete_transfer (duplicate k.duplicate_error completion)

-- errno, after an ioctl that returned a negative number
abbrev pub errno_of : ℤ → ℕ
errno_of (pos n) = n
errno_of (negsuc n) = suc n

-- EINTR, for a call that does not return by itself: one still asleep, which a signal ends, or one that
-- faults, which ends the program
abbrev pub eintr : ℕ
eintr = 4

module _ {A : Type 0} where
  -- An argument that is written back, or the one that was passed where the command writes none.
  abbrev pub written : (Output → A) → ℤ × Output × Channel → Answer A × Channel
  written f (ret, out, c) =
      if is_negative ret then (failed (errno_of ret), c) else (answered (f out), c)

  abbrev pub outcome : (Output → A) → Channel → Option (ℤ × Output × Channel) → Answer A × Channel
  outcome f c none = (failed eintr, c)
  outcome f c (some result) = written f result

abbrev pub status_or : PortStatus → Output → PortStatus
status_or request (status_output reply) = reply
status_or request nothing = request
status_or request (id_output n) = request
status_or request (fetch_output r) = request

abbrev pub device_or : DeviceCreate → Output → DeviceCreate
device_or request (id_output n) = record request { object_id = n }
device_or request (status_output reply) = request
device_or request nothing = request
device_or request (fetch_output r) = request

abbrev pub fetch_or : Fetch → Output → Fetch
fetch_or request (fetch_output r) = r
fetch_or request (id_output n) = request
fetch_or request (status_output reply) = request
fetch_or request nothing = request

abbrev pub refused : Channel → Option (ℤ × Output × Channel) → Option ℕ × Channel
refused c none = (some eintr, c)
refused c (some (ret, out, c')) = (if is_negative ret then some (errno_of ret) else none, c')

-- The ioctls under the conditions `k` on the controller with root hub `hub`, a file for each
-- descriptor, opened without O_NONBLOCK. The calls that are not ioctls are parameters, and `waits` has
-- what happens to the channel while a fetch sleeps.
abbrev pub control :
    Conditions
    → ℕ
    → List Wait
    → (Bytes → Channel → Answer ℕ × Channel)
    → (ℕ → Channel → Channel)
    → (Channel → Option ℕ × Channel)
    → System Channel
control k hub waits opens closes allocates = record {
  open_path = opens;
  close = closes;
  allocate = allocates;
  ask_status = λ fd request c.
      outcome (status_or request) c
        (ioctl (k.is_active fd) hub fd (get_status (argument k.readable request) k.writable) c);
  ask_device = λ fd request c. outcome (device_or request) c (
      ioctl (k.is_active fd) hub fd
        (create_device (argument k.readable request.speed_caps) k.memory k.registry_memory
          k.writable)
        c);
  ask_transfer = λ fd request c.
      outcome (fetch_or request) c
        (ioctl (k.is_active fd) hub fd (fetch_transfer waits false k.memory k.writable) c);
  send = λ fd message c. refused c (ioctl (k.is_active fd) hub fd (command_of k message) c);
}

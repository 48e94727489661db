-- ===== src/Control/Ioctl.antt =====
-- The ioctls of kernel/src/virtusb_control.c for backends, the dispatch of the commands, and the file
-- operations.
use virt_usb.Prelude.{
  ℕ, ◌+◌, Bool, false, not, Option, none, some, List, ◌==◌, if◌then◌else◌, is_negative, ℤ, success,
  efault, enodev, enomem, enotty, length,
}
use virt_usb.Topology.{device_port, Owner, hub_owner, device_owner, Topology}
use virt_usb.Object.Store.{Objects}
use virt_usb.Object.Refs
use virt_usb.Channel.{Channel}
use virt_usb.Backend.Submit.{register}
use virt_usb.Backend.Serve.{
  Fetch, zero_fetch, Wait, fetch, fetch_rollback, Completion, complete, has_pending,
}
use virt_usb.Backend.Stop.{release_owner}
use virt_usb.Control.Status.{PortStatus, get_port_status}
use virt_usb.Control.Requests.{
  Lookup, found, missing, lookup_device, device_create, device_destroy, device_attach,
  device_detach, device_connection, port_power,
}

-- `owner == &control->hcd->root_hub.hub`
abbrev pub is_hub_owner : ℕ → Option Owner → Bool
is_hub_owner hub none = false
is_hub_owner hub (some (hub_owner h)) = h == hub
is_hub_owner hub (some (device_owner d)) = false

-- Whether a device is attached to a port of the root hub `hub`.
unfoldable pub is_attached_to : ℕ → ℕ → Topology → Bool
is_attached_to hub device t = elim (t.port (device_port device)).peer [
  | none ↦ false
  | some peer ↦ is_hub_owner hub (t.port peer).owner
]

-- The registration of a device that was looked up; `c` has the reference of the lookup.
unfoldable pub register_device : ℕ → ℕ → ℕ → Bool → Channel → ℤ × Channel
register_device hub file device memory c =
    if not (is_attached_to hub device c.objects.topology)
    then (enodev, record c { objects = Refs.put (some device) c.objects })
    else let (ret, c') = register (some file) (some device) memory c in
      (ret, record c' { objects = Refs.put (some device) c'.objects })

unfoldable pub register_found : ℕ → ℕ → Lookup × Objects → Bool → Channel → ℤ × Channel
register_found hub file (missing ret, s) memory c = (ret, record c { objects = s })
register_found hub file (found ref, s) memory c =
    register_device hub file ref memory (record c { objects = s })

unfoldable pub backend_register : ℕ → ℕ → Option ℕ → Bool → Channel → ℤ × Channel
backend_register hub file none memory c = (efault, c)
backend_register hub file (some object_id) memory c =
    register_found hub file (lookup_device object_id c.objects) memory c

-- What `virtusb_control_transfer_fetch` does with the outcome of `virtusb_backend_fetch`: a report
-- that cannot be copied to user space is rolled back.
unfoldable pub deliver : ℕ → Bool → ℤ × Option Fetch × Channel → ℤ × Option Fetch × Channel
deliver file copied (ret, none, c) = (ret, none, c)
deliver file copied (ret, some report, c) =
    if is_negative ret
    then (ret, none, c)
    else if not copied
    then (efault, none, (fetch_rollback (some file) report.transfer_id c).1)
    else (success, some report, c)

-- The result, the report that user space gets, and the channel; none while the caller still sleeps.
unfoldable pub transfer_fetch :
    List Wait → ℕ → Bool → Bool → Bool → Channel → Option (ℤ × Option Fetch × Channel)
transfer_fetch waits file nonblock memory copied c =
    if not memory
    then some (enomem, none, c)
    else elim (fetch waits (some file) (some zero_fetch) nonblock c) [
      | none ↦ none
      | some outcome ↦ some (deliver file copied outcome)
    ]

-- `memdup_user` answers the completion or an error.
pub data Copied : Type 0 where
  copy : Completion → Copied
  copy_error : ℤ → Copied

-- None where the copy of the data faults.
unfoldable pub transfer_complete : ℕ → Copied → Channel → Option (ℤ × Channel)
transfer_complete file (copy_error ret) c = some (ret, c)
transfer_complete file (copy completion) c = complete (some file) (some completion) c

-- A command with its copied argument and the outcomes of the calls that its handler makes.
pub data Command : Type 0 where
  get_status : Option PortStatus → Bool → Command
  create_device : Option ℕ → Bool → Bool → Bool → Command
  destroy_device : Option (ℕ × ℕ) → Command
  attach_device : Option (ℕ × ℕ × ℕ) → Command
  detach_device : Option ℕ → Command
  connect_device : Option (ℕ × ℕ) → Command
  power_port : Option (ℕ × ℕ × ℕ) → Command
  register_backend : Option ℕ → Bool → Command
  unregister_backend : Command
  fetch_transfer : List Wait → Bool → Bool → Bool → Command
  complete_transfer : Copied → Command
  other_command : Command

-- What an ioctl writes to user space.
pub data Output : Type 0 where
  nothing : Output
  status_output : PortStatus → Output
  id_output : ℕ → Output
  fetch_output : Fetch → Output

abbrev pub output_of {ℓ} : {A : Type ℓ} → (A → Output) → Option A → Output
output_of f none = nothing
output_of f (some a) = f a

-- The result of a handler that changes only the objects.
abbrev pub on_objects : Channel → ℤ × Objects → Option (ℤ × Output × Channel)
on_objects c (ret, s) = some (ret, nothing, record c { objects = s })

-- Enough rounds for `virtusb_backend_release_owner`: one for each request, and one to see the end.
abbrev pub release_fuel : Channel → ℕ
release_fuel c = length c.pending + length c.active + 1

-- The switch of `virtusb_control_ioctl`, for the file `file` on the controller with root hub `hub`:
-- the result, the output and the channel, or none while the call sleeps and where it faults.
unfoldable pub dispatch : ℕ → ℕ → Command → Channel → Option (ℤ × Output × Channel)
dispatch hub file (get_status request copied) c =
    let (ret, out) = get_port_status hub request copied c.objects.topology in
    some (ret, output_of status_output out, c)
dispatch hub file (create_device request memory registry_memory copied) c =
    let (ret, out, s) = device_create request memory registry_memory copied c.objects in
    some (ret, output_of id_output out, record c { objects = s })
dispatch hub file (destroy_device request) c = on_objects c (device_destroy request c.objects)
dispatch hub file (attach_device request) c = on_objects c (device_attach hub request c.objects)
dispatch hub file (detach_device request) c = on_objects c (device_detach request c.objects)
dispatch hub file (connect_device request) c = on_objects c (device_connection request c.objects)
dispatch hub file (power_port request) c =
    let (ret, t) = port_power hub request c.objects.topology in
    on_objects c (ret, record c.objects { topology = t })
dispatch hub file (register_backend request memory) c =
    let (ret, c') = backend_register hub file request memory c in some (ret, nothing, c')
dispatch hub file unregister_backend c = elim (release_owner (release_fuel c) (some file) c) [
  | none ↦ none
  | some c' ↦ some (success, nothing, c')
]
dispatch hub file (fetch_transfer waits nonblock memory copied) c =
    elim (transfer_fetch waits file nonblock memory copied c) [
      | none ↦ none
      | some (ret, out, c') ↦ some (ret, output_of fetch_output out, c')
    ]
dispatch hub file (complete_transfer completion) c = elim (transfer_complete file completion c) [
  | none ↦ none
  | some (ret, c') ↦ some (ret, nothing, c')
]
dispatch hub file other_command c = some (enotty, nothing, c)

-- `virtusb_control_ioctl`: `active` is whether the file's context, its control and the HCD are there
-- and the control is active.
unfoldable pub ioctl : Bool → ℕ → ℕ → Command → Channel → Option (ℤ × Output × Channel)
ioctl active hub file command c =
    if not active then some (enodev, nothing, c) else dispatch hub file command c

-- `virtusb_control_release`: `bound` is whether the file's context, its control and the HCD are
-- there.
unfoldable pub release : Bool → ℕ → Channel → Option (ℤ × Channel)
release bound file c =
    if not bound then some (success, c) else elim (release_owner (release_fuel c) (some file) c) [
      | none ↦ none
      | some c' ↦ some (success, c')
    ]

-- The mask of `virtusb_control_poll`.
pub data PollMask : Type 0 where
  error_hangup readable empty : PollMask

unfoldable pub poll : Bool → ℕ → Channel → PollMask
poll active file c =
    if not active then error_hangup else if has_pending (some file) c then readable else empty

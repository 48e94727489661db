-- ===== src/Control/Requests.antt =====
-- The ioctls of kernel/src/virtusb_control.c that manage devices and ports. `hub` is the root hub of
-- the controller that the file belongs to.
use virt_usb.Prelude.{
  ℕ, ◌%◌, ◌^◌, bit_and, Bool, true, not, ◌&&◌, ◌||◌, Option, none, some, ◌==◌, ltb, if◌then◌else◌,
  ℤ, success, efault, einval, enoent,
}
use virt_usb.Topology.{Topology}
use virt_usb.Bits.{not32}
use virt_usb.Hub.Defs.{get_port}
use virt_usb.Hub.Power.{set_port_power}
use virt_usb.Object.Store.{Objects, object_id_invalid, object_type_device}
use virt_usb.Object.Refs
use virt_usb.Object.Manager
use virt_usb.Device.Link
use virt_usb.Device.Life.{device, err_ptr, create, destroy}

-- VIRTUSB_SPEED_CAP_ALL
abbrev pub speed_cap_all : ℕ
speed_cap_all = 7

unfoldable pub speed_caps_valid : ℕ → Bool
unfolding not32
speed_caps_valid speed_caps = not (speed_caps == 0) && bit_and speed_caps (not32 speed_cap_all) == 0

-- The result, the object ID written to user space, and the objects. The copy of the answer may
-- fault, which destroys the device again.
unfoldable pub device_create : Option ℕ → Bool → Bool → Bool → Objects → ℤ × Option ℕ × Objects
device_create none memory registry_memory copied s = (efault, none, s)
device_create (some speed_caps) memory registry_memory copied s =
    if not (speed_caps_valid speed_caps)
    then (einval, none, s)
    else let (result, s') = create (speed_caps % 2 ^ 8) memory registry_memory s in
      elim result [
        | err_ptr ret ↦ (ret, none, s')
        | device ref ↦
            if not copied
            then (efault, none, Refs.put (some ref) ((destroy (some ref) true s').1))
            else (success, some (s'.object ref).id, Refs.put (some ref) s')
      ]

-- VIRTUSB_DEVICE_DESTROY_FORCE, the one flag
abbrev pub destroy_force : ℕ
destroy_force = 1

-- The part of `virtusb_control_device_destroy` with the object looked up.
unfoldable pub destroy_object : Option ℕ → Bool → Objects → ℤ × Objects
destroy_object none force s = (enoent, s)
destroy_object (some object) force s =
    if not ((s.object object).type == object_type_device)
    then (einval, Refs.put (some object) s)
    else let (ret, s') = destroy (some object) force s in (ret, Refs.put (some object) s')

-- The request is the object ID and the flags.
unfoldable pub device_destroy : Option (ℕ × ℕ) → Objects → ℤ × Objects
unfolding not32
device_destroy none s = (efault, s)
device_destroy (some (object_id, flags)) s =
    if object_id == object_id_invalid || not (bit_and flags (not32 destroy_force) == 0)
    then (einval, s)
    else let (object, s') = Manager.lookup object_id s in
      destroy_object object (not (bit_and flags destroy_force == 0)) s'

-- A device with a new reference, or an error.
pub data Lookup : Type 0 where
  found : ℕ → Lookup
  missing : ℤ → Lookup

unfoldable pub check_device : Option ℕ → Objects → Lookup × Objects
check_device none s = (missing enoent, s)
check_device (some object) s =
    if not ((s.object object).type == object_type_device)
    then (missing einval, Refs.put (some object) s)
    else (found object, s)

unfoldable pub lookup_device : ℕ → Objects → Lookup × Objects
lookup_device object_id s =
    if object_id == object_id_invalid
    then (missing einval, s)
    else let (object, s') = Manager.lookup object_id s in check_device object s'

-- Hub 0 is the root hub; no other hub can be addressed.
unfoldable pub get_hub : ℕ → ℕ → Option ℕ
get_hub hub hub_id = if not (hub_id == 0) then none else some hub

-- A step on the port graph with a device that was looked up, and the reference dropped after it.
unfoldable pub with_device : (ℕ → Topology → ℤ × Topology) → Lookup × Objects → ℤ × Objects
with_device f (missing ret, s) = (ret, s)
with_device f (found ref, s) =
    let (ret, t) = f ref s.topology in (ret, Refs.put (some ref) (record s { topology = t }))

-- The request is the object ID, the hub ID and the port.
unfoldable pub device_attach : ℕ → Option (ℕ × ℕ × ℕ) → Objects → ℤ × Objects
device_attach hub none s = (efault, s)
device_attach hub (some (object_id, hub_id, port)) s = elim (get_hub hub hub_id) [
  | none ↦ (enoent, s)
  | some h ↦ elim (get_port (some h) port s.topology) [
    | none ↦ (einval, s)
    | some p ↦ with_device (λ ref t. Link.attach (some ref) (some p) t) (lookup_device object_id s)
  ]
]

unfoldable pub device_detach : Option ℕ → Objects → ℤ × Objects
device_detach none s = (efault, s)
device_detach (some object_id) s =
    with_device (λ ref t. (success, Link.detach (some ref) t)) (lookup_device object_id s)

-- The request is the object ID and `enabled`.
unfoldable pub device_connection : Option (ℕ × ℕ) → Objects → ℤ × Objects
device_connection none s = (efault, s)
device_connection (some (object_id, enabled)) s =
    if ltb 1 enabled
    then (einval, s)
    else with_device (λ ref t. Link.set_connection_signaling (some ref) (not (enabled == 0)) t)
        (lookup_device object_id s)

-- The request is the hub ID, the port and `powered`.
unfoldable pub port_power : ℕ → Option (ℕ × ℕ × ℕ) → Topology → ℤ × Topology
port_power hub none t = (efault, t)
port_power hub (some (hub_id, port, powered)) t =
    if ltb 1 powered then (einval, t) else elim (get_hub hub hub_id) [
      | none ↦ (enoent, t)
      | some h ↦ set_port_power (some h) port (not (powered == 0)) t
    ]

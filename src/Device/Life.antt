-- ===== src/Device/Life.antt =====
-- Creation and destruction of devices (kernel/src/virtusb_device.c), on the object store.
use virt_usb.Prelude.{
  ℕ, zero, suc, ◌+◌, Bool, true, false, not, Option, none, some, if◌then◌else◌, is_negative,
  is_some, ℤ, einval, ebusy, enomem,
}
use virt_usb.Topology.{device_port, device_owner, upstream}
use virt_usb.Port
use virt_usb.Object.Store.{Objects, object_type_device}
use virt_usb.Object.Refs
use virt_usb.Object.Manager
use virt_usb.Device.Link.{detach, set_connection_signaling}

-- A pointer to a device, or `ERR_PTR`.
pub data DevicePtr : Type 0 where
  device : ℕ → DevicePtr
  err_ptr : ℤ → DevicePtr

-- sizeof(struct virtusb_object) and sizeof(struct virtusb_device), with 64-bit pointers.
abbrev pub sizeof_object : ℕ
sizeof_object = 32

abbrev pub sizeof_device : ℕ
sizeof_device = sizeof_object + 40

-- `virtusb_device_create` after the allocation; `memory` is that of the registry.
unfoldable pub setup : ℕ → ℕ → Bool → Objects → DevicePtr × Objects
setup ref speed memory s =
    let (ret, t) =
      Port.init (some (device_port ref)) upstream speed (some (device_owner ref)) s.topology in
    let s' = record s { topology = t } in
    if is_negative ret
    then (err_ptr ret, Refs.put (some ref) s')
    else let (ret', s'') = Manager.register (some ref) object_type_device memory s' in
      if is_negative ret' then (err_ptr ret', Refs.put (some ref) s'') else (device ref, s'')

-- `memory` is whether the device is allocated, `registry_memory` whether the registry gets its
-- memory.
unfoldable pub create : ℕ → Bool → Bool → Objects → DevicePtr × Objects
create speed memory registry_memory s =
    let (object, s') = Refs.alloc sizeof_object sizeof_device true memory s in
    elim object [ none ↦ (err_ptr enomem, s') | some ref ↦ setup ref speed registry_memory s' ]

-- The forced part of `virtusb_device_destroy`, for an attached device.
unfoldable pub disconnect : ℕ → Objects → ℤ × Objects
disconnect ref s =
    let (ret, t) = set_connection_signaling (some ref) false s.topology in
    if is_negative ret
    then (ret, record s { topology = t })
    else Manager.unregister (some ref) (record s { topology = detach (some ref) t })

unfoldable pub destroy : Option ℕ → Bool → Objects → ℤ × Objects
destroy none force s = (einval, s)
destroy (some ref) force s =
    if is_some (s.topology.port (device_port ref)).peer
    then if not force then (ebusy, s) else disconnect ref s
    else Manager.unregister (some ref) s

-- The loop of `virtusb_device_shutdown_all`, with fuel; `none` means that the fuel ran out.
unfoldable pub shutdown_all : ℕ → Objects → Option Objects
shutdown_all zero s = none
shutdown_all (suc fuel) s =
    let (object, s') = Manager.lookup_first_by_type object_type_device s in
    elim object [
      | none ↦ some s'
      | some ref ↦ shutdown_all fuel (Refs.put (some ref) (destroy (some ref) true s').1)
    ]

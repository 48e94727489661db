-- ===== src/Object/Refs.antt =====
-- Allocation and reference counts of kernel/src/virtusb_object.c, and the release callback of a
-- device (kernel/src/virtusb_device.c), which is the one that objects are allocated with.
use virt_usb.Prelude.{
  ℕ, ◌+◌, ◌-◌, Bool, false, Option, none, some, ◌∷◌, ◌==◌, ltb, ◌||◌, not, if◌then◌else◌, is_some,
}
use virt_usb.Topology.{device_port}
use virt_usb.Object.Store.{
  object_id_invalid, object_type_invalid, warned, freed, Objects, set_object,
}

-- `memory` is whether `kzalloc` succeeds, `object_size` is `sizeof(struct virtusb_object)`, and
-- `has_release` is `release != NULL`.
unfoldable pub alloc : ℕ → ℕ → Bool → Bool → Objects → Option ℕ × Objects
unfolding set_object
alloc object_size size has_release memory s =
    if ltb size object_size || not has_release
    then (none, s)
    else if not memory
    then (none, s)
    else (
      some s.next_ref,
      set_object s.next_ref
          (record {
            id = object_id_invalid;
            type = object_type_invalid;
            refcount = 1;
            registered = false;
          })
          (record s { next_ref = s.next_ref + 1 }),
    )

-- `kref_get`
unfoldable pub get : Option ℕ → Objects → Objects
unfolding set_object
get none s = s
get (some object) s =
    set_object object (record (s.object object) { refcount = (s.object object).refcount + 1 }) s

-- `virtusb_device_release`: `WARN_ON(device->upstream_port.peer != NULL)`, then `kfree`.
unfoldable pub device_release : ℕ → Objects → Objects
device_release device s =
    let warnings =
      if is_some (s.topology.port (device_port device)).peer
      then warned device ∷ s.events
      else s.events in
    record s { events = freed device ∷ warnings }

-- `kref_put`: the release callback runs when the count falls from 1 to 0.
unfoldable pub put : Option ℕ → Objects → Objects
unfolding set_object device_release
put none s = s
put (some object) s =
    let dropped =
      set_object object (record (s.object object) { refcount = (s.object object).refcount - 1 })
        s in
    if (s.object object).refcount == 1 then device_release object dropped else dropped

-- ===== src/Module/Platform.antt =====
-- The driver of kernel/src/virtusb_hcd.c: the probe and the removal of a controller, and the creation and
-- destruction of its platform device.
use virt_usb.Prelude.{
  ℕ, Bool, true, false, not, ◌||◌, Option, none, some, ◌∷◌, ◌==◌, ltb, if◌then◌else◌, is_negative,
  ℤ, success, einval, enomem, enodev,
}
use virt_usb.Uapi.{max_hub_ports}
use virt_usb.Topology.{Topology}
use virt_usb.Hub.Setup.{root_hub_init, set_status_changed_callback}
use virt_usb.Module.Driver.{
  Driver, Instance, platform_device, platform_driver, usb_hcd, added_hcd, next_answer, asked,
  acquire, release, set_controller,
}
use virt_usb.Module.Instance.{instance_create, instance_destroy}

-- A `struct usb_hcd` is zeroed but for what the driver stores; `virtusb_backend_init` clears `stopping`.
abbrev pub new_controller : Instance
new_controller = record {
  bound = false;
  stopping = false;
  active = false;
  has_hcd = false;
  has_device = false;
  devt = 0;
}

unfoldable pub set_topology : Topology → Driver → Driver
set_topology t d = record d { objects = record d.objects { topology = t } }

-- `platform_set_drvdata`
unfoldable pub set_bound : ℕ → Bool → Driver → Driver
set_bound i b d = set_controller i (record (d.controllers i) { bound = b }) d

-- `clear_drvdata:` and what follows it
unfoldable pub clear_drvdata : ℕ → Driver → Driver
clear_drvdata i d = release (usb_hcd i) (set_bound i false d)

-- The callback is installed, and what changed before is reported.
unfoldable pub install_callback : ℕ → Driver → Driver
install_callback i d =
    record (set_topology (set_status_changed_callback (some i) true (some i) d.objects.topology)
      d) { polled = i ∷ d.polled }

-- The part of the probe after `usb_add_hcd`.
unfoldable pub add_instance : ℕ → Driver → ℤ × Driver
add_instance i d =
    let (ret, d1) = instance_create true i (install_callback i d) in
    if is_negative ret then (ret, clear_drvdata i (release (added_hcd i) d1)) else (success, d1)

-- The part of the probe that adds the controller to the USB core.
unfoldable pub add_hcd : ℕ → Driver → ℤ × Driver
add_hcd i d =
    let (ret, d1) = acquire (added_hcd i) d in
    if is_negative ret then (ret, clear_drvdata i d1) else add_instance i d1

-- The part of the probe with a `struct usb_hcd`.
unfoldable pub init_hcd : ℕ → ℕ → Driver → ℤ × Driver
init_hcd i port_count d =
    let (ret, t) = root_hub_init (some i) port_count d.objects.topology in
    let d1 = set_topology t (set_controller i new_controller d) in
    if is_negative ret then (ret, release (usb_hcd i) d1) else add_hcd i (set_bound i true d1)

-- `none` is platform data that is NULL.
unfoldable pub probe : ℕ → Option ℕ → Driver → ℤ × Driver
probe i none d = (einval, d)
probe i (some port_count) d =
    if port_count == 0 || ltb max_hub_ports port_count
    then (einval, d)
    else (let (ret, d1) = acquire (usb_hcd i) d in
        if is_negative ret then (enomem, d1) else init_hcd i port_count d1)

-- `virtusb_backend_stop`, of which this keeps the member `stopping`.
unfoldable pub stop_backend : ℕ → Driver → Driver
stop_backend i d = set_controller i (record (d.controllers i) { stopping = true }) d

unfoldable pub remove : ℕ → Driver → Driver
remove i d =
    if not (d.controllers i).bound
    then d
    else (let d1 = instance_destroy i d in
        let d2 =
          set_topology (set_status_changed_callback (some i) false none d1.objects.topology) d1 in
        clear_drvdata i (release (added_hcd i) (stop_backend i d2)))

-- `platform_device_unregister`, which removes the controller if the device is bound.
unfoldable pub unregister_device : ℕ → Driver → Driver
unregister_device i d = release (platform_device i) (remove i d)

-- The end of `virtusb_hcd_create`, where the device is registered and the driver core may have probed it.
unfoldable pub check_bound : ℕ → Driver → ℤ × Driver
check_bound i d =
    if not (d.controllers i).bound then (enodev, unregister_device i d) else (success, d)

-- `platform_device_add` answers whether the device is registered; then the next answer is whether the
-- driver core probes it with the driver. What the probe returns does not reach the caller.
unfoldable pub add_device : ℕ → ℕ → Driver → ℤ × Driver
add_device i port_count d =
    if is_negative (next_answer d.answers)
    then (next_answer d.answers, release (platform_device i) (asked d))
    else (let registered = asked d in
        check_bound i (
          if is_negative (next_answer registered.answers)
          then asked registered
          else (probe i (some port_count) (asked registered)).1))

-- `platform_device_add_data`, and what follows it.
unfoldable pub add_data : ℕ → ℕ → Driver → ℤ × Driver
add_data i port_count d =
    if is_negative (next_answer d.answers)
    then (next_answer d.answers, release (platform_device i) (asked d))
    else add_device i port_count (asked d)

unfoldable pub create : ℕ → ℕ → Driver → ℤ × Driver
create i port_count d =
    if port_count == 0 || ltb max_hub_ports port_count
    then (einval, d)
    else (let (ret, d1) = acquire (platform_device i) d in
        if is_negative ret then (enomem, d1) else add_data i port_count d1)

-- `virtusb_hcd_driver_register` and `virtusb_hcd_driver_unregister`
unfoldable pub driver_register : Driver → ℤ × Driver
driver_register d = acquire platform_driver d

unfoldable pub driver_unregister : Driver → Driver
driver_unregister d = release platform_driver d

unfoldable pub destroy : Option ℕ → Driver → Driver
destroy none d = d
destroy (some i) d = unregister_device i d

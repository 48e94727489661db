-- ===== src/Module/Load.antt =====
-- kernel/src/virtusb_module.c: loading and unloading the module.
use virt_usb.Prelude.{
  ℕ, zero, suc, ◌+◌, ◌||◌, Option, none, some, [], ◌==◌, ltb, if◌then◌else◌, is_negative, ℤ,
  success, einval, enomem, get_or, set, replicate,
}
use virt_usb.Object.Manager
use virt_usb.Device.Life.{shutdown_all}
use virt_usb.Module.Driver.{Driver, hcd_array, acquire, release}
use virt_usb.Module.Instance.{control_register, control_unregister}
use virt_usb.Module.Platform.{create, destroy, driver_register, driver_unregister}

-- VIRTUSB_MAX_HCD_COUNT
abbrev pub max_hcd_count : ℕ
max_hcd_count = 31

-- VIRTUSB_ROOT_HUB_PORTS
abbrev pub root_hub_ports : ℕ
root_hub_ports = 31

-- The loop of `virtusb_module_destroy_hcds`, with the number of controllers that are left.
unfoldable pub destroy_hcds : ℕ → Driver → Driver
destroy_hcds zero d = record d { created_count = 0 }
destroy_hcds (suc n) d =
    let d1 = destroy (get_or d.hcds n none) (record d { created_count = n }) in
    destroy_hcds n (record d1 { hcds = set d1.hcds n none })

-- The loop over the instances, with `rounds` left, from `instance` on.
unfoldable pub create_hcds : ℕ → ℕ → Driver → ℤ × Driver
create_hcds zero i d = (success, d)
create_hcds (suc rounds) i d =
    let (ret, d1) = create i root_hub_ports d in
    let rest =
      create_hcds rounds (i + 1)
        (record d1 { hcds = set d1.hcds i (some i); created_count = d1.created_count + 1 }) in
    if is_negative ret then (ret, record d1 { hcds = set d1.hcds i none }) else rest

-- `exit_object_manager:`
unfoldable pub exit_objects : Driver → Driver
exit_objects d = record d { objects = (Manager.exit d.objects).1 }

-- `free_hcd_devices:` and what follows it
unfoldable pub free_hcds : Driver → Driver
free_hcds d = exit_objects (record (release hcd_array d) { hcds = [] })

-- What init does after the driver is registered, and on the labels from `destroy_hcds:` on.
unfoldable pub start_hcds : ℕ → Driver → ℤ × Driver
start_hcds count d =
    let (ret, d1) = create_hcds count 0 d in
    if is_negative ret
    then (
      ret,
      free_hcds (control_unregister (driver_unregister (destroy_hcds d1.created_count d1))),
    )
    else (success, d1)

unfoldable pub start_driver : ℕ → Driver → ℤ × Driver
start_driver count d =
    let (ret, d1) = driver_register d in
    if is_negative ret then (ret, free_hcds (control_unregister d1)) else start_hcds count d1

unfoldable pub start_control : ℕ → Driver → ℤ × Driver
start_control count d =
    let (ret, d1) = control_register count d in
    if is_negative ret then (ret, free_hcds d1) else start_driver count d1

-- `virtusb_module_init`, for the parameter `hcd_count`
unfoldable pub init : ℕ → Driver → ℤ × Driver
init hcd_count d =
    if hcd_count == 0 || ltb max_hcd_count hcd_count
    then (einval, d)
    else (let (ret, d1) = acquire hcd_array (record d { objects = Manager.init d.objects }) in
        if is_negative ret
        then (enomem, exit_objects d1)
        else start_control hcd_count (record d1 { hcds = replicate hcd_count none }))

-- What `virtusb_module_exit` does after the devices are gone.
unfoldable pub tear_down : Driver → Driver
tear_down d = free_hcds (control_unregister (driver_unregister (destroy_hcds d.created_count d)))

-- `virtusb_module_exit`, with the fuel of `virtusb_device_shutdown_all`
unfoldable pub exit : ℕ → Driver → Option Driver
exit fuel d = elim (shutdown_all fuel d.objects) [
  | none ↦ none
  | some s ↦ some (tear_down (record d { objects = s }))
]

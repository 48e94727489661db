-- ===== src/Module/Instance.antt =====
-- The set-up of kernel/src/virtusb_control.c: the class and the numbers of the control devices, one
-- control device, and the opening of its file.
use virt_usb.Prelude.{
  ℕ, ◌+◌, Bool, true, false, not, Option, none, some, ◌==◌, leb, if◌then◌else◌, is_negative, ℤ, pos,
  negsuc, success, einval, ebusy, enodev, enomem,
}
use virt_usb.Module.Driver.{
  Driver, chrdev_region, control_class, control_cdev, control_device, next_answer, acquire, release,
  set_controller,
}

-- The device number that `alloc_chrdev_region` writes.
abbrev pub number_of : ℤ → ℕ
number_of (pos n) = n
number_of (negsuc n) = 0

-- The members that are set when the class is there.
unfoldable pub set_class : ℕ → ℕ → Driver → Driver
set_class devt count d = record d { base_devt = devt; has_class = true; instance_count = count }

-- `class_create` and what follows it; an error gives the numbers back.
unfoldable pub register_class : ℕ → ℕ → Driver → ℤ × Driver
register_class devt count d =
    let (ret, d1) = acquire control_class d in
    if is_negative ret
    then (ret, record (release chrdev_region d1) { base_devt = 0; has_class = false })
    else (success, set_class devt count d1)

unfoldable pub control_register : ℕ → Driver → ℤ × Driver
control_register count d =
    if count == 0
    then (einval, d)
    else if d.has_class
    then (ebusy, d)
    else (let (ret, d1) = acquire chrdev_region d in
        if is_negative ret
        then (ret, d1)
        else register_class (number_of (next_answer d.answers)) count d1)

unfoldable pub control_unregister : Driver → Driver
control_unregister d =
    if not d.has_class then d else record (release chrdev_region (release control_class d)) {
      has_class = false;
      base_devt = 0;
      instance_count = 0;
    }

-- `clear_control:`
unfoldable pub clear_control : ℕ → Driver → Driver
clear_control i d = set_controller i (record (d.controllers i) { has_hcd = false; devt = 0 }) d

-- The members that are set before `cdev_add`.
unfoldable pub start_control : ℕ → Driver → Driver
start_control i d =
    set_controller i
      (record (d.controllers i) {
        active = false;
        has_hcd = true;
        has_device = false;
        devt = d.base_devt + i;
      })
      d

unfoldable pub activate : ℕ → Driver → Driver
activate i d = set_controller i (record (d.controllers i) { active = true; has_device = true }) d

-- The creation of the device file, after `cdev_add`.
unfoldable pub add_file : ℕ → Driver → ℤ × Driver
add_file i d =
    let (ret, d1) = acquire (control_device i) d in
    if is_negative ret
    then (ret, clear_control i (release (control_cdev i) d1))
    else (success, activate i d1)

-- The part of `virtusb_control_instance_create` after its checks.
unfoldable pub add_control : ℕ → Driver → ℤ × Driver
add_control i d =
    let (ret, d1) = acquire (control_cdev i) (start_control i d) in
    if is_negative ret then (ret, clear_control i d1) else add_file i d1

-- `given` is whether none of the three pointers is NULL.
unfoldable pub instance_create : Bool → ℕ → Driver → ℤ × Driver
instance_create given i d =
    if not given
    then (einval, d)
    else if not d.has_class
    then (enodev, d)
    else if leb d.instance_count i
    then (einval, d)
    else add_control i d

unfoldable pub instance_destroy : ℕ → Driver → Driver
instance_destroy i d =
    if not (d.controllers i).active
    then d
    else set_controller i
        (record (d.controllers i) { active = false; has_device = false; has_hcd = false; devt = 0 })
        (release (control_cdev i) (release (control_device i) d))

-- `file->private_data` after `virtusb_control_open` of the control device `control`; `memory` is the
-- outcome of `kzalloc`.
unfoldable pub open_file : ℕ → Bool → ℤ × Option ℕ
open_file control memory = if not memory then (enomem, none) else (success, some control)

-- ===== src/Uapi/Ioctl.antt =====
-- The ioctl commands of uapi/include/virtusb_uapi.h. A command is the direction, the number and the
-- size of its argument, with the magic 0xB9 in all of them; `_IOC` packs these four into a word, so
-- two commands are one number exactly when the three agree.
use virt_usb.Prelude.{ℕ, ◌*◌, ◌+◌}

pub data Direction : Type 0 where
  io iow ior iowr : Direction

pub record Command : Type 0 where
  pub direction : Direction
  pub number : ℕ
  pub size : ℕ

abbrev pub command : Direction → ℕ → ℕ → Command
command d n s = record { direction = d; number = n; size = s }

-- sizeof, in bytes, of the request structures (all their members are __u32, but for those of the
-- transfers).
abbrev pub port_state_size : ℕ
port_state_size = 3 * 4

abbrev pub port_status_size : ℕ
port_status_size = 3 * 4 + port_state_size + 31 * port_state_size

abbrev pub status_bitmap_size : ℕ
status_bitmap_size = 2 * 4

abbrev pub device_create_size : ℕ
device_create_size = 2 * 4

abbrev pub device_destroy_size : ℕ
device_destroy_size = 2 * 4

abbrev pub ioctl_get_port_status : Command
ioctl_get_port_status = command iowr 0x00 port_status_size

abbrev pub ioctl_device_create : Command
ioctl_device_create = command iowr 0x02 device_create_size

abbrev pub ioctl_device_destroy : Command
ioctl_device_destroy = command iow 0x03 device_destroy_size

abbrev pub ioctl_get_connected : Command
ioctl_get_connected = command iowr 0x02 status_bitmap_size

-- ===== src/Uapi.antt =====
-- uapi/include/virtusb_uapi.h: the limits, the packed representation of values of a few bits, the
-- port speeds, and the numbers that the kernel and user space share.
mod Ioctl
pub use Ioctl.*
use virt_usb.Prelude.{ℕ, ◌+◌, ◌-◌, ◌/◌, ◌%◌, ◌^◌, ◌==◌, if◌then◌else◌, bit_and, Bool, not, ◌&&◌}

abbrev pub root_hub_id : ℕ
root_hub_id = 0

abbrev pub max_hub_ports : ℕ
max_hub_ports = 31

abbrev pub hub_position_count : ℕ
hub_position_count = max_hub_ports + 1

abbrev pub packed_word_bits : ℕ
packed_word_bits = 32

-- VIRTUSB_PACKED_BITS_VALID
unfoldable pub packed_bits_valid : ℕ → Bool
packed_bits_valid bits =
    not (bits == 0) && bit_and bits (bits - 1) == 0 && packed_word_bits % bits == 0

abbrev pub packed_values_per_word : ℕ → ℕ
packed_values_per_word bits = packed_word_bits / bits

abbrev pub packed_word_count : ℕ → ℕ
packed_word_count bits =
    (hub_position_count + packed_values_per_word bits - 1) / packed_values_per_word bits

-- `(1U << (_bits)) - 1U`
abbrev pub packed_value_mask : ℕ → ℕ
packed_value_mask bits = 2 ^ bits - 1

abbrev pub port_speed_bits : ℕ
port_speed_bits = 2

-- enum virtusb_port_speed
pub data PortSpeed : Type 0 where
  unknown low full high : PortSpeed

-- The value of an enumerator; `unknown` is VIRTUSB_PORT_SPEED_NONE.
abbrev pub speed_value : PortSpeed → ℕ
speed_value unknown = 0
speed_value low = 1
speed_value full = 2
speed_value high = 3

-- `(enum virtusb_port_speed)value`, for a value of two bits.
abbrev pub speed_of_value : ℕ → PortSpeed
speed_of_value value =
    if value == 0 then unknown else if value == 1 then low else if value == 2 then full else high

-- VIRTUSB_TRANSFER_DATA_MAX
abbrev pub transfer_data_max : ℕ
transfer_data_max = 4096

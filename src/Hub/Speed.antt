-- ===== src/Hub/Speed.antt =====
-- The packed speed map of a hub (kernel/src/virtusb_hub.c): two bits for each port position, in words
-- of 32 bits.
use virt_usb.Prelude.{ℕ, ◌+◌, ◌-◌, ◌*◌, ◌/◌, ◌%◌, ◌^◌, bit_and, bit_or, ◌==◌, if◌then◌else◌}
use virt_usb.Uapi.{
  packed_values_per_word, packed_value_mask, port_speed_bits, PortSpeed, speed_value,
  speed_of_value,
}
use virt_usb.Bits.{not32}
pub mod Laws

abbrev pub packed_word_index : ℕ → ℕ → ℕ
packed_word_index position bits = position / packed_values_per_word bits

abbrev pub packed_shift : ℕ → ℕ → ℕ
packed_shift position bits = (position % packed_values_per_word bits) * bits

-- The write of a speed into the words, with the u32 shifts.
unfoldable pub put_speed : (ℕ → ℕ) → ℕ → PortSpeed → ℕ → ℕ
unfolding not32
put_speed words port_number speed =
    let word_index = packed_word_index port_number port_speed_bits in
    let shift = packed_shift port_number port_speed_bits in
    let mask = packed_value_mask port_speed_bits * 2 ^ shift % 2 ^ 32 in
    let cleared = bit_and (words word_index) (not32 mask) in
    let shifted = speed_value speed * 2 ^ shift % 2 ^ 32 in
    λ i. if i == word_index then bit_or cleared (bit_and shifted mask) else words i

-- The read of a speed from the words.
unfoldable pub read_speed : (ℕ → ℕ) → ℕ → PortSpeed
read_speed words port_number =
    let word_index = packed_word_index port_number port_speed_bits in
    let shift = packed_shift port_number port_speed_bits in
    speed_of_value (bit_and (words word_index / 2 ^ shift) (packed_value_mask port_speed_bits))

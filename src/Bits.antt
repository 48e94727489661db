-- ===== src/Bits.antt =====
-- The bit operations on u32 words that virtusb_hub.c, virtusb_hcd.c and virtusb_control.c write
-- out: `BIT(n)`, `|= BIT(n)`, `&= ~BIT(n)` and `& BIT(n)`, and the two-bit fields of the packed
-- speed map (uapi/include/virtusb_uapi.h).
pub mod Digits
mod Step
pub mod Laws
use virt_usb.Prelude.{ℕ, ◌+◌, ◌-◌, ◌*◌, ◌/◌, ◌%◌, ◌^◌, bit_and, bit_or, Bool, not, ◌==◌}

-- BIT(n)
abbrev pub bit : ℕ → ℕ
bit n = 2 ^ n

-- ~x on a u32
unfoldable pub not32 : ℕ → ℕ
not32 x = 2 ^ 32 - 1 - x

-- (state & BIT(n)) != 0U
unfoldable pub bit_test : ℕ → ℕ → Bool
bit_test x n = not (bit_and x (bit n) == 0)

-- *state |= BIT(n)
unfoldable pub bit_set : ℕ → ℕ → ℕ
bit_set x n = bit_or x (bit n)

-- *state &= ~BIT(n)
unfoldable pub bit_clear : ℕ → ℕ → ℕ
unfolding not32
bit_clear x n = bit_and x (not32 (bit n))

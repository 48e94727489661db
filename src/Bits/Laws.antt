-- ===== src/Bits/Laws.antt =====
-- `BIT(n)` tests after `|= BIT(n)` and `&= ~BIT(n)`.
use native.Mathlib.Nat.{one-le-pow, pow-le-pow_right}
use virt_usb.Prelude.{ℕ, ◌^◌, ◌<◌, not, ◌&&◌, ◌||◌, ◌≡◌, arith, ◌==◌}
use virt_usb.Bits.{bit_test, bit_set, bit_clear, not32}
use virt_usb.Bits.Digits.{
  digit, digit-lt, digit-bit, digit-bit_and, digit-bit_or, digit-not, bit_and_bit,
}

pub bit_test-digit : (x n : ℕ) → bit_test x n ≡ (digit x n == 1)
unfolding bit_test
bit_test-digit x n = ground (arith, bit_and_bit x n, digit-lt x n, one-le-pow n 2)

pub bit_test-bit_set : (x p q : ℕ) → bit_test (bit_set x p) q ≡ ((p == q) || bit_test x q)
unfolding bit_set
bit_test-bit_set x p q = ground (
  arith,
  bit_test-digit (bit_set x p) q,
  bit_test-digit x q,
  digit-bit_or x (2 ^ p) q,
  digit-bit p q,
  digit-lt x q,
)

pub pow-lt-32 : (p : ℕ) → p < 32 → 2 ^ p < 2 ^ 32
pow-lt-32 p h = omega (arith, pow-le-pow_right {n = 2} (omega arith) {i = p} {j = 31} (omega arith))

pub bit_test-bit_clear :
    (x p q : ℕ) → p < 32 → q < 32 → bit_test (bit_clear x p) q ≡ (not (p == q) && bit_test x q)
unfolding bit_clear
bit_test-bit_clear x p q hp hq = ground (
  arith,
  bit_test-digit (bit_clear x p) q,
  bit_test-digit x q,
  digit-bit_and x (not32 (2 ^ p)) q,
  digit-not 32 (2 ^ p) q (pow-lt-32 p hp) hq,
  digit-bit p q,
  digit-lt x q,
)

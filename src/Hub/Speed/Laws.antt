-- ===== src/Hub/Speed/Laws.antt =====
-- A speed written for a port is read back, and the other ports' speeds stay.
use native.Mathlib.Nat.{pow-le-pow_right, mod-eq_of_lt, add-zero}
use virt_usb.Prelude.{
  ℕ, zero, suc, ◌+◌, ◌-◌, ◌*◌, ◌/◌, ◌%◌, ◌^◌, ◌<◌, ◌≤◌, bit_and, bit_or, ◌==◌, if◌then◌else◌, ◌≡◌,
  ap, arith, ltb, refl,
}
use virt_usb.Uapi.{PortSpeed, speed_value}
use virt_usb.Bits.{not32}
use virt_usb.Bits.Digits.{
  digit, digit-lt, digit-bit_and, digit-bit_or, digit-not, digit_shifted, digit-shr, digit-zero,
  bit_and_three,
}
use virt_usb.Hub.Speed.{put_speed, read_speed}

fits : (v s : ℕ) → v < 4 → s ≤ 30 → v * 2 ^ s < 2 ^ 32
fits v s h k = grind (arith, pow-le-pow_right {n = 2} (omega arith) {i = s} {j = 30} k)

digit-three : (p : ℕ) → digit 3 p ≡ (if ltb p 2 then 1 else 0)
unfolding digit
digit-three zero = refl
digit-three (suc zero) = refl
digit-three (suc (suc p)) = ground (arith, digit-zero p)

-- One digit of a word that takes the digits under a mask from another value.
digit_merge :
    (w x m p : ℕ)
    → m < 2 ^ 32
    → p < 32
    → digit (bit_or (bit_and w (not32 m)) (bit_and x m)) p
      ≡ (if digit m p == 1 then digit x p else digit w p)
unfolding not32
digit_merge w x m p hm hp = ground (
  arith,
  digit-bit_or (bit_and w (not32 m)) (bit_and x m) p,
  digit-bit_and w (not32 m) p,
  digit-not 32 m p hm hp,
  digit-bit_and x m p,
  digit-lt w p,
  digit-lt x p,
  digit-lt m p,
)

-- One digit of a word after the two-bit field at `s` is replaced by `v`.
digit_replaced :
    (w v s p : ℕ)
    → v < 4
    → s ≤ 30
    → p < 32
    → digit
        (bit_or
          (bit_and w (not32 (3 * 2 ^ s % 2 ^ 32)))
          (bit_and (v * 2 ^ s % 2 ^ 32) (3 * 2 ^ s % 2 ^ 32)))
        p
      ≡ (if ltb p s then digit w p else if ltb p (s + 2) then digit v (p - s) else digit w p)
digit_replaced w v s p hv hs hp =
    rw (mod-eq_of_lt (fits 3 s (omega arith) hs), mod-eq_of_lt (fits v s hv hs))
      (ground (
        arith,
        digit_merge w (v * 2 ^ s) (3 * 2 ^ s) p (fits 3 s (omega arith) hs) hp,
        digit_shifted 3 s p,
        digit_shifted v s p,
        digit-three (p - s),
      ))

two_digits : (v : ℕ) → v < 4 → digit v 0 + 2 * digit v 1 ≡ v
unfolding digit
two_digits v h = omega arith

field-digits : (x s : ℕ) → bit_and (x / 2 ^ s) 3 ≡ digit x s + 2 * digit x (s + 1)
field-digits x s = ground (
  arith,
  bit_and_three (x / 2 ^ s),
  digit-shr x s 0,
  digit-shr x s 1,
  ap (λ (p : ℕ). digit x p) (add-zero s),
)

-- The two-bit field at `r` of a word whose digits are replaced by `v` at `s`.
field_of_digits :
    (n w v s r : ℕ)
    → v < 4
    → s ≤ 15
    → r ≤ 15
    → ((p : ℕ)
        → p < 32
        → digit n p ≡ (
            if ltb p (s * 2)
            then digit w p
            else if ltb p (s * 2 + 2)
            then digit v (p - s * 2)
            else digit w p))
    → bit_and (n / 2 ^ (r * 2)) 3 ≡ (if r == s then v else bit_and (w / 2 ^ (r * 2)) 3)
field_of_digits n w v s r hv hs hr h = ground (
  arith,
  field-digits n (r * 2),
  field-digits w (r * 2),
  h (r * 2) (omega arith),
  h (r * 2 + 1) (omega arith),
  two_digits v hv,
)

speed-lt : (speed : PortSpeed) → speed_value speed < 4
speed-lt speed = ground arith

-- For port numbers up to 31, reading a speed from the packed map after a write gives the written
-- speed at the written port and the former speed at every other port.
pub read_speed-put_speed :
    (words : ℕ → ℕ) (n m : ℕ) (speed : PortSpeed)
    → n ≤ 31
    → m ≤ 31
    → read_speed (put_speed words n speed) m ≡ (if n == m then speed else read_speed words m)
unfolding read_speed put_speed
read_speed-put_speed words n m speed hn hm = ground (
  arith,
  field_of_digits _ (words (n / 16)) (speed_value speed) (n % 16) (m % 16) (speed-lt speed)
      (omega arith) (omega arith)
      (λ p hp.
        digit_replaced (words (n / 16)) (speed_value speed) (n % 16 * 2) p (speed-lt speed)
          (omega arith) hp),
)

-- ===== src/Bits/Step.antt =====
-- The lowest digit of `bit_and` and `bit_or`, from the recursion on fuel that the native operations
-- stand for.
use Prim.Native.Nat.{digits, bit_and-bitwise, bit_or-bitwise}
use virt_usb.Prelude.{
  ℕ, zero, suc, ◌+◌, ◌*◌, ◌/◌, ◌%◌, ◌≤◌, min, max, bit_and, bit_or, ◌≡◌, refl, arith,
}

-- Fuel beyond the first operand changes nothing.
module _ (rest : ℕ → ℕ) (op : ℕ → ℕ → ℕ) where
  spare_fuel :
      (x y less more : ℕ)
      → x ≤ less
      → less ≤ more
      → digits rest op more x y ≡ digits rest op less x y
  spare_fuel zero y zero zero h k = refl
  spare_fuel zero y zero (suc more) h k = refl
  spare_fuel zero y (suc less) zero h k = refl
  spare_fuel zero y (suc less) (suc more) h k = refl
  spare_fuel (suc x) y zero more h k = absurd (omega arith)
  spare_fuel (suc x) y (suc less) zero h k = absurd (omega arith)
  spare_fuel (suc x) y (suc less) (suc more) h k =
      let half : suc x / 2 ≤ less = omega arith in
      omega (arith, spare_fuel (suc x / 2) (y / 2) less more half (omega arith))

pub bit_and_step : (x y : ℕ) → bit_and x y ≡ bit_and (x / 2) (y / 2) * 2 + min (x % 2) (y % 2)
bit_and_step zero y = omega (arith, bit_and-bitwise 0 (y / 2), bit_and-bitwise 0 y)
bit_and_step (suc x) y =
    let halves =
      spare_fuel (λ _. zero) min (suc x / 2) (y / 2) (suc x / 2) x (omega arith) (omega arith) in
    omega (arith, halves, bit_and-bitwise (suc x / 2) (y / 2), bit_and-bitwise (suc x) y)

pub bit_or_step : (x y : ℕ) → bit_or x y ≡ bit_or (x / 2) (y / 2) * 2 + max (x % 2) (y % 2)
bit_or_step zero y = omega (arith, bit_or-bitwise 0 (y / 2), bit_or-bitwise 0 y)
bit_or_step (suc x) y =
    let halves =
      spare_fuel (λ w. w) max (suc x / 2) (y / 2) (suc x / 2) x (omega arith) (omega arith) in
    omega (arith, halves, bit_or-bitwise (suc x / 2) (y / 2), bit_or-bitwise (suc x) y)

-- A mask without bits leaves nothing, by recursion on a bound of the word.
masked_out : (x bound : ℕ) → x ≤ bound → bit_and x 0 ≡ 0
masked_out zero bound h = refl
masked_out (suc x) zero h = absurd (omega arith)
masked_out (suc x) (suc bound) h =
    let half = masked_out (suc x / 2) bound (omega arith) in
    omega (arith, half, bit_and_step (suc x) 0)

pub bit_and-zero : (x : ℕ) → bit_and x 0 ≡ 0
bit_and-zero x = let bound : x ≤ x = omega arith in masked_out x x bound
